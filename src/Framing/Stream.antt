-- ===== src/Framing/Stream.antt =====
-- ipc/framing.py: `read_frame`, on a stream of asyncio, which reads what `read_frame_sync` reads.
use lemonbot.Prelude.{
  ℕ, ◌≤◌, ◌<◌, ◌≡◌, ◌∙◌, refl, true, false, ◌||◌, Option, none, some, List, arith, ltb, ◌==◌,
  nat_eq, Bool-cases, inl, inr, length, take, drop, if◌then◌else◌,
}
use lemonbot.Framing.{
  Bytes, Codec, IpcError, Framed, err, unpack, Pipe, read_exactly, read_after_header, read_body,
  decoded, read_frame_sync,
}
use lemonbot.Framing.RoundTrip.{read_exactly_lem, length-take}

-- A `StreamReader` by what is to come: `readexactly` gives what was read, where `none` is its
-- IncompleteReadError, and what is left.
pub record Stream : Type 0 where
  pub readexactly : ℕ → Bytes → Option Bytes × Bytes

-- What the documentation of asyncio says of `readexactly`.
pub record IsExact (stream : Stream) : Type 0 where
  pub complete :
      (n : ℕ) (bytes : Bytes)
      → n ≤ length bytes
      → stream.readexactly n bytes ≡ (some (take n bytes), drop n bytes)
  pub incomplete :
      (n : ℕ) (bytes : Bytes) → length bytes < n → (stream.readexactly n bytes).0 ≡ none

module _ {Envelope : Type 0} (codec : Codec Envelope) (stream : Stream) where
  abbrev pub stream_body : Option Bytes × Bytes → Framed Envelope × Bytes
  stream_body (none, rest) = (err IpcError.closed_in_body, rest)
  stream_body (some payload, rest) = (decoded codec (codec.decode payload), rest)

  abbrev pub stream_header : ℕ → Option Bytes × Bytes → Framed Envelope × Bytes
  stream_header limit (none, rest) = (err IpcError.closed_in_header, rest)
  stream_header limit (some header, rest) =
      let n = unpack header in
      if n == 0 || ltb limit n
      then (err IpcError.invalid_length, rest)
      else stream_body (stream.readexactly n rest)

  unfoldable pub read_frame : (limit : ℕ) → Bytes → Framed Envelope × Bytes
  read_frame limit bytes = stream_header limit (stream.readexactly 4 bytes)

  module _ (exact : IsExact stream) where
    incomplete_body :
        (r : Option Bytes × Bytes) → r.0 ≡ none → (stream_body r).0 ≡ err IpcError.closed_in_body
    incomplete_body (none, rest) h = refl
    incomplete_body (some payload, rest) h = absurd (cc)

    incomplete_header :
        (limit : ℕ) (r : Option Bytes × Bytes)
        → r.0 ≡ none
        → (stream_header limit r).0 ≡ err IpcError.closed_in_header
    incomplete_header limit (none, rest) h = refl
    incomplete_header limit (some header, rest) h = absurd (cc)

    body_agrees :
        (n : ℕ) (payload bytes : Bytes) (pipe : Pipe)
        → payload ≡ take n bytes
        → (stream_body (stream.readexactly n bytes)).0 ≡ (read_body codec n (payload, pipe)).0
    body_agrees n payload bytes pipe is = elim (Bool-cases (ltb (length bytes) n)) [
      | inl short ↦
          let cut : (length payload == n) ≡ false = rw is (ground (arith, length-take n bytes)) in
          rw cut
            (incomplete_body (stream.readexactly n bytes) (exact.incomplete n bytes (ground arith)))
      | inr long ↦
          let whole : (length payload == n) ≡ true = rw is (ground (arith, length-take n bytes)) in
          rw (whole, exact.complete n bytes (ground arith), is) refl
    ]

    header_agrees :
        (limit : ℕ) (bytes header : Bytes) (pipe : Pipe)
        → header ≡ take 4 bytes
        → pipe.bytes ≡ drop 4 bytes
        → (stream_header limit (stream.readexactly 4 bytes)).0
          ≡ (read_after_header codec limit (header, pipe)).0
    header_agrees limit bytes header pipe is left = elim (Bool-cases (ltb (length bytes) 4)) [
      | inl short ↦
          let cut : (length header == 4) ≡ false = rw is (ground (arith, length-take 4 bytes)) in
          rw cut (
            incomplete_header limit (stream.readexactly 4 bytes)
              (exact.incomplete 4 bytes (ground arith)))
      | inr long ↦
          let whole : (length header == 4) ≡ true = rw is (ground (arith, length-take 4 bytes)) in
          let n = unpack header in
          let found : stream.readexactly 4 bytes ≡ (some header, pipe.bytes) =
            exact.complete 4 bytes (ground arith) ∙ rw (is, left) refl in
          elim (Bool-cases (n == 0 || ltb limit n)) [
            | inl bad ↦ rw (found, whole, bad) refl
            | inr good ↦
                let body = read_exactly_lem n pipe in
                rw (found, whole, good)
                  (body_agrees n (read_exactly n pipe).0 pipe.bytes (read_exactly n pipe).1 body.0)
          ]
    ]

    -- Whatever bytes arrive and in whatever pieces, `read_frame` and `read_frame_sync` return the same
    -- envelope or the same error, if asyncio's `readexactly` does what its documentation says.
    pub read_frame-read_frame_sync :
        (limit : ℕ) (bytes : Bytes) (pieces : List ℕ)
        → (read_frame limit bytes).0
          ≡ (read_frame_sync codec limit (record { bytes = bytes; pieces = pieces })).0
    unfolding read_frame read_frame_sync
    read_frame-read_frame_sync limit bytes pieces =
        let pipe : Pipe = record { bytes = bytes; pieces = pieces } in
        let header = read_exactly_lem 4 pipe in
        header_agrees limit bytes (read_exactly 4 pipe).0 (read_exactly 4 pipe).1 header.0 header.1
