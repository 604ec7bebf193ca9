-- ===== src/Framing/Frames.antt =====
-- Frames that are written are read back, and what is read is a frame of a permitted length.
use lemonbot.Prelude.{
  ℕ, ◌≤◌, ◌<◌, ◌≡◌, ◌∙◌, refl, sym, ap, true, false, ◌||◌, some, List, ◌++◌, arith, ltb, ◌==◌,
  nat_eq, Bool-cases, Option-cases, inl, inr, [], ◌∷◌, length, take, drop,
}
use lemonbot.Framing.{
  Bytes, Codec, Framed, ok, pack, Pipe, read_exactly, read_after_header, read_body, read_frame_sync,
  write_frame_sync,
}
use lemonbot.Framing.RoundTrip.{unpack-pack, take-append, drop-append, read_exactly_lem}

-- What a reader returns for an envelope, and what it leaves in the pipe.
abbrev pub Delivers : {Envelope : Type 0} → Envelope → Bytes → Framed Envelope × Pipe → Type 0
Delivers e rest r = (r.0 ≡ ok e) × (r.1.bytes ≡ rest)

append_assoc : (a b c : Bytes) → (a ++ b) ++ c ≡ a ++ (b ++ c)
append_assoc [] b c = refl
append_assoc (x ∷ a) b c = ap (λ zs. x ∷ zs) (append_assoc a b c)

-- A frame's header, and what comes after it.
header_parts :
    (head payload rest : Bytes)
    → length head ≡ 4
    → (take 4 ((head ++ payload) ++ rest) ≡ head)
      × (drop 4 ((head ++ payload) ++ rest) ≡ payload ++ rest)
header_parts head payload rest size =
    let four = sym size in
    rw (append_assoc head payload rest, four)
      (take-append head (payload ++ rest), drop-append head (payload ++ rest))

module _ {Envelope : Type 0} (codec : Codec Envelope) (e : Envelope)
    (known : codec.decode (codec.encode e) ≡ some e) where
  read_body-Delivers :
      (n : ℕ) (payload rest : Bytes) (pipe : Pipe)
      → payload ≡ codec.encode e
      → length payload ≡ n
      → pipe.bytes ≡ rest
      → Delivers e rest (read_body codec n (payload, pipe))
  read_body-Delivers n payload rest pipe is_payload size left =
      let all : (length payload == n) ≡ true = ground arith in
      rw (all, is_payload, known) (refl, left)

  read_after_header-Delivers :
      (limit : ℕ) (header rest : Bytes) (pipe : Pipe)
      → pack (length (codec.encode e)) ≡ some header
      → pipe.bytes ≡ codec.encode e ++ rest
      → 0 < length (codec.encode e)
      → length (codec.encode e) ≤ limit
      → Delivers e rest (read_after_header codec limit (header, pipe))
  read_after_header-Delivers limit header rest pipe is_header left some_bytes fits =
      let n = length (codec.encode e) in
      let (announced, size) = unpack-pack n header is_header in
      let whole : (length header == 4) ≡ true = ground arith in
      let valid : (n == 0 || ltb limit n) ≡ false = ground arith in
      let body = read_exactly_lem n pipe in
      let payload : (read_exactly n pipe).0 ≡ codec.encode e =
        body.0 ∙ rw left (take-append (codec.encode e) rest) in
      let after : (read_exactly n pipe).1.bytes ≡ rest =
        body.1 ∙ rw left (drop-append (codec.encode e) rest) in
      rw (whole, announced, valid)
        (read_body-Delivers n (read_exactly n pipe).0 rest (read_exactly n pipe).1 payload
          (ap length payload) after)

  -- A frame that `write_frame_sync` wrote is read back by `read_frame_sync` as the envelope it was
  -- written from, whatever pieces the pipe hands out, and the bytes after it stay in the pipe: if the
  -- codec decodes what it encoded, which is not empty.
  pub read_frame_sync-write_frame_sync :
      (limit : ℕ) (frame rest : Bytes) (pieces : List ℕ)
      → 0 < length (codec.encode e)
      → write_frame_sync codec limit e ≡ ok frame
      → Delivers e rest
          (read_frame_sync codec limit (record { bytes = frame ++ rest; pieces = pieces }))
  unfolding write_frame_sync read_frame_sync
  read_frame_sync-write_frame_sync limit frame rest pieces some_bytes written =
      let payload = codec.encode e in
      let pipe : Pipe = record { bytes = frame ++ rest; pieces = pieces } in
      elim (Bool-cases (ltb limit (length payload))) [
        | inl long ↦ let gone = rw long at written in absurd (cc)
        | inr fits ↦ elim (Option-cases (pack (length payload))) [
          | inl n ↦ let gone = rw (fits, n) at written in absurd (cc)
          | inr (head, p) ↦
              let is_frame = rw (fits, p) at written in
              let bytes : frame ≡ head ++ payload = sym (cc) in
              let size = (unpack-pack (length payload) head p).1 in
              let header = read_exactly_lem 4 pipe in
              let (starts, goes_on) = header_parts head payload rest size in
              read_after_header-Delivers limit (read_exactly 4 pipe).0 rest (read_exactly 4 pipe).1
                (p ∙ ap some (sym (header.0 ∙ ap (λ f. take 4 (f ++ rest)) bytes ∙ starts)))
                (header.1 ∙ ap (λ f. drop 4 (f ++ rest)) bytes ∙ goes_on) some_bytes (ground arith)
        ]
      ]
