-- ===== src/Framing.antt =====
-- ipc/framing.py: frames on the pipe of a worker. A frame is its length in four bytes and then its
-- payload, the JSON text of an envelope; a byte is a number below 256. The JSON codec is a
-- parameter. The blocking reader hands out a pipe's bytes in pieces of its own choice.
pub mod Frames
pub mod Stream
mod RoundTrip
mod Samples
use lemonbot.Prelude.{
  ℕ, zero, suc, ◌+◌, ◌-◌, ◌*◌, ◌/◌, ◌%◌, min, max, Bool, true, false, ◌||◌, Option, none, some,
  List, [], ◌∷◌, ◌++◌, ltb, ◌==◌, nat_eq, if◌then◌else◌, length, take, drop,
}

abbrev pub Bytes : Type 0
Bytes = List ℕ

-- `IPCError`, with what its message says, and the `struct.error` of a length that the header cannot
-- hold.
pub data IpcError : Type 0 where
  closed_in_header closed_in_body invalid_length too_large invalid_envelope struct_error : IpcError

pub data Framed {ℓ} (A : Type ℓ) : Type ℓ where
  ok : A → Framed A
  err : IpcError → Framed A

-- `Envelope.model_dump_json().encode("utf-8")` and `_decode_envelope`, where `none` is its IPCError.
pub record Codec (Envelope : Type 0) : Type 0 where
  pub encode : Envelope → Bytes
  pub decode : Bytes → Option Envelope

-- `struct.Struct("!I")`, whose `pack` raises for what four bytes do not hold.
unfoldable pub pack : ℕ → Option Bytes
pack n =
    if ltb n 4294967296
    then some (n / 16777216 % 256 ∷ n / 65536 % 256 ∷ n / 256 % 256 ∷ n % 256 ∷ [])
    else none

unfoldable pub unpack : Bytes → ℕ
unpack (a ∷ b ∷ c ∷ d ∷ []) = ((a * 256 + b) * 256 + c) * 256 + d
unpack _ = 0

-- A pipe: the bytes to come, and the sizes of the pieces in which it hands them out, as far as they
-- are known; after those it hands out all it is asked for.
pub record Pipe : Type 0 where
  pub bytes : Bytes
  pub pieces : List ℕ

-- The size of the next piece: at least one byte.
abbrev pub piece : List ℕ → ℕ → ℕ
piece [] n = n
piece (p ∷ ps) n = min n (max 1 p)

abbrev pub later_pieces : List ℕ → List ℕ
later_pieces [] = []
later_pieces (p ∷ ps) = ps

-- `reader.read(n)`
unfoldable pub read : ℕ → Pipe → Bytes × Pipe
read n pipe = (
  take (piece pipe.pieces n) pipe.bytes,
  record { bytes = drop (piece pipe.pieces n) pipe.bytes; pieces = later_pieces pipe.pieces },
)

-- The loop of `read_exactly`, on fuel: `wanted` bytes are missing.
unfoldable pub read_loop : (fuel wanted : ℕ) → Pipe → Bytes × Pipe
read_loop zero wanted pipe = ([], pipe)
read_loop (suc fuel) wanted pipe =
    let (chunk, later) = read wanted pipe in
    let (rest, last) = read_loop fuel (wanted - length chunk) later in
    if wanted == 0
    then ([], pipe)
    else if length chunk == 0
    then ([], later)
    else (chunk ++ rest, last)

unfoldable pub read_exactly : ℕ → Pipe → Bytes × Pipe
read_exactly n pipe = read_loop (n + 1) n pipe

module _ {Envelope : Type 0} (codec : Codec Envelope) where
  abbrev decoded : Option Envelope → Framed Envelope
  decoded none = err IpcError.invalid_envelope
  decoded (some e) = ok e

  abbrev read_body : ℕ → Bytes × Pipe → Framed Envelope × Pipe
  read_body n (payload, pipe) =
      if length payload == n
      then (decoded (codec.decode payload), pipe)
      else (err IpcError.closed_in_body, pipe)

  abbrev read_after_header : ℕ → Bytes × Pipe → Framed Envelope × Pipe
  read_after_header limit (header, pipe) =
      let n = unpack header in
      if length header == 4
      then (if n == 0 || ltb limit n
          then (err IpcError.invalid_length, pipe)
          else read_body n (read_exactly n pipe))
      else (err IpcError.closed_in_header, pipe)

  unfoldable pub read_frame_sync : (limit : ℕ) → Pipe → Framed Envelope × Pipe
  read_frame_sync limit pipe = read_after_header limit (read_exactly 4 pipe)

  abbrev pub with_header : Option Bytes → Bytes → Framed Bytes
  with_header none payload = err IpcError.struct_error
  with_header (some header) payload = ok (header ++ payload)

  unfoldable pub write_frame_sync : (limit : ℕ) → Envelope → Framed Bytes
  write_frame_sync limit envelope =
      let payload = codec.encode envelope in
      if ltb limit (length payload)
      then err IpcError.too_large
      else with_header (pack (length payload)) payload
