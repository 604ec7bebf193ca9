-- ===== src/Framing/Samples.antt =====
-- Frames of a concrete codec.
use lemonbot.Prelude.{
  leb, if◌then◌else◌, take, drop, length, true, false, ℕ, ◌≡◌, refl, Option, none, some, [], ◌∷◌,
  ◌++◌, arith,
}
use lemonbot.Framing.Stream.{Stream, IsExact, read_frame, read_frame-read_frame_sync}
use lemonbot.Framing.{Bytes, Codec, ok, write_frame_sync, read_frame_sync, pack}
use lemonbot.Framing.Frames.{Delivers, read_frame_sync-write_frame_sync}

abbrev read_pair : Bytes → Option (ℕ × ℕ)
read_pair (a ∷ b ∷ []) = some (a, b)
read_pair _ = none

abbrev pairs : Codec (ℕ × ℕ)
pairs = record { encode = λ p. p.0 ∷ p.1 ∷ []; decode = read_pair }

written : write_frame_sync pairs 1048576 (7, 9) ≡ ok (0 ∷ 0 ∷ 0 ∷ 2 ∷ 7 ∷ 9 ∷ [])
unfolding write_frame_sync pack
written = refl

-- The pipe hands out three bytes, then one, then the rest.
read_frame_sync-write_frame_sync_example :
    Delivers
      (7, 9)
      (1 ∷ [])
      (read_frame_sync pairs 1048576
        (record { bytes = (0 ∷ 0 ∷ 0 ∷ 2 ∷ 7 ∷ 9 ∷ []) ++ 1 ∷ []; pieces = 3 ∷ 1 ∷ [] }))
read_frame_sync-write_frame_sync_example =
    read_frame_sync-write_frame_sync pairs (7, 9) refl 1048576 (0 ∷ 0 ∷ 0 ∷ 2 ∷ 7 ∷ 9 ∷ []) (1 ∷ [])
      (3 ∷ 1 ∷ []) (omega arith) written

abbrev exactly : ℕ → Bytes → Option Bytes × Bytes
exactly n bytes = if leb n (length bytes) then (some (take n bytes), drop n bytes) else (none, [])

abbrev buffered : Stream
buffered = record { readexactly = exactly }

buffered-IsExact : IsExact buffered
buffered-IsExact = record {
  complete = λ n bytes h. let e : leb n (length bytes) ≡ true = ground arith in rw e refl;
  incomplete = λ n bytes h. let e : leb n (length bytes) ≡ false = ground arith in rw e refl;
}

-- A frame whose payload is cut off.
read_frame-read_frame_sync_example :
    (read_frame pairs buffered 1048576 (0 ∷ 0 ∷ 0 ∷ 2 ∷ 7 ∷ [])).0
    ≡ (read_frame_sync pairs 1048576 (record { bytes = 0 ∷ 0 ∷ 0 ∷ 2 ∷ 7 ∷ []; pieces = 3 ∷ [] })).0
read_frame-read_frame_sync_example =
    read_frame-read_frame_sync pairs buffered buffered-IsExact 1048576 (0 ∷ 0 ∷ 0 ∷ 2 ∷ 7 ∷ [])
      (3 ∷ [])
