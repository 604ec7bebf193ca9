-- ===== src/Framing/RoundTrip.antt =====
-- What is written as a frame is read back, whatever pieces the pipe hands out.
use lemonbot.Prelude.{
  ℕ, zero, suc, ◌+◌, ◌-◌, ◌≤◌, ◌<◌, ◌≡◌, ◌∙◌, refl, sym, ap, subst, ltb, some, min, List, [], ◌∷◌,
  ◌++◌, arith, ◌==◌, nat_eq, Bool-cases, inl, inr, length, take, drop,
}
use mathlib.Core.Option.{some-injective}
use lemonbot.Framing.{Bytes, pack, unpack, Pipe, piece, later_pieces, read, read_loop, read_exactly}

module _ {A : Type 0} where
  pub length-take : (n : ℕ) (xs : List A) → length (take n xs) ≡ min n (length xs)
  length-take zero xs = omega arith
  length-take (suc n) [] = omega arith
  length-take (suc n) (x ∷ xs) = omega (arith, length-take n xs)

  length-drop : (n : ℕ) (xs : List A) → length (drop n xs) ≡ length xs - n
  length-drop zero xs = omega arith
  length-drop (suc n) [] = omega arith
  length-drop (suc n) (x ∷ xs) = omega (arith, length-drop n xs)

  pub take-append : (xs ys : List A) → take (length xs) (xs ++ ys) ≡ xs
  take-append [] ys = refl
  take-append (x ∷ xs) ys = ap (λ zs. x ∷ zs) (take-append xs ys)

  pub drop-append : (xs ys : List A) → drop (length xs) (xs ++ ys) ≡ ys
  drop-append [] ys = refl
  drop-append (x ∷ xs) ys = drop-append xs ys

  take_nil : (n : ℕ) → take {A = A} n [] ≡ []
  take_nil zero = refl
  take_nil (suc n) = refl

  drop_nil : (n : ℕ) → drop {A = A} n [] ≡ []
  drop_nil zero = refl
  drop_nil (suc n) = refl

  empty_of_length : (xs : List A) → length xs ≡ 0 → xs ≡ []
  empty_of_length [] h = refl
  empty_of_length (x ∷ xs) h = absurd (omega arith)

  -- A list is taken in two parts.
  take_parts :
      (k n : ℕ) (xs : List A)
      → k ≤ n
      → take k xs ++ take (n - length (take k xs)) (drop k xs) ≡ take n xs
  take_parts zero n xs h = let whole : n - 0 ≡ n = omega arith in rw whole refl
  take_parts (suc k) zero xs h = absurd (omega arith)
  take_parts (suc k) (suc n) [] h = take_nil (suc n - 0)
  take_parts (suc k) (suc n) (x ∷ xs) h =
      let less : suc n - suc (length (take k xs)) ≡ n - length (take k xs) = omega arith in
      rw less (ap (λ zs. x ∷ zs) (take_parts k n xs (omega arith)))

  drop_parts :
      (k n : ℕ) (xs : List A) → k ≤ n → drop (n - length (take k xs)) (drop k xs) ≡ drop n xs
  drop_parts zero n xs h = let whole : n - 0 ≡ n = omega arith in rw whole refl
  drop_parts (suc k) zero xs h = absurd (omega arith)
  drop_parts (suc k) (suc n) [] h = drop_nil (suc n - 0)
  drop_parts (suc k) (suc n) (x ∷ xs) h =
      let less : suc n - suc (length (take k xs)) ≡ n - length (take k xs) = omega arith in
      rw less (drop_parts k n xs (omega arith))

pub unpack-pack :
    (n : ℕ) (header : Bytes) → pack n ≡ some header → (unpack header ≡ n) × (length header ≡ 4)
unfolding pack unpack
unpack-pack n header h = elim (Bool-cases (ltb n 4294967296)) [
  | inr e ↦ let gone = rw e at h in absurd (cc)
  | inl e ↦
      let is = some-injective _ header (rw e at h) in
      let small : n < 4294967296 = ground arith in
      subst (λ b. (unpack b ≡ n) × (length b ≡ 4)) is (omega arith, refl)
]

-- What the loop reads, and what it leaves.
record Reads (wanted : ℕ) (bytes : Bytes) (r : Bytes × Pipe) : Type 0 where
  taken : r.0 ≡ take wanted bytes
  left : r.1.bytes ≡ drop wanted bytes

piece_bounds : (ps : List ℕ) (n : ℕ) → 0 < n → (1 ≤ piece ps n) × (piece ps n ≤ n)
piece_bounds [] n h = (omega arith, omega arith)
piece_bounds (p ∷ ps) n h = (omega arith, omega arith)

read_loop-Reads :
    (fuel wanted : ℕ) (pipe : Pipe)
    → wanted < fuel
    → Reads wanted pipe.bytes (read_loop fuel wanted pipe)
unfolding read_loop read
read_loop-Reads zero wanted pipe h = absurd (omega arith)
read_loop-Reads (suc fuel) wanted pipe h = elim (Bool-cases (wanted == 0)) [
  | inl e ↦
      let none_wanted : wanted ≡ 0 = ground arith in
      rw (e, none_wanted) (record { taken = refl; left = refl })
  | inr e ↦
      let k = piece pipe.pieces wanted in
      let (low, high) = piece_bounds pipe.pieces wanted (ground arith) in
      let chunk = take k pipe.bytes in
      let size = length-take k pipe.bytes in
      elim (Bool-cases (length chunk == 0)) [
        | inl z ↦
            let gone : pipe.bytes ≡ [] = empty_of_length pipe.bytes (ground arith) in
            rw (e, z)
              (record {
                taken = rw gone (sym (take_nil wanted));
                left = rw gone (drop_nil k ∙ sym (drop_nil wanted));
              })
        | inr z ↦
            let rest =
              read_loop-Reads fuel (wanted - length chunk)
                (record { bytes = drop k pipe.bytes; pieces = later_pieces pipe.pieces })
                (ground arith) in
            rw (e, z)
              (record {
                taken = ap (λ zs. chunk ++ zs) rest.taken ∙ take_parts k wanted pipe.bytes high;
                left = rest.left ∙ drop_parts k wanted pipe.bytes high;
              })
      ]
]

-- The loop ends, whatever pieces the pipe hands out: `read_exactly` returns the next bytes that it was
-- asked for, or all that are left, and leaves those after them.
pub read_exactly_lem :
    (n : ℕ) (pipe : Pipe)
    → ((read_exactly n pipe).0 ≡ take n pipe.bytes)
      × ((read_exactly n pipe).1.bytes ≡ drop n pipe.bytes)
unfolding read_exactly
read_exactly_lem n pipe = let r = read_loop-Reads (n + 1) n pipe (omega arith) in (r.taken, r.left)
