-- ===== src/Prelude/Lists.antt =====
-- Lists measured and indexed by native numbers, as arrays: a stretch of one, and a write to one.
use Prim.Native.Nat.{ℕ, zero, suc, ◌+◌, ◌-◌, ◌≤◌, min}
use mathlib.Core.Path.{◌≡◌, refl, ap, sym, ◌∙◌}
use mathlib.Core.List.{List, [], ◌∷◌, ◌++◌}
use mathlib.Core.Option.{Option, none, some}
use native.Mathlib.Nat.{zero-add, suc-add}
use native.Mathlib.Omega.{arith}

module _ {ℓ} {A : Type ℓ} where
  abbrev pub length : List A → ℕ
  length [] = 0
  length (x ∷ xs) = suc (length xs)

  abbrev pub get_elem? : List A → ℕ → Option A
  get_elem? [] i = none
  get_elem? (x ∷ xs) zero = some x
  get_elem? (x ∷ xs) (suc i) = get_elem? xs i

  abbrev pub take : ℕ → List A → List A
  take zero xs = []
  take (suc n) [] = []
  take (suc n) (x ∷ xs) = x ∷ take n xs

  abbrev pub drop : ℕ → List A → List A
  drop zero xs = xs
  drop (suc n) [] = []
  drop (suc n) (x ∷ xs) = drop n xs

  abbrev pub replicate : ℕ → A → List A
  replicate zero a = []
  replicate (suc n) a = a ∷ replicate n a

module _ {ℓ} {A : Type ℓ} where
  pub length-append : (xs ys : List A) → length (xs ++ ys) ≡ length xs + length ys
  length-append [] ys = omega arith
  length-append (x ∷ xs) ys = omega (arith, length-append xs ys)

  pub take-append-drop : (n : ℕ) (xs : List A) → take n xs ++ drop n xs ≡ xs
  take-append-drop zero xs = refl
  take-append-drop (suc n) [] = refl
  take-append-drop (suc n) (x ∷ xs) = rw (take-append-drop n xs)

  pub length-take : (n : ℕ) (xs : List A) → length (take n xs) ≡ min n (length xs)
  length-take zero xs = omega arith
  length-take (suc n) [] = omega arith
  length-take (suc n) (x ∷ xs) = omega (arith, length-take n xs)

  pub length-drop : (n : ℕ) (xs : List A) → length (drop n xs) ≡ length xs - n
  length-drop zero xs = omega arith
  length-drop (suc n) [] = omega arith
  length-drop (suc n) (x ∷ xs) = omega (arith, length-drop n xs)

  pub length-replicate : (n : ℕ) (a : A) → length (replicate n a) ≡ n
  length-replicate zero a = refl
  length-replicate (suc n) a = ap suc (length-replicate n a)

  pub take-all : (n : ℕ) (xs : List A) → length xs ≤ n → take n xs ≡ xs
  take-all zero [] h = refl
  take-all zero (x ∷ xs) h = absurd (omega arith)
  take-all (suc n) [] h = refl
  take-all (suc n) (x ∷ xs) h = ap (λ t. x ∷ t) (take-all n xs (omega arith))

  pub drop-all : (n : ℕ) (xs : List A) → length xs ≤ n → drop n xs ≡ []
  drop-all zero [] h = refl
  drop-all zero (x ∷ xs) h = absurd (omega arith)
  drop-all (suc n) [] h = refl
  drop-all (suc n) (x ∷ xs) h = drop-all n xs (omega arith)

  pub nil_of_length : (xs : List A) → length xs ≤ 0 → xs ≡ []
  nil_of_length [] h = refl
  nil_of_length (x ∷ xs) h = absurd (omega arith)

  pub take_within : (n : ℕ) (xs ys : List A) → n ≤ length xs → take n (xs ++ ys) ≡ take n xs
  take_within zero xs ys h = refl
  take_within (suc n) [] ys h = absurd (omega arith)
  take_within (suc n) (x ∷ xs) ys h = ap (λ t. x ∷ t) (take_within n xs ys (omega arith))

  pub take-append : (xs ys : List A) → take (length xs) (xs ++ ys) ≡ xs
  take-append [] ys = refl
  take-append (x ∷ xs) ys = ap (λ t. x ∷ t) (take-append xs ys)

  pub drop-append : (xs ys : List A) → drop (length xs) (xs ++ ys) ≡ ys
  drop-append [] ys = refl
  drop-append (x ∷ xs) ys = drop-append xs ys

-- The `n` elements from index `i` on.
abbrev pub slice {ℓ} : {A : Type ℓ} → ℕ → ℕ → List A → List A
slice i n xs = take n (drop i xs)

-- `ys` written over `xs` from index `i` on; what does not fit is dropped.
unfoldable pub write_at {ℓ} : {A : Type ℓ} → ℕ → List A → List A → List A
write_at i ys [] = []
write_at zero [] (x ∷ xs) = x ∷ xs
write_at zero (y ∷ ys) (x ∷ xs) = y ∷ write_at zero ys xs
write_at (suc i) ys (x ∷ xs) = x ∷ write_at i ys xs

module _ {ℓ} {A : Type ℓ} where
  pub length-slice : (i n : ℕ) (xs : List A) → i + n ≤ length xs → length (slice i n xs) ≡ n
  length-slice i n xs h = omega (arith, length-take n (drop i xs), length-drop i xs)

  take-add : (m n : ℕ) (xs : List A) → take (m + n) xs ≡ take m xs ++ take n (drop m xs)
  take-add zero n xs = rw zero-add
  take-add (suc m) n [] = rw suc-add (sym (take-all n [] (omega arith)))
  take-add (suc m) n (x ∷ xs) = rw suc-add (ap (λ t. x ∷ t) (take-add m n xs))

  drop-add : (i m : ℕ) (xs : List A) → drop (i + m) xs ≡ drop m (drop i xs)
  drop-add zero m xs = rw zero-add
  drop-add (suc i) m [] = rw suc-add (sym (drop-all m [] (omega arith)))
  drop-add (suc i) m (x ∷ xs) = rw suc-add (drop-add i m xs)

  pub slice-add :
      (i m n : ℕ) (xs : List A) → slice i (m + n) xs ≡ slice i m xs ++ slice (i + m) n xs
  slice-add i m n xs = rw (drop-add i m xs) (take-add m n (drop i xs))

  pub length-write_at : (i : ℕ) (ys xs : List A) → length (write_at i ys xs) ≡ length xs
  unfolding write_at
  length-write_at zero ys [] = refl
  length-write_at (suc i) ys [] = refl
  length-write_at zero [] (x ∷ xs) = refl
  length-write_at zero (y ∷ ys) (x ∷ xs) = ap suc (length-write_at zero ys xs)
  length-write_at (suc i) ys (x ∷ xs) = ap suc (length-write_at i ys xs)

  -- A write leaves what stands before it.
  pub slice-write_at_before :
      (i n j : ℕ) (ys xs : List A) → i + n ≤ j → slice i n (write_at j ys xs) ≡ slice i n xs
  unfolding write_at
  slice-write_at_before i n j ys [] h = refl
  slice-write_at_before zero zero j ys (x ∷ xs) h = refl
  slice-write_at_before zero (suc n) zero ys (x ∷ xs) h = absurd (omega arith)
  slice-write_at_before zero (suc n) (suc j) ys (x ∷ xs) h =
      ap (λ t. x ∷ t) (slice-write_at_before zero n j ys xs (omega arith))
  slice-write_at_before (suc i) n zero ys (x ∷ xs) h = absurd (omega arith)
  slice-write_at_before (suc i) n (suc j) ys (x ∷ xs) h =
      slice-write_at_before i n j ys xs (omega arith)

  -- What was written can be read back.
  pub slice-write_at_self :
      (i : ℕ) (ys xs : List A)
      → i + length ys ≤ length xs
      → slice i (length ys) (write_at i ys xs) ≡ ys
  unfolding write_at
  slice-write_at_self zero [] xs h = refl
  slice-write_at_self zero (y ∷ ys) [] h = absurd (omega arith)
  slice-write_at_self zero (y ∷ ys) (x ∷ xs) h =
      ap (λ t. y ∷ t) (slice-write_at_self zero ys xs (omega arith))
  slice-write_at_self (suc i) [] [] h = refl
  slice-write_at_self (suc i) (y ∷ ys) [] h = absurd (omega arith)
  slice-write_at_self (suc i) ys (x ∷ xs) h = slice-write_at_self i ys xs (omega arith)

  -- Growing an array at its end leaves what it held.
  pub slice-append_left :
      (i n : ℕ) (xs ys : List A) → i + n ≤ length xs → slice i n (xs ++ ys) ≡ slice i n xs
  slice-append_left zero zero xs ys h = refl
  slice-append_left zero (suc n) [] ys h = absurd (omega arith)
  slice-append_left zero (suc n) (x ∷ xs) ys h =
      ap (λ t. x ∷ t) (slice-append_left zero n xs ys (omega arith))
  slice-append_left (suc i) zero [] ys h = absurd (omega arith)
  slice-append_left (suc i) (suc n) [] ys h = absurd (omega arith)
  slice-append_left (suc i) n (x ∷ xs) ys h = slice-append_left i n xs ys (omega arith)

  drop-write_at :
      (i j : ℕ) (ys xs : List A) → j + length ys ≤ i → drop i (write_at j ys xs) ≡ drop i xs
  unfolding write_at
  drop-write_at zero zero ys [] h = refl
  drop-write_at zero (suc j) ys [] h = refl
  drop-write_at (suc i) zero ys [] h = refl
  drop-write_at (suc i) (suc j) ys [] h = refl
  drop-write_at zero zero [] (x ∷ xs) h = refl
  drop-write_at zero zero (y ∷ ys) (x ∷ xs) h = absurd (omega arith)
  drop-write_at zero (suc j) ys (x ∷ xs) h = absurd (omega arith)
  drop-write_at (suc i) zero [] (x ∷ xs) h = refl
  drop-write_at (suc i) zero (y ∷ ys) (x ∷ xs) h = drop-write_at i zero ys xs (omega arith)
  drop-write_at (suc i) (suc j) ys (x ∷ xs) h = drop-write_at i j ys xs (omega arith)

  -- A write leaves what stands behind it.
  pub slice-write_at_after :
      (i n j : ℕ) (ys xs : List A) → j + length ys ≤ i → slice i n (write_at j ys xs) ≡ slice i n xs
  slice-write_at_after i n j ys xs h = ap (take n) (drop-write_at i j ys xs h)

  drop-take : (m n : ℕ) (xs : List A) → m ≤ n → drop m (take n xs) ≡ take (n - m) (drop m xs)
  drop-take zero n xs h = ap (λ k. take k xs) (omega arith)
  drop-take (suc m) zero xs h = absurd (omega arith)
  drop-take (suc m) (suc n) [] h = sym (take-all (suc n - suc m) [] (omega arith))
  drop-take (suc m) (suc n) (x ∷ xs) h =
      drop-take m n xs (omega arith) ∙ ap (λ k. take k (drop m xs)) (omega arith)

  pub drop-slice :
      (m i n : ℕ) (xs : List A) → m ≤ n → drop m (slice i n xs) ≡ slice (i + m) (n - m) xs
  drop-slice m i n xs h = drop-take m n (drop i xs) h ∙ ap (take (n - m)) (sym (drop-add i m xs))

  take-take : (m n : ℕ) (xs : List A) → m ≤ n → take m (take n xs) ≡ take m xs
  take-take zero n xs h = refl
  take-take (suc m) zero xs h = absurd (omega arith)
  take-take (suc m) (suc n) [] h = refl
  take-take (suc m) (suc n) (x ∷ xs) h = ap (λ t. x ∷ t) (take-take m n xs (omega arith))

  pub take-slice : (m i n : ℕ) (xs : List A) → m ≤ n → take m (slice i n xs) ≡ slice i m xs
  take-slice m i n xs h = take-take m n (drop i xs) h

-- A predicate holds of every element.
abbrev pub All {ℓ κ} : {A : Type ℓ} → (A → Type κ) → List A → Type κ
All P [] = Unit
All P (x ∷ xs) = P x × All P xs
