-- ===== src/InetAddress/Cutting.antt =====
-- The texts of LuxPolaris/src that join parts with ':' and '#', cut at the last of them.
use lux_polaris.Prelude.{
  ℕ, ◌≡◌, refl, sym, ap, ap₂, ◌∙◌, false, ◌||◌, List, [], ◌∷◌, ◌++◌, Option, none, some, arith,
  if◌then◌else◌, ◌==◌, ==_self, length, length-append, take, take-append, All,
}
use lux_polaris.InetAddress.{colon, number_sign}

-- What stands behind the last separator of a text.
last_part : ℕ → List ℕ → Option (List ℕ)
last_part sep [] = none
last_part sep (c ∷ cs) = elim (last_part sep cs) [
  | some p ↦ some p
  | none ↦ if c == sep then some cs else none
]

last_part_plain : (sep : ℕ) (p : List ℕ) → All (λ c. (c == sep) ≡ false) p → last_part sep p ≡ none
unfolding last_part
last_part_plain sep [] all = refl
last_part_plain sep (c ∷ cs) (h, all) = rw (last_part_plain sep cs all) (rw h refl)

last_part_behind :
    (sep : ℕ) (xs p : List ℕ)
    → All (λ c. (c == sep) ≡ false) p
    → last_part sep (xs ++ sep ∷ p) ≡ some p
unfolding last_part
last_part_behind sep [] p all = rw (last_part_plain sep p all) (rw (==_self sep) refl)
last_part_behind sep (x ∷ xs) p all = rw (last_part_behind sep xs p all) refl

pub some_injective : {p q : List ℕ} → some p ≡ some q → p ≡ q
some_injective {p = p} e = ap (λ o. elim o [ some x ↦ x | none ↦ p ]) e

-- A text is cut at its last separator in one way.
module _ (sep : ℕ) (xs ys p q : List ℕ) (plain : All (λ c. (c == sep) ≡ false) p)
    (plain' : All (λ c. (c == sep) ≡ false) q) (same : xs ++ sep ∷ p ≡ ys ++ sep ∷ q) where
  pub same_behind : p ≡ q
  same_behind = some_injective (
      sym (last_part_behind sep xs p plain)
      ∙ ap (last_part sep) same
      ∙ last_part_behind sep ys q plain')

  same_length : length xs ≡ length ys
  same_length = omega (
    arith,
    ap length same,
    ap length same_behind,
    length-append xs (sep ∷ p),
    length-append ys (sep ∷ q),
  )

  pub same_front : xs ≡ ys
  same_front = sym (take-append xs (sep ∷ p)) ∙ ap₂ take same_length same ∙ take-append ys (sep ∷ q)

pub no_colon :
    (p : List ℕ)
    → All (λ c. ((c == colon) || (c == number_sign)) ≡ false) p
    → All (λ c. (c == colon) ≡ false) p
no_colon [] all = tt
no_colon (c ∷ cs) (h, all) = (ground arith, no_colon cs all)

pub no_number_sign :
    (p : List ℕ)
    → All (λ c. ((c == colon) || (c == number_sign)) ≡ false) p
    → All (λ c. (c == number_sign) ≡ false) p
no_number_sign [] all = tt
no_number_sign (c ∷ cs) (h, all) = (ground arith, no_number_sign cs all)
