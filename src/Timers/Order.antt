-- ===== src/Timers/Order.antt =====
-- The laws of the ordered sets of Timers/Sets: what an insertion and a removal do to the elements, the
-- order and the size.
use lux_polaris.Prelude.{
  suc, ◌≡◌, refl, ap, ◌∙◌, Bool, true, false, not, ◌&&◌, ◌||◌, List, [], ◌∷◌, Option, some, ◌==◌,
  arith, length, All, Bool-cases, inl, inr,
}
use lux_polaris.Timers.Sets.{Key, before, push, insert_in, erase_from, contains}

abbrev pub same : Key → Key → Bool
same (a, b) (c, d) = (a == c) && (b == d)

abbrev pub Sorted : List Key → Type 0
Sorted [] = Unit {0}
Sorted (x ∷ xs) = All (λ y. before x y ≡ true) xs × Sorted xs

-- An insertion that finds no equal element succeeds.
abbrev pub Inserts : Key → List Key → Option (List Key) → Type 0
Inserts k ks o =
    (r : List Key) × (o ≡ some r)
    × (length r ≡ suc (length ks))
    × Sorted r
    × ((j : Key) → contains j r ≡ (same j k || contains j ks))
    × ((x : Key)
        → before x k ≡ true
        → All (λ y. before x y ≡ true) ks
        → All (λ y. before x y ≡ true) r)

before_trans : (x y z : Key) → before x y ≡ true → before y z ≡ true → before x z ≡ true
before_trans (a, b) (c, d) (e, f) h k = ground arith

All-before :
    (x y : Key) (ks : List Key)
    → before x y ≡ true
    → All (λ z. before y z ≡ true) ks
    → All (λ z. before x z ≡ true) ks
All-before x y [] h a = tt
All-before x y (z ∷ ks) h (b, a) = (before_trans x y z h b, All-before x y ks h a)

insert_only : (k j : Key) → contains j (k ∷ []) ≡ (same j k || false)
insert_only (a, b) (c, d) = ground arith

insert_first :
    (k x j : Key) (xs : List Key)
    → before k x ≡ true
    → contains j (k ∷ x ∷ xs) ≡ (same j k || contains j (x ∷ xs))
insert_first (a, b) (c, d) (e, f) xs h = ground arith

insert_behind :
    (k x j : Key) (xs r : List Key)
    → before x k ≡ true
    → contains j r ≡ (same j k || contains j xs)
    → contains j (x ∷ r) ≡ (same j k || contains j (x ∷ xs))
insert_behind (a, b) (c, d) (e, f) xs r h k = ground arith

pub contains_below :
    (x j : Key) (xs : List Key)
    → All (λ y. before x y ≡ true) xs
    → before x j ≡ false
    → contains j xs ≡ false
contains_below x j [] a h = refl
contains_below (a, b) (c, d) ((e, f) ∷ xs) (k, ks) h = ground arith

insert_behind-Inserts :
    (k x : Key) (xs : List Key)
    → before k x ≡ false
    → before x k ≡ true
    → All (λ y. before x y ≡ true) xs
    → Inserts k xs (insert_in k xs)
    → Inserts k (x ∷ xs) (insert_in k (x ∷ xs))
insert_behind-Inserts k x xs h h' a (r, e, n, w, mem, all) = (
  x ∷ r,
  rw h (rw h' (ap (push x) e)),
  ap suc n,
  (all x h' a, w),
  λ j. insert_behind k x j xs r h' (mem j),
  λ y b b'. (b'.0, all y b b'.1),
)

apart :
    (k x : Key) (xs : List Key)
    → before k x ≡ false
    → contains k (x ∷ xs) ≡ false
    → (before x k ≡ true) × (contains k xs ≡ false)
apart (a, b) (c, d) xs h absent = (ground arith, ground arith)

-- An insertion of a new element.
pub insert_in_lem :
    (k : Key) (ks : List Key) → Sorted ks → contains k ks ≡ false → Inserts k ks (insert_in k ks)
insert_in_lem k [] w absent = (k ∷ [], refl, refl, (tt, tt), λ j. insert_only k j, λ x h a. (h, tt))
insert_in_lem k (x ∷ xs) (a, w) absent = elim (Bool-cases (before k x)) [
  | inl h ↦ (
    k ∷ x ∷ xs,
    rw h refl,
    refl,
    ((h, All-before k x xs h a), (a, w)),
    λ j. insert_first k x j xs h,
    λ y b b'. (b, b'),
  )
  | inr h ↦
      let (h', absent') = apart k x xs h absent in
      insert_behind-Inserts k x xs h h' a (insert_in_lem k xs w absent')
]

-- A removal that finds its element.
abbrev pub Erases : Key → List Key → Option (List Key) → Type 0
Erases k ks o =
    (r : List Key) × (o ≡ some r)
    × (length ks ≡ suc (length r))
    × Sorted r
    × ((j : Key) → contains j r ≡ (not (same j k) && contains j ks))
    × ((x : Key) → All (λ y. before x y ≡ true) ks → All (λ y. before x y ≡ true) r)

erase_here :
    (k x j : Key) (xs : List Key)
    → before k x ≡ false
    → before x k ≡ false
    → All (λ y. before x y ≡ true) xs
    → contains j xs ≡ (not (same j k) && contains j (x ∷ xs))
erase_here k x j xs h h' a = elim (Bool-cases (before x j)) [
  | inl b ↦ above k x j xs h h' b
  | inr b ↦ contains_below x j xs a b ∙ below k x j xs h h' b
]
  where
    above :
        (k x j : Key) (xs : List Key)
        → before k x ≡ false
        → before x k ≡ false
        → before x j ≡ true
        → contains j xs ≡ (not (same j k) && contains j (x ∷ xs))
    above (a, b) (c, d) (e, f) xs h h' i = ground arith

    below :
        (k x j : Key) (xs : List Key)
        → before k x ≡ false
        → before x k ≡ false
        → before x j ≡ false
        → false ≡ (not (same j k) && contains j (x ∷ xs))
    below (a, b) (c, d) (e, f) xs h h' i = ground arith

erase_behind :
    (k x j : Key) (xs r : List Key)
    → before x k ≡ true
    → contains j r ≡ (not (same j k) && contains j xs)
    → contains j (x ∷ r) ≡ (not (same j k) && contains j (x ∷ xs))
erase_behind (a, b) (c, d) (e, f) xs r h k = ground arith

erase_behind-Erases :
    (k x : Key) (xs : List Key)
    → before k x ≡ false
    → before x k ≡ true
    → All (λ y. before x y ≡ true) xs
    → Erases k xs (erase_from k xs)
    → Erases k (x ∷ xs) (erase_from k (x ∷ xs))
erase_behind-Erases k x xs h h' a (r, e, n, w, mem, all) = (
  x ∷ r,
  rw h (rw h' (ap (push x) e)),
  ap suc n,
  (all x a, w),
  λ j. erase_behind k x j xs r h' (mem j),
  λ y b. (b.0, all y b.1),
)

not_first : (k x : Key) (xs : List Key) → contains k (x ∷ xs) ≡ true → before k x ≡ false
not_first (a, b) (c, d) xs h = ground arith

in_rest :
    (k x : Key) (xs : List Key)
    → before x k ≡ true
    → contains k (x ∷ xs) ≡ true
    → contains k xs ≡ true
in_rest (a, b) (c, d) xs h k = ground arith

-- A removal of an element that is there.
pub erase_from_lem :
    (k : Key) (ks : List Key) → Sorted ks → contains k ks ≡ true → Erases k ks (erase_from k ks)
erase_from_lem k [] w there = ground arith
erase_from_lem k (x ∷ xs) (a, w) there = elim (Bool-cases (before x k)) [
  | inl h ↦
      erase_behind-Erases k x xs (not_first k x xs there) h a
        (erase_from_lem k xs w (in_rest k x xs h there))
  | inr h ↦ (
    xs,
    rw (not_first k x xs there) (rw h refl),
    refl,
    w,
    λ j. erase_here k x j xs (not_first k x xs there) h a,
    λ y b. b.1,
  )
]
