-- ===== src/Timers/Split.antt =====
-- Where a key splits an ordered set.
use lux_polaris.Prelude.{
  ◌⊎◌, ◌+◌, ◌≡◌, refl, ap, ap₂, subst, true, false, List, [], ◌∷◌, ◌++◌, arith, length, All,
  Bool-cases, inl, inr,
}
use lux_polaris.Timers.Sets.{Key, before, contains, split_below}
use lux_polaris.Timers.Order.{Sorted}

-- What `split_below` returns.
pub record Splits (k : Key) (ks expired later : List Key) : Type 1 where
  pub all_there : expired ++ later ≡ ks
  pub sizes : length ks ≡ length expired + length later
  pub below : All (λ x. before x k ≡ true) expired
  pub above : All (λ x. before x k ≡ false) later
  pub later_sorted : Sorted later
  pub expired_sorted : Sorted expired
  pub expired_all : (P : Key → Type 0) → All P ks → All P expired
  pub later_all : (P : Key → Type 0) → All P ks → All P later
  pub in_expired : (j : Key) → contains j ks ≡ true → before j k ≡ true → contains j expired ≡ true
  pub in_later : (j : Key) → contains j ks ≡ true → before j k ≡ false → contains j later ≡ true
  pub from_expired : (j : Key) → contains j expired ≡ true → contains j ks ≡ true
  pub from_later : (j : Key) → contains j later ≡ true → contains j ks ≡ true

not_below : (k x y : Key) → before x k ≡ false → before x y ≡ true → before y k ≡ false
not_below (a, b) (c, d) (e, f) h h' = ground arith

each_above :
    (k x : Key) (xs : List Key)
    → before x k ≡ false
    → All (λ y. before x y ≡ true) xs
    → All (λ y. before y k ≡ false) xs
each_above k x [] h a = tt
each_above k x (y ∷ xs) h (b, a) = (not_below k x y h b, each_above k x xs h a)

-- No element behind `x`, which is not below the key, is.
none_expired :
    (k x j : Key) (xs : List Key)
    → before x k ≡ false
    → contains j (x ∷ xs) ≡ true
    → before j k ≡ true
    → contains j [] ≡ true
none_expired (a, b) (c, d) (e, f) xs h m i = ground arith

expired_next :
    (k x j : Key) (xs ys : List Key)
    → (contains j xs ≡ true → contains j ys ≡ true)
    → contains j (x ∷ xs) ≡ true
    → contains j (x ∷ ys) ≡ true
expired_next k (c, d) (e, f) xs ys h m = ground (arith, h)

later_next :
    (k x j : Key) (xs ys : List Key)
    → before x k ≡ true
    → before j k ≡ false
    → (contains j xs ≡ true → contains j ys ≡ true)
    → contains j (x ∷ xs) ≡ true
    → contains j ys ≡ true
later_next (a, b) (c, d) (e, f) xs ys h i f' m = ground (arith, f')

later_member :
    (x j : Key) (xs : List Key)
    → before x j ≡ true
    → contains j xs ≡ true
    → contains j (x ∷ xs) ≡ true
later_member (a, b) (c, d) xs h m = ground arith

member_cases :
    (j x : Key) (xs : List Key)
    → contains j (x ∷ xs) ≡ true
    → ((x.0 ≡ j.0) × (x.1 ≡ j.1)) ⊎ (contains j xs ≡ true)
member_cases (a, b) (c, d) xs m = elim (Bool-cases (before (c, d) (a, b))) [
  | inl h ↦ inr (ground arith)
  | inr h ↦ inl (ground arith, ground arith)
]

pub All-contains :
    (P : Key → Type 0) (j : Key) (ks : List Key) → contains j ks ≡ true → All P ks → P j
All-contains P j [] m a = ground arith
All-contains P j (x ∷ xs) m (p, a) = elim (member_cases j x xs m) [
  | inl e ↦ subst P (ap₂ (λ b c. (b, c)) e.0 e.1) p
  | inr m' ↦ All-contains P j xs m' a
]

pub contains_first : (x : Key) (xs : List Key) → contains x (x ∷ xs) ≡ true
contains_first (a, b) xs = ground arith

pub contains-All :
    (P : Key → Type 0) (ks : List Key)
    → Sorted ks
    → ((j : Key) → contains j ks ≡ true → P j)
    → All P ks
contains-All P [] w h = tt
contains-All P (x ∷ xs) (a, w) h = (
  h x (contains_first x xs),
  contains-All P xs w
      (λ j m. h j (later_member x j xs (All-contains (λ y. before x y ≡ true) j xs m a) m)),
)

split_here :
    (k x : Key) (xs : List Key)
    → before x k ≡ false
    → Sorted (x ∷ xs)
    → Splits k (x ∷ xs) [] (x ∷ xs)
split_here k x xs h (a, w) = record {
  all_there = refl;
  sizes = omega arith;
  below = tt;
  above = (h, each_above k x xs h a);
  later_sorted = (a, w);
  expired_sorted = tt;
  expired_all = λ P p. tt;
  later_all = λ P p. p;
  in_expired = λ j m i. none_expired k x j xs h m i;
  in_later = λ j m i. m;
  from_expired = λ j m. ground arith;
  from_later = λ j m. m;
}

split_behind :
    (k x : Key) (xs expired later : List Key)
    → before x k ≡ true
    → All (λ y. before x y ≡ true) xs
    → Splits k xs expired later
    → Splits k (x ∷ xs) (x ∷ expired) later
split_behind k x xs expired later h a v = record {
  all_there = ap (λ l. x ∷ l) v.all_there;
  sizes = omega (arith, v.sizes);
  below = (h, v.below);
  above = v.above;
  later_sorted = v.later_sorted;
  expired_sorted = (v.expired_all (λ y. before x y ≡ true) a, v.expired_sorted);
  expired_all = λ P p. (p.0, v.expired_all P p.1);
  later_all = λ P p. v.later_all P p.1;
  in_expired = λ j m i. expired_next k x j xs expired (λ m'. v.in_expired j m' i) m;
  in_later = λ j m i. later_next k x j xs later h i (λ m'. v.in_later j m' i) m;
  from_expired = λ j m. expired_next k x j expired xs (v.from_expired j) m;
  from_later = λ j m.
      later_member x j xs (All-contains (λ y. before x y ≡ true) j xs (v.from_later j m) a)
        (v.from_later j m);
}

pub split_below_lem :
    (k : Key) (ks : List Key) → Sorted ks → Splits k ks (split_below k ks).0 (split_below k ks).1
split_below_lem k [] w = record {
  all_there = refl;
  sizes = refl;
  below = tt;
  above = tt;
  later_sorted = tt;
  expired_sorted = tt;
  expired_all = λ P p. tt;
  later_all = λ P p. tt;
  in_expired = λ j m i. m;
  in_later = λ j m i. m;
  from_expired = λ j m. m;
  from_later = λ j m. m;
}
split_below_lem k (x ∷ xs) (a, w) = elim (Bool-cases (before x k)) [
  | inl h ↦
      rw h
        (split_behind k x xs (split_below k xs).0 (split_below k xs).1 h a (split_below_lem k xs w))
  | inr h ↦ rw h (split_here k x xs h (a, w))
]
