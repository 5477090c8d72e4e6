-- ===== src/Timers/Sets.antt =====
-- The std::set of pairs that LuxPolaris/src/TimerQueue.cc keeps: a list in ascending order.
use lux_polaris.Prelude.{
  ℕ, Bool, true, false, ◌&&◌, ◌||◌, List, [], ◌∷◌, Option, none, some, if◌then◌else◌, ltb, ◌==◌,
}

-- std::pair, of a number and a pointer.
abbrev pub Key : Type 0
Key = ℕ × ℕ

-- `operator<` of std::pair.
abbrev pub before : Key → Key → Bool
before (a, b) (c, d) = ltb a c || ((a == c) && ltb b d)

abbrev pub push : Key → Option (List Key) → Option (List Key)
push k none = none
push k (some ks) = some (k ∷ ks)

-- `insert`, with `none` when the element is there already.
abbrev pub insert_in : Key → List Key → Option (List Key)
insert_in k [] = some (k ∷ [])
insert_in k (x ∷ xs) =
    let rest = insert_in k xs in
    if before k x then some (k ∷ x ∷ xs) else if before x k then push x rest else none

-- `erase`, with `none` when the element is not there.
abbrev pub erase_from : Key → List Key → Option (List Key)
erase_from k [] = none
erase_from k (x ∷ xs) =
    let rest = erase_from k xs in
    if before k x then none else if before x k then push x rest else some xs

-- `find(k) != end()`
abbrev pub contains : Key → List Key → Bool
contains k [] = false
contains k (x ∷ xs) =
    let rest = contains k xs in if before k x then false else if before x k then rest else true

-- The elements in front of `lower_bound(k)`, and those from it on.
abbrev pub split_below : Key → List Key → List Key × List Key
split_below k [] = ([], [])
split_below k (x ∷ xs) =
    let rest = split_below k xs in if before x k then (x ∷ rest.0, rest.1) else ([], x ∷ xs)
