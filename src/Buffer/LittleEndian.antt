-- ===== src/Buffer/LittleEndian.antt =====
-- A machine that stores the low byte first, as those that Linux runs on mostly do: an instance of
-- `Host`, which shows that its laws can be met.
use native.Mathlib.Nat.{pow-suc}
use lux_polaris.Prelude.{
  ℕ, zero, suc, ◌+◌, ◌*◌, ◌/◌, ◌%◌, ◌^◌, ◌≤◌, ◌<◌, ◌≡◌, refl, ap, ap₂, ◌∙◌, sym, subst, List, [],
  ◌∷◌, ◌++◌, arith, length, length-append,
}
use lux_polaris.Buffer.Ints.{Host, big_endian}

pub little_bytes : ℕ → ℕ → List ℕ
little_bytes zero x = []
little_bytes (suc w) x = x % 256 ∷ little_bytes w (x / 256)

pub little_value : List ℕ → ℕ
little_value [] = 0
little_value (b ∷ bs) = b + 256 * little_value bs

-- The number that the bytes spell, most significant first, behind `acc`.
pub big_value : ℕ → List ℕ → ℕ
big_value acc [] = acc
big_value acc (b ∷ bs) = big_value (acc * 256 + b) bs

abbrev Bytes : List ℕ → Type 0
Bytes [] = Unit {0}
Bytes (b ∷ bs) = (b < 256) × Bytes bs

pub length-big_endian : (w x : ℕ) → length (big_endian w x) ≡ w
length-big_endian zero x = refl
length-big_endian (suc w) x =
    omega
      (arith, length-append (big_endian w (x / 256)) (x % 256 ∷ []), length-big_endian w (x / 256))

Bytes-append : (xs ys : List ℕ) → Bytes xs → Bytes ys → Bytes (xs ++ ys)
Bytes-append [] ys h k = k
Bytes-append (x ∷ xs) ys h k = (h.0, Bytes-append xs ys h.1 k)

big_endian-Bytes : (w x : ℕ) → Bytes (big_endian w x)
big_endian-Bytes zero x = tt
big_endian-Bytes (suc w) x =
    Bytes-append (big_endian w (x / 256)) (x % 256 ∷ []) (big_endian-Bytes w (x / 256))
      (omega arith, tt)

pub little_value-little_bytes : (w x : ℕ) → x < 256 ^ w → little_value (little_bytes w x) ≡ x
unfolding little_value little_bytes
little_value-little_bytes zero x h = omega arith
little_value-little_bytes (suc w) x h =
    omega (arith, little_value-little_bytes w (x / 256) (omega (arith, pow-suc 256 w)))

little_bytes-little_value :
    (bs : List ℕ) → Bytes bs → little_bytes (length bs) (little_value bs) ≡ bs
unfolding little_value little_bytes
little_bytes-little_value [] h = refl
little_bytes-little_value (b ∷ bs) h =
    ap₂ ◌∷◌ (omega arith)
      (ap (little_bytes (length bs)) (omega arith) ∙ little_bytes-little_value bs h.1)

little_value-lt : (bs : List ℕ) → Bytes bs → little_value bs < 256 ^ length bs
unfolding little_value
little_value-lt [] h = omega arith
little_value-lt (b ∷ bs) h = omega (arith, little_value-lt bs h.1, pow-suc 256 (length bs))

big_value-append :
    (acc b : ℕ) (bs : List ℕ) → big_value acc (bs ++ b ∷ []) ≡ big_value acc bs * 256 + b
unfolding big_value
big_value-append acc b [] = refl
big_value-append acc b (x ∷ bs) = big_value-append (acc * 256 + x) b bs

pub big_value-big_endian : (w x : ℕ) → x < 256 ^ w → big_value 0 (big_endian w x) ≡ x
unfolding big_value
big_value-big_endian zero x h = omega arith
big_value-big_endian (suc w) x h =
    big_value-append 0 (x % 256) (big_endian w (x / 256))
    ∙ omega (arith, big_value-big_endian w (x / 256) (omega (arith, pow-suc 256 w)))

pub swapped : ℕ → ℕ → ℕ
swapped w x = little_value (big_endian w x)

pub little_bytes-swapped : (w x : ℕ) → little_bytes w (swapped w x) ≡ big_endian w x
unfolding swapped
little_bytes-swapped w x =
    ap (λ n. little_bytes n (little_value (big_endian w x))) (sym (length-big_endian w x))
    ∙ little_bytes-little_value (big_endian w x) (big_endian-Bytes w x)

pub swapped-lt : (w x : ℕ) → swapped w x < 256 ^ w
unfolding swapped
swapped-lt w x =
    subst (λ n. little_value (big_endian w x) < 256 ^ n) (length-big_endian w x)
      (little_value-lt (big_endian w x) (big_endian-Bytes w x))

unfoldable pub little_endian : Host
unfolding little_bytes little_value swapped big_value
little_endian = record {
  htobe = swapped;
  betoh = λ w y. big_value 0 (little_bytes w y);
  store = little_bytes;
  load = λ w bs. little_value bs;
  betoh-htobe = λ w x h. ap (big_value 0) (little_bytes-swapped w x) ∙ big_value-big_endian w x h;
  load-store = little_value-little_bytes;
  htobe-lt = λ w x h. swapped-lt w x;
  store-htobe = λ w x h. little_bytes-swapped w x;
}

little_value-append :
    (b : ℕ) (bs : List ℕ) → little_value (bs ++ b ∷ []) ≡ little_value bs + b * 256 ^ length bs
unfolding little_value
little_value-append b [] = omega arith
little_value-append b (x ∷ bs) =
    omega (arith, little_value-append b bs, ap (λ (t : ℕ). b * t) (pow-suc 256 (length bs)))

top_byte : (l y p q : ℕ) → 128 ≤ y → q ≡ 256 * p → q ≤ (l + y * p) * 2
top_byte l y p q h e = omega (arith, e, at_least y p h)
  where
    at_least : (y p : ℕ) → 128 ≤ y → 128 * p ≤ y * p
    at_least y p h = grind arith

-- The sign bit of what a load of the network bytes gives is the top bit of the last byte.
pub htobe_top : (w x : ℕ) → 128 ≤ x % 256 → 256 ^ suc w ≤ little_endian.htobe (suc w) x * 2
unfolding little_endian
htobe_top w x h =
    subst (λ n. 256 ^ suc w ≤ n * 2) (sym (little_value-append (x % 256) (big_endian w (x / 256))))
      (rw (length-big_endian w (x / 256)) (
        top_byte (little_value (big_endian w (x / 256))) (x % 256) (256 ^ w) (256 ^ suc w) h
          (omega (arith, pow-suc 256 w))))
