-- ===== src/Buffer/Ints.antt =====
-- The integers of LuxPolaris/src/include/Buffer.h in network byte order. A value is its bit
-- pattern, a number below 256 ^ w for the `w` bytes of its type.
use lux_polaris.Prelude.{
  ℕ, ◌*◌, ◌^◌, ◌<◌, ◌≡◌, ◌++◌, ◌/◌, ◌%◌, zero, suc, List, [], ◌∷◌, Outcome, ok, ◌>>=◌, ◌>>◌, assert,
  ltb, leb,
}
use lux_polaris.Buffer.{Buffer, readable_bytes, copy_from, append, prepend, retrieve}

-- The bytes of a number, most significant first.
abbrev pub big_endian : ℕ → ℕ → List ℕ
big_endian zero x = []
big_endian (suc w) x = big_endian w (x / 256) ++ x % 256 ∷ []

-- What <endian.h> and the machine do with an integer of `w` bytes: htobe and betoh, and its bytes in
-- memory. The laws say that the conversions are inverse, that a load reads what a store wrote, and
-- that a converted number lies in memory in network order.
pub record Host : Type 0 where
  pub htobe : ℕ → ℕ → ℕ
  pub betoh : ℕ → ℕ → ℕ
  pub store : ℕ → ℕ → List ℕ
  pub load : ℕ → List ℕ → ℕ
  pub betoh-htobe : (w x : ℕ) → x < 256 ^ w → betoh w (htobe w x) ≡ x
  pub load-store : (w x : ℕ) → x < 256 ^ w → load w (store w x) ≡ x
  pub htobe-lt : (w x : ℕ) → x < 256 ^ w → htobe w x < 256 ^ w
  pub store-htobe : (w x : ℕ) → x < 256 ^ w → store w (htobe w x) ≡ big_endian w x

module _ (host : Host) where
  -- `appendInt64`, `appendInt32` and `appendInt16`, for `w` 8, 4 and 2.
  unfoldable pub append_int : ℕ → ℕ → Buffer → Outcome Buffer
  append_int w x b = let be = host.htobe w x in append (host.store w be) b

  unfoldable pub prepend_int : ℕ → ℕ → Buffer → Outcome Buffer
  prepend_int w x b = let be = host.htobe w x in prepend (host.store w be) b

  -- `peekInt64`, `peekInt32` and `peekInt16`. `assert(be >= 0)` looks at the sign bit of the value
  -- before it is converted.
  unfoldable pub peek_int : ℕ → Buffer → Outcome ℕ
  peek_int w b = do
    assert (leb w (readable_bytes b))
    bytes ← copy_from b.reader_index w b.buffer
    let be = host.load w bytes
    assert (ltb (be * 2) (256 ^ w))
    ok (host.betoh w be)

  unfoldable pub read_int : ℕ → Buffer → Outcome (ℕ × Buffer)
  unfolding peek_int
  read_int w b = do result ← peek_int w b; rest ← retrieve w b; ok (result, rest)

-- `appendInt8`, `prependInt8`, `peekInt8` and `readInt8` convert nothing.
unfoldable pub append_int8 : ℕ → Buffer → Outcome Buffer
append_int8 x b = append (x ∷ []) b

unfoldable pub prepend_int8 : ℕ → Buffer → Outcome Buffer
prepend_int8 x b = prepend (x ∷ []) b

-- `*peek()`
abbrev pub first_byte : List ℕ → ℕ
first_byte [] = 0
first_byte (x ∷ xs) = x

unfoldable pub peek_int8 : Buffer → Outcome ℕ
peek_int8 b = do
  assert (leb 1 (readable_bytes b))
  bytes ← copy_from b.reader_index 1 b.buffer
  ok (first_byte bytes)

unfoldable pub read_int8 : Buffer → Outcome (ℕ × Buffer)
unfolding peek_int8
read_int8 b = do result ← peek_int8 b; rest ← retrieve 1 b; ok (result, rest)
