-- ===== src/Prelude/Words.antt =====
-- `size_t` arithmetic, which wraps at 2 ^ 64.
use Prim.Native.Nat.{ℕ, ◌+◌, ◌-◌, ◌%◌, ◌^◌}

abbrev pub size_mod : ℕ
size_mod = 2 ^ 64

abbrev pub add_size : ℕ → ℕ → ℕ
add_size a b = (a + b) % size_mod

abbrev pub sub_size : ℕ → ℕ → ℕ
sub_size a b = (a + size_mod - b) % size_mod

-- std::vector<char>::max_size(): resize beyond it throws std::length_error.
abbrev pub max_size : ℕ
max_size = 2 ^ 63 - 1
