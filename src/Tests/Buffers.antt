-- ===== src/Tests/Buffers.antt =====
-- Runs of LuxPolaris/src/include/Buffer.h on a small buffer.
use lux_polaris.Prelude.{
  List, ap, subst, ok_injective, ℕ, ◌<◌, ◌≡◌, refl, [], ◌∷◌, ◌++◌, Option, ok, fault,
  assertion_failed, arith, ◌*◌, ◌^◌,
}
use lux_polaris.Buffer.{Buffer, retrieve, retrieve_as_string}
use lux_polaris.Buffer.Invariant.{IsValid, contents}
use lux_polaris.Buffer.Contents.Filling.{read_fd_lem}
use lux_polaris.Buffer.Contents.Searching.{First, EolAt, find_eol_lem}
use lux_polaris.Buffer.Contents.Network.{read_int_lem, read_int_aborts}
use lux_polaris.Buffer.Find.{find_eol}
use lux_polaris.Buffer.Fill.{got, read_fd}
use lux_polaris.Buffer.Ints.{read_int}
use lux_polaris.Buffer.Refinement.{
  Operation, appends, reads, Allowed, AllAllowed, call_each, serve_all, Refines, call_each-Refines,
}
use lux_polaris.Buffer.LittleEndian.{little_endian}

-- Five readable bytes behind a front area of 8, and two to spare.
abbrev pub small : Buffer
small = record {
  buffer = 0 ∷ 0 ∷ 0 ∷ 0 ∷ 0 ∷ 0 ∷ 0 ∷ 0 ∷ 65 ∷ 13 ∷ 10 ∷ 200 ∷ 66 ∷ 0 ∷ 0 ∷ [];
  reader_index = 8;
  writer_index = 13;
}

pub small-IsValid : IsValid small
small-IsValid = omega arith

read_fd_example :
    (r : Buffer) × (read_fd (λ n. got (1 ∷ 2 ∷ 3 ∷ [])) small ≡ ok (got (1 ∷ 2 ∷ 3 ∷ []), r))
    × IsValid r
    × (contents r ≡ contents small ++ 1 ∷ 2 ∷ 3 ∷ [])
read_fd_example =
    read_fd_lem small-IsValid (λ n. got (1 ∷ 2 ∷ 3 ∷ [])) (1 ∷ 2 ∷ 3 ∷ []) refl (omega arith)
      (omega arith)

find_eol_example :
    (o : Option ℕ) × (find_eol small ≡ ok o) × First (EolAt (contents small)) (small.reader_index) o
find_eol_example = find_eol_lem small-IsValid

-- The number 258 in front.
abbrev numbered : Buffer
numbered = record {
  buffer = 0 ∷ 0 ∷ 0 ∷ 0 ∷ 0 ∷ 0 ∷ 0 ∷ 0 ∷ 1 ∷ 2 ∷ 9 ∷ [];
  reader_index = 8;
  writer_index = 11;
}

numbered-IsValid : IsValid numbered
numbered-IsValid = omega arith

low_clear : little_endian.htobe 2 258 * 2 < 256 ^ 2
unfolding little_endian
low_clear = omega arith

read_int_example :
    (r : Buffer) × (read_int little_endian 2 numbered ≡ ok (258, r))
    × IsValid r
    × (contents r ≡ 9 ∷ [])
read_int_example =
    read_int_lem little_endian numbered-IsValid 2 258 (omega arith) (9 ∷ []) refl low_clear

-- The number 200 in front.
abbrev high : Buffer
high = record {
  buffer = 0 ∷ 0 ∷ 0 ∷ 0 ∷ 0 ∷ 0 ∷ 0 ∷ 0 ∷ 0 ∷ 200 ∷ [];
  reader_index = 8;
  writer_index = 10;
}

high-IsValid : IsValid high
high-IsValid = omega arith

read_int_aborts_example : read_int little_endian 2 high ≡ fault assertion_failed
read_int_aborts_example = read_int_aborts high-IsValid 1 200 [] (omega arith) (omega arith) refl

abbrev two_calls : List Operation
two_calls = reads 2 ∷ appends (1 ∷ 2 ∷ 3 ∷ []) ∷ []

two-AllAllowed : AllAllowed little_endian two_calls small
unfolding retrieve_as_string retrieve
two-AllAllowed = (
  omega arith,
  λ out r e. (
    subst {A = Buffer} (Allowed (appends (1 ∷ 2 ∷ 3 ∷ []))) (ap (λ p. p.1) (ok_injective e))
        (omega arith),
    λ out' r' e'. tt,
  ),
)

call_each-Refines_example :
    Refines little_endian
      (serve_all two_calls (contents small))
      (call_each little_endian two_calls small)
call_each-Refines_example = call_each-Refines little_endian two_calls small-IsValid two-AllAllowed
