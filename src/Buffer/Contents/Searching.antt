-- ===== src/Buffer/Contents/Searching.antt =====
-- `findCRLF` and `findEOL`: the first place among the readable bytes, or none.
use lux_polaris.Prelude.{
  ℕ, zero, suc, ◌+◌, ◌-◌, ◌≤◌, ◌<◌, ◌≡◌, sym, ap₂, ◌∙◌, List, [], ◌∷◌, Option, none, some, ok,
  arith, get_elem?, ◌==◌, ◌&&◌, Bool-cases, inl, inr, drop, drop-slice, slice,
}
use lux_polaris.Buffer.{Buffer}
use lux_polaris.Buffer.Find.{cr, lf, search_crlf, search_eol, find_crlf, find_crlf_from, find_eol}
use lux_polaris.Buffer.Invariant.{IsValid, contents, sizes}

abbrev pub CrlfAt : List ℕ → ℕ → Type 0
CrlfAt bytes k = (get_elem? bytes k ≡ some cr) × (get_elem? bytes (suc k) ≡ some lf)

abbrev pub EolAt : List ℕ → ℕ → Type 0
EolAt bytes k = get_elem? bytes k ≡ some lf

-- The answer to a search that begins at index `i`: the first place where `P` holds, or that it holds
-- nowhere.
abbrev pub First : (ℕ → Type 0) → ℕ → Option ℕ → Type 0
First P i none = (k : ℕ) → ¬ P k
First P i (some j) = (k : ℕ) × (j ≡ i + k) × P k × ((m : ℕ) → m < k → ¬ P m)

-- One step of a search over a list.
First-suc :
    (P Q : ℕ → Type 0) (i : ℕ) (o : Option ℕ)
    → ((k : ℕ) → P (suc k) → Q k)
    → ((k : ℕ) → Q k → P (suc k))
    → ¬ P zero
    → First Q (suc i) o
    → First P i o
First-suc P Q i none back up miss f = nowhere
  where
    nowhere : (k : ℕ) → ¬ P k
    nowhere zero p = miss p
    nowhere (suc k) p = f k (back k p)
First-suc P Q i (some j) back up miss (k, e, q, before) = (suc k, omega arith, up k q, earlier)
  where
    earlier : (m : ℕ) → m < suc k → ¬ P m
    earlier zero h p = miss p
    earlier (suc m) h p = before m (omega arith) (back m p)

search_crlf-First : (i : ℕ) (bytes : List ℕ) → First (CrlfAt bytes) i (search_crlf i bytes)
unfolding search_crlf
search_crlf-First i [] = λ k p. cc
search_crlf-First i (x ∷ []) = λ k p. cc
search_crlf-First i (x ∷ y ∷ rest) = elim (Bool-cases ((x == cr) && (y == lf))) [
  | inl hit ↦ rw hit (zero, omega arith, (ground arith, ground arith), λ m h. absurd (omega arith))
  | inr miss ↦ rw miss (
      First-suc (CrlfAt (x ∷ y ∷ rest)) (CrlfAt (y ∷ rest)) i (search_crlf (suc i) (y ∷ rest))
        (λ k p. p) (λ k q. q) (λ p. ground arith) (search_crlf-First (suc i) (y ∷ rest)))
]

search_eol-First : (i : ℕ) (bytes : List ℕ) → First (EolAt bytes) i (search_eol i bytes)
unfolding search_eol
search_eol-First i [] = λ k p. cc
search_eol-First i (x ∷ rest) = elim (Bool-cases (x == lf)) [
  | inl hit ↦ rw hit (zero, omega arith, ground arith, λ m h. absurd (omega arith))
  | inr miss ↦ rw miss (
      First-suc (EolAt (x ∷ rest)) (EolAt rest) i (search_eol (suc i) rest) (λ k p. p) (λ k q. q)
        (λ p. ground arith) (search_eol-First (suc i) rest))
]

module _ {b : Buffer} (v : IsValid b) where
  -- `findCRLF` returns the first "\r\n" of the readable bytes, or nullptr where there is none.
  pub find_crlf_lem :
      (o : Option ℕ) × (find_crlf b ≡ ok o) × First (CrlfAt (contents b)) b.reader_index o
  unfolding find_crlf
  find_crlf_lem = (
    search_crlf b.reader_index (contents b),
    ground (arith, sizes v),
    search_crlf-First b.reader_index (contents b),
  )

  -- `findEOL` returns the first '\n' of the readable bytes, or nullptr where there is none.
  pub find_eol_lem :
      (o : Option ℕ) × (find_eol b ≡ ok o) × First (EolAt (contents b)) b.reader_index o
  unfolding find_eol
  find_eol_lem = (
    search_eol b.reader_index (contents b),
    ground (arith, sizes v),
    search_eol-First b.reader_index (contents b),
  )

  behind :
      (start : ℕ)
      → b.reader_index ≤ start
      → start ≤ b.writer_index
      → slice start (b.writer_index - start) b.buffer ≡ drop (start - b.reader_index) (contents b)
  behind start lo hi = sym (
      drop-slice (start - b.reader_index) b.reader_index (b.writer_index - b.reader_index) b.buffer
        (omega arith)
      ∙ ap₂ (λ i n. slice i n b.buffer) (omega arith) (omega arith))

  -- From a place among the readable bytes on, `findCRLF` searches the rest of them.
  pub find_crlf_from_lem :
      (start : ℕ)
      → b.reader_index ≤ start
      → start ≤ b.writer_index
      → (o : Option ℕ) × (find_crlf_from start b ≡ ok o)
        × First (CrlfAt (drop (start - b.reader_index) (contents b))) start o
  unfolding find_crlf_from
  find_crlf_from_lem start lo hi = (
    search_crlf start (drop (start - b.reader_index) (contents b)),
    ground (arith, sizes v, behind start lo hi),
    search_crlf-First start (drop (start - b.reader_index) (contents b)),
  )
