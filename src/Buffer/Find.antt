-- ===== src/Buffer/Find.antt =====
-- The searches of LuxPolaris/src/include/Buffer.h. A pointer into the buffer is an index into its
-- storage, and nullptr is `none`.
use lux_polaris.Prelude.{
  ℕ, suc, List, [], ◌∷◌, Option, none, some, Outcome, ok, ◌>>=◌, ◌>>◌, assert, leb, ◌==◌, ◌&&◌,
  if◌then◌else◌,
}
use lux_polaris.Prelude.Words.{sub_size}
use lux_polaris.Buffer.{Buffer, readable_bytes, copy_from}

abbrev pub cr : ℕ
cr = 13

abbrev pub lf : ℕ
lf = 10

-- std::search for "\r\n": how far behind index `i` it begins.
unfoldable pub search_crlf : ℕ → List ℕ → Option ℕ
search_crlf i [] = none
search_crlf i (x ∷ []) = none
search_crlf i (x ∷ y ∷ rest) =
    let later = search_crlf (suc i) (y ∷ rest) in if (x == cr) && (y == lf) then some i else later

-- memchr for '\n'.
unfoldable pub search_eol : ℕ → List ℕ → Option ℕ
search_eol i [] = none
search_eol i (x ∷ rest) = let later = search_eol (suc i) rest in if x == lf then some i else later

unfoldable pub find_crlf_from : ℕ → Buffer → Outcome (Option ℕ)
unfolding search_crlf
find_crlf_from start b = do
  assert (leb b.reader_index start)
  assert (leb start b.writer_index)
  bytes ← copy_from start (sub_size b.writer_index start) b.buffer
  ok (search_crlf start bytes)

unfoldable pub find_crlf : Buffer → Outcome (Option ℕ)
unfolding search_crlf
find_crlf b = do
  bytes ← copy_from b.reader_index (sub_size b.writer_index b.reader_index) b.buffer
  ok (search_crlf b.reader_index bytes)

unfoldable pub find_eol_from : ℕ → Buffer → Outcome (Option ℕ)
unfolding search_eol
find_eol_from start b = do
  assert (leb b.reader_index start)
  assert (leb start b.writer_index)
  bytes ← copy_from start (sub_size b.writer_index start) b.buffer
  ok (search_eol start bytes)

unfoldable pub find_eol : Buffer → Outcome (Option ℕ)
unfolding search_eol
find_eol b = do
  bytes ← copy_from b.reader_index (readable_bytes b) b.buffer
  ok (search_eol b.reader_index bytes)
