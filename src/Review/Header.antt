-- ===== src/Review/Header.antt =====
-- The regular expressions for a hunk header, `@@ -a,b +c,d @@ tail`, that diff_lines.py,
-- hunk_split.py, chunking.py and npm_lockfile_diff.py share; digits are ASCII.
pub mod Print
use dovi_ai_server.Base.{
  ℕ, Option, none, some, Text, codes, after_prefix, read_number, show, ◌++◌, ◌>>=◌,
}

pub record Header : Type 0 where
  pub old_start : ℕ
  pub old_count : Option ℕ
  pub new_start : ℕ
  pub new_count : Option ℕ
  pub tail : Text

-- `(?:,(\d+))?`: a comma with no digits behind it is left in place.
unfoldable pub read_count : Text → Option ℕ × Text
unfolding read_number after_prefix
read_count t = elim (after_prefix (codes ",") t >>= read_number) [
  | none ↦ (none, t)
  | some (n, rest) ↦ (some n, rest)
]

-- The counts and what stands behind them.
unfoldable pub parse_new : ℕ → Option ℕ → Text → Option Header
unfolding read_count
parse_new a b t = do
  t1 ← after_prefix (codes " +") t
  (c, t2) ← read_number t1
  let (d, t3) = read_count t2
  rest ← after_prefix (codes " @@") t3
  some (record { old_start = a; old_count = b; new_start = c; new_count = d; tail = rest })

unfoldable pub parse_header : Text → Option Header
unfolding parse_new
parse_header line = do
  t ← after_prefix (codes "@@ -") line
  (a, t1) ← read_number t
  let (b, t2) = read_count t1
  parse_new a b t2
