-- ===== src/Review/Filter.antt =====
-- app/review/result_filter.py: which findings become inline comments, and which go to the summary.
pub mod Inline
pub mod Minor
use dovi_ai_server.Base.{
  ℕ, suc, ◌+◌, Bool, true, false, not, ◌&&◌, ◌||◌, List, [], ◌∷◌, ◌++◌, Text, codes, strip, is_nil,
  leb, ltb, nat_beq, if◌then◌else◌, ◌==◌, nat_eq, list_eq, triple_eq, keep, any, sort,
  first_of_each, contains,
}
use dovi_ai_server.Review.Schema.{Severity, ReviewComment, critical, major, minor, suggestion}

-- `_SEVERITY_ORDER`.
unfoldable pub severity_order : Severity → ℕ
severity_order critical = 0
severity_order major = 1
severity_order minor = 2
severity_order suggestion = 3

-- `severity in _INLINE_SEVERITIES`.
unfoldable pub is_inline : Severity → Bool
is_inline critical = true
is_inline major = true
is_inline minor = false
is_inline suggestion = false

-- The keyword arguments of `filter_reviews`.
pub record FilterOptions : Type 0 where
  pub min_confidence : ℕ
  pub max_comments : ℕ
  pub max_per_file : ℕ
  pub require_evidence : Bool

abbrev pub has_evidence : ReviewComment → Bool
has_evidence r = any (λ e. not (is_nil (strip e))) r.evidence

-- The test of the first comprehension.
unfoldable pub is_kept : FilterOptions → ReviewComment → Bool
is_kept o r =
    is_inline r.severity
    && leb o.min_confidence r.confidence
    && (not o.require_evidence || has_evidence r)

-- `a` does not come after `b` by the key `(severity order, -confidence)`.
unfoldable pub ranks_before : ReviewComment → ReviewComment → Bool
unfolding severity_order
ranks_before a b =
    ltb (severity_order a.severity) (severity_order b.severity)
    || (nat_beq (severity_order a.severity) (severity_order b.severity)
        && leb b.confidence a.confidence)

abbrev pub place : ReviewComment → Text × ℕ × Text
place r = (r.file_path, r.line, r.title)

-- `per_file[path] = per_file.get(path, 0) + 1`.
abbrev pub bump : Text → (Text → ℕ) → Text → ℕ
bump path per_file p = if path == p then suc (per_file p) else per_file p

-- The last loop; `n` is `len(result)`.
unfoldable pub cap_comments :
    FilterOptions → ℕ → (Text → ℕ) → List ReviewComment → List ReviewComment
cap_comments o n per_file [] = []
cap_comments o n per_file (r ∷ rs) =
    let full = leb o.max_per_file (per_file r.file_path) in
    let rest =
      cap_comments o (if full then n else suc n)
        (if full then per_file else bump r.file_path per_file) rs in
    if leb o.max_comments n then [] else if full then rest else r ∷ rest

unfoldable pub filter_reviews : FilterOptions → List ReviewComment → List ReviewComment
unfolding is_kept ranks_before cap_comments
filter_reviews o reviews =
    cap_comments o 0 (λ path. 0)
      (first_of_each place [] (sort ranks_before (keep (is_kept o) reviews)))

abbrev pub note_of : ReviewComment → Text
note_of r = r.title ++ (codes ": " ++ r.message)

-- The two `continue` tests of `summarize_minor`.
unfoldable pub is_minor_note : ℕ → ReviewComment → Bool
unfolding is_inline
is_minor_note min_confidence r =
    not (is_inline r.severity || ltb r.confidence min_confidence) && not (is_nil (strip r.message))

-- The loop of `summarize_minor` over `seen` and `result`.
unfoldable pub note_loop : ℕ → List Text → List ReviewComment → List Text
unfolding is_minor_note contains
note_loop min_confidence seen [] = []
note_loop min_confidence seen (r ∷ rs) =
    let adds = is_minor_note min_confidence r && not (contains seen (note_of r)) in
    let rest = note_loop min_confidence (if adds then note_of r ∷ seen else seen) rs in
    if adds then note_of r ∷ rest else rest

unfoldable pub summarize_minor : ℕ → List ReviewComment → List Text
unfolding note_loop
summarize_minor min_confidence reviews = note_loop min_confidence [] reviews
