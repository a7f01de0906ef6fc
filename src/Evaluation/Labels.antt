-- ===== src/Evaluation/Labels.antt =====
-- app/evaluation/context_effect/schema.py and metrics.py: a person's labels and the class that they
-- give a finding. Lines are natural numbers.
use dovi_ai_server.Base.{
  ℕ, ◌+◌, ◌-◌, Bool, true, false, ◌&&◌, Option, none, some, List, [], ◌∷◌, ◌++◌, leb, if◌then◌else◌,
  ◌==◌, list_beq, nat_eq, list_eq, triple_eq, Text, codes, show,
}
use dovi_ai_server.Review.Schema.{Severity, critical, major, minor, suggestion, ReviewComment}

pub record ExpectedIssue : Type 0 where
  pub id : Text
  pub file_path : Text
  pub line_start : ℕ
  pub line_end : ℕ
  pub severity : Severity
  pub description : Text

pub data Judgment : Type 0 where
  judged_valid judged_false : Judgment

pub record CaseLabels : Type 0 where
  pub case_id : Text
  pub expected : List ExpectedIssue
  pub judgments : List (Text × Judgment)

pub data Classification : Type 0 where
  true_positive false_positive unjudged : Classification

-- The lines `line_start - tolerance` to `line_end + tolerance`.
unfoldable pub matching_expected : ReviewComment → List ExpectedIssue → ℕ → Option ExpectedIssue
unfolding list_beq
matching_expected comment [] tolerance = none
matching_expected comment (e ∷ issues) tolerance =
    let later = matching_expected comment issues tolerance in
    if e.file_path == comment.file_path
      && leb (e.line_start - tolerance) comment.line
      && leb comment.line (e.line_end + tolerance)
    then some e
    else later

unfoldable pub judgment_of : Text → List (Text × Judgment) → Option Judgment
unfolding list_beq
judgment_of key [] = none
judgment_of key ((k, j) ∷ judgments) =
    let later = judgment_of key judgments in if k == key then some j else later

unfoldable pub judgment_key : ReviewComment → Text
unfolding show
judgment_key comment =
    comment.file_path ++ (codes ":" ++ (show comment.line ++ (codes ":" ++ comment.title)))

abbrev pub by_judgment : Option Judgment → Classification
by_judgment (some judged_valid) = true_positive
by_judgment (some judged_false) = false_positive
by_judgment none = unjudged

abbrev pub by_match : Option ExpectedIssue → Classification → Classification
by_match (some e) other = true_positive
by_match none other = other

unfoldable pub classify_finding : ReviewComment → CaseLabels → ℕ → Classification
unfolding matching_expected judgment_of judgment_key
classify_finding comment labels tolerance =
    by_match (matching_expected comment labels.expected tolerance)
      (by_judgment (judgment_of (judgment_key comment) labels.judgments))

abbrev pub is_critical_major : Severity → Bool
is_critical_major critical = true
is_critical_major major = true
is_critical_major minor = false
is_critical_major suggestion = false
