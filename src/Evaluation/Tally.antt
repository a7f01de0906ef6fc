-- ===== src/Evaluation/Tally.antt =====
-- app/evaluation/context_effect/metrics.py, the loop over the findings of a case in
-- `compute_metrics`.
use dovi_ai_server.Base.{
  ℕ, suc, ◌+◌, ◌≡◌, ◌↔◌, Bool, true, ◌&&◌, Option, none, some, List, [], ◌∷◌, ◌++◌, arith,
  if◌then◌else◌, Eq, ◌==◌, nat_eq, list_eq, triple_eq, ==_refl, ==_sound, any, contains, Text,
  codes, has_text, join,
}
use dovi_ai_server.Review.Schema.{ReviewComment}
use dovi_ai_server.Evaluation.Labels.{
  ExpectedIssue, CaseLabels, Classification, true_positive, false_positive, unjudged,
  matching_expected, classify_finding, is_critical_major,
}

-- The condition's values of the loop that do not hold a latency.
pub record Tally : Type 0 where
  pub finding_count : ℕ
  pub true_positive_count : ℕ
  pub false_positive_count : ℕ
  pub unjudged_count : ℕ
  pub critical_major_fp_count : ℕ
  pub matched_expected_ids : List (Text × Text)
  pub seen_case_ids : List Text
  pub total_expected : ℕ
  pub evidence_case_count : ℕ
  pub evidence_prompt_hits : ℕ
  pub evidence_linked_findings : ℕ
  pub cache_hit_total : ℕ
  pub cache_total : ℕ

abbrev pub no_tally : Tally
no_tally = record {
  finding_count = 0;
  true_positive_count = 0;
  false_positive_count = 0;
  unjudged_count = 0;
  critical_major_fp_count = 0;
  matched_expected_ids = [];
  seen_case_ids = [];
  total_expected = 0;
  evidence_case_count = 0;
  evidence_prompt_hits = 0;
  evidence_linked_findings = 0;
  cache_hit_total = 0;
  cache_total = 0;
}

abbrev pub id_same : Text × Text → Text × Text → Bool
id_same (case, issue) (case', issue') = case == case' && issue == issue'

id_same_sound : (p q : Text × Text) → id_same p q ≡ true → p ≡ q
id_same_sound (case, issue) (case', issue') h =
    ground (arith, ==_sound case case', ==_sound issue issue')

pub id_same_iff : (p q : Text × Text) → (id_same p q ≡ true) ↔ (p ≡ q)
id_same_iff p q = (id_same_sound p q, λ e. rw e (ground (arith, ==_refl q.0, ==_refl q.1)))

instance abbrev pub id_eq : Eq (Text × Text)
id_eq = record { same = id_same; same_iff = id_same_iff }

abbrev pub add_id : Text × Text → List (Text × Text) → List (Text × Text)
add_id id ids = if contains ids id then ids else id ∷ ids

abbrev pub add_matched : Text → Option ExpectedIssue → List (Text × Text) → List (Text × Text)
add_matched case none ids = ids
add_matched case (some e) ids = add_id (case, e.id) ids

abbrev pub add_classified : Classification → Bool → Tally → Tally
add_classified true_positive severe t = record t { true_positive_count = suc t.true_positive_count }
add_classified false_positive severe t = record t {
  false_positive_count = suc t.false_positive_count;
  critical_major_fp_count = (if severe then 1 else 0) + t.critical_major_fp_count;
}
add_classified unjudged severe t = record t {
  unjudged_count = suc t.unjudged_count;
  critical_major_fp_count = (if severe then 1 else 0) + t.critical_major_fp_count;
}

unfoldable pub haystack : ReviewComment → Text
unfolding join
haystack comment =
    comment.title
    ++ (codes " " ++ (comment.message ++ (codes " " ++ join (codes " ") comment.evidence)))

unfoldable pub is_linked : List Text → ReviewComment → Bool
unfolding any has_text haystack
is_linked changed_packages comment = any (λ pkg. has_text pkg (haystack comment)) changed_packages

unfoldable pub tally_finding : Text → List Text → CaseLabels → ReviewComment → Tally → Tally
unfolding matching_expected classify_finding is_linked contains
tally_finding case changed_packages labels comment t =
    add_classified (classify_finding comment labels 3) (is_critical_major comment.severity)
      (record t {
        finding_count = suc t.finding_count;
        matched_expected_ids =
            add_matched case (matching_expected comment labels.expected 3) t.matched_expected_ids;
        evidence_linked_findings =
            (if is_linked changed_packages comment then 1 else 0) + t.evidence_linked_findings;
      })

unfoldable pub tally_findings : Text → List Text → CaseLabels → List ReviewComment → Tally → Tally
unfolding tally_finding
tally_findings case changed_packages labels [] t = t
tally_findings case changed_packages labels (comment ∷ reviews) t =
    tally_findings case changed_packages labels reviews
      (tally_finding case changed_packages labels comment t)
