-- ===== src/Evaluation/Counts.antt =====
-- The numbers that the loop of `compute_metrics` counts.
use dovi_ai_server.Base.{
  ℕ, suc, ◌+◌, ◌≤◌, ◌≡◌, inl, inr, Bool, true, false, Option, none, some, List, [], ◌∷◌, arith,
  if◌then◌else◌, Bool-cases, nat_eq, list_eq, triple_eq, is_nil, contains, Text,
}
use dovi_ai_server.Review.Schema.{ReviewComment, ReviewCompletedEvent}
use dovi_ai_server.Evaluation.Labels.{
  CaseLabels, Classification, true_positive, false_positive, unjudged, classify_finding,
  is_critical_major,
}
use dovi_ai_server.Evaluation.Tally.{
  Tally, add_classified, is_linked, tally_finding, tally_findings,
}
use dovi_ai_server.Evaluation.Metrics.{
  CaseRunResult, tally_expected, tally_evidence, tally_reviews, tally_case, tally_cases,
}

-- The parts stay within their sums.
abbrev pub Balanced : Tally → Type 0
Balanced t =
    (t.true_positive_count + (t.false_positive_count + t.unjudged_count) ≡ t.finding_count)
    × (t.critical_major_fp_count ≤ t.false_positive_count + t.unjudged_count)
    × (t.evidence_linked_findings ≤ t.finding_count)
    × (t.evidence_prompt_hits ≤ t.evidence_case_count)
    × (t.cache_hit_total ≤ t.cache_total)

if_one : (b : Bool) → (if b then 1 else 0) ≤ 1
if_one true = omega arith
if_one false = omega arith

add_classified-Balanced :
    (c : Classification) (severe linked : Bool) (t : Tally) (ids : List (Text × Text))
    → Balanced t
    → Balanced (
        add_classified c severe (record t {
          finding_count = suc t.finding_count;
          matched_expected_ids = ids;
          evidence_linked_findings = (if linked then 1 else 0) + t.evidence_linked_findings;
        }))
add_classified-Balanced true_positive severe linked t ids (a, b, c, d, e) =
    (omega (arith, a), b, omega (arith, c, if_one linked), d, e)
add_classified-Balanced false_positive severe linked t ids (a, b, c, d, e) =
    (omega (arith, a), omega (arith, b, if_one severe), omega (arith, c, if_one linked), d, e)
add_classified-Balanced unjudged severe linked t ids (a, b, c, d, e) =
    (omega (arith, a), omega (arith, b, if_one severe), omega (arith, c, if_one linked), d, e)

tally_findings-Balanced :
    (case : Text) (changed_packages : List Text) (labels : CaseLabels)
    (reviews : List ReviewComment) (t : Tally)
    → Balanced t
    → Balanced (tally_findings case changed_packages labels reviews t)
unfolding tally_findings tally_finding
tally_findings-Balanced case changed_packages labels [] t h = h
tally_findings-Balanced case changed_packages labels (comment ∷ reviews) t h =
    tally_findings-Balanced case changed_packages labels reviews _ (
      add_classified-Balanced (classify_finding comment labels 3)
        (is_critical_major comment.severity) (is_linked changed_packages comment) t _ h)

tally_expected-Balanced :
    (case : Text) (labels : Option CaseLabels) (t : Tally)
    → Balanced t
    → Balanced (tally_expected case labels t)
tally_expected-Balanced case none t h = h
tally_expected-Balanced case (some labels) t h = elim (Bool-cases (contains t.seen_case_ids case)) [
  | inl seen ↦ rw seen h
  | inr new ↦ rw new h
]

prompt_hits_le :
    (unchanged found : Bool) (n m : ℕ)
    → n ≤ m
    → (if unchanged then 0 else if found then 1 else 0) + n ≤ (if unchanged then 0 else 1) + m
prompt_hits_le true found n m h = omega (arith, h)
prompt_hits_le false true n m h = omega (arith, h)
prompt_hits_le false false n m h = omega (arith, h)

module _ {Latency : Type 0} (labels_by_case : Text → Option CaseLabels) where
  tally_evidence-Balanced :
      (result : CaseRunResult Latency) (t : Tally)
      → Balanced t
      → Balanced (tally_evidence labels_by_case result t)
  tally_evidence-Balanced result t (a, b, c, d, e) = (
    a,
    b,
    c,
    prompt_hits_le (is_nil result.changed_packages) result.evidence_in_prompt _ _ d,
    omega (arith, e),
  )

  tally_reviews-Balanced :
      (result : CaseRunResult Latency) (completed : Option ReviewCompletedEvent)
      (labels : Option CaseLabels) (t : Tally)
      → Balanced t
      → Balanced (tally_reviews labels_by_case result completed labels t)
  tally_reviews-Balanced result (some event) (some labels) t h =
      tally_findings-Balanced result.case_id result.changed_packages labels event.reviews t h
  tally_reviews-Balanced result (some event) none t h = h
  tally_reviews-Balanced result none labels t h = h

  pub tally_cases-Balanced :
      (results : List (CaseRunResult Latency)) (t : Tally)
      → Balanced t
      → Balanced (tally_cases labels_by_case results t)
  unfolding tally_cases tally_case
  tally_cases-Balanced [] t h = h
  tally_cases-Balanced (result ∷ results) t h =
      let labels = labels_by_case result.case_id in
      let counted = tally_expected result.case_id labels t in
      tally_cases-Balanced results (tally_case labels_by_case result t) (
        tally_reviews-Balanced result result.completed labels
          (tally_evidence labels_by_case result counted)
          (tally_evidence-Balanced result counted
            (tally_expected-Balanced result.case_id labels t h)))
