-- ===== src/Evaluation/Pending.antt =====
-- app/evaluation/context_effect/metrics.py, `pending_judgments`. `labels_by_case case` is
-- `labels_by_case.get(case)`.
use dovi_ai_server.Base.{
  ℕ, suc, ◌+◌, ◌≡◌, refl, ap, inl, inr, Bool, true, false, Option, none, some, List, [], ◌∷◌, ◌++◌,
  map, arith, if◌then◌else◌, Bool-cases, nat_eq, list_eq, triple_eq, length, length-append, keep,
  contains, Text,
}
use dovi_ai_server.Review.Schema.{ReviewComment, ReviewCompletedEvent}
use dovi_ai_server.Evaluation.Labels.{
  CaseLabels, Classification, true_positive, false_positive, unjudged, classify_finding,
  is_critical_major,
}
use dovi_ai_server.Evaluation.Tally.{Tally, no_tally, add_classified, tally_finding, tally_findings}
use dovi_ai_server.Evaluation.Metrics.{
  Condition, CaseRunResult, tally_expected, tally_evidence, tally_reviews, tally_case, tally_cases,
  metrics_of,
}

pub record PendingJudgment : Type 0 where
  pub case_id : Text
  pub condition : Condition
  pub file_path : Text
  pub line : ℕ
  pub title : Text
  pub message : Text

abbrev pub is_unjudged : Classification → Bool
is_unjudged true_positive = false
is_unjudged false_positive = false
is_unjudged unjudged = true

module _ {Latency : Type 0} where
  abbrev pub pending_judgment : CaseRunResult Latency → ReviewComment → PendingJudgment
  pending_judgment result comment = record {
    case_id = result.case_id;
    condition = result.condition;
    file_path = comment.file_path;
    line = comment.line;
    title = comment.title;
    message = comment.message;
  }

  unfoldable pub pending_of :
      CaseRunResult Latency → Option ReviewCompletedEvent → Option CaseLabels → List PendingJudgment
  unfolding keep classify_finding
  pending_of result none labels = []
  pending_of result (some event) none = []
  pending_of result (some event) (some labels) =
      map (pending_judgment result)
        (keep (λ comment. is_unjudged (classify_finding comment labels 3)) event.reviews)

  unfoldable pub pending_judgments :
      (Text → Option CaseLabels) → List (CaseRunResult Latency) → List PendingJudgment
  unfolding pending_of
  pending_judgments labels_by_case [] = []
  pending_judgments labels_by_case (result ∷ results) =
      pending_of result result.completed (labels_by_case result.case_id)
      ++ pending_judgments labels_by_case results

add_classified-unjudged :
    (c : Classification) (severe : Bool) (t : Tally)
    → (add_classified c severe t).unjudged_count
      ≡ (if is_unjudged c then 1 else 0) + t.unjudged_count
add_classified-unjudged true_positive severe t = omega arith
add_classified-unjudged false_positive severe t = omega arith
add_classified-unjudged unjudged severe t = omega arith

length-cons_if {ℓ} :
    {A : Type ℓ} (b : Bool) (x : A) (xs : List A)
    → length (if b then x ∷ xs else xs) ≡ (if b then 1 else 0) + length xs
length-cons_if true x xs = omega arith
length-cons_if false x xs = omega arith

tally_findings-unjudged :
    (case : Text) (changed_packages : List Text) (labels : CaseLabels)
    (reviews : List ReviewComment) (t : Tally)
    → (tally_findings case changed_packages labels reviews t).unjudged_count
      ≡ length (keep (λ comment. is_unjudged (classify_finding comment labels 3)) reviews)
        + t.unjudged_count
unfolding tally_findings tally_finding keep
tally_findings-unjudged case changed_packages labels [] t = omega arith
tally_findings-unjudged case changed_packages labels (comment ∷ reviews) t =
    let c = classify_finding comment labels 3 in
    omega (
      arith,
      tally_findings-unjudged case changed_packages labels reviews
          (tally_finding case changed_packages labels comment t),
      add_classified-unjudged c (is_critical_major comment.severity) _,
      length-cons_if (is_unjudged c) comment
          (keep (λ comment. is_unjudged (classify_finding comment labels 3)) reviews),
    )

length-map {ℓ κ} :
    {A : Type ℓ} {B : Type κ} (f : A → B) (xs : List A) → length (map f xs) ≡ length xs
length-map f [] = refl
length-map f (x ∷ xs) = ap (λ n. suc n) (length-map f xs)

tally_expected-unjudged :
    (case : Text) (labels : Option CaseLabels) (t : Tally)
    → (tally_expected case labels t).unjudged_count ≡ t.unjudged_count
tally_expected-unjudged case none t = refl
tally_expected-unjudged case (some labels) t = elim (Bool-cases (contains t.seen_case_ids case)) [
  | inl seen ↦ rw seen refl
  | inr new ↦ rw new refl
]

module _ {Latency : Type 0} (labels_by_case : Text → Option CaseLabels) where
  tally_reviews-unjudged :
      (result : CaseRunResult Latency) (completed : Option ReviewCompletedEvent)
      (labels : Option CaseLabels) (t : Tally)
      → (tally_reviews labels_by_case result completed labels t).unjudged_count
        ≡ length (pending_of result completed labels) + t.unjudged_count
  unfolding pending_of
  tally_reviews-unjudged result none labels t = omega arith
  tally_reviews-unjudged result (some event) none t = omega arith
  tally_reviews-unjudged result (some event) (some labels) t =
      rw
        (length-map (pending_judgment result)
          (keep (λ comment. is_unjudged (classify_finding comment labels 3)) event.reviews))
        (tally_findings-unjudged result.case_id result.changed_packages labels event.reviews t)

  tally_cases-unjudged :
      (results : List (CaseRunResult Latency)) (t : Tally)
      → (tally_cases labels_by_case results t).unjudged_count
        ≡ length (pending_judgments labels_by_case results) + t.unjudged_count
  unfolding tally_cases tally_case pending_judgments
  tally_cases-unjudged [] t = omega arith
  tally_cases-unjudged (result ∷ results) t =
      let labels = labels_by_case result.case_id in
      let counted = tally_expected result.case_id labels t in
      omega (
        arith,
        tally_cases-unjudged results (tally_case labels_by_case result t),
        tally_reviews-unjudged result result.completed labels
            (tally_evidence labels_by_case result counted),
        tally_expected-unjudged result.case_id labels t,
        length-append (pending_of result result.completed labels)
            (pending_judgments labels_by_case results),
      )

  -- For results of one condition, whatever the labels and the quantiles, the metrics count as
  -- unjudged as many findings as `pending_judgments` lists for these results.
  pub metrics_of-pending_judgments :
      (quantiles : List Latency → List Latency) (condition : Condition)
      (results : List (CaseRunResult Latency))
      → (metrics_of labels_by_case quantiles condition results).unjudged_count
        ≡ length (pending_judgments labels_by_case results)
  unfolding metrics_of
  metrics_of-pending_judgments quantiles condition results =
      omega (arith, tally_cases-unjudged results no_tally)
