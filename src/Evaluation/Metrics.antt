-- ===== src/Evaluation/Metrics.antt =====
-- app/evaluation/context_effect/metrics.py, `compute_metrics` and `pending_judgments`. A rate is its
-- numerator and denominator; latencies are values of a type that is a parameter, and so is
-- `statistics.quantiles`. `labels_by_case case` is `labels_by_case.get(case)`.
use dovi_ai_server.Base.{
  ℕ, zero, suc, ◌+◌, ◌-◌, min, Bool, true, false, Option, none, some, List, [], ◌∷◌, ◌++◌, map,
  if◌then◌else◌, nat_eq, list_eq, triple_eq, length, get_elem?, is_nil, keep, contains, Text,
}
use dovi_ai_server.Review.Schema.{
  ReviewCompletedEvent, ReviewFailedEvent, FailureReason, parse_error, timeout, server_error,
  context_overflow, output_truncated,
}
use dovi_ai_server.Evaluation.Labels.{ExpectedIssue, CaseLabels}
use dovi_ai_server.Evaluation.Tally.{Tally, no_tally, tally_findings}

pub data Condition : Type 0 where
  condition_a condition_b condition_c : Condition

abbrev pub same_condition : Condition → Condition → Bool
same_condition condition_a condition_a = true
same_condition condition_b condition_b = true
same_condition condition_c condition_c = true
same_condition _ _ = false

abbrev pub same_reason : FailureReason → FailureReason → Bool
same_reason parse_error parse_error = true
same_reason timeout timeout = true
same_reason server_error server_error = true
same_reason context_overflow context_overflow = true
same_reason output_truncated output_truncated = true
same_reason _ _ = false

unfoldable pub add_reason : FailureReason → List (FailureReason × ℕ) → List (FailureReason × ℕ)
add_reason reason [] = (reason, 1) ∷ []
add_reason reason ((r, n) ∷ counts) =
    let later = add_reason reason counts in
    if same_reason r reason then (r, suc n) ∷ counts else (r, n) ∷ later

-- A rate, where its denominator is not zero.
abbrev pub rate : ℕ → ℕ → Option (ℕ × ℕ)
rate n zero = none
rate n (suc d) = some (n, suc d)

pub record CaseRunResult (Latency : Type 0) : Type 0 where
  pub case_id : Text
  pub condition : Condition
  pub completed : Option ReviewCompletedEvent
  pub failed : Option ReviewFailedEvent
  pub evidence_in_prompt : Bool
  pub evidence_latency_ms : Option Latency
  pub cache_hits : ℕ
  pub cache_misses : ℕ
  pub changed_packages : List Text

pub record ConditionMetrics (Latency : Type 0) : Type 0 where
  pub condition : Condition
  pub case_count : ℕ
  pub failure_count : ℕ
  pub failures_by_reason : List (FailureReason × ℕ)
  pub finding_count : ℕ
  pub true_positive_count : ℕ
  pub false_positive_count : ℕ
  pub unjudged_count : ℕ
  pub false_positive_rate : Option (ℕ × ℕ)
  pub recall : Option (ℕ × ℕ)
  pub critical_major_false_positive_count : ℕ
  pub evidence_prompt_rate : Option (ℕ × ℕ)
  pub evidence_linked_finding_rate : Option (ℕ × ℕ)
  pub evidence_latency_p50_ms : Option Latency
  pub evidence_latency_p95_ms : Option Latency
  pub cache_hit_rate : Option (ℕ × ℕ)

abbrev pub expected_of : Option CaseLabels → List ExpectedIssue
expected_of none = []
expected_of (some labels) = labels.expected

abbrev pub only_c {ℓ} : {A : Type ℓ} → Condition → Option A → Option A
only_c condition_a value = none
only_c condition_b value = none
only_c condition_c value = value

abbrev pub tally_expected : Text → Option CaseLabels → Tally → Tally
tally_expected case none t = t
tally_expected case (some labels) t = if contains t.seen_case_ids case then t else record t {
  seen_case_ids = case ∷ t.seen_case_ids;
  total_expected = t.total_expected + length labels.expected;
}

abbrev pub reason_added :
    Option ReviewFailedEvent → List (FailureReason × ℕ) → List (FailureReason × ℕ)
reason_added none counts = counts
reason_added (some event) counts = add_reason event.reason counts

abbrev pub has_failed : Option ReviewFailedEvent → Bool
has_failed none = false
has_failed (some event) = true

module _ {Latency : Type 0} where
  unfoldable pub reasons_of :
      List (CaseRunResult Latency) → List (FailureReason × ℕ) → List (FailureReason × ℕ)
  unfolding add_reason
  reasons_of [] counts = counts
  reasons_of (result ∷ results) counts = reasons_of results (reason_added result.failed counts)

  abbrev pub added_latency : Option Latency → List Latency → List Latency
  added_latency none latencies = latencies
  added_latency (some ms) latencies = ms ∷ latencies

  unfoldable pub latencies_of : List (CaseRunResult Latency) → List Latency
  latencies_of [] = []
  latencies_of (result ∷ results) = added_latency result.evidence_latency_ms (latencies_of results)

  unfoldable pub group_result :
      CaseRunResult Latency
      → List (Condition × List (CaseRunResult Latency))
      → List (Condition × List (CaseRunResult Latency))
  group_result result [] = (result.condition, result ∷ []) ∷ []
  group_result result ((condition, group) ∷ groups) =
      let later = group_result result groups in
      if same_condition condition result.condition
      then (condition, group ++ (result ∷ [])) ∷ groups
      else (condition, group) ∷ later

  unfoldable pub by_condition :
      List (CaseRunResult Latency)
      → List (Condition × List (CaseRunResult Latency))
      → List (Condition × List (CaseRunResult Latency))
  unfolding group_result
  by_condition [] groups = groups
  by_condition (result ∷ results) groups = by_condition results (group_result result groups)

module _ {Latency : Type 0} (labels_by_case : Text → Option CaseLabels) where
  abbrev pub tally_evidence : CaseRunResult Latency → Tally → Tally
  tally_evidence result t = record t {
    evidence_case_count = (if is_nil result.changed_packages then 0 else 1) + t.evidence_case_count;
    evidence_prompt_hits =
        (if is_nil result.changed_packages then 0 else if result.evidence_in_prompt then 1 else 0)
        + t.evidence_prompt_hits;
    cache_hit_total = t.cache_hit_total + result.cache_hits;
    cache_total = t.cache_total + (result.cache_hits + result.cache_misses);
  }

  abbrev pub tally_reviews :
      CaseRunResult Latency → Option ReviewCompletedEvent → Option CaseLabels → Tally → Tally
  tally_reviews result (some event) (some labels) t =
      tally_findings result.case_id result.changed_packages labels event.reviews t
  tally_reviews result (some event) none t = t
  tally_reviews result none labels t = t

  unfoldable pub tally_case : CaseRunResult Latency → Tally → Tally
  unfolding tally_findings contains
  tally_case result t =
      let labels = labels_by_case result.case_id in
      tally_reviews result result.completed labels
        (tally_evidence result (tally_expected result.case_id labels t))

  unfoldable pub tally_cases : List (CaseRunResult Latency) → Tally → Tally
  unfolding tally_case
  tally_cases [] t = t
  tally_cases (result ∷ results) t = tally_cases results (tally_case result t)

  module _ (quantiles : List Latency → List Latency) where
    -- `pct` is 50 or 95.
    unfoldable pub percentile : List Latency → ℕ → Option Latency
    percentile [] pct = none
    percentile (v ∷ []) pct = some v
    percentile (v ∷ w ∷ values) pct =
        let cuts = quantiles (v ∷ w ∷ values) in get_elem? cuts (min (pct - 1) (length cuts - 1))

    unfoldable pub metrics_of : Condition → List (CaseRunResult Latency) → ConditionMetrics Latency
    unfolding tally_cases reasons_of latencies_of percentile keep
    metrics_of condition results =
        let t = tally_cases results no_tally in
        let latencies = latencies_of results in
        record {
          condition = condition;
          case_count = length results;
          failure_count = length (keep (λ r. has_failed r.failed) results);
          failures_by_reason = reasons_of results [];
          finding_count = t.finding_count;
          true_positive_count = t.true_positive_count;
          false_positive_count = t.false_positive_count;
          unjudged_count = t.unjudged_count;
          false_positive_rate = rate (t.false_positive_count + t.unjudged_count) t.finding_count;
          recall = rate (length t.matched_expected_ids) t.total_expected;
          critical_major_false_positive_count = t.critical_major_fp_count;
          evidence_prompt_rate =
              only_c condition (rate t.evidence_prompt_hits t.evidence_case_count);
          evidence_linked_finding_rate =
              only_c condition (rate t.evidence_linked_findings t.finding_count);
          evidence_latency_p50_ms = only_c condition (percentile latencies 50);
          evidence_latency_p95_ms = only_c condition (percentile latencies 95);
          cache_hit_rate = only_c condition (rate t.cache_hit_total t.cache_total);
        }

    unfoldable pub compute_metrics :
        List (CaseRunResult Latency) → List (Condition × ConditionMetrics Latency)
    unfolding by_condition metrics_of
    compute_metrics results = map (λ g. (g.0, metrics_of g.0 g.1)) (by_condition results [])
