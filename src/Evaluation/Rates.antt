-- ===== src/Evaluation/Rates.antt =====
-- What the metrics of every condition satisfy.
use dovi_ai_server.Base.{
  ℕ, zero, suc, ◌+◌, ◌≤◌, ◌<◌, ◌≡◌, refl, Option, none, some, List, [], ◌∷◌, map, arith, nat_eq,
  list_eq, triple_eq, All, Text,
}
use dovi_ai_server.Evaluation.Labels.{CaseLabels}
use dovi_ai_server.Evaluation.Tally.{no_tally}
use dovi_ai_server.Evaluation.Metrics.{
  Condition, condition_a, condition_b, condition_c, CaseRunResult, ConditionMetrics, rate, only_c,
  by_condition, metrics_of, compute_metrics,
}
use dovi_ai_server.Evaluation.Counts.{tally_cases-Balanced}
use dovi_ai_server.Evaluation.Recall.{tally_cases-recall}

-- A fraction from zero to one, if there is one.
abbrev pub IsRate : Option (ℕ × ℕ) → Type 0
IsRate none = Unit
IsRate (some (n, d)) = n ≤ d × 0 < d

abbrev pub AreRates : {Latency : Type 0} → ConditionMetrics Latency → Type 0
AreRates m =
    (m.true_positive_count + (m.false_positive_count + m.unjudged_count) ≡ m.finding_count)
    × (m.critical_major_false_positive_count ≤ m.false_positive_count + m.unjudged_count)
    × IsRate m.false_positive_rate
    × IsRate m.recall
    × IsRate m.evidence_prompt_rate
    × IsRate m.evidence_linked_finding_rate
    × IsRate m.cache_hit_rate

rate-IsRate : (n d : ℕ) → n ≤ d → IsRate (rate n d)
rate-IsRate n zero h = tt
rate-IsRate n (suc d) h = (h, omega arith)

only_c-IsRate : (c : Condition) (r : Option (ℕ × ℕ)) → IsRate r → IsRate (only_c c r)
only_c-IsRate condition_a r h = tt
only_c-IsRate condition_b r h = tt
only_c-IsRate condition_c r h = h

module _ {Latency : Type 0} (labels_by_case : Text → Option CaseLabels)
    (quantiles : List Latency → List Latency) where
  metrics_of-AreRates :
      (condition : Condition) (results : List (CaseRunResult Latency))
      → AreRates (metrics_of labels_by_case quantiles condition results)
  unfolding metrics_of
  metrics_of-AreRates condition results =
      let (a, b, c, d, e) =
        tally_cases-Balanced labels_by_case results no_tally
          (refl, omega arith, omega arith, omega arith, omega arith) in
      (
        a,
        b,
        rate-IsRate _ _ (omega (arith, a)),
        rate-IsRate _ _ (tally_cases-recall labels_by_case results),
        only_c-IsRate condition _ (rate-IsRate _ _ d),
        only_c-IsRate condition _ (rate-IsRate _ _ c),
        only_c-IsRate condition _ (rate-IsRate _ _ e),
      )

  metrics_of_each-AreRates :
      (groups : List (Condition × List (CaseRunResult Latency)))
      → All
          (λ (m : Condition × ConditionMetrics Latency). AreRates m.1)
          (map (λ g. (g.0, metrics_of labels_by_case quantiles g.0 g.1)) groups)
  metrics_of_each-AreRates [] = tt
  metrics_of_each-AreRates (g ∷ groups) =
      (metrics_of-AreRates g.0 g.1, metrics_of_each-AreRates groups)

  -- For any results, labels and quantiles, the metrics of every condition count each finding in
  -- one of the three classes; the critical and major false positives are at most the false
  -- positives and the unjudged; and the false positive rate, the recall, the two evidence rates
  -- and the cache hit rate, where they are given, have a denominator that is not zero and a
  -- numerator that is not above it.
  pub compute_metrics-AreRates :
      (results : List (CaseRunResult Latency))
      → All
          (λ (m : Condition × ConditionMetrics Latency). AreRates m.1)
          (compute_metrics labels_by_case quantiles results)
  unfolding compute_metrics
  compute_metrics-AreRates results = metrics_of_each-AreRates (by_condition results [])
