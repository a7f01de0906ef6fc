-- ===== src/Tests/Evaluations.antt =====
-- Metrics of a small evaluation.
use dovi_ai_server.Base.{
  ℕ, ◌≡◌, refl, true, Option, none, some, List, [], ◌∷◌, map, if◌then◌else◌, ◌==◌, nat_eq, list_eq,
  triple_eq, length, All, Text, codes, show,
}
use dovi_ai_server.Review.Schema.{
  ReviewComment, ReviewCompletedEvent, ReviewFailedEvent, timeout, minor, critical,
}
use dovi_ai_server.Evaluation.Labels.{CaseLabels, judged_false, false_positive, classify_finding}
use dovi_ai_server.Evaluation.Metrics.{
  Condition, condition_b, condition_c, CaseRunResult, ConditionMetrics, metrics_of, compute_metrics,
}
use dovi_ai_server.Evaluation.Pending.{pending_judgments, metrics_of-pending_judgments}
use dovi_ai_server.Evaluation.Rates.{AreRates, compute_metrics-AreRates}
use dovi_ai_server.Evaluation.Tables.{ReviewFeedbackEvent, Tables, no_rows}
use dovi_ai_server.Evaluation.Repository.{
  save_completed, save_failed, upsert_feedback, make_review_job_id, parse_review_job_id,
}
use dovi_ai_server.Evaluation.Repository.Keys.{
  saves_completed, saves_failed, saves_feedback, reached_none, reached_by, IsConsistent,
  Reached-IsConsistent,
}
use dovi_ai_server.Evaluation.Repository.Ids.{parse_review_job_id-make_review_job_id}
use dovi_ai_server.Tests.Prompts.{finding}

abbrev case_labels : Text → Option CaseLabels
case_labels case =
    if case == codes "c1"
    then some (record {
      case_id = codes "c1";
      expected =
          record {
            id = codes "i1";
            file_path = codes "a.py";
            line_start = 5;
            line_end = 6;
            severity = critical;
            description = [];
          }
          ∷ [];
      judgments = (codes "b.py:2:leak", judged_false) ∷ [];
    })
    else none

abbrev event : List ReviewComment → ReviewCompletedEvent
event reviews = record {
  review_job_id = codes "j";
  repository_id = 1;
  pr_number = 2;
  head_sha = codes "h";
  summary = [];
  reviews = reviews;
  model_version = [];
  prompt_version = [];
}

abbrev first_run : CaseRunResult ℕ
first_run = record {
  case_id = codes "c1";
  condition = condition_c;
  completed = some (
      event (
        finding
        ∷ record finding { line = 9 }
        ∷ record finding { file_path = codes "b.py" }
        ∷ record finding { file_path = codes "c.py"; severity = minor; message = codes "uses ky" }
        ∷ []));
  failed = none;
  evidence_in_prompt = true;
  evidence_latency_ms = some 40;
  cache_hits = 1;
  cache_misses = 2;
  changed_packages = codes "ky" ∷ [];
}

abbrev failed_run : CaseRunResult ℕ
failed_run = record first_run {
  completed = none;
  failed = some (record { review_job_id = codes "j"; head_sha = codes "h"; reason = timeout });
  condition = condition_b;
}

abbrev runs : List (CaseRunResult ℕ)
runs = first_run ∷ failed_run ∷ first_run ∷ []

judged_run :
    classify_finding
      (record finding { file_path = codes "b.py" })
      (record { case_id = []; expected = []; judgments = (codes "b.py:2:leak", judged_false) ∷ [] })
      3
    ≡ false_positive
unfolding classify_finding show
judged_run = refl

recall_of_runs :
    map (λ m. m.1.recall) (compute_metrics case_labels (λ cuts. cuts) runs)
    ≡ some (1, 1) ∷ some (0, 1) ∷ []
unfolding compute_metrics show
recall_of_runs = refl

false_positive_rate_of_runs :
    map (λ m. m.1.false_positive_rate) (compute_metrics case_labels (λ cuts. cuts) runs)
    ≡ some (4, 8) ∷ none ∷ []
unfolding compute_metrics show
false_positive_rate_of_runs = refl

linked_rate_of_runs :
    map (λ m. m.1.evidence_linked_finding_rate) (compute_metrics case_labels (λ cuts. cuts) runs)
    ≡ some (2, 8) ∷ none ∷ []
unfolding compute_metrics show
linked_rate_of_runs = refl

compute_metrics-AreRates_example :
    All
      (λ (m : Condition × ConditionMetrics ℕ). AreRates m.1)
      (compute_metrics case_labels (λ cuts. cuts) runs)
compute_metrics-AreRates_example = compute_metrics-AreRates case_labels (λ cuts. cuts) runs

metrics_of-pending_judgments_example :
    (metrics_of case_labels (λ cuts. cuts) condition_c (first_run ∷ [])).unjudged_count
    ≡ length (pending_judgments case_labels (first_run ∷ []))
metrics_of-pending_judgments_example =
    metrics_of-pending_judgments case_labels (λ cuts. cuts) condition_c (first_run ∷ [])

parse_review_job_id-make_review_job_id_example :
    parse_review_job_id (make_review_job_id 12 7 (codes "a:b")) ≡ some (12, 7, codes "a:b")
parse_review_job_id-make_review_job_id_example =
    parse_review_job_id-make_review_job_id 12 7 (codes "a:b")

abbrev failure : ReviewFailedEvent
failure = record { review_job_id = codes "1:2:h"; head_sha = codes "h"; reason = timeout }

abbrev feedback : Text → ReviewFeedbackEvent
feedback job = record { review_job_id = job; finding_index = 0; reflected = true; reason = none }

abbrev saved : Tables
saved = upsert_feedback 8 (feedback (codes "j")) (save_completed 7 (event []) no_rows)

abbrev or_no_rows : Option Tables → Tables
or_no_rows none = no_rows
or_no_rows (some db) = db

failure_saved : save_failed 9 failure saved ≡ some (or_no_rows (save_failed 9 failure saved))
unfolding save_failed parse_review_job_id
failure_saved = refl

Reached-IsConsistent_example :
    IsConsistent
      (upsert_feedback 10 (feedback (codes "x")) (or_no_rows (save_failed 9 failure saved)))
Reached-IsConsistent_example = Reached-IsConsistent (
    reached_by
      (reached_by
        (reached_by (reached_by reached_none (saves_completed 7 (event []) no_rows))
          (saves_feedback 8 (feedback (codes "j")) (save_completed 7 (event []) no_rows)))
        (saves_failed 9 failure saved (or_no_rows (save_failed 9 failure saved)) failure_saved))
      (saves_feedback 10 (feedback (codes "x")) (or_no_rows (save_failed 9 failure saved))))
