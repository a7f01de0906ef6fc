-- ===== src/Evaluation/Tables.antt =====
-- app/evaluation/models.py and schema.py, and the records of app/review/diff_lines.py and timing.py
-- that are saved: the tables as functions of their keys. The number that the database gives a row
-- of the feedback is left out; the classes of lines are fields of a record.
use dovi_ai_server.Base.{ℕ, Bool, Option, none, List, Text}
use dovi_ai_server.Review.Schema.{ReviewComment, FailureReason}

-- The strings "completed" and "failed".
pub data JobStatus : Type 0 where
  job_completed job_failed : JobStatus

pub record ReviewJobRow : Type 0 where
  pub repository_id : ℕ
  pub pr_number : ℕ
  pub head_sha : Text
  pub status : JobStatus
  pub fail_reason : Option FailureReason
  pub created_at : ℕ

pub record ReviewRecordRow : Type 0 where
  pub reviews : List ReviewComment
  pub summary : Text
  pub model_version : Text
  pub prompt_version : Text

pub record ReviewFeedbackEvent : Type 0 where
  pub review_job_id : Text
  pub finding_index : ℕ
  pub reflected : Bool
  pub reason : Option Text

pub record ReviewFeedbackRow : Type 0 where
  pub reflected : Bool
  pub reason : Option Text
  pub updated_at : ℕ

pub record LineCounts : Type 0 where
  pub ok : ℕ
  pub line_not_in_diff : ℕ
  pub file_not_in_diff : ℕ

pub record LineCheckRecord : Type 0 where
  pub review_job_id : Text
  pub annotated : Bool
  pub llm : LineCounts
  pub final : LineCounts

pub record ReviewLineCheckRow : Type 0 where
  pub annotated : Bool
  pub llm_ok : ℕ
  pub llm_line_not_in_diff : ℕ
  pub llm_file_not_in_diff : ℕ
  pub final_ok : ℕ
  pub final_line_not_in_diff : ℕ
  pub final_file_not_in_diff : ℕ
  pub created_at : ℕ

pub record ReviewTimingRecord : Type 0 where
  pub review_job_id : Text
  pub total_ms : ℕ
  pub prep_ms : ℕ
  pub generate_ms : ℕ
  pub summary_ms : ℕ
  pub verify_ms : ℕ
  pub batches : ℕ
  pub targets : ℕ
  pub prompt_chars : ℕ

pub record ReviewTimingRow : Type 0 where
  pub total_ms : ℕ
  pub prep_ms : ℕ
  pub generate_ms : ℕ
  pub summary_ms : ℕ
  pub verify_ms : ℕ
  pub batches : ℕ
  pub targets : ℕ
  pub prompt_chars : ℕ
  pub created_at : ℕ

pub record Tables : Type 0 where
  pub jobs : Text → Option ReviewJobRow
  pub records : Text → Option ReviewRecordRow
  pub feedback : Text → ℕ → Option ReviewFeedbackRow
  pub line_checks : Text → Option ReviewLineCheckRow
  pub timings : Text → Option ReviewTimingRow

abbrev pub no_rows : Tables
no_rows = record {
  jobs = λ key. none;
  records = λ key. none;
  feedback = λ key i. none;
  line_checks = λ key. none;
  timings = λ key. none;
}
