-- ===== src/Review/Schema.antt =====
-- app/review/schema.py: the events and the values that the review pipeline passes on.
use dovi_ai_server.Base.{ℕ, Text, Option, List, Bool}

pub data Severity : Type 0 where
  critical major minor suggestion : Severity

pub data FileStatus : Type 0 where
  added modified removed renamed : FileStatus

pub data FailureReason : Type 0 where
  parse_error timeout server_error context_overflow output_truncated : FailureReason

pub record ContextFile : Type 0 where
  pub path : Text
  pub content : Text

pub record ChangedFile : Type 0 where
  pub file_path : Text
  pub status : FileStatus
  pub patch : Text
  pub content : Option Text
  pub previous_content : Option Text

pub record ReviewRequestedEvent : Type 0 where
  pub review_job_id : Text
  pub repository_id : ℕ
  pub pr_number : ℕ
  pub head_sha : Text
  pub base_sha : Text
  pub pr_title : Text
  pub pr_body : Text
  pub context_files : List ContextFile
  pub changed_files : List ChangedFile

pub record ReviewTarget : Type 0 where
  pub file_path : Text
  pub status : FileStatus
  pub hunks : List Text
  pub context_chunks : List Text

-- The confidence, a float in [0, 1], is the number of its units of 2^-1074, which is exact.
pub record ReviewComment : Type 0 where
  pub severity : Severity
  pub confidence : ℕ
  pub file_path : Text
  pub line : ℕ
  pub title : Text
  pub message : Text
  pub evidence : List Text
  pub suggested_fix : Option Text

pub record ReviewModelOutput : Type 0 where
  pub summary : Text
  pub reviews : List ReviewComment

pub record ReviewVerdict : Type 0 where
  pub index : ℕ
  pub confirmed : Bool
  pub reason : Text

pub record ReviewCompletedEvent : Type 0 where
  pub review_job_id : Text
  pub repository_id : ℕ
  pub pr_number : ℕ
  pub head_sha : Text
  pub summary : Text
  pub reviews : List ReviewComment
  pub model_version : Text
  pub prompt_version : Text

pub record ReviewFailedEvent : Type 0 where
  pub review_job_id : Text
  pub head_sha : Text
  pub reason : FailureReason

-- What `ReviewPipeline.run` returns.
pub data ReviewResult : Type 0 where
  completed : ReviewCompletedEvent → ReviewResult
  failed : ReviewFailedEvent → ReviewResult
