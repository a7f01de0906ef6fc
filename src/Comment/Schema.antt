-- ===== src/Comment/Schema.antt =====
-- app/comment_answer/schema.py: the events of comment answers.
use dovi_ai_server.Base.{ℕ, Text, Option, List}

pub record ThreadComment : Type 0 where
  pub comment_id : ℕ
  pub author : Text
  pub body : Text
  pub created_at : Text

pub record CommentAnswerRequestedEvent : Type 0 where
  pub comment_job_id : Text
  pub repository_id : ℕ
  pub pr_number : ℕ
  pub path : Text
  pub line : Option ℕ
  pub diff_hunk : Text
  pub thread : List ThreadComment

pub record CommentAnswerCompletedEvent : Type 0 where
  pub comment_job_id : Text
  pub answer : Text

pub record CommentAnswerFailedEvent : Type 0 where
  pub comment_job_id : Text
  pub reason : Text

-- What `CommentAnswerPipeline.run` returns.
pub data CommentResult : Type 0 where
  answered : CommentAnswerCompletedEvent → CommentResult
  not_answered : CommentAnswerFailedEvent → CommentResult
