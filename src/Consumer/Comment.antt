-- ===== src/Consumer/Comment.antt =====
-- `CommentAnswerConsumer` (app/comment_answer/consumer.py). What the pipeline returns for an event
-- and the decoding of a message are parameters.
pub mod Once
use dovi_ai_server.Base.{Bool, true, false, Option, none, some, Text}
use dovi_ai_server.Comment.Schema.{
  CommentAnswerRequestedEvent, CommentResult, answered, not_answered,
}
use dovi_ai_server.Consumer.{
  Run, pure, perform, ◌>>=◌, ◌>>◌, try_start, mark_completed, mark_failed, publish, on_cancel,
}

module _ (decode : Text → Option CommentAnswerRequestedEvent)
    (answer : CommentAnswerRequestedEvent → CommentResult) where
  -- What follows the pipeline in the `try` block.
  unfoldable pub deliver : Text → CommentResult → Run CommentResult Unit
  unfolding publish mark_completed mark_failed
  deliver key (answered event) = publish (answered event) >> mark_completed key
  deliver key (not_answered event) = publish (not_answered event) >> mark_failed key

  unfoldable pub process : CommentAnswerRequestedEvent → Run CommentResult Unit
  unfolding deliver perform
  process event = perform (λ w. (tt, w)) >> deliver event.comment_job_id (answer event)

  unfoldable pub guarded : CommentAnswerRequestedEvent → Run CommentResult Unit
  unfolding process mark_failed
  guarded event w = on_cancel (mark_failed event.comment_job_id) (process event w)

  abbrev pub when_started : CommentAnswerRequestedEvent → Bool → Run CommentResult Unit
  when_started event true = guarded event
  when_started event false = pure tt

  abbrev pub handle_event : Option CommentAnswerRequestedEvent → Run CommentResult Unit
  handle_event none = pure tt
  handle_event (some event) = try_start event.comment_job_id >>= when_started event

  unfoldable pub handle : Text → Run CommentResult Unit
  unfolding try_start guarded
  handle raw = handle_event (decode raw)
