-- ===== src/Consumer/Review.antt =====
-- `ReviewRequestConsumer` (app/kafka/consumer.py). What the pipeline returns for an event, the
-- decoding of a message and the answer of a checker of superseded requests, if there is one, are
-- parameters.
pub mod Keeps
pub mod Once
pub mod Final
pub mod Stuck
use mathlib.Core.List.{List, [], ◌∷◌, ◌++◌}
use dovi_ai_server.Base.{Bool, true, false, Option, none, some, Text, if◌then◌else◌}
use dovi_ai_server.Review.Schema.{ReviewRequestedEvent, ReviewResult, completed, failed}
use dovi_ai_server.Consumer.{
  Status, Ending, returned, raised, cancelled, World, Run, pure, perform, ◌>>=◌, ◌>>◌, try_start,
  mark_completed, mark_failed, publish, on_cancel,
}

module _ (decode : Text → Option ReviewRequestedEvent)
    (review : ReviewRequestedEvent → ReviewResult) (has_repository : Bool)
    (superseded : Option (ReviewRequestedEvent → Bool)) where
  abbrev pub caught : Ending Unit × World ReviewResult → Ending Unit × World ReviewResult
  caught (raised, w) = (returned tt, w)
  caught (returned a, w) = (returned a, w)
  caught (cancelled, w) = (cancelled, w)

  unfoldable pub save_evaluation_record : ReviewResult → Run ReviewResult Unit
  unfolding perform
  save_evaluation_record result w =
      if has_repository
      then caught (perform (λ v. (tt, record v { saved = result ∷ v.saved })) w)
      else (returned tt, w)

  -- What follows the pipeline in the `try` block.
  unfoldable pub deliver : Text → ReviewResult → Run ReviewResult Unit
  unfolding publish mark_completed mark_failed save_evaluation_record
  deliver key (completed event) =
      publish (completed event) >> mark_completed key >> save_evaluation_record (completed event)
  deliver key (failed event) =
      publish (failed event) >> save_evaluation_record (failed event) >> mark_failed key

  -- The call of `ReviewPipeline.run`, whose result is `review event`, and what follows.
  unfoldable pub process : ReviewRequestedEvent → Run ReviewResult Unit
  unfolding deliver perform
  process event = perform (λ w. (tt, w)) >> deliver event.review_job_id (review event)

  unfoldable pub guarded : ReviewRequestedEvent → Run ReviewResult Unit
  unfolding process mark_failed
  guarded event w = on_cancel (mark_failed event.review_job_id) (process event w)

  abbrev pub when_started : ReviewRequestedEvent → Bool → Run ReviewResult Unit
  when_started event true = guarded event
  when_started event false = pure tt

  -- `is_superseded` answers `False` when its lookup raises.
  abbrev pub false_if_raised : Ending Bool × World ReviewResult → Ending Bool × World ReviewResult
  false_if_raised (raised, w) = (returned false, w)
  false_if_raised (returned b, w) = (returned b, w)
  false_if_raised (cancelled, w) = (cancelled, w)

  abbrev pub ask_checker :
      Option (ReviewRequestedEvent → Bool) → ReviewRequestedEvent → Run ReviewResult Bool
  ask_checker none event w = (returned false, w)
  ask_checker (some check) event w = false_if_raised (perform (λ v. (check event, v)) w)

  unfoldable pub is_late : ReviewRequestedEvent → Run ReviewResult Bool
  unfolding perform
  is_late event w = ask_checker superseded event w

  unfoldable pub start : ReviewRequestedEvent → Run ReviewResult Unit
  unfolding try_start guarded
  start event = try_start event.review_job_id >>= when_started event

  abbrev pub unless_late : ReviewRequestedEvent → Bool → Run ReviewResult Unit
  unless_late event true = pure tt
  unless_late event false = start event

  abbrev pub handle_event : Option ReviewRequestedEvent → Run ReviewResult Unit
  handle_event none = pure tt
  handle_event (some event) = is_late event >>= unless_late event

  unfoldable pub handle : Text → Run ReviewResult Unit
  unfolding is_late start
  handle raw = handle_event (decode raw)
