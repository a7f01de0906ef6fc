-- ===== src/Consumer/Review/Stuck.antt =====
-- The key of a job when the processing of its message is cut short.
use mathlib.Core.List.{List, ◌∷◌}
use dovi_ai_server.Base.{◌≡◌, refl, Bool, Option, none, some, Text, list_eq, nat_eq, ==_refl}
use dovi_ai_server.Review.Schema.{ReviewRequestedEvent, ReviewResult}
use dovi_ai_server.Consumer.{
  in_progress, Outcome, done, lost, Ending, raised, cancelled, World, put, perform, try_start,
  mark_failed, on_cancel,
}
use dovi_ai_server.Consumer.Review.{process, guarded, handle, is_late, start}
use dovi_ai_server.Consumer.Review.Once.{SameStore, handle-claimed}

module _ (decode : Text → Option ReviewRequestedEvent)
    (review : ReviewRequestedEvent → ReviewResult) (has_repository : Bool) where
  abbrev pub handled : Text → World ReviewResult → Ending Unit × World ReviewResult
  handled = handle decode review has_repository none

  -- In a consumer without a checker of superseded requests: when the job of a message is free and
  -- the pipeline raises, the handling raises, so that the
  -- message is not committed; but the key stays in progress, so that the message, delivered again,
  -- changes nothing: not Redis, not what is published, not what is saved.
  pub handle-Stuck :
      (raw : Text) (event : ReviewRequestedEvent) (rest : List Outcome) (w : World ReviewResult)
      → decode raw ≡ some event
      → w.redis event.review_job_id ≡ none
      → w.outcomes ≡ done ∷ lost ∷ rest
      → let (ending, v) = handled raw w in
        (ending ≡ raised)
        × (v.redis event.review_job_id ≡ some in_progress)
        × SameStore (handled raw v).1 v
  handle-Stuck raw event rest w d free o = (
    ends,
    stuck,
    handle-claimed decode review has_repository none raw event in_progress _ d stuck,
  )
    where
      ends : (handled raw w).0 ≡ raised
      ends =
          unfold handle in
          rw d (
            unfold is_late in
            unfold start in unfold try_start in unfold perform in rw (o, free) refl)

      stuck : (handled raw w).1.redis event.review_job_id ≡ some in_progress
      stuck =
          unfold handle in
          rw d (
            unfold is_late in
            unfold start in
            unfold try_start in
            unfold perform in rw (o, free) (rw (==_refl event.review_job_id) refl))

  -- The world of a job that is claimed.
  abbrev pub started : ReviewRequestedEvent → List Outcome → World ReviewResult → World ReviewResult
  started event rest w = record w {
    redis = put event.review_job_id (some in_progress) w.redis;
    outcomes = rest;
  }

  -- In a consumer without a checker of superseded requests: when the job of a message is free, is
  -- claimed, and its processing is cancelled at any call, and
  -- the one call behind it, the removal of the key, is done, the handling ends cancelled, so that
  -- the message is not committed; the key is free again for the message to be handled anew; and
  -- nothing is published behind the cancelled call.
  pub handle-cancelled :
      (raw : Text) (event : ReviewRequestedEvent) (rest later : List Outcome)
      (w v : World ReviewResult)
      → decode raw ≡ some event
      → w.redis event.review_job_id ≡ none
      → w.outcomes ≡ done ∷ rest
      → process decode review has_repository none event (started event rest w) ≡ (cancelled, v)
      → v.outcomes ≡ done ∷ later
      → let (ending, u) = handled raw w in
        (ending ≡ cancelled) × (u.redis event.review_job_id ≡ none) × (u.published ≡ v.published)
  handle-cancelled raw event rest later w v d free o p c = rw all released
    where
      all : handled raw w ≡ on_cancel (mark_failed event.review_job_id) (cancelled, v)
      all =
          unfold handle in
          rw d (
            unfold is_late in
            unfold start in
            unfold try_start in unfold perform in rw (o, free) (unfold guarded in rw p refl))

      released :
          let (ending, u) = on_cancel (mark_failed event.review_job_id) (cancelled, v) in
          (ending ≡ cancelled) × (u.redis event.review_job_id ≡ none) × (u.published ≡ v.published)
      released =
          unfold mark_failed in
          unfold perform in rw c (refl, rw (==_refl event.review_job_id) refl, refl)
