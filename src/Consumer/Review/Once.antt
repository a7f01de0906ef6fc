-- ===== src/Consumer/Review/Once.antt =====
-- Messages for jobs whose key is set already.
use mathlib.Core.List.{List, [], ◌∷◌}
use dovi_ai_server.Base.{◌≡◌, refl, Bool, true, false, Option, none, some, Text, list_eq, nat_eq}
use dovi_ai_server.Review.Schema.{ReviewRequestedEvent, ReviewResult}
use dovi_ai_server.Consumer.{
  Ending, returned, raised, cancelled, Status, Outcome, done, lost, lost_applied, stopped,
  stopped_applied, World, perform, perform_next, continue, claim, try_start,
}
use dovi_ai_server.Consumer.Review.{
  when_started, handle, is_late, ask_checker, false_if_raised, unless_late, start,
}

-- Redis, the published and the saved results are the same.
abbrev pub SameStore : World ReviewResult → World ReviewResult → Type 0
SameStore v w = (v.redis ≡ w.redis) × (v.published ≡ w.published) × (v.saved ≡ w.saved)

module _ (decode : Text → Option ReviewRequestedEvent)
    (review : ReviewRequestedEvent → ReviewResult) (has_repository : Bool)
    (superseded : Option (ReviewRequestedEvent → Bool)) where
  start_claimed :
      (event : ReviewRequestedEvent) (status : Status) (xs : List Outcome)
      (v w : World ReviewResult)
      → v.redis event.review_job_id ≡ some status
      → SameStore v w
      → let key = event.review_job_id in
        let (r, u) = perform_next xs (λ u. claim key (u.redis key) u) v in
        SameStore (continue r (when_started decode review has_repository superseded event) u).1 w
  start_claimed event status [] v w e h = rw e h
  start_claimed event status (done ∷ xs) v w e h = rw e h
  start_claimed event status (lost ∷ xs) v w e h = h
  start_claimed event status (lost_applied ∷ xs) v w e h = rw e h
  start_claimed event status (stopped ∷ xs) v w e h = h
  start_claimed event status (stopped_applied ∷ xs) v w e h = rw e h

  asked_next :
      (check : ReviewRequestedEvent → Bool) (event : ReviewRequestedEvent) (xs : List Outcome)
      (v w : World ReviewResult)
      → SameStore v w
      → SameStore
          (false_if_raised decode review has_repository superseded
            (perform_next xs (λ u. (check event, u)) v)).1
          w
  asked_next check event [] v w h = h
  asked_next check event (done ∷ xs) v w h = h
  asked_next check event (lost ∷ xs) v w h = h
  asked_next check event (lost_applied ∷ xs) v w h = h
  asked_next check event (stopped ∷ xs) v w h = h
  asked_next check event (stopped_applied ∷ xs) v w h = h

  pub is_late-same :
      (event : ReviewRequestedEvent) (w : World ReviewResult)
      → SameStore (is_late decode review has_repository superseded event w).1 w
  unfolding is_late perform
  is_late-same event w = by_checker superseded
    where
      by_checker :
          (found : Option (ReviewRequestedEvent → Bool))
          → SameStore (ask_checker decode review has_repository superseded found event w).1 w
      by_checker none = (refl, refl, refl)
      by_checker (some check) = asked_next check event w.outcomes w w (refl, refl, refl)

  unless_late-claimed :
      (event : ReviewRequestedEvent) (status : Status) (r : Ending Bool) (v w : World ReviewResult)
      → v.redis event.review_job_id ≡ some status
      → SameStore v w
      → SameStore (continue r (unless_late decode review has_repository superseded event) v).1 w
  unfolding start try_start perform
  unless_late-claimed event status (returned true) v w e h = h
  unless_late-claimed event status (returned false) v w e h =
      start_claimed event status v.outcomes v w e h
  unless_late-claimed event status raised v w e h = h
  unless_late-claimed event status cancelled v w e h = h

  -- A message for a job whose key in Redis is in progress or completed changes nothing, whatever
  -- happens to the calls: not Redis, not what is published, not what is saved.
  pub handle-claimed :
      (raw : Text) (event : ReviewRequestedEvent) (status : Status) (w : World ReviewResult)
      → decode raw ≡ some event
      → w.redis event.review_job_id ≡ some status
      → SameStore (handle decode review has_repository superseded raw w).1 w
  unfolding handle
  handle-claimed raw event status w d e =
      let same = is_late-same event w in
      rw d (unless_late-claimed event status _ _ w (rw same.0 e) same)
