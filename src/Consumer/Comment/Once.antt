-- ===== src/Consumer/Comment/Once.antt =====
-- How often a comment answer is published, and what is left in Redis.
use mathlib.Core.List.{List, [], ◌∷◌}
use mathlib.Core.Path.{subst⁻¹}
use dovi_ai_server.Base.{◌≡◌, refl, true, Option, none, some, Text, list_eq, nat_eq, ==_refl, ◌∙◌}
use dovi_ai_server.Comment.Schema.{
  CommentAnswerRequestedEvent, CommentResult, answered, not_answered,
}
use dovi_ai_server.Consumer.{
  Status, completed, Outcome, done, lost, lost_applied, stopped, stopped_applied, Ending, returned,
  raised, cancelled, World, Run, perform, perform_next, continue, put, claim, reraise, on_cancel,
  try_start, mark_completed, mark_failed, publish,
}
use dovi_ai_server.Consumer.Comment.{deliver, process, guarded, when_started, handle}

-- What holds of the value and the world when a method returns.
abbrev pub Returns :
    {A : Type 0} → Ending A × World CommentResult → (A → World CommentResult → Type 0) → Type 0
Returns (returned a, w) P = P a w
Returns (raised, w) P = Unit
Returns (cancelled, w) P = Unit

perform-Returns :
    {A : Type 0} (effect : World CommentResult → A × World CommentResult)
    (P : A → World CommentResult → Type 0) (w : World CommentResult)
    → ((v : World CommentResult)
        → v.redis ≡ w.redis
        → v.published ≡ w.published
        → P (effect v).0 (effect v).1)
    → Returns (perform effect w) P
unfolding perform
perform-Returns effect P w h = next w.outcomes
  where
    next : (xs : List Outcome) → Returns (perform_next xs effect w) P
    next [] = h w refl refl
    next (done ∷ xs) = h _ refl refl
    next (lost ∷ xs) = tt
    next (lost_applied ∷ xs) = tt
    next (stopped ∷ xs) = tt
    next (stopped_applied ∷ xs) = tt

bind-Returns :
    {A B : Type 0} (r : Ending A × World CommentResult) (f : A → Run CommentResult B)
    (P : A → World CommentResult → Type 0) (Q : B → World CommentResult → Type 0)
    → Returns r P
    → ((a : A) (v : World CommentResult) → P a v → Returns (f a v) Q)
    → Returns (continue r.0 f r.1) Q
bind-Returns (returned a, w) f P Q h k = k a w h
bind-Returns (raised, w) f P Q h k = tt
bind-Returns (cancelled, w) f P Q h k = tt

on_cancel-Returns :
    (cleanup : Run CommentResult Unit) (r : Ending Unit × World CommentResult)
    (P : Unit → World CommentResult → Type 0)
    → Returns r P
    → Returns (on_cancel cleanup r) P
on_cancel-Returns cleanup (returned a, w) P h = h
on_cancel-Returns cleanup (raised, w) P h = tt
on_cancel-Returns cleanup (cancelled, w) P h = ended (cleanup w)
  where
    ended : (r : Ending Unit × World CommentResult) → Returns (reraise r.0 r.1) P
    ended (returned a, v) = tt
    ended (raised, v) = tt
    ended (cancelled, v) = tt

-- The status of the key when a result is delivered.
abbrev pub final_status : CommentResult → Option Status
final_status (answered event) = some completed
final_status (not_answered event) = none

module _ (decode : Text → Option CommentAnswerRequestedEvent)
    (answer : CommentAnswerRequestedEvent → CommentResult) (old : List CommentResult) where
  -- The result is published once, and the key has its status.
  abbrev pub IsDone : Text → CommentResult → World CommentResult → Type 0
  IsDone key result v = (v.published ≡ result ∷ old) × (v.redis key ≡ final_status result)

  mark-IsDone :
      (key : Text) (result : CommentResult) (status : Option Status) (w : World CommentResult)
      → status ≡ final_status result
      → w.published ≡ result ∷ old
      → Returns
          (perform (λ v. (tt, record v { redis = put key status v.redis })) w)
          (λ u. IsDone key result)
  mark-IsDone key result status w e h =
      perform-Returns (λ v. (tt, record v { redis = put key status v.redis }))
        (λ u. IsDone key result) w (λ v r p. (p ∙ h, rw (==_refl key) e))

  publish-Returns :
      (result : CommentResult) (w : World CommentResult)
      → w.published ≡ old
      → Returns (publish result w) (λ u v. v.published ≡ result ∷ old)
  unfolding publish
  publish-Returns result w h =
      perform-Returns (λ v. (tt, record v { published = result ∷ v.published }))
        (λ u v. v.published ≡ result ∷ old) w (λ v r p i. result ∷ (p ∙ h) i)

  deliver-Returns :
      (key : Text) (result : CommentResult) (w : World CommentResult)
      → w.published ≡ old
      → Returns (deliver decode answer key result w) (λ u. IsDone key result)
  unfolding deliver mark_completed mark_failed
  deliver-Returns key (answered event) w h =
      bind-Returns (publish (answered event) w) _ _ _ (publish-Returns (answered event) w h)
        (λ u v p. mark-IsDone key (answered event) (some completed) v refl p)
  deliver-Returns key (not_answered event) w h =
      bind-Returns (publish (not_answered event) w) _ _ _ (publish-Returns (not_answered event) w h)
        (λ u v p. mark-IsDone key (not_answered event) none v refl p)

  guarded-Returns :
      (event : CommentAnswerRequestedEvent) (w : World CommentResult)
      → w.published ≡ old
      → Returns (guarded decode answer event w) (λ u. IsDone event.comment_job_id (answer event))
  unfolding guarded process
  guarded-Returns event w h =
      on_cancel-Returns _ _ (λ u. IsDone event.comment_job_id (answer event))
        (bind-Returns (perform (λ v. (tt, v)) w) _ (λ u v. v.published ≡ old) _
          (perform-Returns (λ v. (tt, v)) (λ u v. v.published ≡ old) w (λ v r p. p ∙ h))
          (λ u v p. deliver-Returns event.comment_job_id (answer event) v p))

  started-Returns :
      (event : CommentAnswerRequestedEvent) (w : World CommentResult)
      → w.redis event.comment_job_id ≡ none
      → w.published ≡ old
      → Returns (try_start event.comment_job_id w) (λ b v. (b ≡ true) × (v.published ≡ old))
  unfolding try_start
  started-Returns event w free h =
      perform-Returns (λ v. claim event.comment_job_id (v.redis event.comment_job_id) v)
        (λ b v. (b ≡ true) × (v.published ≡ old)) w (λ v r p. rw r (rw free (refl, p ∙ h)))

-- When the handling of a message for a comment job whose key is free returns, the answer of the
-- pipeline was published exactly once, and the key is completed for an answer and free again for a
-- failure, whatever happened to the calls.
pub handle-IsDone :
    (decode : Text → Option CommentAnswerRequestedEvent)
    (answer : CommentAnswerRequestedEvent → CommentResult) (raw : Text)
    (event : CommentAnswerRequestedEvent) (w : World CommentResult)
    → decode raw ≡ some event
    → w.redis event.comment_job_id ≡ none
    → Returns
        (handle decode answer raw w)
        (λ u. IsDone decode answer w.published event.comment_job_id (answer event))
unfolding handle
handle-IsDone decode answer raw event w d free = rw d (
    bind-Returns (try_start event.comment_job_id w) (when_started decode answer event) _ _
      (started-Returns decode answer w.published event w free refl)
      (λ b v h.
        subst⁻¹
          (λ c.
            Returns (when_started decode answer event c v)
              (λ u. IsDone decode answer w.published event.comment_job_id (answer event)))
          h.0 (guarded-Returns decode answer w.published event v h.1)))
