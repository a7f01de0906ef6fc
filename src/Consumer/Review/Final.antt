-- ===== src/Consumer/Review/Final.antt =====
-- The key of a completed job, and what is published for it, over any messages.
use mathlib.Core.List.{List, [], ◌∷◌}
use dovi_ai_server.Base.{
  ◌≡◌, refl, Bool, true, false, Option, none, some, Text, if◌then◌else◌, ◌==◌, list_eq, nat_eq,
  ==_sound, ==_complete, Bool-cases, inl, inr, keep, ◌∙◌, sym,
}
use dovi_ai_server.Review.Schema.{ReviewRequestedEvent, ReviewResult, completed, failed}
use dovi_ai_server.Consumer.{
  Status, in_progress, World, Run, pure, perform, claim, put, try_start, mark_completed,
  mark_failed, publish, commit, run,
}
use dovi_ai_server.Consumer.Review.{
  deliver, process, guarded, when_started, handle_event, handle, is_late, unless_late, start,
}
use dovi_ai_server.Consumer.Review.Keeps.{
  Holds, Keeps, perform-Keeps, bind-Keeps, on_cancel-Keeps, save-Keeps,
}
use dovi_ai_server.Consumer.Review.Once.{SameStore, is_late-same, handle-claimed}

-- The job that a result names.
unfoldable pub job_of : ReviewResult → Text
job_of (completed event) = event.review_job_id
job_of (failed event) = event.review_job_id

==_sym_false : (a b : Text) → (a == b) ≡ false → (b == a) ≡ false
==_sym_false a b h = elim (Bool-cases (b == a)) [
  | inl e ↦ absurd (clash (rw (==_complete a b (sym (==_sound b a e))) at h))
  | inr e ↦ e
]
  where
    clash : true ≡ false → ⊥
    clash p = cc

module _ (decode : Text → Option ReviewRequestedEvent)
    (review : ReviewRequestedEvent → ReviewResult) (has_repository : Bool)
    (superseded : Option (ReviewRequestedEvent → Bool))
    (names_job : (event : ReviewRequestedEvent) → job_of (review event) ≡ event.review_job_id)
    (k : Text) where
  abbrev pub of_job : List ReviewResult → List ReviewResult
  of_job results = keep (λ r. job_of r == k) results

  -- The job is completed, and these are the results published for it.
  IsFinal : List ReviewResult → (Text → Option Status) → List ReviewResult → Type 0
  IsFinal old redis published = (redis k ≡ some Status.completed) × (of_job published ≡ old)

  module _ (old : List ReviewResult) where
    abbrev KeepsJob : {A : Type 0} → Run ReviewResult A → Type 0
    KeepsJob m = Keeps decode review has_repository superseded (IsFinal old) m

    put-other :
        (key : Text) (status : Option Status) (redis : Text → Option Status)
        → (k == key) ≡ false
        → put key status redis k ≡ redis k
    put-other key status redis e = rw e refl

    claim-IsFinal :
        (key : Text) (found : Option Status) (w : World ReviewResult)
        → (k == key) ≡ false
        → Holds decode review has_repository superseded (IsFinal old) w
        → Holds decode review has_repository superseded (IsFinal old) (claim key found w).1
    unfolding Holds IsFinal
    claim-IsFinal key none w e h = (put-other key (some in_progress) w.redis e ∙ h.0, h.1)
    claim-IsFinal key (some status) w e h = h

    mark-Keeps :
        (key : Text) (status : Option Status)
        → (k == key) ≡ false
        → KeepsJob (perform (λ w. (tt, record w { redis = put key status w.redis })))
    mark-Keeps key status e =
        perform-Keeps decode review has_repository superseded (IsFinal old) _
          (unfold Holds in unfold IsFinal in λ w h. (put-other key status w.redis e ∙ h.0, h.1))

    publish-Keeps :
        (result : ReviewResult) → (job_of result == k) ≡ false → KeepsJob (publish result)
    unfolding publish
    publish-Keeps result e =
        perform-Keeps decode review has_repository superseded (IsFinal old) _
          (unfold Holds in unfold IsFinal in unfold keep in λ w h. (h.0, rw e h.1))

    deliver-Keeps :
        (key : Text) (result : ReviewResult)
        → (k == key) ≡ false
        → (job_of result == k) ≡ false
        → KeepsJob (deliver decode review has_repository superseded key result)
    unfolding deliver mark_completed mark_failed
    deliver-Keeps key (completed event) e f =
        let Q = IsFinal old in
        bind-Keeps decode review has_repository superseded Q _ _
          (bind-Keeps decode review has_repository superseded Q _ _
            (publish-Keeps (completed event) f) (λ a. mark-Keeps key (some Status.completed) e))
          (λ a. save-Keeps decode review has_repository superseded Q (completed event))
    deliver-Keeps key (failed event) e f =
        let Q = IsFinal old in
        bind-Keeps decode review has_repository superseded Q _ _
          (bind-Keeps decode review has_repository superseded Q _ _ (publish-Keeps (failed event) f)
            (λ a. save-Keeps decode review has_repository superseded Q (failed event)))
          (λ a. mark-Keeps key none e)

    guarded-Keeps :
        (event : ReviewRequestedEvent)
        → (k == event.review_job_id) ≡ false
        → KeepsJob (guarded decode review has_repository superseded event)
    unfolding guarded process mark_failed
    guarded-Keeps event e =
        let Q = IsFinal old in
        let other : (job_of (review event) == k) ≡ false =
          rw (names_job event) (==_sym_false k event.review_job_id e) in
        on_cancel-Keeps decode review has_repository superseded Q _ _
          (mark-Keeps event.review_job_id none e)
          (bind-Keeps decode review has_repository superseded Q _ _
            (perform-Keeps decode review has_repository superseded Q (λ w. (tt, w)) (λ w h. h))
            (λ a. deliver-Keeps event.review_job_id (review event) e other))

    started-Keeps :
        (event : ReviewRequestedEvent)
        → (k == event.review_job_id) ≡ false
        → (b : Bool) → KeepsJob (when_started decode review has_repository superseded event b)
    unfolding Keeps
    started-Keeps event e true = guarded-Keeps event e
    started-Keeps event e false = λ w h. h

    IsFinal-same :
        (v w : World ReviewResult)
        → SameStore v w
        → Holds decode review has_repository superseded (IsFinal old) w
        → Holds decode review has_repository superseded (IsFinal old) v
    unfolding Holds IsFinal
    IsFinal-same v w same h = (rw same.0 h.0, rw same.1 h.1)

    start-Keeps :
        (event : ReviewRequestedEvent)
        → (k == event.review_job_id) ≡ false
        → KeepsJob (start decode review has_repository superseded event)
    unfolding start try_start
    start-Keeps event other =
        bind-Keeps decode review has_repository superseded (IsFinal old) _ _
          (perform-Keeps decode review has_repository superseded (IsFinal old)
            (λ w. claim event.review_job_id (w.redis event.review_job_id) w)
            (λ w h. claim-IsFinal event.review_job_id (w.redis event.review_job_id) w other h))
          (started-Keeps event other)

    unless_late-Keeps :
        (event : ReviewRequestedEvent)
        → (k == event.review_job_id) ≡ false
        → (late : Bool) → KeepsJob (unless_late decode review has_repository superseded event late)
    unfolding Keeps
    unless_late-Keeps event other true = λ w h. h
    unless_late-Keeps event other false = start-Keeps event other

    is_late-Keeps :
        (event : ReviewRequestedEvent)
        → KeepsJob (is_late decode review has_repository superseded event)
    unfolding Keeps
    is_late-Keeps event = λ w h.
        IsFinal-same (is_late decode review has_repository superseded event w).1 w
          (is_late-same decode review has_repository superseded event w) h

    other-Keeps :
        (event : ReviewRequestedEvent)
        → (k == event.review_job_id) ≡ false
        → KeepsJob (handle_event decode review has_repository superseded (some event))
    other-Keeps event other =
        bind-Keeps decode review has_repository superseded (IsFinal old) _ _ (is_late-Keeps event)
          (unless_late-Keeps event other)

    own-Keeps :
        (raw : Text) (event : ReviewRequestedEvent)
        → decode raw ≡ some event
        → (k == event.review_job_id) ≡ true
        → KeepsJob (handle decode review has_repository superseded raw)
    unfolding Keeps Holds IsFinal
    own-Keeps raw event d own w h =
        IsFinal-same (handle decode review has_repository superseded raw w).1 w
          (handle-claimed decode review has_repository superseded raw event Status.completed w d
            (rw (← ==_sound k event.review_job_id own) h.0))
          h

    found-Keeps :
        (raw : Text) (found : Option ReviewRequestedEvent)
        → decode raw ≡ found
        → KeepsJob (handle decode review has_repository superseded raw)
    unfolding handle Keeps
    found-Keeps raw none d = rw d (λ w h. h)
    found-Keeps raw (some event) d = elim (Bool-cases (k == event.review_job_id)) [
      | inl own ↦ own-Keeps raw event d own
      | inr other ↦ rw d (other-Keeps event other)
    ]

    handle-Keeps : (raw : Text) → KeepsJob (handle decode review has_repository superseded raw)
    handle-Keeps raw = found-Keeps raw (decode raw) refl

    commit-Keeps : KeepsJob (commit (handle decode review has_repository superseded))
    unfolding commit Keeps Holds
    commit-Keeps = perform-Keeps decode review has_repository superseded (IsFinal old) _ (λ w h. h)

    until_shutdown-Keeps :
        (b : Bool) (rest : Run ReviewResult Unit)
        → KeepsJob rest
        → KeepsJob (if b then pure tt else rest)
    unfolding Keeps
    until_shutdown-Keeps true rest h = λ w k. k
    until_shutdown-Keeps false rest h = h

    nothing-Keeps : KeepsJob (pure tt)
    unfolding Keeps
    nothing-Keeps w h = h

    run-Keeps :
        (messages : List (Text × Bool))
        → KeepsJob (run (handle decode review has_repository superseded) messages)
    unfolding run
    run-Keeps [] = nothing-Keeps
    run-Keeps ((raw, shutdown) ∷ messages) =
        let Q = IsFinal old in
        bind-Keeps decode review has_repository superseded Q _ _
          (bind-Keeps decode review has_repository superseded Q _ _ (handle-Keeps raw)
            (λ a. commit-Keeps))
          (λ a. until_shutdown-Keeps shutdown _ (run-Keeps messages))

  -- From a state between two messages in which the key of a job is completed, after any messages
  -- that follow, those of the job itself among them, and any failures and cancellations of their
  -- calls, the key is completed and the results published for the job are those of before. It is
  -- assumed that a result names the job of its event. A cancellation in the handling that completed
  -- the key comes before such a state and is not part of this.
  pub run-completed :
      (messages : List (Text × Bool)) (w : World ReviewResult)
      → w.redis k ≡ some Status.completed
      → let v = (run (handle decode review has_repository superseded) messages w).1 in
        (v.redis k ≡ some Status.completed) × (of_job v.published ≡ of_job w.published)
  unfolding Holds IsFinal Keeps
  run-completed messages w e = run-Keeps (of_job w.published) messages w (e, refl)
