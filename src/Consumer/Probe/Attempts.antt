-- ===== src/Consumer/Probe/Attempts.antt =====
-- The attempts of a sandbox probe, and the key of its job when it fails.
use mathlib.Core.List.{List, [], ◌∷◌}
use dovi_ai_server.Base.{
  ap, ℕ, suc, ◌≤◌, ◌<◌, ◌≡◌, refl, true, Option, none, some, Text, if◌then◌else◌, ltb, nat_eq, ◌==◌,
  list_eq, ==_refl, arith, ◌⊎◌, inl, inr,
}
use dovi_ai_server.Sandbox.{SandboxProbeRequestedEvent, SandboxProbeCompletedEvent}
use dovi_ai_server.Consumer.{
  in_progress, Outcome, done, lost, lost_applied, stopped, stopped_applied, Ending, returned,
  raised, cancelled, World, Run, put, perform, perform_next, continue, pure, try_start, mark_failed,
  ◌>>◌,
}
use dovi_ai_server.Consumer.Probe.{
  incr, expire, attempt, execute, process, released, guarded, handle,
}

module _ (decode : Text → Option SandboxProbeRequestedEvent)
    (runner other : SandboxProbeRequestedEvent → SandboxProbeCompletedEvent)
    (max_attempts : ℕ) where
  attempt-limit :
      (event : SandboxProbeRequestedEvent) (attempts : ℕ)
      → max_attempts < attempts
      → attempt decode runner max_attempts event attempts
        ≡ attempt decode other max_attempts event attempts
  unfolding attempt
  attempt-limit event attempts h = rw (over attempts h) refl
    where
      over : (n : ℕ) → max_attempts < n → ltb max_attempts n ≡ true
      over n h = ground arith

  abbrev counted :
      SandboxProbeRequestedEvent
      → World SandboxProbeCompletedEvent
      → ℕ × World SandboxProbeCompletedEvent
  counted event u =
      let key = event.review_job_id in
      (suc (u.attempts key), record u { attempts = put key (suc (u.attempts key)) u.attempts })

  -- What `_execute` does with the count, for one runner.
  abbrev rest_of :
      (SandboxProbeRequestedEvent → SandboxProbeCompletedEvent)
      → SandboxProbeRequestedEvent
      → ℕ
      → Run SandboxProbeCompletedEvent SandboxProbeCompletedEvent
  rest_of r event attempts =
      (if attempts == 1 then expire decode r max_attempts else pure tt)
      >> attempt decode r max_attempts event attempts

  rest_of-limit :
      (event : SandboxProbeRequestedEvent) (attempts : ℕ) (u : World SandboxProbeCompletedEvent)
      → max_attempts < attempts
      → rest_of runner event attempts u ≡ rest_of other event attempts u
  unfolding expire
  rest_of-limit event attempts u h =
      ap (λ f. ((if attempts == 1 then perform (λ w. (tt, w)) else pure tt) >> f) u)
        (attempt-limit event attempts h)

  execute-next :
      (event : SandboxProbeRequestedEvent) (xs : List Outcome)
      (v : World SandboxProbeCompletedEvent)
      → max_attempts ≤ v.attempts event.review_job_id
      → let (r, u) = perform_next xs (counted event) v in
        continue r (rest_of runner event) u ≡ continue r (rest_of other event) u
  execute-next event [] v h =
      rest_of-limit event (suc (v.attempts event.review_job_id)) _ (omega (arith, h))
  execute-next event (done ∷ xs) v h =
      rest_of-limit event (suc (v.attempts event.review_job_id)) _ (omega (arith, h))
  execute-next event (lost ∷ xs) v h = refl
  execute-next event (lost_applied ∷ xs) v h = refl
  execute-next event (stopped ∷ xs) v h = refl
  execute-next event (stopped_applied ∷ xs) v h = refl

  -- When the counter of a job already stands at the maximum, `_execute` does not depend on the
  -- runner: with any other runner it ends the same and leaves the same world, whatever happens to
  -- its calls.
  pub execute-limit :
      (event : SandboxProbeRequestedEvent) (w : World SandboxProbeCompletedEvent)
      → max_attempts ≤ w.attempts event.review_job_id
      → execute decode runner max_attempts event w ≡ execute decode other max_attempts event w
  unfolding execute incr perform
  execute-limit event w h = execute-next event w.outcomes w h

module _ (decode : Text → Option SandboxProbeRequestedEvent)
    (runner : SandboxProbeRequestedEvent → SandboxProbeCompletedEvent) (max_attempts : ℕ) where
  abbrev pub started :
      SandboxProbeRequestedEvent
      → List Outcome
      → World SandboxProbeCompletedEvent
      → World SandboxProbeCompletedEvent
  started event rest w = record w {
    redis = put event.review_job_id (some in_progress) w.redis;
    outcomes = rest;
  }

  -- When the job of a probe is free, is claimed, and its processing raises or is cancelled at any
  -- call, and the one call behind it, the removal of the key, is done, the handling ends the same
  -- way, so that the message is not committed, and the key is free again for the message to be
  -- handled anew.
  pub handle-released :
      (raw : Text) (event : SandboxProbeRequestedEvent) (rest later : List Outcome)
      (ending : Ending Unit) (w v : World SandboxProbeCompletedEvent)
      → decode raw ≡ some event
      → w.redis event.review_job_id ≡ none
      → w.outcomes ≡ done ∷ rest
      → process decode runner max_attempts event (started event rest w) ≡ (ending, v)
      → v.outcomes ≡ done ∷ later
      → (ending ≡ raised) ⊎ (ending ≡ cancelled)
      → let (end, u) = handle decode runner max_attempts raw w in
        (end ≡ ending) × (u.redis event.review_job_id ≡ none)
  handle-released raw event rest later ending w v d free o p c stopped_by =
      rw whole (removed ending stopped_by)
    where
      whole :
          handle decode runner max_attempts raw w
          ≡ released decode runner max_attempts (mark_failed event.review_job_id) (ending, v)
      whole =
          unfold handle in
          rw d (unfold try_start in unfold perform in rw (o, free) (unfold guarded in rw p refl))

      removed :
          (ending : Ending Unit)
          → (ending ≡ raised) ⊎ (ending ≡ cancelled)
          → let (end, u) =
              released decode runner max_attempts (mark_failed event.review_job_id) (ending, v) in
            (end ≡ ending) × (u.redis event.review_job_id ≡ none)
      removed raised e =
          unfold mark_failed in unfold perform in rw c (refl, rw (==_refl event.review_job_id) refl)
      removed cancelled e =
          unfold mark_failed in unfold perform in rw c (refl, rw (==_refl event.review_job_id) refl)
      removed (returned a) e = absurd (not_returned e)
        where
          not_returned : (returned a ≡ raised) ⊎ (returned a ≡ cancelled) → ⊥
          not_returned (inl q) = cc
          not_returned (inr q) = cc
