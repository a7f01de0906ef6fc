-- ===== src/Consumer/Probe.antt =====
-- `SandboxProbeConsumer` (app/sandbox_probe/consumer.py). What the runner returns for an event and
-- the decoding of a message are parameters.
pub mod Attempts
use mathlib.Core.List.{List, [], ◌∷◌, ◌++◌}
use dovi_ai_server.Base.{
  ℕ, suc, Bool, true, false, Option, none, some, Text, codes, ltb, nat_eq, ◌==◌, if◌then◌else◌,
  list_eq,
}
use dovi_ai_server.Sandbox.{ProbeStatus, SandboxProbeRequestedEvent, SandboxProbeCompletedEvent}
use dovi_ai_server.Consumer.{
  Ending, returned, raised, cancelled, World, Run, pure, perform, put, ◌>>=◌, ◌>>◌, try_start,
  mark_completed, mark_failed, publish, reraise, on_cancel,
}

module _ (decode : Text → Option SandboxProbeRequestedEvent)
    (runner : SandboxProbeRequestedEvent → SandboxProbeCompletedEvent) (max_attempts : ℕ) where
  abbrev pub given_up : SandboxProbeRequestedEvent → SandboxProbeCompletedEvent
  given_up event = record {
    review_job_id = event.review_job_id;
    repository_id = event.repository_id;
    pr_number = event.pr_number;
    head_sha = event.head_sha;
    status = ProbeStatus.inconclusive;
    evidence = codes "반복 실패로 샌드박스 검증을 중단했습니다.";
    findings = [];
  }

  -- `INCR`, which answers the new count.
  unfoldable pub incr : Text → Run SandboxProbeCompletedEvent ℕ
  unfolding perform
  incr key = perform (λ w.
      (suc (w.attempts key), record w { attempts = put key (suc (w.attempts key)) w.attempts }))

  -- `EXPIRE`, whose effect is not modelled.
  unfoldable pub expire : Run SandboxProbeCompletedEvent Unit
  unfolding perform
  expire = perform (λ w. (tt, w))

  unfoldable pub attempt :
      SandboxProbeRequestedEvent → ℕ → Run SandboxProbeCompletedEvent SandboxProbeCompletedEvent
  unfolding perform
  attempt event attempts =
      if ltb max_attempts attempts then pure (given_up event) else perform (λ w. (runner event, w))

  unfoldable pub execute :
      SandboxProbeRequestedEvent → Run SandboxProbeCompletedEvent SandboxProbeCompletedEvent
  unfolding incr expire attempt
  execute event = incr event.review_job_id >>= λ attempts.
      (if attempts == 1 then expire else pure tt) >> attempt event attempts

  unfoldable pub process : SandboxProbeRequestedEvent → Run SandboxProbeCompletedEvent Unit
  unfolding execute publish mark_completed
  process event = execute event >>= λ result. publish result >> mark_completed event.review_job_id

  -- `except Exception: await cleanup; raise`.
  abbrev pub raise_again : Ending Unit → Run SandboxProbeCompletedEvent Unit
  raise_again (returned a) w = (raised, w)
  raise_again raised w = (raised, w)
  raise_again cancelled w = (cancelled, w)

  abbrev pub released :
      Run SandboxProbeCompletedEvent Unit
      → Ending Unit × World SandboxProbeCompletedEvent
      → Ending Unit × World SandboxProbeCompletedEvent
  released cleanup (returned a, w) = (returned a, w)
  released cleanup (raised, w) = let (r, w') = cleanup w in raise_again r w'
  released cleanup (cancelled, w) = on_cancel cleanup (cancelled, w)

  unfoldable pub guarded : SandboxProbeRequestedEvent → Run SandboxProbeCompletedEvent Unit
  unfolding process mark_failed
  guarded event w = released (mark_failed event.review_job_id) (process event w)

  abbrev pub when_started : SandboxProbeRequestedEvent → Bool → Run SandboxProbeCompletedEvent Unit
  when_started event true = guarded event
  when_started event false = pure tt

  abbrev pub handle_event : Option SandboxProbeRequestedEvent → Run SandboxProbeCompletedEvent Unit
  handle_event none = pure tt
  handle_event (some event) = try_start event.review_job_id >>= when_started event

  unfoldable pub handle : Text → Run SandboxProbeCompletedEvent Unit
  unfolding try_start guarded
  handle raw = handle_event (decode raw)
