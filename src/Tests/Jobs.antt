-- ===== src/Tests/Jobs.antt =====
-- Jobs: messages that come twice, calls that fail, heads that are superseded, sandbox verdicts.
use mathlib.Core.List.{List, [], ◌∷◌}
use dovi_ai_server.Base.{
  Bool, ℕ, ◌≡◌, refl, inl, true, false, Option, none, some, arith, nat_eq, list_beq, list_eq,
  triple_eq, Text, codes,
}
use dovi_ai_server.Review.Schema.{ReviewRequestedEvent, ReviewResult, failed, server_error}
use dovi_ai_server.Consumer.{
  Status, in_progress, Outcome, done, lost, stopped, raised, cancelled, World, put, run, perform,
}
use dovi_ai_server.Consumer.Review as Job
use dovi_ai_server.Consumer.Review.Once.{SameStore}
use dovi_ai_server.Consumer.Review.Final.{job_of, of_job, run-completed}
use dovi_ai_server.Consumer.Review.Stuck.{handled, handle-Stuck, handle-cancelled}
use dovi_ai_server.Consumer.Probe as Probe
use dovi_ai_server.Consumer.Probe.Attempts as Attempts
use dovi_ai_server.Consumer.Superseded.{
  Heads, is_head_request, lookup, record_head, IsCounted, asked, record_head-newest,
}
use dovi_ai_server.Sandbox.{
  ProbeStatus, OutcomeStatus, lifecycle, ProbeOutcome, StageResult, SandboxProbeRequestedEvent,
  SandboxProbeCompletedEvent,
}
use dovi_ai_server.Sandbox.Event.{IsSmall, cap_completed_event, cap_completed_event-IsSmall}

abbrev request : ReviewRequestedEvent
request = record {
  review_job_id = codes "1:2:abc";
  repository_id = 1;
  pr_number = 2;
  head_sha = codes "abc";
  base_sha = codes "def";
  pr_title = codes "t";
  pr_body = [];
  context_files = [];
  changed_files = [];
}

abbrev decode : Text → Option ReviewRequestedEvent
decode raw = some request

abbrev review : ReviewRequestedEvent → ReviewResult
review event = failed (record {
  review_job_id = event.review_job_id;
  head_sha = event.head_sha;
  reason = server_error;
})

abbrev checker : Option (ReviewRequestedEvent → Bool)
checker = some (λ event. false)

abbrev world : Option Status → List Outcome → World ReviewResult
world status outcomes = record {
  redis = λ key. status;
  attempts = λ key. 0;
  published = [];
  saved = [];
  committed = 0;
  outcomes = outcomes;
}

names_job : (event : ReviewRequestedEvent) → job_of (review event) ≡ event.review_job_id
unfolding job_of
names_job event = refl

run-completed_example :
    let w = world (some Status.completed) (done ∷ lost ∷ []) in
    let v =
      (run
        (Job.handle decode review true checker)
        ((codes "m", false) ∷ (codes "m", false) ∷ [])
        w).1 in
    (v.redis (codes "1:2:abc") ≡ some Status.completed)
    × (of_job decode review true checker names_job (codes "1:2:abc") v.published
        ≡ of_job decode review true checker names_job (codes "1:2:abc") w.published)
run-completed_example =
    run-completed decode review true checker names_job (codes "1:2:abc")
      ((codes "m", false) ∷ (codes "m", false) ∷ [])
      (world (some Status.completed) (done ∷ lost ∷ [])) refl

handle-Stuck_example :
    let (ending, v) = handled decode review true (codes "m") (world none (done ∷ lost ∷ [])) in
    (ending ≡ raised)
    × (v.redis (codes "1:2:abc") ≡ some in_progress)
    × SameStore (handled decode review true (codes "m") v).1 v
handle-Stuck_example =
    handle-Stuck decode review true (codes "m") request [] (world none (done ∷ lost ∷ [])) refl refl
      refl

abbrev stopped_world : World ReviewResult
stopped_world = world none (done ∷ stopped ∷ done ∷ [])

abbrev cancelled_world : World ReviewResult
cancelled_world = record (world none (done ∷ [])) {
  redis = put (codes "1:2:abc") (some in_progress) (λ key. none);
}

handle-cancelled_example :
    let (ending, u) = handled decode review true (codes "m") stopped_world in
    (ending ≡ cancelled) × (u.redis (codes "1:2:abc") ≡ none) × (u.published ≡ [])
unfolding Job.process perform
handle-cancelled_example =
    handle-cancelled decode review true (codes "m") request (stopped ∷ done ∷ []) [] stopped_world
      cancelled_world refl refl refl refl refl

abbrev probe_request : SandboxProbeRequestedEvent
probe_request = record {
  review_job_id = codes "j";
  repository_id = 1;
  installation_id = 3;
  repo_full_name = codes "o/r";
  pr_number = 2;
  head_sha = codes "abc";
  base_sha = codes "def";
}

abbrev probe_result : Text → SandboxProbeCompletedEvent
probe_result evidence = record {
  review_job_id = codes "j";
  repository_id = 1;
  pr_number = 2;
  head_sha = codes "abc";
  status = ProbeStatus.passed;
  evidence = evidence;
  findings = [];
}

abbrev probe_world : ℕ → List Outcome → World SandboxProbeCompletedEvent
probe_world attempts outcomes = record {
  redis = λ key. none;
  attempts = λ key. attempts;
  published = [];
  saved = [];
  committed = 0;
  outcomes = outcomes;
}

abbrev failed_probe : World SandboxProbeCompletedEvent
failed_probe = record (probe_world 0 (done ∷ [])) {
  redis = put (codes "j") (some in_progress) (λ key. none);
}

handle-released_example :
    let (end, u) =
      Probe.handle
        (λ raw. some probe_request)
        (λ event. probe_result [])
        2
        (codes "m")
        (probe_world 0 (done ∷ lost ∷ done ∷ [])) in
    (end ≡ raised) × (u.redis (codes "j") ≡ none)
unfolding Probe.process perform
handle-released_example =
    Attempts.handle-released (λ raw. some probe_request) (λ event. probe_result []) 2 (codes "m")
      probe_request (lost ∷ done ∷ []) [] raised (probe_world 0 (done ∷ lost ∷ done ∷ []))
      failed_probe refl refl refl refl refl (inl refl)

abbrev heads : Heads
heads = record { seq = 4; hashes = λ key. (codes "abc", 3) ∷ [] }

abbrev newer : ReviewRequestedEvent
newer = record request { review_job_id = codes "1:2:xyz"; head_sha = codes "xyz" }

record_head-newest_example :
    let t = record_head newer heads in
    (asked request t ≡ true) × (asked newer t ≡ false) × IsCounted t
unfolding is_head_request lookup list_beq
record_head-newest_example =
    record_head-newest heads request newer 3 (λ key. (omega arith, tt)) refl refl refl refl refl

abbrev outcome : ProbeOutcome
outcome = record { probe = lifecycle; status = OutcomeStatus.passed; findings = []; evidence = [] }

abbrev good : StageResult
good = record { ok = true; evidence = [] }

cap_completed_event-IsSmall_example :
    IsSmall (λ e. 600000) (cap_completed_event (λ e. 600000) (probe_result (codes "done")))
cap_completed_event-IsSmall_example =
    cap_completed_event-IsSmall (λ e. 600000) (probe_result (codes "done"))
