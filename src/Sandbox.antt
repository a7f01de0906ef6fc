-- ===== src/Sandbox.antt =====
-- app/sandbox_probe: the results of a sandbox probe (schema.py) and how the outcomes of its stages
-- are put together (verdict.py).
pub mod Verdict
pub mod Env
pub mod Event
use mathlib.Core.List.{List, [], ◌∷◌, ◌++◌, flat_map}
use dovi_ai_server.Base.{
  ℕ, zero, suc, ◌+◌, ◌-◌, ◌*◌, ◌/◌, ◌%◌, ◌^◌, ◌≤◌, ◌<◌, min, max, ◌≡◌, refl, sym, ap, ap₂, ◌∙◌, ◌≢◌,
  ◌↔◌, ◌⊎◌, inl, inr, Bool, true, false, not, ◌&&◌, ◌||◌, Option, none, some, map, arith, ltb, leb,
  nat_beq, if◌then◌else◌, ltb→lt, ltb→ge, leb→le, leb→gt, nat_beq_iff, Bool-cases, Option-cases,
  ◌>>=◌, Eq, ◌==◌, nat_eq, list_beq, list_beq_iff, list_eq, triple_beq, triple_beq_iff, triple_eq,
  ==_refl, ==_sound, ==_complete, Free, split_on-join, split_on-Free, show-Free, length, get_elem?,
  take, drop, is_nil, length-append, take-append-drop, length-take, length-drop, keep, any, All,
  All-append, All-take, All-keep, All-map_of, keep-All, contains, contains-append, count,
  count-append, Distinct, sort, sort-perm, All-sort, Ordered, sort-Ordered, Sub, Sub-refl, Sub-All,
  Sub-keep, Sub-Distinct, Sub-Ordered, first_of_each, Sub-first_of_each, first_of_each-Distinct,
  contains-first_of_each, contains-sort, none_left, keeps, skips, Text, codes, is_space,
  is_line_break, lower_char, lower, starts_with, ends_with, has_text, after_prefix, lstrip, strip,
  cons_head, split_on, lines_after, splitlines, join, newline, show_digits, show, is_digit,
  take_digits, head_is_digit, read_number, read_number-show, path_parts, last_or_nil, path_name,
  suffix_of_parts, path_suffix, lstrip_dots, drop_first, path_suffixes,
}

pub data ProbeStatus : Type 0 where
  passed found_issue inconclusive : ProbeStatus

pub data ProbeName : Type 0 where
  init_order lifecycle build : ProbeName

pub record SandboxProbeRequestedEvent : Type 0 where
  pub review_job_id : Text
  pub repository_id : ℕ
  pub installation_id : ℕ
  pub repo_full_name : Text
  pub pr_number : ℕ
  pub head_sha : Text
  pub base_sha : Text

pub record Finding : Type 0 where
  pub probe : ProbeName
  pub title : Text
  pub message : Text
  pub file_path : Option Text
  pub line : Option ℕ
  pub evidence : Text

pub record SandboxProbeCompletedEvent : Type 0 where
  pub review_job_id : Text
  pub repository_id : ℕ
  pub pr_number : ℕ
  pub head_sha : Text
  pub status : ProbeStatus
  pub evidence : Text
  pub findings : List Finding

-- `OutcomeStatus` and `ProbeOutcome` of verdict.py.
pub data OutcomeStatus : Type 0 where
  passed found_issue skip inconclusive : OutcomeStatus

pub record ProbeOutcome : Type 0 where
  pub probe : ProbeName
  pub status : OutcomeStatus
  pub findings : List Finding
  pub evidence : Text

pub record StageResult : Type 0 where
  pub ok : Bool
  pub evidence : Text

pub record AggregateResult : Type 0 where
  pub status : ProbeStatus
  pub evidence : Text
  pub findings : List Finding

abbrev pub probe_text : ProbeName → Text
probe_text init_order = codes "init_order"
probe_text lifecycle = codes "lifecycle"
probe_text build = codes "build"

abbrev pub is_found_issue : OutcomeStatus → Bool
is_found_issue OutcomeStatus.found_issue = true
is_found_issue OutcomeStatus.passed = false
is_found_issue OutcomeStatus.skip = false
is_found_issue OutcomeStatus.inconclusive = false

abbrev pub is_inconclusive : OutcomeStatus → Bool
is_inconclusive OutcomeStatus.inconclusive = true
is_inconclusive OutcomeStatus.found_issue = false
is_inconclusive OutcomeStatus.passed = false
is_inconclusive OutcomeStatus.skip = false

abbrev pub is_passed : OutcomeStatus → Bool
is_passed OutcomeStatus.passed = true
is_passed OutcomeStatus.found_issue = false
is_passed OutcomeStatus.inconclusive = false
is_passed OutcomeStatus.skip = false

abbrev pub listed : Option ProbeOutcome → List ProbeOutcome
listed none = []
listed (some o) = o ∷ []

abbrev pub evidence_entry : ProbeOutcome → Text
evidence_entry o = codes "[" ++ probe_text o.probe ++ codes "] " ++ o.evidence

-- The status of the outcomes of the probes, by the order of the tests at the end of `aggregate`.
unfoldable pub outcomes_status : List ProbeOutcome → ProbeStatus
unfolding any
outcomes_status outcomes =
    if any (λ o. is_found_issue o.status) outcomes
    then ProbeStatus.found_issue
    else if any (λ o. is_inconclusive o.status) outcomes
    then ProbeStatus.inconclusive
    else if any (λ o. is_passed o.status) outcomes
    then ProbeStatus.passed
    else ProbeStatus.inconclusive

unfoldable pub aggregate_outcomes : List ProbeOutcome → AggregateResult
unfolding outcomes_status keep join flat_map
aggregate_outcomes outcomes = record {
  status = outcomes_status outcomes;
  evidence =
      join (10 ∷ 10 ∷ []) (map evidence_entry (keep (λ o. not (is_nil o.evidence)) outcomes));
  findings = flat_map (λ o. o.findings) outcomes;
}

abbrev pub build_failure : Text → AggregateResult
build_failure evidence = record {
  status = ProbeStatus.found_issue;
  evidence = evidence;
  findings =
      record {
        probe = build;
        title = codes "빌드 실패";
        message = codes "PR head 커밋을 빌드하지 못했습니다.";
        file_path = none;
        line = none;
        evidence = evidence;
      }
      ∷ [];
}

abbrev pub after_build : Option StageResult → List ProbeOutcome → AggregateResult
after_build none outcomes = build_failure []
after_build (some stage) outcomes =
    if stage.ok then aggregate_outcomes outcomes else build_failure stage.evidence

unfoldable pub aggregate :
    StageResult → Option StageResult → Option ProbeOutcome → Option ProbeOutcome → AggregateResult
unfolding aggregate_outcomes
aggregate install built order cycle =
    if install.ok
    then after_build built (listed order ++ listed cycle)
    else record { status = ProbeStatus.inconclusive; evidence = install.evidence; findings = [] }
