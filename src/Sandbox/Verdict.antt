-- ===== src/Sandbox/Verdict.antt =====
-- The status that `aggregate` gives for the outcomes of the stages.
use mathlib.Core.List.{List, ◌++◌}
use dovi_ai_server.Base.{
  ◌≡◌, refl, inl, inr, Bool, true, false, not, ◌&&◌, ◌||◌, Option, none, some, if◌then◌else◌,
  Bool-cases, nat_eq, list_eq, triple_eq, any,
}
use dovi_ai_server.Sandbox.{
  ProbeStatus, ProbeOutcome, StageResult, is_found_issue, is_inconclusive, is_passed, listed,
  outcomes_status, aggregate_outcomes, aggregate,
}

abbrev pub outcome_list : Option ProbeOutcome → Option ProbeOutcome → List ProbeOutcome
outcome_list order cycle = listed order ++ listed cycle

-- Whether a stage ran and succeeded.
abbrev pub is_ok : Option StageResult → Bool
is_ok none = false
is_ok (some stage) = stage.ok

abbrev pub is_status_passed : ProbeStatus → Bool
is_status_passed ProbeStatus.passed = true
is_status_passed ProbeStatus.found_issue = false
is_status_passed ProbeStatus.inconclusive = false

abbrev pub is_status_issue : ProbeStatus → Bool
is_status_issue ProbeStatus.found_issue = true
is_status_issue ProbeStatus.passed = false
is_status_issue ProbeStatus.inconclusive = false

outcomes_status-passed :
    (outcomes : List ProbeOutcome)
    → is_status_passed (outcomes_status outcomes) ≡ (
        not (any (λ o. is_found_issue o.status) outcomes)
        && not (any (λ o. is_inconclusive o.status) outcomes)
        && any (λ o. is_passed o.status) outcomes)
unfolding outcomes_status
outcomes_status-passed outcomes =
    chosen (any (λ o. is_found_issue o.status) outcomes)
      (any (λ o. is_inconclusive o.status) outcomes) (any (λ o. is_passed o.status) outcomes)
  where
    chosen :
        (a b c : Bool)
        → is_status_passed (
            if a
            then ProbeStatus.found_issue
            else if b
            then ProbeStatus.inconclusive
            else if c
            then ProbeStatus.passed
            else ProbeStatus.inconclusive)
          ≡ (not a && not b && c)
    chosen true b c = refl
    chosen false true c = refl
    chosen false false true = refl
    chosen false false false = refl

outcomes_status-issue :
    (outcomes : List ProbeOutcome)
    → is_status_issue (outcomes_status outcomes) ≡ any (λ o. is_found_issue o.status) outcomes
unfolding outcomes_status
outcomes_status-issue outcomes =
    chosen (any (λ o. is_found_issue o.status) outcomes)
      (any (λ o. is_inconclusive o.status) outcomes) (any (λ o. is_passed o.status) outcomes)
  where
    chosen :
        (a b c : Bool)
        → is_status_issue (
            if a
            then ProbeStatus.found_issue
            else if b
            then ProbeStatus.inconclusive
            else if c
            then ProbeStatus.passed
            else ProbeStatus.inconclusive)
          ≡ a
    chosen true b c = refl
    chosen false true c = refl
    chosen false false true = refl
    chosen false false false = refl

-- `aggregate` says `passed` exactly when the installation and the build succeeded, no probe found
-- an issue or was inconclusive, and one at least passed; and it says `found_issue` exactly when the
-- installation succeeded and the build did not, or a probe of a built commit found an issue.
pub aggregate-exact :
    (install : StageResult) (built : Option StageResult) (order cycle : Option ProbeOutcome)
    → let status = (aggregate install built order cycle).status in
      let outcomes = outcome_list order cycle in
      (is_status_passed status ≡ (
        install.ok
        && is_ok built
        && not (any (λ o. is_found_issue o.status) outcomes)
        && not (any (λ o. is_inconclusive o.status) outcomes)
        && any (λ o. is_passed o.status) outcomes))
      × (is_status_issue status
          ≡ (install.ok && (not (is_ok built) || any (λ o. is_found_issue o.status) outcomes)))
unfolding aggregate aggregate_outcomes
aggregate-exact install none order cycle = elim (Bool-cases install.ok) [
  | inl i ↦ rw i (refl, refl)
  | inr i ↦ rw i (refl, refl)
]
aggregate-exact install (some stage) order cycle = elim (Bool-cases install.ok) [
  | inl i ↦ elim (Bool-cases stage.ok) [
    | inl s ↦
        rw (i, s)
          (
            outcomes_status-passed (outcome_list order cycle),
            outcomes_status-issue (outcome_list order cycle),
          )
    | inr s ↦ rw (i, s) (refl, refl)
  ]
  | inr i ↦ rw i (refl, refl)
]
