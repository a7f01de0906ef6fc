-- ===== src/Review/Assemble.antt =====
-- app/review/pipeline.py, `_assemble_within_budget` and what it calls: a prompt whose tokens are
-- counted, and whose sections are cut one after the other until it fits.
pub mod Fits
pub mod Counts
use dovi_ai_server.Base.{
  ℕ, zero, suc, ◌+◌, ◌-◌, ◌*◌, ◌/◌, ◌%◌, ◌^◌, ◌≤◌, ◌<◌, min, max, ◌≡◌, refl, sym, ap, ap₂, ◌∙◌, ◌≢◌,
  ◌↔◌, ◌⊎◌, inl, inr, Bool, true, false, not, ◌&&◌, ◌||◌, Option, none, some, List, [], ◌∷◌, ◌++◌,
  map, arith, ltb, leb, nat_beq, if◌then◌else◌, ltb→lt, ltb→ge, leb→le, leb→gt, nat_beq_iff,
  Bool-cases, Option-cases, ◌>>=◌, Eq, ◌==◌, list_beq, list_beq_iff, nat_eq, list_eq, triple_beq,
  triple_beq_iff, triple_eq, ==_refl, ==_sound, ==_complete, Free, split_on-join, split_on-Free,
  show-Free, length, get_elem?, take, drop, is_nil, length-append, take-append-drop, length-take,
  length-drop, keep, any, All, All-append, All-take, All-keep, All-map_of, keep-All, contains,
  contains-append, count, count-append, Distinct, sort, sort-perm, All-sort, Ordered, sort-Ordered,
  Sub, Sub-refl, Sub-All, Sub-keep, Sub-Distinct, Sub-Ordered, first_of_each, Sub-first_of_each,
  first_of_each-Distinct, contains-first_of_each, contains-sort, none_left, keeps, skips, Text,
  codes, is_space, is_line_break, lower_char, lower, starts_with, ends_with, has_text, after_prefix,
  lstrip, strip, cons_head, split_on, lines_after, splitlines, join, newline, show_digits, show,
  is_digit, take_digits, head_is_digit, read_number, read_number-show, path_parts, last_or_nil,
  path_name, suffix_of_parts, path_suffix, lstrip_dots, drop_first, path_suffixes,
}
use dovi_ai_server.Review.Schema.{ReviewRequestedEvent, ReviewTarget}
use dovi_ai_server.Review.Budget.{truncate_diff_blocks_detailed, shrink_to_char_limit}
use dovi_ai_server.Review.Render.{ChunkSearchResult}
use dovi_ai_server.Review.Batches.{max_diff_file_chars, max_diff_total_chars}
use dovi_ai_server.Review.Model.{
  Messages, Model, Settings, Session, count_tokens, resolve_max_context, safety_margin_tokens,
}
use dovi_ai_server.Review.Prompt.{Prompts, Built, shrunk, blocks_of, build_messages}

abbrev pub min_diff_tokens : ℕ
min_diff_tokens = 500

-- `1 + len(reduction_steps) * 3`.
abbrev pub max_attempts : ℕ
max_attempts = 16

-- The budget is `max_context - reserve`, which may be below zero: `n <= max_context - reserve`
-- reads `n + reserve <= max_context`, and the overshoot is `n + reserve - max_context`.
abbrev pub reserve : Settings → ℕ
reserve o = o.max_tokens + safety_margin_tokens

-- The order of `reduction_steps`.
pub data Step : Type 0 where
  official_docs api_spec context pr_body diff : Step

abbrev pub reduction_steps : List Step
reduction_steps = official_docs ∷ api_spec ∷ context ∷ pr_body ∷ diff ∷ []

-- The dictionary `overrides`.
pub record Overrides : Type 0 where
  pub official_docs_max : Option ℕ
  pub api_spec_max : Option ℕ
  pub context_max : Option ℕ
  pub pr_body_max : Option ℕ
  pub diff_max : Option ℕ

abbrev pub no_overrides : Overrides
no_overrides = record {
  official_docs_max = none;
  api_spec_max = none;
  context_max = none;
  pr_body_max = none;
  diff_max = none;
}

abbrev pub override : Step → ℕ → Overrides → Overrides
override official_docs limit o = record o { official_docs_max = some limit }
override api_spec limit o = record o { api_spec_max = some limit }
override context limit o = record o { context_max = some limit }
override pr_body limit o = record o { pr_body_max = some limit }
override diff limit o = record o { diff_max = some limit }

-- The section that a step cuts, as it stands in the last prompt.
abbrev pub section_of : Step → Built → Text
section_of official_docs b = b.official_docs_context
section_of api_spec b = b.api_spec_context
section_of context b = b.context
section_of pr_body b = b.pr_section
section_of diff b = b.diff

-- Only the diff has a size below which it is not cut.
abbrev pub floor_of : Step → ℕ → ℕ
floor_of official_docs diff_floor = 0
floor_of api_spec diff_floor = 0
floor_of context diff_floor = 0
floor_of pr_body diff_floor = 0
floor_of diff diff_floor = diff_floor

-- The text of a prompt whose tokens are counted.
abbrev pub sent_text : Built → Text
sent_text b = b.messages.system ++ b.messages.user

module _ (m : Model) where
  -- `math.floor(a * b / c)` is the quotient of the integers while `a * b` is below 2^53.
  unfoldable pub reduced_char_limit : Text → ℕ → Session m → ℕ × Session m
  unfolding count_tokens
  reduced_char_limit current_text overshoot_tokens s =
      let (current_tokens, s1) = count_tokens m current_text s in
      let target_tokens = current_tokens - overshoot_tokens in
      (if leb current_tokens 0 then 0 else length current_text * target_tokens / current_tokens, s1)

  module _ (p : Prompts) (event : ReviewRequestedEvent) (targets : List ReviewTarget)
      (related : Text → List ChunkSearchResult) where
    abbrev pub original_diff : Text
    original_diff =
        (truncate_diff_blocks_detailed max_diff_file_chars max_diff_total_chars
          (blocks_of p event targets related)).0

    unfoldable pub diff_floor_chars : Session m → ℕ × Session m
    unfolding count_tokens truncate_diff_blocks_detailed
    diff_floor_chars s =
        let (original_tokens, s1) = count_tokens m original_diff s in
        (
          if leb original_tokens min_diff_tokens
              then length original_diff
              else length original_diff * min_diff_tokens / original_tokens,
          s1,
        )

    module _ (o : Settings) (api_spec_context official_docs_context extra_user_suffix : Text)
        (include_shared : Bool) where
      abbrev pub build : Overrides → Built
      build overrides =
          build_messages p event targets related extra_user_suffix include_shared
            (shrunk overrides.api_spec_max api_spec_context)
            (shrunk overrides.official_docs_max official_docs_context) overrides.context_max
            overrides.pr_body_max overrides.diff_max

      module _ (max_context diff_floor : ℕ) where
        -- The steps that are left and the overrides for the next attempt.
        unfoldable pub next_attempt :
            Step → List Step → Overrides → Text → ℕ → List Step × Overrides
        next_attempt step later overrides current reduced =
            let new_limit = max (floor_of step diff_floor) reduced in
            if leb (length current) new_limit
            then (later, overrides)
            else (step ∷ later, override step new_limit overrides)

        -- The loop, with the attempts and the steps that are left.
        unfoldable pub assemble_loop :
            ℕ → List Step → Overrides → Session m → Option Built × Session m
        unfolding build_messages shrink_to_char_limit count_tokens reduced_char_limit next_attempt
        assemble_loop zero steps overrides s = (none, s)
        assemble_loop (suc attempts) [] overrides s =
            let built = build overrides in
            let (actual, s1) = count_tokens m (sent_text built) s in
            (if leb (actual + reserve o) max_context then some built else none, s1)
        assemble_loop (suc attempts) (step ∷ later) overrides s =
            let built = build overrides in
            let (actual, s1) = count_tokens m (sent_text built) s in
            let (reduced, s2) =
              reduced_char_limit (section_of step built) (actual + reserve o - max_context) s1 in
            let (steps, overrides') =
              next_attempt step later overrides (section_of step built) reduced in
            let again = assemble_loop attempts steps overrides' s2 in
            if leb (actual + reserve o) max_context then (some built, s1) else again

      -- The prompt with what the last call wrote into the report; `none` when it does not fit.
      unfoldable pub assemble_within_budget : Session m → Option Built × Session m
      unfolding resolve_max_context diff_floor_chars assemble_loop
      assemble_within_budget s =
          let (max_context, s1) = resolve_max_context m o s in
          let (diff_floor, s2) = diff_floor_chars s1 in
          assemble_loop max_context diff_floor max_attempts reduction_steps no_overrides s2
