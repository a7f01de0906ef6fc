-- ===== src/Review/Progress.antt =====
-- app/review/pipeline.py, the loop of `ReviewPipeline.run` over the batches. What the dependency
-- resolver and the retrieval find is a parameter.
pub mod Files
pub mod Turns
use dovi_ai_server.Base.{
  ℕ, zero, suc, ◌+◌, ◌-◌, ◌*◌, ◌/◌, ◌%◌, ◌^◌, ◌≤◌, ◌<◌, min, max, ◌≡◌, refl, sym, ap, ap₂, ◌∙◌, ◌≢◌,
  ◌↔◌, ◌⊎◌, inl, inr, Bool, true, false, not, ◌&&◌, ◌||◌, Option, none, some, List, [], ◌∷◌, ◌++◌,
  map, arith, ltb, leb, nat_beq, if◌then◌else◌, ltb→lt, ltb→ge, leb→le, leb→gt, nat_beq_iff,
  Bool-cases, Option-cases, ◌>>=◌, Eq, ◌==◌, list_beq, list_beq_iff, nat_eq, list_eq, triple_beq,
  triple_beq_iff, triple_eq, ==_refl, ==_sound, ==_complete, Free, split_on-join, split_on-Free,
  show-Free, length, get_elem?, take, drop, is_nil, length-append, take-append-drop, length-take,
  length-drop, keep, any, All, All-append, All-take, All-keep, All-map_of, keep-All, contains,
  contains-append, count, count-append, Distinct, sort, sort-perm, All-sort, Ordered, sort-Ordered,
  Sub, Sub-refl, Sub-All, Sub-keep, Sub-Distinct, Sub-Ordered, first_of_each, Sub-first_of_each,
  first_of_each-Distinct, contains-first_of_each, contains-sort, none_left, keeps, skips, Text,
  codes, is_space, is_line_break, lower_char, lower, starts_with, ends_with, has_text, after_prefix,
  lstrip, strip, cons_head, split_on, lines_after, splitlines, join, newline, show_digits, show,
  is_digit, take_digits, head_is_digit, read_number, read_number-show, path_parts, last_or_nil,
  path_name, suffix_of_parts, path_suffix, lstrip_dots, drop_first, path_suffixes,
}
use dovi_ai_server.Review.Schema.{
  ChangedFile, ReviewRequestedEvent, ReviewTarget, ReviewComment, ReviewModelOutput,
  ReviewCompletedEvent, ReviewFailedEvent, ReviewResult, completed, failed, FailureReason,
  context_overflow,
}
use dovi_ai_server.Review.Filter.{FilterOptions}
use dovi_ai_server.Review.Diff.{analyze}
use dovi_ai_server.Review.Budget.{blank_line}
use dovi_ai_server.Review.Render.{ChunkSearchResult}
use dovi_ai_server.Review.Model.{Messages, Model, Settings, Session, count_tokens}
use dovi_ai_server.Review.Prompt.{Prompts, Built, build_messages, build_pr_description_section}
use dovi_ai_server.Review.Assemble.{sent_text, assemble_within_budget}
use dovi_ai_server.Review.Generate.{Generated, generated, gave_up, generate_batch}
use dovi_ai_server.Review.Batches.{Item, split_targets_into_batches}
use dovi_ai_server.Review.Track.{Tracked, filter_tracked, reviews_of, verify_across_batches}
use dovi_ai_server.Review.Notes.{format_file_note}
use dovi_ai_server.Review.Summary.{build_summary}
use dovi_ai_server.Llm.Partial.{Decoders}

-- What the services that are not models have found for an event.
pub record Gathered : Type 0 where
  pub related_context : Text → List ChunkSearchResult
  pub api_spec_context : Text
  pub official_docs_context : Text
  pub dependency_findings : List ReviewComment

-- The attributes of the pipeline and the constants that it reads.
pub record Setup : Type 0 where
  pub settings : Settings
  pub prompts : Prompts
  pub verify_prompt : Text
  pub summary_prompt : Text
  pub model_version : Text
  pub prompt_version : Text
  pub filter_options : FilterOptions
  pub min_confidence : ℕ

-- An entry of `successful`.
pub record Success : Type 0 where
  pub output : ReviewModelOutput
  pub used_messages : Messages
  pub file_list : List Text

-- The variables of the loop over the batches.
pub record Progress : Type 0 where
  pub successful : List Success
  pub omitted_files : List Text
  pub partial_files : List Text
  pub reviewed_files : List Text
  pub last_reason : FailureReason

abbrev pub target_paths : List ReviewTarget → List Text
target_paths targets = map (λ t. t.file_path) targets

-- A batch that is not reviewed.
abbrev pub omit : List ReviewTarget → Progress → Progress
omit targets g = record g { omitted_files = g.omitted_files ++ target_paths targets }

abbrev pub succeed : List ReviewTarget → Built → ReviewModelOutput → Messages → Progress → Progress
succeed targets built output used g = record {
  successful =
      g.successful
      ++ (record { output = output; used_messages = used; file_list = target_paths targets } ∷ []);
  omitted_files = g.omitted_files ++ built.dropped_files;
  partial_files = g.partial_files ++ built.truncated_files;
  reviewed_files =
      g.reviewed_files
      ++ keep (λ path. not (contains built.dropped_files path)) (target_paths targets);
  last_reason = g.last_reason;
}

-- The request for a shorter answer that `_retry_shortened` adds to the prompt.
abbrev pub retry_suffix : ℕ → Text
retry_suffix max_findings =
    blank_line
    ++ (codes "(참고: 방금 출력이 중간에 잘렸습니다. 이번엔 finding을 최대 "
        ++ (show max_findings ++ codes "개까지만, 각 message는 2문장 이내로 간결하게 작성해주세요.)"))

abbrev pub messages_of_built : Option Built → Option Messages
messages_of_built none = none
messages_of_built (some built) = some built.messages

-- What `_build_messages` and the counts for `_split_targets_into_batches` have in common.
module _ (m : Model) (setup : Setup) (event : ReviewRequestedEvent) (found : Gathered) where
  -- `common_for` in `_split_targets_into_batches`.
  unfoldable pub common_for : Bool → Session m → (ℕ × ℕ) × Session m
  unfolding build_messages count_tokens
  common_for include_shared s =
      let built =
        build_messages setup.prompts event [] found.related_context [] include_shared
          found.api_spec_context found.official_docs_context none none none in
      let (tokens, s1) = count_tokens m (sent_text built) s in
      (
        (
          tokens,
          length built.context
              + length built.pr_section
              + length built.api_spec_context
              + length built.official_docs_context,
        ),
        s1,
      )

  unfoldable pub assemble : List ReviewTarget → Text → Bool → Session m → Option Built × Session m
  unfolding assemble_within_budget
  assemble targets suffix include_shared s =
      assemble_within_budget m setup.prompts event targets found.related_context setup.settings
        found.api_spec_context found.official_docs_context suffix include_shared s

  -- The prompt of `_retry_shortened`.
  abbrev pub assemble_shortened : List ReviewTarget → Bool → Session m → Option Messages × Session m
  assemble_shortened targets include_shared s =
      let suffix = retry_suffix setup.settings.truncation_retry_max_findings in
      let (built, s1) = assemble targets suffix include_shared s in (messages_of_built built, s1)

  module _ (d : Decoders) where
    abbrev pub after_generate :
        List ReviewTarget → Built → Progress → Generated × Session m → Progress × Session m
    after_generate targets built g (gave_up reason, s) =
        (omit targets (record g { last_reason = reason }), s)
    after_generate targets built g (generated output used, s) =
        (succeed targets built output used g, s)

    abbrev pub after_assemble :
        List ReviewTarget → Bool → Progress → Option Built × Session m → Progress × Session m
    after_assemble targets include_shared g (none, s) = (omit targets g, s)
    after_assemble targets include_shared g (some built, s) = after_generate targets built g (
        generate_batch m d setup.settings (assemble_shortened targets include_shared) built.messages
          s)

    -- One turn of the loop over the batches.
    unfoldable pub run_batch :
        Bool → List ReviewTarget → Progress → Session m → Progress × Session m
    unfolding assemble generate_batch
    run_batch include_shared targets g s =
        after_assemble targets include_shared g (assemble targets [] include_shared s)

    unfoldable pub run_batches :
        Bool → List (List ReviewTarget) → Progress → Session m → Progress × Session m
    unfolding run_batch
    run_batches include_shared [] g s = (g, s)
    run_batches include_shared (targets ∷ batches) g s =
        let (g1, s1) = run_batch include_shared targets g s in run_batches false batches g1 s1
