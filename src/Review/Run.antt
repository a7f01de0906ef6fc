-- ===== src/Review/Run.antt =====
-- app/review/pipeline.py, `ReviewPipeline.run` around the loop over the batches. Logs, timings, the
-- counts of lines that are stored and the Notion link that is stored are left out.
pub mod Files
pub mod Job
use dovi_ai_server.Base.{
  ℕ, zero, suc, ◌+◌, ◌-◌, ◌*◌, ◌/◌, ◌%◌, ◌^◌, ◌≤◌, ◌<◌, min, max, ◌≡◌, refl, sym, ap, ap₂, ◌∙◌, ◌≢◌,
  ◌↔◌, ◌⊎◌, inl, inr, Bool, true, false, not, ◌&&◌, ◌||◌, Option, none, some, List, [], ◌∷◌, ◌++◌,
  map, arith, ltb, leb, nat_beq, if◌then◌else◌, ltb→lt, ltb→ge, leb→le, leb→gt, nat_beq_iff,
  Bool-cases, Option-cases, ◌>>=◌, Eq, ◌==◌, list_beq, list_beq_iff, nat_eq, list_eq, triple_beq,
  triple_beq_iff, triple_eq, ==_refl, ==_sound, ==_complete, Free, split_on-join, split_on-Free,
  show-Free, length, get_elem?, take, drop, is_nil, length-append, take-append-drop, length-take,
  length-drop, keep, any, All, All-append, All-take, All-keep, All-map_of, keep-All, contains,
  contains-append, count, count-append, Distinct, sort, sort-perm, All-sort, Ordered, sort-Ordered,
  Sub, Sub-refl, Sub-All, Sub-keep, Sub-Distinct, Sub-Ordered, first_of_each, Sub-first_of_each,
  first_of_each-Distinct, contains-first_of_each, contains-sort, none_left, keeps, skips, Text,
  codes, is_space, is_line_break, lower_char, lower, starts_with, ends_with, has_text, after_prefix,
  lstrip, strip, cons_head, split_on, lines_after, splitlines, join, newline, show_digits, show,
  is_digit, take_digits, head_is_digit, read_number, read_number-show, path_parts, last_or_nil,
  path_name, suffix_of_parts, path_suffix, lstrip_dots, drop_first, path_suffixes,
}
use dovi_ai_server.Review.Schema.{
  ChangedFile, ReviewRequestedEvent, ReviewTarget, ReviewComment, ReviewModelOutput,
  ReviewCompletedEvent, ReviewFailedEvent, ReviewResult, completed, failed, FailureReason,
  context_overflow,
}
use dovi_ai_server.Review.Filter.{FilterOptions}
use dovi_ai_server.Review.Diff.{analyze}
use dovi_ai_server.Review.Budget.{blank_line}
use dovi_ai_server.Review.Render.{ChunkSearchResult}
use dovi_ai_server.Review.Model.{Messages, Model, Settings, Session, count_tokens}
use dovi_ai_server.Review.Prompt.{Prompts, Built, build_messages, build_pr_description_section}
use dovi_ai_server.Review.Assemble.{sent_text, assemble_within_budget}
use dovi_ai_server.Review.Generate.{Generated, generated, gave_up, generate_batch}
use dovi_ai_server.Review.Batches.{Item, split_targets_into_batches}
use dovi_ai_server.Review.Track.{Tracked, filter_tracked, reviews_of, verify_across_batches}
use dovi_ai_server.Review.Notes.{format_file_note}
use dovi_ai_server.Review.Summary.{build_summary}
use dovi_ai_server.Llm.Partial.{Decoders}
use dovi_ai_server.Review.Progress.{Gathered, Setup, Success, Progress, common_for, run_batches}
use dovi_ai_server.Review.Told.{
  told_files, with_file_notes, track, untracked, messages_at, combined_summary,
}

abbrev pub completed_result :
    Setup → ReviewRequestedEvent → Text → List ReviewComment → ReviewResult
completed_result setup event summary reviews = completed (record {
  review_job_id = event.review_job_id;
  repository_id = event.repository_id;
  pr_number = event.pr_number;
  head_sha = event.head_sha;
  summary = summary;
  reviews = reviews;
  model_version = setup.model_version;
  prompt_version = setup.prompt_version;
})

abbrev pub failed_result : ReviewRequestedEvent → FailureReason → ReviewResult
failed_result event reason =
    failed
      (record { review_job_id = event.review_job_id; head_sha = event.head_sha; reason = reason })

-- The result, or `none` when a `KeyError` is raised.
module _ (m : Model) (d : Decoders) (setup : Setup)
    (summary_llm : Option (Messages → m.State → Option Text × m.State))
    (build_context_chunks : ChangedFile → List Text) (found : Gathered)
    (event : ReviewRequestedEvent) where
  abbrev pub all_tracked : Progress → List Tracked
  all_tracked g = track 0 g.successful ++ untracked found.dependency_findings

  -- The code skips `_verify_across_batches` on no findings, for which it does nothing.
  abbrev pub verified :
      List Tracked → List Success → Session m → Option (List ReviewComment) × Session m
  verified filtered successful s =
      if is_nil filtered
      then (some [], s)
      else verify_across_batches m setup.verify_prompt setup.settings (messages_at successful)
          filtered s

  abbrev pub finished :
      Progress → Text → Option (List ReviewComment) × Session m → Option ReviewResult × Session m
  finished g summary (none, s) = (none, s)
  finished g summary (some reviews, s) = (
    some (
        completed_result setup event
          (build_summary setup.min_confidence summary (reviews_of (all_tracked g))) reviews),
    s,
  )

  -- What follows the loop over the batches.
  unfoldable pub conclude : Progress → Session m → Option ReviewResult × Session m
  unfolding combined_summary with_file_notes told_files track filter_tracked verify_across_batches
      build_summary
  conclude g s =
      let (combined, s1) = combined_summary m setup summary_llm event g.successful s in
      let summary = with_file_notes combined (told_files g) in
      let filtered = filter_tracked setup.filter_options (all_tracked g) in
      if is_nil g.successful
      then (some (failed_result event g.last_reason), s)
      else finished g summary (verified filtered g.successful s1)

  abbrev pub start_progress : List Text → Progress
  start_progress omitted = record {
    successful = [];
    omitted_files = omitted;
    partial_files = [];
    reviewed_files = [];
    last_reason = context_overflow;
  }

  abbrev pub targets_of : List (List Item) → List (List ReviewTarget)
  targets_of batches = map (map (λ x. x.target)) batches

  -- The loop over the batches, from what `_split_targets_into_batches` returns.
  unfoldable pub review_batches : (List (List Item) × List Text) × Session m → Progress × Session m
  unfolding run_batches
  review_batches (split, s) =
      run_batches m setup event found d true (targets_of split.0) (start_progress split.1) s

  abbrev pub split : List ReviewTarget → Session m → (List (List Item) × List Text) × Session m
  split targets s =
      split_targets_into_batches m setup.settings setup.prompts.annotate_diff_lines
        found.related_context (common_for m setup event found) targets s

  abbrev pub without_targets : ReviewResult
  without_targets =
      completed_result setup event
        (if is_nil found.dependency_findings
          then codes "No reviewable changes found."
          else build_summary setup.min_confidence (codes "리뷰 대상 코드 변경은 없습니다.")
              found.dependency_findings)
        []

  -- What follows `_split_targets_into_batches`.
  unfoldable pub after_split :
      (List (List Item) × List Text) × Session m → Option ReviewResult × Session m
  unfolding review_batches conclude
  after_split batched =
      let (g, s1) = review_batches batched in
      if is_nil batched.0.0
      then (some (failed_result event context_overflow), batched.1)
      else conclude g s1

  unfoldable pub run_targets : List ReviewTarget → Session m → Option ReviewResult × Session m
  unfolding split_targets_into_batches common_for after_split build_summary
  run_targets targets s =
      if is_nil targets then (some without_targets, s) else after_split (split targets s)

  unfoldable pub run : Session m → Option ReviewResult × Session m
  unfolding analyze run_targets
  run s = run_targets (analyze build_context_chunks event) s
