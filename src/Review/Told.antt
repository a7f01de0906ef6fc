-- ===== src/Review/Told.antt =====
-- app/review/pipeline.py, what `ReviewPipeline.run` tells of the batches: the files that were not
-- reviewed, the findings with the numbers of their batches, and the summary of them all.
pub mod Notes
use dovi_ai_server.Base.{
  ℕ, zero, suc, ◌+◌, ◌-◌, ◌*◌, ◌/◌, ◌%◌, ◌^◌, ◌≤◌, ◌<◌, min, max, ◌≡◌, refl, sym, ap, ap₂, ◌∙◌, ◌≢◌,
  ◌↔◌, ◌⊎◌, inl, inr, Bool, true, false, not, ◌&&◌, ◌||◌, Option, none, some, List, [], ◌∷◌, ◌++◌,
  map, arith, ltb, leb, nat_beq, if◌then◌else◌, ltb→lt, ltb→ge, leb→le, leb→gt, nat_beq_iff,
  Bool-cases, Option-cases, ◌>>=◌, Eq, ◌==◌, list_beq, list_beq_iff, nat_eq, list_eq, triple_beq,
  triple_beq_iff, triple_eq, ==_refl, ==_sound, ==_complete, Free, split_on-join, split_on-Free,
  show-Free, length, get_elem?, take, drop, is_nil, length-append, take-append-drop, length-take,
  length-drop, keep, any, All, All-append, All-take, All-keep, All-map_of, keep-All, contains,
  contains-append, count, count-append, Distinct, sort, sort-perm, All-sort, Ordered, sort-Ordered,
  Sub, Sub-refl, Sub-All, Sub-keep, Sub-Distinct, Sub-Ordered, first_of_each, Sub-first_of_each,
  first_of_each-Distinct, contains-first_of_each, contains-sort, none_left, keeps, skips, Text,
  codes, is_space, is_line_break, lower_char, lower, starts_with, ends_with, has_text, after_prefix,
  lstrip, strip, cons_head, split_on, lines_after, splitlines, join, newline, show_digits, show,
  is_digit, take_digits, head_is_digit, read_number, read_number-show, path_parts, last_or_nil,
  path_name, suffix_of_parts, path_suffix, lstrip_dots, drop_first, path_suffixes,
}
use dovi_ai_server.Review.Schema.{
  ChangedFile, ReviewRequestedEvent, ReviewTarget, ReviewComment, ReviewModelOutput,
  ReviewCompletedEvent, ReviewFailedEvent, ReviewResult, completed, failed, FailureReason,
  context_overflow,
}
use dovi_ai_server.Review.Filter.{FilterOptions}
use dovi_ai_server.Review.Diff.{analyze}
use dovi_ai_server.Review.Budget.{blank_line}
use dovi_ai_server.Review.Render.{ChunkSearchResult}
use dovi_ai_server.Review.Model.{Messages, Model, Settings, Session, count_tokens}
use dovi_ai_server.Review.Prompt.{Prompts, Built, build_messages, build_pr_description_section}
use dovi_ai_server.Review.Assemble.{sent_text, assemble_within_budget}
use dovi_ai_server.Review.Generate.{Generated, generated, gave_up, generate_batch}
use dovi_ai_server.Review.Batches.{Item, split_targets_into_batches}
use dovi_ai_server.Review.Track.{Tracked, filter_tracked, reviews_of, verify_across_batches}
use dovi_ai_server.Review.Notes.{format_file_note}
use dovi_ai_server.Review.Summary.{build_summary}
use dovi_ai_server.Llm.Partial.{Decoders}
use dovi_ai_server.Review.Progress.{Setup, Success, Progress}

abbrev pub summary_part_max_chars : ℕ
summary_part_max_chars = 600

abbrev pub summary_part_max_files : ℕ
summary_part_max_files = 12

-- The notes on files: of a file of which some piece was reviewed and some was not, a file that is
-- reviewed in part.
pub record Told : Type 0 where
  pub omitted : List Text
  pub partial : List Text

unfoldable pub told_files : Progress → Told
unfolding first_of_each keep contains
told_files g =
    let is_reviewed = contains g.reviewed_files in
    let partial_files = g.partial_files ++ keep is_reviewed g.omitted_files in
    let omitted = keep (λ p. not (is_reviewed p)) (first_of_each (λ p. p) [] g.omitted_files) in
    record {
      omitted = omitted;
      partial = keep (λ p. not (contains omitted p)) (first_of_each (λ p. p) [] partial_files);
    }

abbrev pub note_unless_empty : Text → List Text → List Text
note_unless_empty title [] = []
note_unless_empty title (p ∷ ps) = format_file_note title (p ∷ ps) ∷ []

unfoldable pub with_file_notes : Text → Told → Text
unfolding format_file_note join
with_file_notes summary told =
    let notes =
      note_unless_empty (codes "리뷰하지 못한 파일") told.omitted
      ++ note_unless_empty (codes "일부만 리뷰된 파일") told.partial in
    if is_nil notes then summary else summary ++ (blank_line ++ join blank_line notes)

-- The findings of the batches with the numbers of these.
unfoldable pub track : ℕ → List Success → List Tracked
track n [] = []
track n (b ∷ bs) =
    map (λ r. record { review = r; batch = some n }) b.output.reviews ++ track (suc n) bs

abbrev pub untracked : List ReviewComment → List Tracked
untracked rs = map (λ r. record { review = r; batch = none }) rs

-- The messages of a batch by its number.
abbrev pub messages_at : List Success → ℕ → Messages
messages_at [] n = record { system = []; user = [] }
messages_at (b ∷ bs) zero = b.used_messages
messages_at (b ∷ bs) (suc n) = messages_at bs n

unfoldable pub summary_part : ℕ → Success → Text
unfolding show join strip
summary_part index b =
    let files = length b.file_list in
    codes "### 파트 "
    ++ (show index
        ++ (codes " (파일 "
            ++ (show files
                ++ (codes "개: "
                    ++ (join (codes ", ") (take summary_part_max_files b.file_list)
                        ++ ((if ltb summary_part_max_files files
                              then codes " 외 "
                                ++ (show (files - summary_part_max_files) ++ codes "개")
                              else [])
                            ++ (codes ")"
                                ++ (newline
                                    ++ take summary_part_max_chars (strip b.output.summary)))))))))

unfoldable pub summary_parts : ℕ → List Success → List Text
unfolding summary_part
summary_parts index [] = []
summary_parts index (b ∷ bs) = summary_part index b ∷ summary_parts (suc index) bs

abbrev pub or_fallback : Option Text → Text → Text
or_fallback none fallback = fallback
or_fallback (some text) fallback = if is_nil (strip text) then fallback else strip text

module _ (m : Model) (setup : Setup)
    (summary_llm : Option (Messages → m.State → Option Text × m.State))
    (event : ReviewRequestedEvent) where
  abbrev pub reduce_messages : List Success → Messages
  reduce_messages successful = record {
    system = setup.summary_prompt;
    user =
        build_pr_description_section event
        ++ (codes "## 리뷰한 파트" ++ (blank_line ++ join blank_line (summary_parts 1 successful)));
  }

  -- `none` is the answer of `generate_text` when it raises.
  unfoldable pub reduce_summary : List Success → Text → Session m → Text × Session m
  unfolding summary_parts build_pr_description_section join strip
  reduce_summary successful fallback (st, cached) = elim summary_llm [
    | none ↦ (fallback, (st, cached))
    | some generate_text ↦
        let (text, st') = generate_text (reduce_messages successful) st in
        (or_fallback text fallback, (st', cached))
  ]

  unfoldable pub combined_summary : List Success → Session m → Text × Session m
  unfolding reduce_summary
  combined_summary [] s = ([], s)
  combined_summary (b ∷ []) s = (b.output.summary, s)
  combined_summary (b ∷ c ∷ bs) s = reduce_summary (b ∷ c ∷ bs) b.output.summary s
