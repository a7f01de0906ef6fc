-- ===== src/Review/Prompt.antt =====
-- app/review/pipeline.py, `_build_messages` and what it calls: the text of a prompt and of its
-- sections. The fixed texts of the prompts are a parameter.
pub mod Tag
use dovi_ai_server.Base.{
  ℕ, zero, suc, ◌+◌, ◌-◌, ◌*◌, ◌/◌, ◌%◌, ◌^◌, ◌≤◌, ◌<◌, min, max, ◌≡◌, refl, sym, ap, ap₂, ◌∙◌, ◌≢◌,
  ◌↔◌, ◌⊎◌, inl, inr, Bool, true, false, not, ◌&&◌, ◌||◌, Option, none, some, List, [], ◌∷◌, ◌++◌,
  map, arith, ltb, leb, nat_beq, if◌then◌else◌, ltb→lt, ltb→ge, leb→le, leb→gt, nat_beq_iff,
  Bool-cases, Option-cases, ◌>>=◌, Eq, ◌==◌, list_beq, list_beq_iff, nat_eq, list_eq, triple_beq,
  triple_beq_iff, triple_eq, ==_refl, ==_sound, ==_complete, Free, split_on-join, split_on-Free,
  show-Free, length, get_elem?, take, drop, is_nil, length-append, take-append-drop, length-take,
  length-drop, keep, any, All, All-append, All-take, All-keep, All-map_of, keep-All, contains,
  contains-append, count, count-append, Distinct, sort, sort-perm, All-sort, Ordered, sort-Ordered,
  Sub, Sub-refl, Sub-All, Sub-keep, Sub-Distinct, Sub-Ordered, first_of_each, Sub-first_of_each,
  first_of_each-Distinct, contains-first_of_each, contains-sort, none_left, keeps, skips, Text,
  codes, is_space, is_line_break, lower_char, lower, starts_with, ends_with, has_text, after_prefix,
  lstrip, strip, cons_head, split_on, lines_after, splitlines, join, newline, show_digits, show,
  is_digit, take_digits, head_is_digit, read_number, read_number-show, path_parts, last_or_nil,
  path_name, suffix_of_parts, path_suffix, lstrip_dots, drop_first, path_suffixes,
}
use dovi_ai_server.Review.Schema.{ReviewRequestedEvent, ReviewTarget, ContextFile}
use dovi_ai_server.Review.Budget.{truncate_diff_blocks_detailed, shrink_to_char_limit, blank_line}
use dovi_ai_server.Review.Context.{build_context, max_file_chars, max_total_chars}
use dovi_ai_server.Review.Risk.{build_risk_hint}
use dovi_ai_server.Review.Render.{ChunkSearchResult, render_target}
use dovi_ai_server.Review.Batches.{max_diff_file_chars, max_diff_total_chars}
use dovi_ai_server.Review.Model.{Messages}

abbrev pub max_pr_body_chars : ℕ
max_pr_body_chars = 2000

abbrev pub closing_tag : Text
closing_tag = codes "</pr_description>"

abbrev pub redacted : Text
redacted = codes "[REDACTED]"

-- A closing tag stands in front, in any case.
abbrev pub tag_here : Text → Bool
tag_here t = starts_with closing_tag (lower t)

-- `_CLOSING_PR_DESCRIPTION_TAG.sub`, with the characters of a tag that are still to be skipped.
unfoldable pub neutralize_loop : ℕ → Text → Text
unfolding starts_with lower
neutralize_loop skip [] = []
neutralize_loop (suc skip) (c ∷ t) = neutralize_loop skip t
neutralize_loop zero (c ∷ t) =
    let found = tag_here (c ∷ t) in
    let rest = neutralize_loop (if found then length closing_tag - 1 else 0) t in
    if found then redacted ++ rest else c ∷ rest

unfoldable pub neutralize_closing_tag : Text → Text
unfolding neutralize_loop
neutralize_closing_tag text = neutralize_loop 0 text

abbrev pub cut_body : Text → Text
cut_body body =
    if ltb max_pr_body_chars (length body)
    then take max_pr_body_chars body ++ codes "...(truncated)"
    else body

abbrev pub line_unless_empty : Text → Text → List Text
line_unless_empty label text = if is_nil text then [] else (label ++ text) ∷ []

unfoldable pub build_pr_description_section : ReviewRequestedEvent → Text
unfolding neutralize_closing_tag strip join
build_pr_description_section event =
    let title = neutralize_closing_tag (strip event.pr_title) in
    let body = neutralize_closing_tag (strip event.pr_body) in
    if is_nil title && is_nil body
    then []
    else join newline (
        codes "## PR Description"
        ∷ codes "<pr_description>"
        ∷ (line_unless_empty (codes "Title: ") title
            ++ (line_unless_empty [] (cut_body body) ++ (closing_tag ∷ []))))
      ++ blank_line

-- `_SYSTEM_PROMPT`, `_LINE_NUMBER_NOTE` and `_annotate_diff_lines`.
pub record Prompts : Type 0 where
  pub system_prompt : Text
  pub line_number_note : Text
  pub annotate_diff_lines : Bool

unfoldable pub system_prompt_of : Prompts → Text
system_prompt_of p =
    if p.annotate_diff_lines then p.system_prompt ++ p.line_number_note else p.system_prompt

-- What one call of `_build_messages` puts together: the messages, the sections, and what it writes
-- into the report.
pub record Built : Type 0 where
  pub messages : Messages
  pub context : Text
  pub pr_section : Text
  pub diff : Text
  pub api_spec_context : Text
  pub official_docs_context : Text
  pub dropped_files : List Text
  pub truncated_files : List Text

abbrev pub shrunk : Option ℕ → Text → Text
shrunk none text = text
shrunk (some limit) text = shrink_to_char_limit text limit

abbrev pub or_else : Option ℕ → ℕ → ℕ
or_else none n = n
or_else (some limit) n = limit

module _ (p : Prompts) (event : ReviewRequestedEvent) (targets : List ReviewTarget)
    (related : Text → List ChunkSearchResult) where
  abbrev pub blocks_of : List (Text × Text)
  blocks_of =
      map (λ t. (t.file_path, render_target p.annotate_diff_lines t (related t.file_path))) targets

  abbrev pub with_context : Text → Text → Text
  with_context context diff =
      if is_nil context
      then diff
      else codes "## Project Context"
        ++ (newline ++ (context ++ (blank_line ++ (codes "## Changes" ++ (newline ++ diff)))))

  module _ (extra_user_suffix : Text) (include_shared : Bool) where
    unfoldable pub build_messages : Text → Text → Option ℕ → Option ℕ → Option ℕ → Built
    unfolding build_context build_pr_description_section build_risk_hint shrink_to_char_limit
        truncate_diff_blocks_detailed system_prompt_of render_target
    build_messages api_spec_context official_docs_context context_max pr_body_max diff_max =
        let context =
          if include_shared
          then build_context max_file_chars (or_else context_max max_total_chars)
              event.context_files
          else [] in
        let pr_section =
          shrunk pr_body_max (if include_shared then build_pr_description_section event else []) in
        let risk_hint = build_risk_hint targets in
        let diff_budget = or_else diff_max (
          max_diff_total_chars
          - length context
          - length api_spec_context
          - length official_docs_context
          - length pr_section
          - length risk_hint) in
        let (diff, dropped, cut) =
          truncate_diff_blocks_detailed max_diff_file_chars diff_budget blocks_of in
        record {
          messages = record {
            system = system_prompt_of p;
            user =
                pr_section
                ++ (risk_hint
                    ++ (with_context context diff
                        ++ (api_spec_context ++ (official_docs_context ++ extra_user_suffix))));
          };
          context = context;
          pr_section = pr_section;
          diff = diff;
          api_spec_context = api_spec_context;
          official_docs_context = official_docs_context;
          dropped_files = dropped;
          truncated_files = cut;
        }
