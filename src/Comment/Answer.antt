-- ===== src/Comment/Answer.antt =====
-- `CommentAnswerPipeline` (app/comment_answer/pipeline.py). Its counting of tokens, its cache of the
-- context size and its two helpers on texts are, line for line, those of the review pipeline and
-- are taken from there. The fixed text of the prompt and the answer of `generate_text` are
-- parameters.
pub mod Thread
pub mod Job
use dovi_ai_server.Base.{
  ℕ, zero, suc, ◌+◌, ◌-◌, ◌*◌, ◌/◌, ◌%◌, ◌^◌, ◌≤◌, ◌<◌, min, max, ◌≡◌, refl, sym, ap, ap₂, ◌∙◌, ◌≢◌,
  ◌↔◌, ◌⊎◌, inl, inr, Bool, true, false, not, ◌&&◌, ◌||◌, Option, none, some, List, [], ◌∷◌, ◌++◌,
  map, arith, ltb, leb, nat_beq, if◌then◌else◌, ltb→lt, ltb→ge, leb→le, leb→gt, nat_beq_iff,
  Bool-cases, Option-cases, ◌>>=◌, Eq, ◌==◌, list_beq, list_beq_iff, nat_eq, list_eq, triple_beq,
  triple_beq_iff, triple_eq, ==_refl, ==_sound, ==_complete, Free, split_on-join, split_on-Free,
  show-Free, length, get_elem?, take, drop, is_nil, length-append, take-append-drop, length-take,
  length-drop, keep, any, All, All-append, All-take, All-keep, All-map_of, keep-All, contains,
  contains-append, contains-keep, count, count-append, Distinct, sort, sort-perm, All-sort, Ordered,
  sort-Ordered, Sub, Sub-refl, Sub-All, Sub-keep, Sub-Distinct, Sub-Ordered, first_of_each,
  Sub-first_of_each, first_of_each-Distinct, contains-first_of_each, contains-sort, none_left,
  keeps, skips, Text, codes, is_space, is_line_break, lower_char, lower, starts_with, ends_with,
  has_text, after_prefix, lstrip, strip, cons_head, split_on, lines_after, splitlines, join,
  newline, show_digits, show, is_digit, take_digits, head_is_digit, read_number, read_number-show,
  path_parts, last_or_nil, path_name, suffix_of_parts, path_suffix, lstrip_dots, drop_first,
  path_suffixes,
}
use dovi_ai_server.Comment.Schema.{
  ThreadComment, CommentAnswerRequestedEvent, CommentResult, answered, not_answered,
}
use dovi_ai_server.Review.Budget.{shrink_to_char_limit, blank_line}
use dovi_ai_server.Review.Model.{
  Messages, Model, Settings, Session, count_tokens, resolve_max_context, safety_margin_tokens,
}
use dovi_ai_server.Review.Prompt.{shrunk}
use dovi_ai_server.Review.Assemble.{reduced_char_limit}

abbrev pub min_diff_hunk_tokens : ℕ
min_diff_hunk_tokens = 200

-- How `generate_text` ends: with a text, `TimeoutError`, or another exception.
pub data TextAnswer : Type 0 where
  replied : Text → TextAnswer
  timed_out : TextAnswer
  crashed : TextAnswer

-- An f-string prints a missing line as `None`.
abbrev pub show_line : Option ℕ → Text
show_line none = codes "None"
show_line (some n) = show n

abbrev pub thread_entry : ThreadComment → Text
thread_entry c = codes "[" ++ (c.author ++ (codes "] " ++ (c.created_at ++ (newline ++ c.body))))

unfoldable pub build_messages :
    Text → CommentAnswerRequestedEvent → List ThreadComment → Option ℕ → Messages
unfolding show join shrink_to_char_limit
build_messages system_prompt event thread diff_hunk_max_chars = record {
  system = system_prompt;
  user =
      codes "## File"
      ++ (newline
          ++ (event.path
              ++ (codes " (line "
                  ++ (show_line event.line
                      ++ (codes ")"
                          ++ (blank_line
                              ++ (codes "## Diff hunk"
                                  ++ (newline
                                      ++ (shrunk diff_hunk_max_chars event.diff_hunk
                                          ++ (blank_line
                                              ++ (codes "## Thread"
                                                  ++ (newline
                                                      ++ join blank_line
                                                          (map thread_entry thread)))))))))))));
}

abbrev pub sent_text : Messages → Text
sent_text q = q.system ++ q.user

-- `actual <= budget`, where the budget may be below zero.
abbrev pub has_room : Settings → ℕ → ℕ → Bool
has_room o max_context actual = leb (actual + o.max_tokens + safety_margin_tokens) max_context

module _ (m : Model) (o : Settings) (system_prompt : Text)
    (event : CommentAnswerRequestedEvent) where
  unfoldable pub diff_hunk_floor_chars : Session m → ℕ × Session m
  unfolding count_tokens
  diff_hunk_floor_chars s =
      let (original_tokens, s1) = count_tokens m event.diff_hunk s in
      (
        if leb original_tokens min_diff_hunk_tokens
            then length event.diff_hunk
            else length event.diff_hunk * min_diff_hunk_tokens / original_tokens,
        s1,
      )

  -- The loop, with the attempts that are left.
  module _ (max_context diff_hunk_floor : ℕ) where
    unfoldable pub assemble_loop :
        ℕ → List ThreadComment → Option ℕ → Session m → Option Messages × Session m
    unfolding build_messages count_tokens reduced_char_limit shrink_to_char_limit
    assemble_loop zero thread limit s = (none, s)
    assemble_loop (suc attempts) (oldest ∷ thread) limit s =
        let messages = build_messages system_prompt event (oldest ∷ thread) limit in
        let (actual, s1) = count_tokens m (sent_text messages) s in
        let again = assemble_loop attempts thread limit s1 in
        if has_room o max_context actual then (some messages, s1) else again
    assemble_loop (suc attempts) [] limit s =
        let messages = build_messages system_prompt event [] limit in
        let (actual, s1) = count_tokens m (sent_text messages) s in
        let current = shrunk limit event.diff_hunk in
        let overshoot = actual + o.max_tokens + safety_margin_tokens - max_context in
        let (reduced, s2) = reduced_char_limit m current overshoot s1 in
        let new_limit = max diff_hunk_floor reduced in
        let again = assemble_loop attempts [] (some new_limit) s2 in
        if has_room o max_context actual
        then (some messages, s1)
        else if leb (length current) new_limit
        then (none, s2)
        else again

  abbrev pub max_attempts : ℕ
  max_attempts = 1 + length event.thread + 3

  unfoldable pub assemble_within_budget : Session m → Option Messages × Session m
  unfolding resolve_max_context diff_hunk_floor_chars assemble_loop
  assemble_within_budget s =
      let (max_context, s1) = resolve_max_context m o s in
      let (diff_hunk_floor, s2) = diff_hunk_floor_chars s1 in
      assemble_loop max_context diff_hunk_floor max_attempts event.thread none s2

  abbrev pub failed_with : Text → CommentResult
  failed_with reason =
      not_answered (record { comment_job_id = event.comment_job_id; reason = reason })

  unfoldable pub result_of : TextAnswer → CommentResult
  unfolding strip
  result_of (replied text) =
      let answer = strip text in
      if is_nil answer
      then failed_with (codes "parse_error")
      else answered (record { comment_job_id = event.comment_job_id; answer = answer })
  result_of timed_out = failed_with (codes "timeout")
  result_of crashed = failed_with (codes "server_error")

  module _ (generate_text : Messages → ℕ → m.State → TextAnswer × m.State) where
    abbrev pub ask : Option Messages × Session m → CommentResult × Session m
    ask (none, s) = (failed_with (codes "context_overflow"), s)
    ask (some messages, (st, cached)) =
        let (answer, st') = generate_text messages o.max_tokens st in
        (result_of answer, (st', cached))

    unfoldable pub run : Session m → CommentResult × Session m
    unfolding assemble_within_budget result_of
    run s = ask (assemble_within_budget s)
