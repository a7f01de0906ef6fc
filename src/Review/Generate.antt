-- ===== src/Review/Generate.antt =====
-- app/review/pipeline.py, `_generate_batch` and `_retry_shortened`: one batch is asked for, again
-- after an error, and once more and shorter after an answer that was cut off.
pub mod Reasons
pub mod Calls
use mathlib.Core.List.{List, [], ◌∷◌, ◌++◌}
use dovi_ai_server.Base.{
  ℕ, zero, suc, ◌+◌, ◌-◌, ◌*◌, ◌/◌, ◌%◌, ◌^◌, ◌≤◌, ◌<◌, min, max, ◌≡◌, refl, sym, ap, ap₂, ◌∙◌, ◌≢◌,
  ◌↔◌, ◌⊎◌, inl, inr, Bool, true, false, not, ◌&&◌, ◌||◌, Option, none, some, map, arith, ltb, leb,
  nat_beq, if◌then◌else◌, ltb→lt, ltb→ge, leb→le, leb→gt, nat_beq_iff, Bool-cases, Option-cases,
  ◌>>=◌, Eq, ◌==◌, nat_eq, list_beq, list_beq_iff, list_eq, triple_beq, triple_beq_iff, triple_eq,
  ==_refl, ==_sound, ==_complete, Free, split_on-join, split_on-Free, show-Free, length, get_elem?,
  take, drop, is_nil, length-append, take-append-drop, length-take, length-drop, keep, any, All,
  All-append, All-take, All-keep, All-map_of, keep-All, contains, contains-append, count,
  count-append, Distinct, sort, sort-perm, All-sort, Ordered, sort-Ordered, Sub, Sub-refl, Sub-All,
  Sub-keep, Sub-Distinct, Sub-Ordered, first_of_each, Sub-first_of_each, first_of_each-Distinct,
  contains-first_of_each, contains-sort, none_left, keeps, skips, Text, codes, is_space,
  is_line_break, lower_char, lower, starts_with, ends_with, has_text, after_prefix, lstrip, strip,
  cons_head, split_on, lines_after, splitlines, join, newline, show_digits, show, is_digit,
  take_digits, head_is_digit, read_number, read_number-show, path_parts, last_or_nil, path_name,
  suffix_of_parts, path_suffix, lstrip_dots, drop_first, path_suffixes,
}
use dovi_ai_server.Review.Schema.{
  ReviewModelOutput, FailureReason, parse_error, timeout, server_error, output_truncated,
}
use dovi_ai_server.Review.Model.{
  Messages, Model, Settings, Session, Answer, answered, timed_out, truncated, invalid, crashed,
}
use dovi_ai_server.Llm.Partial.{Decoders, PartialRecoveryResult, parse_partial_review_output}

-- The output with the messages that were sent, or the reason of the failure.
pub data Generated : Type 0 where
  generated : ReviewModelOutput → Messages → Generated
  gave_up : FailureReason → Generated

module _ (m : Model) (d : Decoders) (o : Settings) where
  -- `max_reviews` of the retry, which the code enforces too.
  abbrev pub capped : ReviewModelOutput → ReviewModelOutput
  capped output = record output { reviews = take o.truncation_retry_max_findings output.reviews }

  -- What `_retry_shortened` returns for an answer.
  unfoldable pub retry_result : Messages → Answer → Option (ReviewModelOutput × Messages)
  unfolding parse_partial_review_output
  retry_result messages (answered output) = some (capped output, messages)
  retry_result messages (truncated raw) = elim (parse_partial_review_output d raw) [
    | some recovered ↦ some (capped recovered.output, messages)
    | none ↦ none
  ]
  retry_result messages timed_out = none
  retry_result messages invalid = none
  retry_result messages crashed = none

  -- `assemble` is `_assemble_within_budget` with the suffix that asks for a shorter answer.
  module _ (assemble : Session m → Option Messages × Session m) where
    abbrev pub send_shortened :
        Option Messages × Session m → Option (ReviewModelOutput × Messages) × Session m
    send_shortened (none, s) = (none, s)
    send_shortened (some messages, (st, cached)) =
        let (answer, st') = m.generate messages (some o.truncation_retry_max_findings) st in
        (retry_result messages answer, (st', cached))

    unfoldable pub retry_shortened : Session m → Option (ReviewModelOutput × Messages) × Session m
    unfolding retry_result
    retry_shortened s = send_shortened (assemble s)

    abbrev pub of_retry : Option (ReviewModelOutput × Messages) × Session m → Generated × Session m
    of_retry (none, s) = (gave_up output_truncated, s)
    of_retry (some (output, messages), s) = (generated output messages, s)

    -- One turn of the loop; `again` is the next one, with the `last_reason` it is given.
    unfoldable pub on_answer :
        (FailureReason → Session m → Generated × Session m)
        → Messages
        → Answer
        → Session m
        → Generated × Session m
    unfolding parse_partial_review_output retry_shortened
    on_answer again messages (answered output) s = (generated output messages, s)
    on_answer again messages timed_out s = (gave_up timeout, s)
    on_answer again messages (truncated raw) s = elim (parse_partial_review_output d raw) [
      | some recovered ↦ (generated recovered.output messages, s)
      | none ↦ of_retry (retry_shortened s)
    ]
    on_answer again messages invalid s = again parse_error s
    on_answer again messages crashed s = again server_error s

    -- The loop `for _ in range(2)`, with the attempts that are left and `last_reason`.
    unfoldable pub generate_loop : ℕ → FailureReason → Messages → Session m → Generated × Session m
    unfolding on_answer
    generate_loop zero last_reason messages s = (gave_up last_reason, s)
    generate_loop (suc attempts) last_reason messages (st, cached) =
        let (answer, st') = m.generate messages none st in
        on_answer (λ reason s. generate_loop attempts reason messages s) messages answer
          (st', cached)

    unfoldable pub generate_batch : Messages → Session m → Generated × Session m
    unfolding generate_loop
    generate_batch messages s = generate_loop 2 server_error messages s
