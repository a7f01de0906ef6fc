-- ===== src/Review/Verify.antt =====
-- app/review/pipeline.py, `_verify`: the findings are asked about again in batches that fit the
-- context, and those the model confirms are kept.
pub mod Split
pub mod Confirm
use mathlib.Core.List.{List, [], ◌∷◌, ◌++◌}
use dovi_ai_server.Base.{
  ℕ, zero, suc, ◌+◌, ◌-◌, ◌*◌, ◌/◌, ◌%◌, ◌^◌, ◌≤◌, ◌<◌, min, max, ◌≡◌, refl, sym, ap, ap₂, ◌∙◌, ◌≢◌,
  ◌↔◌, ◌⊎◌, inl, inr, Bool, true, false, not, ◌&&◌, ◌||◌, Option, none, some, map, arith, ltb, leb,
  nat_beq, if◌then◌else◌, ltb→lt, ltb→ge, leb→le, leb→gt, nat_beq_iff, Bool-cases, Option-cases,
  ◌>>=◌, Eq, ◌==◌, nat_eq, list_beq, list_beq_iff, list_eq, triple_beq, triple_beq_iff, triple_eq,
  ==_refl, ==_sound, ==_complete, Free, split_on-join, split_on-Free, show-Free, length, get_elem?,
  take, drop, is_nil, length-append, take-append-drop, length-take, length-drop, keep, any, All,
  All-append, All-take, All-keep, All-map_of, keep-All, contains, contains-append, count,
  count-append, Distinct, sort, sort-perm, All-sort, Ordered, sort-Ordered, Sub, Sub-refl, Sub-All,
  Sub-keep, Sub-Distinct, Sub-Ordered, first_of_each, Sub-first_of_each, first_of_each-Distinct,
  contains-first_of_each, contains-sort, none_left, keeps, skips, Text, codes, is_space,
  is_line_break, lower_char, lower, starts_with, ends_with, has_text, after_prefix, lstrip, strip,
  cons_head, split_on, lines_after, splitlines, join, newline, show_digits, show, is_digit,
  take_digits, head_is_digit, read_number, read_number-show, path_parts, last_or_nil, path_name,
  suffix_of_parts, path_suffix, lstrip_dots, drop_first, path_suffixes,
}
use dovi_ai_server.Review.Schema.{
  Severity, critical, major, minor, suggestion, ReviewComment, ReviewVerdict,
}
use dovi_ai_server.Review.Model.{
  Messages, Model, Settings, Session, estimate_tokens, count_tokens, resolve_max_context,
  safety_margin_tokens,
}

abbrev pub max_verify_batches : ℕ
max_verify_batches = 5

abbrev pub severity_text : Severity → Text
severity_text critical = codes "critical"
severity_text major = codes "major"
severity_text minor = codes "minor"
severity_text suggestion = codes "suggestion"

abbrev pub fix_text : Option Text → Text
fix_text none = []
fix_text (some fix) = if is_nil fix then [] else 10 ∷ (codes "suggestedFix: " ++ fix)

unfoldable pub render_finding : ℕ → ReviewComment → Text
unfolding show join
render_finding index review =
    show index
    ++ codes ". ["
    ++ severity_text review.severity
    ++ codes "] "
    ++ review.title
    ++ (10 ∷ review.message)
    ++ (10 ∷ codes "evidence: ")
    ++ join (codes "; ") review.evidence
    ++ fix_text review.suggested_fix

abbrev pub Indexed : Type 0
Indexed = ℕ × ReviewComment

unfoldable pub enumerate : ℕ → List ReviewComment → List Indexed
enumerate i [] = []
enumerate i (r ∷ rs) = (i, r) ∷ enumerate (i + 1) rs

module _ (m : Model) where
  unfoldable pub finding_tokens : Indexed → ℕ
  unfolding estimate_tokens render_finding
  finding_tokens (i, review) = estimate_tokens m (render_finding i review)

  -- The loop of `_split_findings_into_batches`. The budget is `context - reserve`, which may be
  -- below zero: `n > context - reserve` reads `context < n + reserve`.
  module _ (base_tokens context reserve : ℕ) where
    abbrev pub is_over : ℕ → Bool
    is_over tokens = ltb context (tokens + reserve)

    unfoldable pub split_loop : List Indexed → ℕ → List Indexed → List (List Indexed)
    unfolding finding_tokens
    split_loop current current_tokens [] = if is_nil current then [] else current ∷ []
    split_loop current current_tokens (x ∷ xs) =
        let tokens = finding_tokens x in
        let without = split_loop current current_tokens xs in
        let fresh = split_loop (x ∷ []) (base_tokens + tokens) xs in
        let joined = split_loop (current ++ (x ∷ [])) (current_tokens + tokens) xs in
        if is_over (base_tokens + tokens)
        then without
        else if not (is_nil current) && is_over (current_tokens + tokens)
        then current ∷ fresh
        else joined

    unfoldable pub split_findings_into_batches : List ReviewComment → List (List Indexed)
    unfolding split_loop enumerate
    split_findings_into_batches reviews = split_loop [] base_tokens (enumerate 0 reviews)

-- `verdict_by_index.get(i)`: the last verdict of an index stands in the dictionary.
unfoldable pub verdict_of : List ReviewVerdict → ℕ → Option ReviewVerdict
verdict_of [] i = none
verdict_of (v ∷ vs) i = elim (verdict_of vs i) [
  | some later ↦ some later
  | none ↦ if v.index == i then some v else none
]

unfoldable pub is_confirmed : List ReviewVerdict → Indexed → Bool
unfolding verdict_of
is_confirmed verdicts (i, review) = elim (verdict_of verdicts i) [
  | some v ↦ v.confirmed
  | none ↦ false
]

unfoldable pub build_verify_messages : Text → Messages → List Indexed → Messages
unfolding render_finding join
build_verify_messages verify_prompt original batch = record {
  system = verify_prompt;
  user =
      original.user
      ++ (10 ∷ 10 ∷ codes "## Findings to verify")
      ++ (10 ∷ [])
      ++ join (10 ∷ 10 ∷ []) (map (λ x. render_finding x.0 x.1) batch);
}

module _ (m : Model) (verify_prompt : Text) (messages : Messages) where
  -- What a batch adds to `confirmed`; a call that fails adds nothing.
  abbrev pub confirmed_of : Option (List ReviewVerdict) → List Indexed → List ReviewComment
  confirmed_of none batch = []
  confirmed_of (some verdicts) batch = map (λ x. x.1) (keep (is_confirmed verdicts) batch)

  unfoldable pub verify_batches : List (List Indexed) → m.State → List ReviewComment × m.State
  unfolding build_verify_messages is_confirmed keep
  verify_batches [] st = ([], st)
  verify_batches (batch ∷ batches) st =
      let (answer, st') =
        m.verify_findings (build_verify_messages verify_prompt messages batch) st in
      let (rest, st'') = verify_batches batches st' in (confirmed_of answer batch ++ rest, st'')

  unfoldable pub verify : Settings → List ReviewComment → Session m → List ReviewComment × Session m
  unfolding verify_batches split_findings_into_batches count_tokens resolve_max_context
  verify o reviews s =
      let (context, s1) = resolve_max_context m o s in
      let (base_tokens, s2) = count_tokens m messages.user s1 in
      let batches =
        split_findings_into_batches m base_tokens context
          (o.verify_max_tokens + safety_margin_tokens) reviews in
      let (confirmed, st) = verify_batches (take max_verify_batches batches) s2.0 in
      (confirmed, (st, s2.1))
