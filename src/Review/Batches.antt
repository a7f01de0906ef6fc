-- ===== src/Review/Batches.antt =====
-- app/review/pipeline.py, `_split_targets_into_batches`: which targets share a prompt.
pub mod Pack
pub mod Omitted
use mathlib.Core.List.{List, [], ◌∷◌, ◌++◌, flat_map, flatten}
use dovi_ai_server.Base.{
  ℕ, zero, suc, ◌+◌, ◌-◌, ◌*◌, ◌/◌, ◌%◌, ◌^◌, ◌≤◌, ◌<◌, min, max, ◌≡◌, refl, sym, ap, ap₂, ◌∙◌, ◌≢◌,
  ◌↔◌, ◌⊎◌, inl, inr, Bool, true, false, not, ◌&&◌, ◌||◌, Option, none, some, map, arith, ltb, leb,
  nat_beq, if◌then◌else◌, ltb→lt, ltb→ge, leb→le, leb→gt, nat_beq_iff, Bool-cases, Option-cases,
  ◌>>=◌, Eq, ◌==◌, nat_eq, list_beq, list_beq_iff, list_eq, triple_beq, triple_beq_iff, triple_eq,
  ==_refl, ==_sound, ==_complete, Free, split_on-join, split_on-Free, show-Free, length, get_elem?,
  take, drop, is_nil, length-append, take-append-drop, length-take, length-drop, keep, any, All,
  All-append, All-take, All-keep, All-map_of, keep-All, contains, contains-append, count,
  count-append, Distinct, sort, sort-perm, All-sort, Ordered, sort-Ordered, Sub, Sub-refl, Sub-All,
  Sub-keep, Sub-Distinct, Sub-Ordered, first_of_each, Sub-first_of_each, first_of_each-Distinct,
  contains-first_of_each, contains-sort, none_left, keeps, skips, Text, codes, is_space,
  is_line_break, lower_char, lower, starts_with, ends_with, has_text, after_prefix, lstrip, strip,
  cons_head, split_on, lines_after, splitlines, join, newline, show_digits, show, is_digit,
  take_digits, head_is_digit, read_number, read_number-show, path_parts, last_or_nil, path_name,
  suffix_of_parts, path_suffix, lstrip_dots, drop_first, path_suffixes,
}
use dovi_ai_server.Review.Schema.{ReviewTarget}
use dovi_ai_server.Review.Hunk.{split_oversized_target}
use dovi_ai_server.Review.Model.{
  Model, Settings, Session, count_tokens, resolve_max_context, safety_margin_tokens,
}
use dovi_ai_server.Review.Render.{ChunkSearchResult, render_target, is_low_priority_path}

abbrev pub max_diff_file_chars : ℕ
max_diff_file_chars = 8000

abbrev pub max_diff_total_chars : ℕ
max_diff_total_chars = 20000

-- A target with its entries in `target_tokens` and `target_chars`.
pub record Item : Type 0 where
  pub target : ReviewTarget
  pub tokens : ℕ
  pub chars : ℕ

-- What the two kinds of prompt leave for targets. The token budget is `context - reserve`, which may
-- be below zero: `n > context - reserve` reads `context < n + reserve`.
pub record Budget : Type 0 where
  pub context : ℕ
  pub reserve : ℕ
  pub common_first : ℕ
  pub common_rest : ℕ
  pub char_budget_first : ℕ
  pub char_budget_rest : ℕ

module _ (b : Budget) where
  -- The loop of `pack`.
  unfoldable pub pack_loop : List Item → ℕ → ℕ → ℕ → List Item → List (List Item)
  pack_loop current current_tokens current_chars char_budget [] =
      if is_nil current then [] else current ∷ []
  pack_loop current current_tokens current_chars char_budget (x ∷ xs) =
      let cut =
        not (is_nil current)
        && (ltb b.context (current_tokens + x.tokens + b.reserve)
            || ltb char_budget (current_chars + x.chars)) in
      let fresh = pack_loop (x ∷ []) (b.common_rest + x.tokens) x.chars b.char_budget_rest xs in
      let joined =
        pack_loop (current ++ (x ∷ [])) (current_tokens + x.tokens) (current_chars + x.chars)
          char_budget xs in
      if cut then current ∷ fresh else joined

  unfoldable pub pack : List Item → List (List Item)
  unfolding pack_loop
  pack ordered = pack_loop [] b.common_first 0 b.char_budget_first ordered

-- `key=lambda t: _is_low_priority_path(t.file_path)`: `False` comes first.
abbrev pub source_first : Item → Item → Bool
source_first x y =
    not (is_low_priority_path x.target.file_path) || is_low_priority_path y.target.file_path

abbrev pub item_paths : List (List Item) → List Text
item_paths batches = map (λ x. x.target.file_path) (flatten batches)

-- The batches in their final order, cut at the cap; the paths of the rest are `omitted_files`.
unfoldable pub cap_batches : ℕ → List (List Item) → List (List Item) × List Text
unfolding flatten
cap_batches cap batches = (take cap batches, item_paths (drop cap batches))

unfoldable pub pack_targets : Budget → ℕ → List Item → List (List Item) × List Text
unfolding pack cap_batches sort
pack_targets b cap targets =
    let batches = pack b targets in
    cap_batches cap (if ltb 1 (length batches) then pack b (sort source_first targets) else batches)

module _ (m : Model) (o : Settings) (annotate_diff_lines : Bool)
    (related : Text → List ChunkSearchResult) where
  abbrev pub rendered : ReviewTarget → Text
  rendered t = render_target annotate_diff_lines t (related t.file_path)

  unfoldable pub measure : List ReviewTarget → Session m → List Item × Session m
  unfolding count_tokens render_target
  measure [] s = ([], s)
  measure (t ∷ ts) s =
      let (tokens, s1) = count_tokens m (rendered t) s in
      let (items, s2) = measure ts s1 in
      (
        record {
          target = t;
          tokens = tokens;
          chars = min (length (rendered t)) max_diff_file_chars;
        }
            ∷ items,
        s2,
      )

  abbrev pub pieces_of : ℕ → List ReviewTarget → List ReviewTarget
  pieces_of piece_chars targets =
      flat_map
        (λ t.
          split_oversized_target
            (λ c. length (render_target annotate_diff_lines c (related t.file_path))) t piece_chars)
        targets

  -- `common_for` counts the tokens and the characters of a prompt without targets.
  module _ (common_for : Bool → Session m → (ℕ × ℕ) × Session m) where
    unfoldable pub split_targets_into_batches :
        List ReviewTarget → Session m → (List (List Item) × List Text) × Session m
    unfolding measure pack_targets split_oversized_target resolve_max_context flat_map
    split_targets_into_batches targets s =
        let (context, s1) = resolve_max_context m o s in
        let (first, s2) = common_for true s1 in
        let (rest, s3) = common_for false s2 in
        let char_budget_first = max_diff_total_chars - first.1 in
        let piece_chars = min max_diff_file_chars (max char_budget_first 3000) in
        let (items, s4) = measure (pieces_of piece_chars targets) s3 in
        let budget : Budget = record {
          context = context;
          reserve = o.max_tokens + safety_margin_tokens;
          common_first = first.0;
          common_rest = rest.0;
          char_budget_first = char_budget_first;
          char_budget_rest = max_diff_total_chars - rest.1;
        } in
        (pack_targets budget o.max_review_batches items, s4)
