-- ===== src/Review/Budget.antt =====
-- app/review/pipeline.py: how texts are cut to a number of characters, and how the diffs of the
-- files share the characters of one prompt.
pub mod Cut
pub mod Part
pub mod Share
use mathlib.Core.List.{reverse}
use dovi_ai_server.Base.{
  ℕ, zero, suc, ◌+◌, ◌-◌, ◌*◌, ◌/◌, ◌%◌, ◌^◌, ◌≤◌, ◌<◌, min, max, ◌≡◌, refl, sym, ap, ◌∙◌, ◌≢◌, ◌↔◌,
  ◌⊎◌, inl, inr, Bool, true, false, not, ◌&&◌, ◌||◌, Option, none, some, List, [], ◌∷◌, ◌++◌, map,
  arith, ltb, leb, nat_beq, if◌then◌else◌, ltb→lt, ltb→ge, leb→le, leb→gt, nat_beq_iff, Bool-cases,
  Option-cases, ◌>>=◌, Eq, ◌==◌, nat_eq, list_beq, list_beq_iff, list_eq, triple_beq,
  triple_beq_iff, triple_eq, ==_refl, ==_sound, ==_complete, Free, split_on-join, split_on-Free,
  show-Free, length, get_elem?, take, drop, is_nil, length-append, take-append-drop, length-take,
  length-drop, keep, any, All, All-append, All-take, All-keep, All-map_of, keep-All, contains,
  contains-append, count, count-append, Distinct, sort, sort-perm, All-sort, Ordered, sort-Ordered,
  Sub, Sub-refl, Sub-All, Sub-keep, Sub-Distinct, Sub-Ordered, first_of_each, Sub-first_of_each,
  first_of_each-Distinct, contains-first_of_each, contains-sort, none_left, keeps, skips, Text,
  codes, is_space, is_line_break, lower_char, lower, starts_with, ends_with, has_text, after_prefix,
  lstrip, strip, cons_head, split_on, lines_after, splitlines, join, newline, show_digits, show,
  is_digit, take_digits, head_is_digit, read_number, read_number-show,
}

-- `text.rfind("\n", 0, limit)`, searched from the left: the last index found so far, if any.
unfoldable pub rfind_from : ℕ → Option ℕ → ℕ → Text → Option ℕ
rfind_from i found limit [] = found
rfind_from i found zero (c ∷ t) = found
rfind_from i found (suc limit) (c ∷ t) =
    rfind_from (i + 1) (if c == 10 then some i else found) limit t

-- `text.find("\n")`.
unfoldable pub find_newline : ℕ → Text → Option ℕ
find_newline i [] = none
find_newline i (c ∷ t) = if c == 10 then some i else find_newline (i + 1) t

unfoldable pub cut_at_line_boundary : Text → ℕ → ℕ
unfolding rfind_from
cut_at_line_boundary text content_limit = elim (rfind_from 0 none content_limit text) [
  | none ↦ content_limit
  | some cut ↦ if ltb cut (content_limit / 2) then content_limit else cut
]

abbrev pub trunc_msg : Text
trunc_msg = 10 ∷ codes "...(truncated)"

-- `text[:cut] + trunc_msg`, for a text that is over `limit`, which the message is not.
unfoldable pub cut_to : Text → ℕ → Text
unfolding cut_at_line_boundary
cut_to text limit = take (cut_at_line_boundary text (limit - length trunc_msg)) text ++ trunc_msg

unfoldable pub shrink_to_char_limit : Text → ℕ → Text
unfolding cut_to
shrink_to_char_limit text target_chars =
    if leb target_chars 0
    then []
    else if leb (length text) target_chars
    then text
    else if ltb target_chars (length trunc_msg)
    then []
    else cut_to text target_chars

-- What the loop does with one block: show it whole, show a part, or drop it and all behind it.
pub data Fit : Type 0 where
  whole : Fit
  partial : Text → Fit
  no_room : Fit

-- The block's header line, `# path (status)`, is all that would be left.
abbrev pub only_header : Text → ℕ → Bool
only_header block cut = elim (find_newline 0 block) [
  | none ↦ false
  | some header_end ↦ leb cut header_end
]

unfoldable pub fit_block : ℕ → ℕ → Text → Fit
unfolding cut_to find_newline
fit_block max_file_chars remaining block =
    let limit = min max_file_chars remaining in
    if leb remaining 0
    then no_room
    else if leb (length block) limit
    then whole
    else if ltb limit (length trunc_msg)
    then no_room
    else if only_header block (cut_at_line_boundary block (limit - length trunc_msg))
    then no_room
    else partial (cut_to block limit)

pub record Diff : Type 0 where
  pub shown : List Text
  pub dropped_paths : List Text
  pub truncated_paths : List Text

abbrev pub paths_of : List (Text × Text) → List Text
paths_of = map (λ (path, block). path)

abbrev pub show_block : Text → Diff → Diff
show_block block d = record d { shown = block ∷ d.shown }

abbrev pub show_part : Text → Text → Diff → Diff
show_part path block d = record d {
  shown = block ∷ d.shown;
  truncated_paths = path ∷ d.truncated_paths;
}

-- The loop over the blocks; `total` is the number of characters shown so far.
unfoldable pub truncate_loop : ℕ → ℕ → ℕ → List (Text × Text) → Diff
unfolding fit_block
truncate_loop max_file_chars max_total_chars total [] = record {
  shown = [];
  dropped_paths = [];
  truncated_paths = [];
}
truncate_loop max_file_chars max_total_chars total ((path, block) ∷ rest) =
    elim (fit_block max_file_chars (max_total_chars - total) block) [
      | no_room ↦ record { shown = []; dropped_paths = path ∷ paths_of rest; truncated_paths = [] }
      | whole ↦
          show_block block
            (truncate_loop max_file_chars max_total_chars (total + length block) rest)
      | partial part ↦
          show_part path part
            (truncate_loop max_file_chars max_total_chars (total + length part) rest)
    ]

abbrev pub blank_line : Text
blank_line = 10 ∷ 10 ∷ []

-- The note on the files that the model does not see.
unfoldable pub dropped_note : List Text → Text
unfolding join show
dropped_note [] = []
dropped_note (path ∷ paths) =
    blank_line
    ++ (codes "(크기 제한으로 생략된 파일 "
        ++ (show (length (path ∷ paths))
            ++ (codes "개: "
                ++ (join (codes ", ") (path ∷ paths)
                    ++ codes " — 내용은 볼 수 없으나 변경이 있었다는 사실은 알아둘 것)"))))

-- `_truncate_diff_blocks_detailed`: the text, the files that are not in it, and those cut short.
unfoldable pub truncate_diff_blocks_detailed :
    ℕ → ℕ → List (Text × Text) → Text × List Text × List Text
unfolding truncate_loop dropped_note
truncate_diff_blocks_detailed max_file_chars max_total_chars blocks =
    let d = truncate_loop max_file_chars max_total_chars 0 blocks in
    (join blank_line d.shown ++ dropped_note d.dropped_paths, d.dropped_paths, d.truncated_paths)
