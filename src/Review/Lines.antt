-- ===== src/Review/Lines.antt =====
-- app/review/diff_lines.py: the line numbers that the model is shown and that GitHub accepts.
pub mod Annotate
pub mod Classify
use dovi_ai_server.Base.{
  ℕ, zero, suc, ◌+◌, ◌-◌, ◌*◌, ◌/◌, ◌%◌, ◌^◌, ◌≤◌, ◌<◌, min, max, ◌≡◌, refl, sym, ap, ◌∙◌, ◌≢◌, ◌↔◌,
  ◌⊎◌, inl, inr, Bool, true, false, not, ◌&&◌, ◌||◌, Option, none, some, List, [], ◌∷◌, ◌++◌, map,
  arith, ltb, leb, nat_beq, if◌then◌else◌, ltb→lt, ltb→ge, leb→le, leb→gt, nat_beq_iff, Bool-cases,
  Option-cases, ◌>>=◌, Eq, ◌==◌, nat_eq, list_beq, list_beq_iff, list_eq, triple_beq,
  triple_beq_iff, triple_eq, ==_refl, ==_sound, ==_complete, length, get_elem?, take, drop, is_nil,
  length-append, take-append-drop, length-take, length-drop, keep, any, All, All-append, All-take,
  All-keep, All-map_of, keep-All, contains, contains-append, count, count-append, Distinct, sort,
  sort-perm, All-sort, Ordered, sort-Ordered, Sub, Sub-refl, Sub-All, Sub-keep, Sub-Distinct,
  Sub-Ordered, first_of_each, Sub-first_of_each, first_of_each-Distinct, contains-first_of_each,
  contains-sort, none_left, keeps, skips, Text, codes, is_space, is_line_break, lower_char, lower,
  starts_with, ends_with, has_text, after_prefix, lstrip, strip, cons_head, split_on, lines_after,
  splitlines, join, newline, show, is_digit, take_digits, head_is_digit, read_number,
  read_number-show,
}
use dovi_ai_server.Review.Header.{Header, parse_header}
use dovi_ai_server.Review.Schema.{ReviewComment, ChangedFile}

-- A removed line and the note on a missing newline are no lines of the new file.
unfoldable pub counts_as_new_file_line : Text → Bool
counts_as_new_file_line line = not (starts_with (codes "-") line || starts_with (92 ∷ []) line)

abbrev pub labelled : ℕ → Text → Text
labelled n line = codes "R" ++ (show n ++ (codes " " ++ line))

-- The loop of `annotate_hunk` over `new_line` and the lines that are left.
unfoldable pub annotate_lines : Option ℕ → List Text → List Text
unfolding counts_as_new_file_line
annotate_lines new_line [] = []
annotate_lines new_line (line ∷ rest) = elim (parse_header line) [
  | some header ↦ line ∷ annotate_lines (some header.new_start) rest
  | none ↦ elim new_line [
    | none ↦ line ∷ annotate_lines none rest
    | some n ↦ elim (counts_as_new_file_line line) [
      | false ↦ line ∷ annotate_lines (some n) rest
      | true ↦ labelled n line ∷ annotate_lines (some (n + 1)) rest
    ]
  ]
]

unfoldable pub annotate_hunk : Text → Text
unfolding annotate_lines split_on join
annotate_hunk hunk = join newline (annotate_lines none (split_on 10 hunk))

-- The loop of `visible_right_lines`; the numbers in the order in which they are added.
unfoldable pub visible_lines : Option ℕ → List Text → List ℕ
unfolding counts_as_new_file_line
visible_lines new_line [] = []
visible_lines new_line (line ∷ rest) = elim (parse_header line) [
  | some header ↦ visible_lines (some header.new_start) rest
  | none ↦ elim new_line [
    | none ↦ visible_lines none rest
    | some n ↦ elim (counts_as_new_file_line line) [
      | false ↦ visible_lines (some n) rest
      | true ↦ n ∷ visible_lines (some (n + 1)) rest
    ]
  ]
]

unfoldable pub visible_right_lines : Text → List ℕ
unfolding visible_lines splitlines
visible_right_lines patch = visible_lines none (splitlines patch)

-- `{f.file_path: visible_right_lines(f.patch) for f in changed_files}.get(path)`: the last entry wins.
unfoldable pub visible_of : List ChangedFile → Text → Option (List ℕ)
unfolding visible_right_lines
visible_of [] path = none
visible_of (f ∷ fs) path = elim (visible_of fs path) [
  | some lines ↦ some lines
  | none ↦ if f.file_path == path then some (visible_right_lines f.patch) else none
]

pub record LineCounts : Type 0 where
  pub ok : ℕ
  pub line_not_in_diff : ℕ
  pub file_not_in_diff : ℕ

-- The body of the loop of `classify_finding_lines`.
unfoldable pub count_line : List ChangedFile → ReviewComment → LineCounts → LineCounts
unfolding visible_of contains
count_line files r c = elim (visible_of files r.file_path) [
  | none ↦ record c { file_not_in_diff = c.file_not_in_diff + 1 }
  | some lines ↦
      if contains lines r.line
      then record c { ok = c.ok + 1 }
      else record c { line_not_in_diff = c.line_not_in_diff + 1 }
]

unfoldable pub classify_loop : List ChangedFile → LineCounts → List ReviewComment → LineCounts
unfolding count_line
classify_loop files c [] = c
classify_loop files c (r ∷ rs) = classify_loop files (count_line files r c) rs

unfoldable pub classify_finding_lines : List ReviewComment → List ChangedFile → LineCounts
unfolding classify_loop
classify_finding_lines reviews files =
    classify_loop files (record { ok = 0; line_not_in_diff = 0; file_not_in_diff = 0 }) reviews
