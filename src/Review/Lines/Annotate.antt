-- ===== src/Review/Lines/Annotate.antt =====
-- The labels of `annotate_hunk` and the lines of `visible_right_lines`.
use mathlib.Core.List.{filter_map}
use dovi_ai_server.Base.{
  show-Free, Free, split_on-Free, split_on-join, ℕ, ◌+◌, ◌≡◌, refl, ap, inl, inr, false, Option,
  none, some, List, [], ◌∷◌, map, arith, Bool-cases, Option-cases, ◌>>=◌, nat_eq, list_eq,
  triple_eq, contains, contains-append, Text, codes, starts_with, after_prefix, split_on,
  splitlines, show, is_digit, read_number, read_number-show,
}
use dovi_ai_server.Review.Header.{Header, parse_header}
use dovi_ai_server.Review.Lines.{
  counts_as_new_file_line, labelled, annotate_lines, annotate_hunk, visible_lines,
  visible_right_lines,
}

-- The number of a line that reads `R<n> ...`.
abbrev pub label : Text → Option ℕ
label line = do
  t ← after_prefix (codes "R") line
  (n, t1) ← read_number t
  rest ← after_prefix (codes " ") t1
  some n

-- The line behind its label.
abbrev pub unlabel : Text → Text
unlabel line =
    elim (do
      t ← after_prefix (codes "R") line
      (n, t1) ← read_number t
      after_prefix (codes " ") t1) [ some rest ↦ rest | none ↦ line ]

label-labelled : (n : ℕ) (line : Text) → label (labelled n line) ≡ some n
unfolding after_prefix is_digit
label-labelled n line = rw (read_number-show n (32 ∷ line) refl)

unlabel-labelled : (n : ℕ) (line : Text) → unlabel (labelled n line) ≡ line
unfolding after_prefix is_digit
unlabel-labelled n line = rw (read_number-show n (32 ∷ line) refl, unlabel)

-- A header begins with `@`, and a line that does not count with `-` or a backslash.
label-header : (line : Text) (h : Header) → parse_header line ≡ some h → label line ≡ none
unfolding parse_header after_prefix
label-header [] h e = refl
label-header (c ∷ t) h e = ground arith

label-skipped : (line : Text) → counts_as_new_file_line line ≡ false → label line ≡ none
unfolding counts_as_new_file_line starts_with after_prefix
label-skipped [] e = refl
label-skipped (c ∷ t) e = ground arith

unlabel-header : (line : Text) (h : Header) → parse_header line ≡ some h → unlabel line ≡ line
unfolding parse_header after_prefix
unlabel-header [] h e = refl
unlabel-header (c ∷ t) h e = ground arith

unlabel-skipped : (line : Text) → counts_as_new_file_line line ≡ false → unlabel line ≡ line
unfolding counts_as_new_file_line starts_with after_prefix
unlabel-skipped [] e = refl
unlabel-skipped (c ∷ t) e = ground arith

label-annotate_from :
    (n : ℕ) (lines : List Text)
    → filter_map label (annotate_lines (some n) lines) ≡ visible_lines (some n) lines
unfolding annotate_lines visible_lines filter_map
label-annotate_from n [] = refl
label-annotate_from n (line ∷ rest) = elim (Option-cases (parse_header line)) [
  | inr (h, e) ↦
      rw (e, annotate_lines, visible_lines)
        (rw (label-header line h e) (label-annotate_from h.new_start rest))
  | inl e ↦ elim (Bool-cases (counts_as_new_file_line line)) [
    | inl c ↦
        rw (e, c, annotate_lines, visible_lines)
          (rw (label-labelled n line) (ap (λ l. n ∷ l) (label-annotate_from (n + 1) rest)))
    | inr c ↦
        rw (e, c, annotate_lines, visible_lines)
          (rw (label-skipped line c) (label-annotate_from n rest))
  ]
]

unlabel-annotate_from :
    (n : ℕ) (lines : List Text) → map unlabel (annotate_lines (some n) lines) ≡ lines
unfolding annotate_lines
unlabel-annotate_from n [] = refl
unlabel-annotate_from n (line ∷ rest) = elim (Option-cases (parse_header line)) [
  | inr (h, e) ↦
      rw (e, annotate_lines)
        (rw (unlabel-header line h e) (ap (λ l. line ∷ l) (unlabel-annotate_from h.new_start rest)))
  | inl e ↦ elim (Bool-cases (counts_as_new_file_line line)) [
    | inl c ↦
        rw (e, c, annotate_lines)
          (rw (unlabel-labelled n line) (ap (λ l. line ∷ l) (unlabel-annotate_from (n + 1) rest)))
    | inr c ↦
        rw (e, c, annotate_lines)
          (rw (unlabel-skipped line c) (ap (λ l. line ∷ l) (unlabel-annotate_from n rest)))
  ]
]

labelled-Free :
    (n : ℕ) (line : Text) → contains line 10 ≡ false → contains (labelled n line) 10 ≡ false
unfolding contains
labelled-Free n line h = ground (arith, contains-append (show n) (32 ∷ line) 10, show-Free n)

annotate_lines-Free :
    (n : Option ℕ) (lines : List Text) → Free 10 lines → Free 10 (annotate_lines n lines)
unfolding annotate_lines
annotate_lines-Free n [] h = tt
annotate_lines-Free none (line ∷ rest) h = elim (Option-cases (parse_header line)) [
  | inr (r, e) ↦ rw (e, annotate_lines) (h.0, annotate_lines-Free (some r.new_start) rest h.1)
  | inl e ↦ rw (e, annotate_lines) (h.0, annotate_lines-Free none rest h.1)
]
annotate_lines-Free (some n) (line ∷ rest) h = elim (Option-cases (parse_header line)) [
  | inr (r, e) ↦ rw (e, annotate_lines) (h.0, annotate_lines-Free (some r.new_start) rest h.1)
  | inl e ↦ elim (Bool-cases (counts_as_new_file_line line)) [
    | inl c ↦
        rw (e, c, annotate_lines)
          (labelled-Free n line h.0, annotate_lines-Free (some (n + 1)) rest h.1)
    | inr c ↦ rw (e, c, annotate_lines) (h.0, annotate_lines-Free (some n) rest h.1)
  ]
]

lines_of_annotate_hunk :
    (hunk header : Text) (rest : List Text) (h : Header)
    → split_on 10 hunk ≡ header ∷ rest
    → parse_header header ≡ some h
    → split_on 10 (annotate_hunk hunk) ≡ header ∷ annotate_lines (some h.new_start) rest
unfolding annotate_hunk annotate_lines
lines_of_annotate_hunk hunk header rest h lines e =
    let free : Free 10 (header ∷ rest) = rw lines at (split_on-Free 10 hunk) in
    rw (lines, annotate_lines)
      (rw (e, annotate_lines)
        (split_on-join 10 header (annotate_lines (some h.new_start) rest)
          (free.0, annotate_lines-Free (some h.new_start) rest free.1)))

-- For a hunk that begins with a hunk header and whose lines end only in single newlines, none
-- after the last, the numbers of the labels that `annotate_hunk` prints are, in order, the lines
-- that `visible_right_lines` gives for the hunk, and taking the labels off restores its lines.
pub annotate_hunk-visible :
    (hunk header : Text) (rest : List Text) (h : Header)
    → split_on 10 hunk ≡ header ∷ rest
    → parse_header header ≡ some h
    → splitlines hunk ≡ split_on 10 hunk
    → (filter_map label (split_on 10 (annotate_hunk hunk)) ≡ visible_right_lines hunk)
      × (map unlabel (split_on 10 (annotate_hunk hunk)) ≡ split_on 10 hunk)
unfolding visible_right_lines visible_lines filter_map
annotate_hunk-visible hunk header rest h lines e same =
    rw (lines_of_annotate_hunk hunk header rest h lines e, same, lines, visible_lines)
      (
        rw (label-header header h e, e, visible_lines) (label-annotate_from h.new_start rest),
        rw (unlabel-header header h e)
            (ap (λ l. header ∷ l) (unlabel-annotate_from h.new_start rest)),
      )
