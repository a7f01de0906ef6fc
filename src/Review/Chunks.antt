-- ===== src/Review/Chunks.antt =====
-- app/review/chunking.py, and `_build_context_chunks` in app/review/diff.py: the parts of a file
-- around its changed lines. What tree-sitter finds is a parameter.
pub mod Windows
pub mod Merged
use mathlib.Core.List.{flat_map}
use dovi_ai_server.Base.{
  ℕ, zero, suc, ◌+◌, ◌-◌, ◌*◌, ◌/◌, ◌%◌, ◌^◌, ◌≤◌, ◌<◌, min, max, ◌≡◌, refl, sym, ap, ap₂, ◌∙◌, ◌≢◌,
  ◌↔◌, ◌⊎◌, inl, inr, Bool, true, false, not, ◌&&◌, ◌||◌, Option, none, some, List, [], ◌∷◌, ◌++◌,
  map, arith, ltb, leb, nat_beq, if◌then◌else◌, ltb→lt, ltb→ge, leb→le, leb→gt, nat_beq_iff,
  Bool-cases, Option-cases, ◌>>=◌, Eq, ◌==◌, list_beq, list_beq_iff, nat_eq, list_eq, triple_beq,
  triple_beq_iff, triple_eq, ==_refl, ==_sound, ==_complete, Free, split_on-join, split_on-Free,
  show-Free, length, get_elem?, take, drop, is_nil, length-append, take-append-drop, length-take,
  length-drop, keep, any, All, All-append, All-take, All-keep, All-map_of, keep-All, contains,
  contains-append, contains-keep, count, count-append, Distinct, sort, sort-perm, All-sort, Ordered,
  sort-Ordered, Sub, Sub-refl, Sub-All, Sub-keep, Sub-Distinct, Sub-Ordered, first_of_each,
  Sub-first_of_each, first_of_each-Distinct, contains-first_of_each, contains-sort, none_left,
  keeps, skips, Text, codes, is_space, is_line_break, lower_char, lower, starts_with, ends_with,
  has_text, after_prefix, lstrip, strip, cons_head, split_on, lines_after, splitlines, join,
  newline, show_digits, show, is_digit, take_digits, head_is_digit, read_number, read_number-show,
  path_parts, last_or_nil, path_name, suffix_of_parts, path_suffix, lstrip_dots, drop_first,
  path_suffixes,
}
use dovi_ai_server.Review.Schema.{ChangedFile}
use dovi_ai_server.Review.Header.{Header, parse_header}
use dovi_ai_server.Review.Budget.{blank_line}

abbrev pub fallback_window_radius : ℕ
fallback_window_radius = 15

-- The languages of `_EXTENSION_LANGUAGE`, under their extensions.
abbrev pub extension_language : List (Text × Text)
extension_language =
    (codes ".py", codes "python")
    ∷ (codes ".js", codes "javascript")
    ∷ (codes ".jsx", codes "javascript")
    ∷ (codes ".mjs", codes "javascript")
    ∷ (codes ".cjs", codes "javascript")
    ∷ (codes ".ts", codes "typescript")
    ∷ (codes ".tsx", codes "typescript")
    ∷ (codes ".java", codes "java")
    ∷ (codes ".kt", codes "kotlin")
    ∷ (codes ".kts", codes "kotlin")
    ∷ []

unfoldable pub lookup : Text → List (Text × Text) → Option Text
lookup key [] = none
lookup key ((k, v) ∷ rest) = let later = lookup key rest in if k == key then some v else later

-- The text from the last dot on, if there is a dot.
unfoldable pub from_last_dot : Text → Option Text
from_last_dot [] = none
from_last_dot (c ∷ t) = elim (from_last_dot t) [
  | some suffix ↦ some suffix
  | none ↦ if c == b'.' then some (c ∷ t) else none
]

unfoldable pub detect_language : Text → Option Text
unfolding from_last_dot lookup lower
detect_language file_path =
    from_last_dot file_path >>= λ suffix. lookup (lower suffix) extension_language

-- The loop of `changed_line_numbers`; the numbers stand in their order, and more than once where a
-- hunk says so.
unfoldable pub changed_loop : ℕ → List Text → List ℕ
unfolding parse_header starts_with
changed_loop new_line [] = []
changed_loop new_line (raw_line ∷ rest) = elim (parse_header raw_line) [
  | some header ↦ changed_loop header.new_start rest
  | none ↦
      let is_added = starts_with (codes "+") raw_line && not (starts_with (codes "+++") raw_line) in
      let is_skipped =
        (starts_with (codes "-") raw_line && not (starts_with (codes "---") raw_line))
        || starts_with (codes "@@") raw_line in
      let later =
        changed_loop (if is_added || not is_skipped then suc new_line else new_line) rest in
      if is_added then new_line ∷ later else later
]

unfoldable pub changed_line_numbers : Text → List ℕ
unfolding changed_loop splitlines
changed_line_numbers patch = changed_loop 0 (splitlines patch)

-- `sorted` of a set of numbers.
unfoldable pub sorted_set : List ℕ → List ℕ
unfolding sort first_of_each
sorted_set lines = sort leb (first_of_each (λ n. n) [] lines)

pub record AstChunk : Type 0 where
  pub node_type : Text
  pub name : Option Text
  pub start_line : ℕ
  pub end_line : ℕ
  pub source : Text

-- A window of lines, from 1, with both its ends.
abbrev pub Window : Type 0
Window = ℕ × ℕ

abbrev pub window_at : ℕ → ℕ → ℕ → Window
window_at total_lines radius line = (max 1 (line - radius), min total_lines (line + radius))

abbrev pub window_before : Window → Window → Bool
window_before v w = ltb v.0 w.0 || (nat_beq v.0 w.0 && leb v.1 w.1)

-- The loop of `_merge_windows`, with the last window of `merged`.
unfoldable pub merge_into : Window → List Window → List Window
merge_into last [] = last ∷ []
merge_into last (w ∷ ws) =
    let joins = leb w.0 (last.1 + 1) in
    let rest = merge_into (if joins then (last.0, max last.1 w.1) else w) ws in
    if joins then rest else last ∷ rest

abbrev pub merge_all : List Window → List Window
merge_all [] = []
merge_all (w ∷ ws) = merge_into w ws

unfoldable pub merge_windows : List ℕ → ℕ → ℕ → List Window
unfolding merge_into sort
merge_windows lines total_lines radius =
    merge_all (sort window_before (map (window_at total_lines radius) lines))

abbrev pub window_chunk : List Text → Window → AstChunk
window_chunk content_lines (start, end) = record {
  node_type = codes "fallback_window";
  name = none;
  start_line = start;
  end_line = end;
  source = join newline (take (end - (start - 1)) (drop (start - 1) content_lines));
}

-- `_window_chunks`, on text: a split at newlines cuts no character in two.
unfoldable pub window_chunks : Text → List ℕ → List AstChunk
unfolding contains split_on merge_windows join
window_chunks content lines =
    let content_lines = split_on 10 content in
    if contains content 0
    then []
    else map (window_chunk content_lines)
        (merge_windows lines (length content_lines) fallback_window_radius)

-- The boundary node around a line, its wrappers included, with the bytes where it stands.
pub record Boundary : Type 0 where
  pub chunk : AstChunk
  pub start_byte : ℕ
  pub end_byte : ℕ

pub record Found : Type 0 where
  pub seen_ranges : List (ℕ × ℕ × ℕ)
  pub chunks : List AstChunk
  pub orphan_lines : List ℕ

-- Pairs stand in `seen_ranges`; they are triples with a zero here.
abbrev pub add_chunk : ℕ × ℕ → AstChunk → Found → Found
add_chunk (a, b) chunk f =
    if contains f.seen_ranges (a, b, 0)
    then f
    else record f { seen_ranges = (a, b, 0) ∷ f.seen_ranges; chunks = f.chunks ++ (chunk ∷ []) }

module _ (enclosing : ℕ → Option Boundary) where
  unfoldable pub boundary_loop : List ℕ → Found → Found
  unfolding contains
  boundary_loop [] f = f
  boundary_loop (line ∷ lines) f = boundary_loop lines (elim (enclosing line) [
    | none ↦ record f { orphan_lines = f.orphan_lines ++ (line ∷ []) }
    | some b ↦ add_chunk (b.start_byte, b.end_byte) b.chunk f
  ])

unfoldable pub add_windows : List AstChunk → Found → Found
unfolding contains
add_windows [] f = f
add_windows (w ∷ ws) f = add_windows ws (add_chunk (w.start_line, w.end_line) w f)

-- `parse` answers nothing when the parser fails. No chunk stands for `None`, which the callers
-- treat alike.
module _ (parse : Text → Text → Option (ℕ → Option Boundary)) where
  unfoldable pub extract_context_chunks : Text → Text → Text → List AstChunk
  unfolding detect_language changed_line_numbers sorted_set window_chunks boundary_loop add_windows
  extract_context_chunks file_path content patch =
      let lines = sorted_set (changed_line_numbers patch) in
      let nothing : Found = record { seen_ranges = []; chunks = []; orphan_lines = [] } in
      if is_nil lines then [] else elim (detect_language file_path) [
        | none ↦ window_chunks content lines
        | some language ↦ elim (parse language content) [
          | none ↦ []
          | some enclosing ↦
              let f = boundary_loop enclosing lines nothing in
              (add_windows
                (if is_nil f.orphan_lines then [] else window_chunks content f.orphan_lines)
                f).chunks
        ]
      ]

  abbrev pub name_or_empty : Option Text → Text
  name_or_empty none = []
  name_or_empty (some name) = name

  abbrev pub chunk_text : AstChunk → Text
  chunk_text c =
      codes "### "
      ++ (c.node_type
          ++ (codes " "
              ++ (name_or_empty c.name
                  ++ (codes " (lines "
                      ++ (show c.start_line
                          ++ (codes "-"
                              ++ (show c.end_line ++ (codes ")" ++ (newline ++ c.source)))))))))

  abbrev pub chunks_of_content : ChangedFile → Option Text → List AstChunk
  chunks_of_content file none = []
  chunks_of_content file (some content) =
      if is_nil content then [] else extract_context_chunks file.file_path content file.patch

  unfoldable pub build_context_chunks : ChangedFile → List Text
  unfolding extract_context_chunks show
  build_context_chunks file = map chunk_text (chunks_of_content file file.content)
