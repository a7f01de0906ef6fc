-- ===== src/Review/Notes.antt =====
-- app/review/pipeline.py, `_short_names` and `_format_file_note`: how a note names files.
pub mod Names
use dovi_ai_server.Base.{
  ℕ, zero, suc, ◌+◌, ◌-◌, ◌*◌, ◌/◌, ◌%◌, ◌^◌, ◌≤◌, ◌<◌, min, max, ◌≡◌, refl, sym, ap, ap₂, ◌∙◌, ◌≢◌,
  ◌↔◌, ◌⊎◌, inl, inr, Bool, true, false, not, ◌&&◌, ◌||◌, Option, none, some, List, [], ◌∷◌, ◌++◌,
  map, arith, ltb, leb, nat_beq, if◌then◌else◌, ltb→lt, ltb→ge, leb→le, leb→gt, nat_beq_iff,
  Bool-cases, Option-cases, ◌>>=◌, Eq, ◌==◌, list_beq, list_beq_iff, nat_eq, list_eq, triple_beq,
  triple_beq_iff, triple_eq, ==_refl, ==_sound, ==_complete, Free, split_on-join, split_on-Free,
  show-Free, length, get_elem?, take, drop, is_nil, length-append, take-append-drop, length-take,
  length-drop, keep, any, All, All-append, All-take, All-keep, All-map_of, keep-All, contains,
  contains-append, count, count-append, Distinct, sort, sort-perm, All-sort, Ordered, sort-Ordered,
  Sub, Sub-refl, Sub-All, Sub-keep, Sub-Distinct, Sub-Ordered, first_of_each, Sub-first_of_each,
  first_of_each-Distinct, contains-first_of_each, contains-sort, none_left, keeps, skips, Text,
  codes, is_space, is_line_break, lower_char, lower, starts_with, ends_with, has_text, after_prefix,
  lstrip, strip, cons_head, split_on, lines_after, splitlines, join, newline, show_digits, show,
  is_digit, take_digits, head_is_digit, read_number, read_number-show, path_parts, last_or_nil,
  path_name, suffix_of_parts, path_suffix, lstrip_dots, drop_first, path_suffixes,
}

abbrev pub fold_file_note_over : ℕ
fold_file_note_over = 3

-- A path, split, with its entry in `depth`.
pub record Entry : Type 0 where
  pub parts : List Text
  pub depth : ℕ

-- `"/".join(p[-d:])`.
unfoldable pub name_of : Entry → Text
unfolding join
name_of e = join (codes "/") (drop (length e.parts - e.depth) e.parts)

abbrev pub names_of : List Entry → List Text
names_of entries = map name_of entries

unfoldable pub can_grow : List Text → Entry → Bool
unfolding count name_of
can_grow names e = ltb 1 (count (name_of e) names) && ltb e.depth (length e.parts)

unfoldable pub grow : List Text → Entry → Entry
unfolding can_grow
grow names e = if can_grow names e then record e { depth = suc e.depth } else e

-- The rounds of the loop. A round that is not the last makes a depth greater, so the fuel of
-- `short_names`, the number of all parts, is enough.
unfoldable pub short_loop : ℕ → List Entry → List Entry
unfolding any can_grow grow
short_loop zero entries = entries
short_loop (suc fuel) entries =
    let grown = any (can_grow (names_of entries)) entries in
    let again = short_loop fuel (map (grow (names_of entries)) entries) in
    if grown then again else entries

abbrev pub start_entry : Text → Entry
start_entry path = record { parts = split_on b'/' path; depth = 1 }

abbrev pub start_entries : List Text → List Entry
start_entries paths = map start_entry paths

abbrev pub count_parts : List Entry → ℕ
count_parts [] = 0
count_parts (e ∷ es) = length e.parts + count_parts es

unfoldable pub short_names : List Text → List Text
unfolding short_loop split_on
short_names paths = names_of (short_loop (count_parts (start_entries paths)) (start_entries paths))

unfoldable pub format_file_note : Text → List Text → Text
unfolding short_names show join
format_file_note title paths =
    let names = map (λ n. codes "`" ++ (n ++ codes "`")) (short_names paths) in
    let total = codes " " ++ (show (length names) ++ codes "개") in
    if leb (length names) fold_file_note_over
    then codes "(" ++ (title ++ (total ++ (codes ": " ++ (join (codes ", ") names ++ codes ")"))))
    else codes "<details>"
      ++ (newline
          ++ (codes "<summary>"
              ++ (title
                  ++ (total
                      ++ (codes "</summary>"
                          ++ (newline
                              ++ (newline
                                  ++ (join newline (map (λ n. codes "- " ++ n) names)
                                      ++ (newline ++ (newline ++ codes "</details>"))))))))))
