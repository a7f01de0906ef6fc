-- ===== src/Review/Hunk.antt =====
-- app/review/hunk_split.py: files that are too large are cut at lines, each piece with a new header.
pub mod Pieces
pub mod Groups
pub mod Sizes
pub mod Texts
use mathlib.Core.List.{flat_map}
use dovi_ai_server.Base.{
  ℕ, zero, suc, ◌+◌, ◌-◌, ◌*◌, ◌/◌, ◌%◌, ◌^◌, ◌≤◌, ◌<◌, min, max, ◌≡◌, refl, sym, ap, ◌∙◌, ◌≢◌, ◌↔◌,
  ◌⊎◌, inl, inr, Bool, true, false, not, ◌&&◌, ◌||◌, Option, none, some, List, [], ◌∷◌, ◌++◌, map,
  arith, ltb, leb, nat_beq, if◌then◌else◌, ltb→lt, ltb→ge, leb→le, leb→gt, nat_beq_iff, Bool-cases,
  Option-cases, ◌>>=◌, Eq, ◌==◌, nat_eq, list_beq, list_beq_iff, list_eq, triple_beq,
  triple_beq_iff, triple_eq, ==_refl, ==_sound, ==_complete, Free, split_on-join, split_on-Free,
  show-Free, length, get_elem?, take, drop, is_nil, length-append, take-append-drop, length-take,
  length-drop, keep, any, All, All-append, All-take, All-keep, All-map_of, keep-All, contains,
  contains-append, count, count-append, Distinct, sort, sort-perm, All-sort, Ordered, sort-Ordered,
  Sub, Sub-refl, Sub-All, Sub-keep, Sub-Distinct, Sub-Ordered, first_of_each, Sub-first_of_each,
  first_of_each-Distinct, contains-first_of_each, contains-sort, none_left, keeps, skips, Text,
  codes, is_space, is_line_break, lower_char, lower, starts_with, ends_with, has_text, after_prefix,
  lstrip, strip, cons_head, split_on, lines_after, splitlines, join, newline, show_digits, show,
  is_digit, take_digits, head_is_digit, read_number, read_number-show,
}
use dovi_ai_server.Review.Header.{Header, parse_header}
use dovi_ai_server.Review.Header.Print.{print_header}
use dovi_ai_server.Review.Schema.{ReviewTarget}

-- `_HEADER_RESERVE` and `_MIN_HUNK_LIMIT`.
abbrev pub header_reserve : ℕ
header_reserve = 48

abbrev pub min_hunk_limit : ℕ
min_hunk_limit = 1000

-- A piece before it is printed: the numbers of its header and its lines.
pub record Piece : Type 0 where
  pub old_start : ℕ
  pub old_count : ℕ
  pub new_start : ℕ
  pub new_count : ℕ
  pub body : List Text

-- The variables of the loop of `split_hunk`; `current_len` is the sum of the lengths plus one.
pub record SplitState : Type 0 where
  pub current : List Text
  pub current_len : ℕ
  pub old_start : ℕ
  pub new_start : ℕ
  pub old_count : ℕ
  pub new_count : ℕ

-- What `flush` appends to `pieces`.
abbrev pub flushed_piece : SplitState → Piece
flushed_piece s = record {
  old_start = s.old_start;
  old_count = s.old_count;
  new_start = s.new_start;
  new_count = s.new_count;
  body = s.current;
}

-- The state that `flush` leaves.
abbrev pub flush : SplitState → SplitState
flush s = record {
  current = [];
  current_len = 0;
  old_start = s.old_start + s.old_count;
  new_start = s.new_start + s.new_count;
  old_count = 0;
  new_count = 0;
}

abbrev pub is_marker : Text → Bool
is_marker line = starts_with (92 ∷ []) line

-- The lines of the old file and of the new one that a line stands for.
unfoldable pub old_lines : Text → ℕ
old_lines line =
    if is_marker line
    then 0
    else if starts_with (codes "-") line
    then 1
    else if starts_with (codes "+") line
    then 0
    else 1

unfoldable pub new_lines : Text → ℕ
new_lines line = if is_marker line then 0 else if starts_with (codes "-") line then 0 else 1

-- The rest of the loop's body, from `current.append(line)`.
unfoldable pub push : SplitState → Text → SplitState
unfolding old_lines new_lines
push s line = record s {
  current = s.current ++ (line ∷ []);
  current_len = s.current_len + length line + 1;
  old_count = s.old_count + old_lines line;
  new_count = s.new_count + new_lines line;
}

abbrev pub must_flush : ℕ → SplitState → Text → Bool
must_flush limit s line =
    not (is_nil s.current) && not (is_marker line) && ltb limit (s.current_len + length line + 1)

-- The loop over the lines, and the `flush` behind it.
unfoldable pub split_loop : ℕ → SplitState → List Text → List Piece
unfolding push starts_with
split_loop limit s [] = if is_nil s.current then [] else flushed_piece s ∷ []
split_loop limit s (line ∷ lines) =
    let cut = must_flush limit s line in
    let rest = split_loop limit (push (if cut then flush s else s) line) lines in
    if cut then flushed_piece s ∷ rest else rest

abbrev pub start_state : Header → SplitState
start_state h = record {
  current = [];
  current_len = 0;
  old_start = h.old_start;
  new_start = h.new_start;
  old_count = 0;
  new_count = 0;
}

abbrev pub piece_lines : Text → Piece → List Text
piece_lines tail p = print_header p.old_start p.old_count p.new_start p.new_count tail ∷ p.body

unfoldable pub split_body : ℕ → Text → Header → List Text → List Text
unfolding split_loop join
split_body max_chars hunk h lines =
    map (λ p. join newline (piece_lines h.tail p))
      (split_loop (max (max_chars - header_reserve) 1) (start_state h) lines)

-- `lines[0]` is there: a split is never empty.
unfoldable pub split_lines : ℕ → Text → List Text → List Text
unfolding split_body parse_header
split_lines max_chars hunk [] = hunk ∷ []
split_lines max_chars hunk (first ∷ lines) = elim (parse_header first) [
  | none ↦ hunk ∷ []
  | some h ↦ split_body max_chars hunk h lines
]

unfoldable pub split_hunk : Text → ℕ → List Text
unfolding split_lines split_on
split_hunk hunk max_chars =
    if leb (length hunk) max_chars then hunk ∷ [] else split_lines max_chars hunk (split_on 10 hunk)

-- The range of new lines that the headers span; a header that does not parse gives `None`.
unfoldable pub range_loop : Option (ℕ × ℕ) → List Text → Option (ℕ × ℕ)
unfolding parse_header
range_loop range [] = range
range_loop range (hunk ∷ hunks) = elim (parse_header hunk) [
  | none ↦ none
  | some h ↦
      let count : ℕ = elim h.new_count [ none ↦ 1 | some n ↦ n ] in
      let last : ℕ = h.new_start + max count 1 - 1 in
      range_loop
        (elim range [
          | none ↦ some (h.new_start, max 0 last)
          | some (start, end) ↦ some (min start h.new_start, max end last)
        ])
        hunks
]

unfoldable pub hunk_new_range : List Text → Option (ℕ × ℕ)
unfolding range_loop
hunk_new_range hunks = range_loop none hunks

-- `_CHUNK_RANGE_RE`, `\(lines (\d+)-(\d+)\)`, at the front of a text.
unfoldable pub range_here : Text → Option (ℕ × ℕ)
unfolding after_prefix read_number
range_here t = do
  t1 ← after_prefix (codes "(lines ") t
  (a, t2) ← read_number t1
  t3 ← after_prefix (codes "-") t2
  (b, t4) ← read_number t3
  rest ← after_prefix (codes ")") t4
  some (a, b)

-- `re.search`: the first place where the expression matches.
unfoldable pub chunk_range : Text → Option (ℕ × ℕ)
unfolding range_here
chunk_range [] = none
chunk_range (c ∷ t) = elim (range_here (c ∷ t)) [ some r ↦ some r | none ↦ chunk_range t ]

abbrev pub first_line : Text → Text
first_line t = elim (split_on 10 t) [ [] ↦ [] | l ∷ ls ↦ l ]

abbrev pub overlaps : ℕ × ℕ → Text → Bool
overlaps range chunk = elim (chunk_range (first_line chunk)) [
  | none ↦ false
  | some (a, b) ↦ leb a range.1 && leb range.0 b
]

unfoldable pub chunks_for : List Text → List Text → List Text
unfolding hunk_new_range chunk_range keep
chunks_for chunks hunks = elim (hunk_new_range hunks) [
  | none ↦ []
  | some range ↦ keep (overlaps range) chunks
]

module _ (size_of : ReviewTarget → ℕ) where
  -- `make(group)`.
  abbrev pub make : ReviewTarget → List Text → ReviewTarget
  make target group = record target {
    hunks = group;
    context_chunks = chunks_for target.context_chunks group;
  }

  -- The loop over the hunks, and the last group behind it.
  unfoldable pub group_hunks : ReviewTarget → ℕ → List Text → List Text → List ReviewTarget
  unfolding chunks_for
  group_hunks target max_chars group [] = if is_nil group then [] else make target group ∷ []
  group_hunks target max_chars group (hunk ∷ hunks) =
      let cut =
        not (is_nil group) && ltb max_chars (size_of (make target (group ++ (hunk ∷ [])))) in
      let rest =
        group_hunks target max_chars (if cut then hunk ∷ [] else group ++ (hunk ∷ [])) hunks in
      if cut then make target group ∷ rest else rest

  abbrev pub hunk_limit : ReviewTarget → ℕ → ℕ
  hunk_limit target max_chars =
      max (max_chars - size_of (record target { hunks = [] })) min_hunk_limit

  unfoldable pub split_oversized_target : ReviewTarget → ℕ → List ReviewTarget
  unfolding group_hunks split_hunk flat_map
  split_oversized_target target max_chars =
      if leb (size_of target) max_chars
      then target ∷ []
      else group_hunks target max_chars []
          (flat_map (λ hunk. split_hunk hunk (hunk_limit target max_chars)) target.hunks)
