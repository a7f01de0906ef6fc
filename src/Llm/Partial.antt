-- ===== src/Llm/Partial.antt =====
-- app/llm/output_parser.py: the findings that are whole in an answer that was cut off.
pub mod Scan
pub mod Items
pub mod Recovered
use dovi_ai_server.Base.{
  ℕ, zero, suc, ◌+◌, ◌-◌, ◌*◌, ◌/◌, ◌%◌, ◌^◌, ◌≤◌, ◌<◌, min, max, ◌≡◌, refl, sym, ap, ◌∙◌, ◌≢◌, ◌↔◌,
  ◌⊎◌, inl, inr, Bool, true, false, not, ◌&&◌, ◌||◌, Option, none, some, List, [], ◌∷◌, ◌++◌, map,
  arith, ltb, leb, nat_beq, if◌then◌else◌, ltb→lt, ltb→ge, leb→le, leb→gt, nat_beq_iff, Bool-cases,
  Option-cases, ◌>>=◌, Eq, ◌==◌, nat_eq, list_beq, list_beq_iff, list_eq, triple_beq,
  triple_beq_iff, triple_eq, ==_refl, ==_sound, ==_complete, Free, split_on-join, split_on-Free,
  show-Free, length, get_elem?, take, drop, is_nil, length-append, take-append-drop, length-take,
  length-drop, keep, any, All, All-append, All-take, All-keep, All-map_of, keep-All, contains,
  contains-append, count, count-append, Distinct, sort, sort-perm, All-sort, Ordered, sort-Ordered,
  Sub, Sub-refl, Sub-All, Sub-keep, Sub-Distinct, Sub-Ordered, first_of_each, Sub-first_of_each,
  first_of_each-Distinct, contains-first_of_each, contains-sort, none_left, keeps, skips, Text,
  codes, is_space, is_line_break, lower_char, lower, starts_with, ends_with, has_text, after_prefix,
  lstrip, strip, cons_head, split_on, lines_after, splitlines, join, newline, show_digits, show,
  is_digit, take_digits, head_is_digit, read_number, read_number-show,
}
use dovi_ai_server.Review.Schema.{ReviewComment, ReviewModelOutput}

abbrev pub quote : ℕ
quote = b'"'

abbrev pub backslash : ℕ
backslash = 92

abbrev pub is_open : ℕ → Bool
is_open c = c == b'{' || c == b'['

abbrev pub is_close : ℕ → Bool
is_close c = c == b'}' || c == b']'

-- `in_string` and `escape`, as all the scanners keep them.
pub data Mode : Type 0 where
  outside inside escaped : Mode

-- One character read inside a string.
unfoldable pub string_step : Mode → ℕ → Mode
string_step outside c = outside
string_step escaped c = inside
string_step inside c = if c == backslash then escaped else if c == quote then outside else inside

-- The loop of `_extract_array_item_strings`; `item` is `text[item_start:i]`.
unfoldable pub item_loop : Mode → ℕ → Text → Text → List Text
unfolding string_step
item_loop mode depth item [] = []
item_loop outside zero item (c ∷ t) =
    let string = item_loop inside zero item t in
    let opened = item_loop outside 1 (c ∷ []) t in
    let next = item_loop outside zero item t in
    if c == quote then string else if c == b'{' then opened else if c == b']' then [] else next
item_loop outside (suc depth) item (c ∷ t) =
    let string = item_loop inside (suc depth) (item ++ (c ∷ [])) t in
    let deeper = item_loop outside (suc (suc depth)) (item ++ (c ∷ [])) t in
    let closed = item_loop outside depth (item ++ (c ∷ [])) t in
    let next = item_loop outside (suc depth) (item ++ (c ∷ [])) t in
    if c == quote
    then string
    else if is_open c
    then deeper
    else if is_close c
    then (if depth == 0 then (item ++ (c ∷ [])) ∷ closed else closed)
    else next
item_loop inside depth item (c ∷ t) = item_loop (string_step inside c) depth (item ++ (c ∷ [])) t
item_loop escaped depth item (c ∷ t) = item_loop (string_step escaped c) depth (item ++ (c ∷ [])) t

unfoldable pub extract_array_item_strings : Text → List Text
unfolding item_loop
extract_array_item_strings text = item_loop outside 0 [] text

-- What stands behind `key`, spaces, a colon and spaces, if the text begins so.
unfoldable pub value_of_key : Text → Text → Option Text
unfolding after_prefix lstrip
value_of_key key text = do
  t ← after_prefix key text
  u ← after_prefix (codes ":") (lstrip t)
  some (lstrip u)

abbrev pub pop : List ℕ → List ℕ
pop [] = []
pop (c ∷ stack) = stack

-- `len(stack) == 1 and stack[-1] == "{"`; the top of the stack is the head of the list.
abbrev pub in_top_object : List ℕ → Bool
in_top_object (c ∷ []) = c == b'{'
in_top_object _ = false

-- The loop that `_find_reviews_array_start` and `_find_summary_value` share: the first key of the
-- top object that reads `key`, whose value `accept` takes.
module _ {A : Type 0} (key : Text) (accept : Text → Option A) where
  unfoldable pub find_top_key : Mode → List ℕ → Text → Option A
  unfolding string_step value_of_key
  find_top_key mode stack [] = none
  find_top_key outside stack (c ∷ t) =
      let string = find_top_key inside stack t in
      let deeper = find_top_key outside (c ∷ stack) t in
      let closed = find_top_key outside (pop stack) t in
      let next = find_top_key outside stack t in
      if c == quote
      then elim (if in_top_object stack then value_of_key key (c ∷ t) >>= accept else none) [
        | some found ↦ some found
        | none ↦ string
      ]
      else if is_open c
      then deeper
      else if is_close c
      then closed
      else next
  find_top_key inside stack (c ∷ t) = find_top_key (string_step inside c) stack t
  find_top_key escaped stack (c ∷ t) = find_top_key (string_step escaped c) stack t

-- The text behind the bracket of `"reviews": [`.
unfoldable pub find_reviews_array_start : Text → Option Text
unfolding find_top_key
find_reviews_array_start text =
    find_top_key (codes "\"reviews\"") (after_prefix (codes "[")) outside [] text

abbrev pub cons_some : ℕ → Option Text → Option Text
cons_some c none = none
cons_some c (some u) = some (c ∷ u)

-- The characters behind an opening quote, up to the closing one and with it.
unfoldable pub closed_string : Mode → Text → Option Text
unfolding string_step
closed_string mode [] = none
closed_string mode (c ∷ t) =
    let rest = closed_string (string_step mode c) t in
    elim (string_step mode c) [
      | outside ↦ some (c ∷ [])
      | inside ↦ cons_some c rest
      | escaped ↦ cons_some c rest
    ]

-- `json.loads` of a string literal, and of a finding with the validation of its fields: the
-- decoders of the `json` and `pydantic` packages.
pub record Decoders : Type 0 where
  pub decode_string : Text → Option Text
  pub decode_review : Text → Option ReviewComment

-- A fenced block reads "```json ... ```".
abbrev pub fence : Text
fence = codes "```"

-- What stands before the last fence.
unfoldable pub before_last_fence : Text → Option Text
unfolding starts_with
before_last_fence [] = none
before_last_fence (c ∷ t) = elim (before_last_fence t) [
  | some u ↦ some (c ∷ u)
  | none ↦ if starts_with fence (c ∷ t) then some [] else none
]

-- The group of `_FENCE` behind an opening fence, stripped; it holds one character at least.
unfoldable pub fenced_content : Text → Option Text
unfolding after_prefix strip
fenced_content [] = none
fenced_content (c ∷ content) = elim (after_prefix (codes "json") (c ∷ content)) [
  | none ↦ some (strip (c ∷ content))
  | some u ↦ some (if is_nil u then c ∷ content else strip u)
]

unfoldable pub find_fence : Text → Option Text
unfolding before_last_fence fenced_content
find_fence [] = none
find_fence (c ∷ t) =
    elim (after_prefix fence (c ∷ t) >>= λ r. before_last_fence r >>= fenced_content) [
      | some content ↦ some content
      | none ↦ find_fence t
    ]

unfoldable pub strip_fence : Text → Text
unfolding find_fence
strip_fence text = elim (find_fence (strip text)) [ some content ↦ content | none ↦ strip text ]

abbrev pub review_key : ReviewComment → Text × ℕ × Text
review_key r = (r.file_path, r.line, r.message)

-- `_dedupe_reviews`: the first finding of each key, and the number of the others.
unfoldable pub dedupe_reviews : List ReviewComment → List ReviewComment × ℕ
unfolding first_of_each
dedupe_reviews reviews =
    let deduped = first_of_each review_key [] reviews in (deduped, length reviews - length deduped)

pub record PartialRecoveryResult : Type 0 where
  pub output : ReviewModelOutput
  pub duplicates_removed : ℕ

abbrev pub default_truncated_summary : Text
default_truncated_summary = codes "모델 출력이 중간에 잘려 summary를 복구하지 못했습니다."

abbrev pub truncation_notice : Text
truncation_notice = 10 ∷ 10 ∷ codes "※ 모델 출력이 중간에 잘려 일부 finding만 복구했습니다."

module _ (d : Decoders) where
  unfoldable pub decode_all : List Text → List ReviewComment
  decode_all [] = []
  decode_all (raw_item ∷ raw_items) = elim (d.decode_review raw_item) [
    | none ↦ decode_all raw_items
    | some review ↦ review ∷ decode_all raw_items
  ]

  -- `_read_closed_string` at an opening quote; the outer `none` says that no quote stands there.
  unfoldable pub read_closed_string : Text → Option (Option Text)
  unfolding closed_string
  read_closed_string text = elim (after_prefix (quote ∷ []) text) [
    | none ↦ none
    | some t ↦ some (closed_string inside t >>= λ body. d.decode_string (quote ∷ body))
  ]

  unfoldable pub find_summary_value : Text → Option Text
  unfolding find_top_key read_closed_string
  find_summary_value text =
      elim (find_top_key (codes "\"summary\"") read_closed_string outside [] text) [
        | none ↦ none
        | some value ↦ value
      ]

  abbrev pub or_default : Option Text → Text
  or_default none = default_truncated_summary
  or_default (some s) = if is_nil s then default_truncated_summary else s

  abbrev pub item_strings : Option Text → List Text
  item_strings none = []
  item_strings (some t) = extract_array_item_strings t

  unfoldable pub parse_partial_review_output : Text → Option PartialRecoveryResult
  unfolding strip_fence find_reviews_array_start extract_array_item_strings decode_all
      dedupe_reviews find_summary_value
  parse_partial_review_output text =
      let candidate = strip_fence text in
      let (deduped, duplicates) =
        dedupe_reviews (decode_all (item_strings (find_reviews_array_start candidate))) in
      if is_nil deduped
      then none
      else some (record {
        output = record {
          summary = or_default (find_summary_value candidate) ++ truncation_notice;
          reviews = deduped;
        };
        duplicates_removed = duplicates;
      })
