-- ===== src/Review/Context.antt =====
-- app/review/context.py: the project's own files in a prompt. Regular expressions that ignore case,
-- and `str.lower`, are on ASCII.
pub mod Blocks
pub mod Secret
use dovi_ai_server.Base.{
  ℕ, zero, suc, ◌+◌, ◌-◌, ◌*◌, ◌/◌, ◌%◌, ◌^◌, ◌≤◌, ◌<◌, min, max, ◌≡◌, refl, sym, ap, ap₂, ◌∙◌, ◌≢◌,
  ◌↔◌, ◌⊎◌, inl, inr, Bool, true, false, not, ◌&&◌, ◌||◌, Option, none, some, List, [], ◌∷◌, ◌++◌,
  map, arith, ltb, leb, nat_beq, if◌then◌else◌, ltb→lt, ltb→ge, leb→le, leb→gt, nat_beq_iff,
  Bool-cases, Option-cases, ◌>>=◌, Eq, ◌==◌, list_beq, list_beq_iff, nat_eq, list_eq, triple_beq,
  triple_beq_iff, triple_eq, ==_refl, ==_sound, ==_complete, Free, split_on-join, split_on-Free,
  show-Free, length, get_elem?, take, drop, is_nil, length-append, take-append-drop, length-take,
  length-drop, keep, any, All, All-append, All-take, All-keep, All-map_of, keep-All, contains,
  contains-append, count, count-append, Distinct, sort, sort-perm, All-sort, Ordered, sort-Ordered,
  Sub, Sub-refl, Sub-All, Sub-keep, Sub-Distinct, Sub-Ordered, first_of_each, Sub-first_of_each,
  first_of_each-Distinct, contains-first_of_each, contains-sort, none_left, keeps, skips, Text,
  codes, is_space, is_line_break, lower_char, lower, starts_with, ends_with, has_text, after_prefix,
  lstrip, strip, cons_head, split_on, lines_after, splitlines, join, newline, show_digits, show,
  is_digit, take_digits, head_is_digit, read_number, read_number-show, path_parts, last_or_nil,
  path_name, suffix_of_parts, path_suffix, lstrip_dots, drop_first, path_suffixes,
}
use dovi_ai_server.Review.Schema.{ContextFile}
use dovi_ai_server.Review.Budget.{trunc_msg, blank_line}

abbrev pub secret_extensions : List Text
secret_extensions = codes ".env" ∷ codes ".pem" ∷ codes ".p8" ∷ codes ".key" ∷ []

abbrev pub secret_keywords : List Text
secret_keywords = codes "private-key" ∷ codes "private_key" ∷ []

abbrev pub max_file_chars : ℕ
max_file_chars = 8000

abbrev pub max_total_chars : ℕ
max_total_chars = 20000

abbrev pub openapi_filenames : List Text
openapi_filenames = codes "openapi.yaml" ∷ codes "openapi.yml" ∷ codes "swagger.json" ∷ []

unfoldable pub has_openapi_spec : List ContextFile → Bool
unfolding any contains path_name lower
has_openapi_spec context_files =
    any (λ f. contains openapi_filenames (path_name (lower f.path))) context_files

-- The text behind a prefix, which is given in lower case, whatever the case.
unfoldable pub after_prefix_any_case : Text → Text → Option Text
unfolding lower_char
after_prefix_any_case [] t = some t
after_prefix_any_case (p ∷ ps) [] = none
after_prefix_any_case (p ∷ ps) (c ∷ t) =
    let rest = after_prefix_any_case ps t in if p == lower_char c then rest else none

-- `\S*` in front of a text.
unfoldable pub take_nonspace : Text → Text
unfolding is_space
take_nonspace [] = []
take_nonspace (c ∷ t) = let rest = take_nonspace t in if is_space c then [] else c ∷ rest

abbrev pub skip_www : Text → Text
skip_www t = elim (after_prefix_any_case (codes "www.") t) [ some rest ↦ rest | none ↦ t ]

-- The group of `_NOTION_LINK_PATTERN` in front of a text.
unfoldable pub link_here : Text → Option Text
unfolding after_prefix_any_case take_nonspace
link_here t = after_prefix_any_case (codes "https://") t >>= (λ host.
    after_prefix_any_case (codes "notion.so/") (skip_www host) >>= (λ page.
      let path = take_nonspace page in
      if is_nil path then none else some (take (length t - length page) t ++ path)))

-- `_NOTION_LINK_PATTERN.search(text)`.
unfoldable pub find_link : Text → Option Text
unfolding after_prefix_any_case lstrip link_here
find_link [] = none
find_link (c ∷ t) =
    let later = find_link t in
    elim (after_prefix_any_case (codes "notion api spec:") (c ∷ t)
      >>= (λ rest. link_here (lstrip rest))) [ some link ↦ some link | none ↦ later ]

unfoldable pub extract_notion_api_spec_link : List ContextFile → Option Text
unfolding find_link path_name lower
extract_notion_api_spec_link [] = none
extract_notion_api_spec_link (f ∷ fs) =
    let later = extract_notion_api_spec_link fs in
    if path_name (lower f.path) == codes "dovi.md" then find_link f.content else later

unfoldable pub is_secret : Text → Bool
unfolding any contains path_parts path_suffixes path_name lower starts_with has_text
is_secret path =
    let pure = lower path in
    contains (path_parts pure) (codes "secrets")
    || any (contains secret_extensions) (path_suffixes pure)
    || path_name pure == codes ".env"
    || starts_with (codes ".env.") (path_name pure)
    || any (λ keyword. has_text keyword (path_name pure)) secret_keywords

abbrev pub excluded_prefixes : List Text
excluded_prefixes = codes "docs/superpowers/" ∷ []

unfoldable pub is_excluded : Text → Bool
unfolding any starts_with lower
is_excluded path = any (λ prefix. starts_with prefix (lower path)) excluded_prefixes

unfoldable pub priority : Text → ℕ
unfolding path_name lower contains starts_with has_text
priority path =
    let lowered = lower path in
    let name = path_name lowered in
    if name == codes "dovi.md"
    then 0
    else if contains openapi_filenames name
    then 1
    else if lowered == codes "readme.md"
    then 2
    else if starts_with (codes "docs/") lowered || has_text (codes "/docs/") lowered
    then 3
    else if name == codes "claude.md"
    then 4
    else 5

abbrev pub is_usable : ContextFile → Bool
is_usable f = not (is_secret f.path) && not (is_excluded f.path)

abbrev pub by_priority : ContextFile → ContextFile → Bool
by_priority f g = leb (priority f.path) (priority g.path)

unfoldable pub usable_files : List ContextFile → List ContextFile
unfolding keep sort is_secret is_excluded priority
usable_files context_files = sort by_priority (keep is_usable context_files)

abbrev pub file_header : ContextFile → Text
file_header f = codes "# " ++ (f.path ++ newline)

-- The content of a file within its limit; `none` when not even the mark of a cut fits.
unfoldable pub fit_content : ℕ → Text → Option Text
fit_content limit content =
    if ltb limit (length content)
    then (if ltb limit (length trunc_msg)
        then none
        else some (take (limit - length trunc_msg) content ++ trunc_msg))
    else some content

module _ (max_file max_total : ℕ) where
  -- The loop over the files, with `total`. `remaining` stops at 0, where the loop ends.
  unfoldable pub context_blocks : ℕ → List ContextFile → List Text
  unfolding fit_content
  context_blocks total [] = []
  context_blocks total (f ∷ fs) =
      let remaining = max_total - total - length (file_header f) in
      elim (fit_content (min max_file remaining) f.content) [
        | none ↦ []
        | some content ↦
            let block = file_header f ++ content in
            let rest = context_blocks (total + length block) fs in
            if leb remaining 0 then [] else block ∷ rest
      ]

  unfoldable pub build_context : List ContextFile → Text
  unfolding context_blocks usable_files join
  build_context context_files = join blank_line (context_blocks 0 (usable_files context_files))
