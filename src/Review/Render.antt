-- ===== src/Review/Render.antt =====
-- app/review/pipeline.py: how a target is written into a prompt (`_render_target`), and which
-- paths are tests (`_is_low_priority_path`). The chunks found for it are those of app/rag/schema.py.
use mathlib.Core.List.{List, [], ◌∷◌, ◌++◌}
use dovi_ai_server.Base.{
  ℕ, Bool, false, not, ◌&&◌, ◌||◌, Option, none, some, map, ltb, leb, if◌then◌else◌, ◌==◌, nat_eq,
  list_eq, triple_eq, length, is_nil, any, contains, Text, codes, ends_with, after_prefix, split_on,
  join, newline, last_or_nil,
}
use dovi_ai_server.Review.Schema.{FileStatus, added, modified, removed, renamed, ReviewTarget}
use dovi_ai_server.Review.Lines.{annotate_hunk}
use dovi_ai_server.Review.Budget.{cut_to}

-- What the prompt shows of a `ChunkSearchResult`.
pub record ChunkSearchResult : Type 0 where
  pub file_path : Text
  pub node_type : Text
  pub name : Option Text
  pub source : Text

abbrev pub max_related_context_chars : ℕ
max_related_context_chars = 2000

abbrev pub max_same_file_context_chars : ℕ
max_same_file_context_chars = 4500

abbrev pub status_text : FileStatus → Text
status_text added = codes "added"
status_text modified = codes "modified"
status_text removed = codes "removed"
status_text renamed = codes "renamed"

-- A section, cut at a line when it is over its limit.
unfoldable pub section_text : Text → ℕ → Text
unfolding cut_to
section_text text limit = if ltb limit (length text) then cut_to text limit else text

-- `r.name or r.node_type`.
abbrev pub shown_name : Option Text → Text → Text
shown_name none node_type = node_type
shown_name (some name) node_type = if is_nil name then node_type else name

abbrev pub related_entry : ChunkSearchResult → Text
related_entry r =
    codes "# " ++ r.file_path ++ codes " :: " ++ shown_name r.name r.node_type ++ (10 ∷ r.source)

unfoldable pub render_target : Bool → ReviewTarget → List ChunkSearchResult → Text
unfolding annotate_hunk section_text join
render_target annotate_diff_lines target related =
    let hunks = if annotate_diff_lines then map annotate_hunk target.hunks else target.hunks in
    let context_section =
      section_text (join (10 ∷ 10 ∷ []) target.context_chunks) max_same_file_context_chars in
    let related_section =
      section_text (join (10 ∷ 10 ∷ []) (map related_entry related)) max_related_context_chars in
    codes "# "
    ++ target.file_path
    ++ codes " ("
    ++ status_text target.status
    ++ codes ")"
    ++ (10 ∷ join newline hunks)
    ++ (if is_nil target.context_chunks
        then []
        else 10 ∷ 10 ∷ codes "#### 전체 함수/클래스 컨텍스트" ++ (10 ∷ context_section))
    ++ (if is_nil related then [] else 10 ∷ 10 ∷ codes "#### 관련 프로젝트 코드" ++ (10 ∷ related_section))

-- `$` matches before a last newline too.
unfoldable pub chop_newline : Text → Text
chop_newline [] = []
chop_newline (c ∷ t) = let rest = chop_newline t in if c == 10 && is_nil t then [] else c ∷ rest

abbrev pub test_dirs : List Text
test_dirs = codes "test" ∷ codes "tests" ∷ codes "__tests__" ∷ codes "e2e" ∷ []

abbrev pub is_alnum : ℕ → Bool
is_alnum c = (leb 48 c && leb c 57) || (leb 65 c && leb c 90) || (leb 97 c && leb c 122)

-- `[A-Za-z0-9]+$` behind a prefix.
unfoldable pub ends_after : Text → Text → Bool
unfolding after_prefix any
ends_after front t = elim (after_prefix front t) [
  | some rest ↦ not (is_nil rest) && not (any (λ c. not (is_alnum c)) rest)
  | none ↦ false
]

-- `[._-](spec|test)\.[A-Za-z0-9]+$`, searched from every character.
unfoldable pub has_test_suffix : Text → Bool
unfolding ends_after
has_test_suffix [] = false
has_test_suffix (c ∷ t) =
    ((c == b'.' || c == b'_' || c == b'-')
      && (ends_after (codes "spec.") t || ends_after (codes "test.") t))
    || has_test_suffix t

-- `(^|/)test_[^/]*\.py$`, for the last part of a path.
unfoldable pub is_test_script : Text → Bool
unfolding after_prefix ends_with
is_test_script name = elim (after_prefix (codes "test_") name) [
  | some rest ↦ ends_with (codes ".py") rest
  | none ↦ false
]

unfoldable pub is_low_priority_path : Text → Bool
unfolding chop_newline has_test_suffix is_test_script any split_on
is_low_priority_path path =
    let parts = split_on b'/' (chop_newline path) in
    any (λ part. contains test_dirs part) parts
    || has_test_suffix (chop_newline path)
    || is_test_script (last_or_nil parts)
