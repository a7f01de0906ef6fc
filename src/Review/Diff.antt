-- ===== src/Review/Diff.antt =====
-- app/review/diff.py: which changed files are reviewed, and their hunks. The chunks around the
-- changes, which the syntax trees of tree-sitter give, are a parameter.
pub mod Hunks
pub mod Targets
use dovi_ai_server.Base.{
  ℕ, zero, suc, ◌+◌, ◌-◌, ◌*◌, ◌/◌, ◌%◌, ◌^◌, ◌≤◌, ◌<◌, min, max, ◌≡◌, refl, sym, ap, ap₂, ◌∙◌, ◌≢◌,
  ◌↔◌, ◌⊎◌, inl, inr, Bool, true, false, not, ◌&&◌, ◌||◌, Option, none, some, List, [], ◌∷◌, ◌++◌,
  map, arith, ltb, leb, nat_beq, if◌then◌else◌, ltb→lt, ltb→ge, leb→le, leb→gt, nat_beq_iff,
  Bool-cases, Option-cases, ◌>>=◌, Eq, ◌==◌, nat_eq, list_beq, list_beq_iff, list_eq, triple_beq,
  triple_beq_iff, triple_eq, ==_refl, ==_sound, ==_complete, Free, split_on-join, split_on-Free,
  show-Free, length, get_elem?, take, drop, is_nil, length-append, take-append-drop, length-take,
  length-drop, keep, any, All, All-append, All-take, All-keep, All-map_of, keep-All, contains,
  contains-append, count, count-append, Distinct, sort, sort-perm, All-sort, Ordered, sort-Ordered,
  Sub, Sub-refl, Sub-All, Sub-keep, Sub-Distinct, Sub-Ordered, first_of_each, Sub-first_of_each,
  first_of_each-Distinct, contains-first_of_each, contains-sort, none_left, keeps, skips, Text,
  codes, is_space, is_line_break, lower_char, lower, starts_with, ends_with, has_text, after_prefix,
  lstrip, strip, cons_head, split_on, lines_after, splitlines, join, newline, show_digits, show,
  is_digit, take_digits, head_is_digit, read_number, read_number-show, path_parts, last_or_nil,
  path_name, suffix_of_parts, path_suffix, lstrip_dots, drop_first, path_suffixes,
}
use dovi_ai_server.Review.Schema.{
  ChangedFile, ReviewRequestedEvent, ReviewTarget, FileStatus, removed, added, modified, renamed,
}

abbrev pub lockfiles : List Text
lockfiles =
    codes "uv.lock"
    ∷ codes "poetry.lock"
    ∷ codes "package-lock.json"
    ∷ codes "yarn.lock"
    ∷ codes "pnpm-lock.yaml"
    ∷ codes "Cargo.lock"
    ∷ codes "go.sum"
    ∷ codes "Gemfile.lock"
    ∷ codes "composer.lock"
    ∷ []

abbrev pub binary_ext : List Text
binary_ext =
    codes ".png"
    ∷ codes ".jpg"
    ∷ codes ".jpeg"
    ∷ codes ".gif"
    ∷ codes ".ico"
    ∷ codes ".webp"
    ∷ codes ".svg"
    ∷ codes ".pdf"
    ∷ codes ".zip"
    ∷ codes ".gz"
    ∷ codes ".tar"
    ∷ codes ".woff"
    ∷ codes ".woff2"
    ∷ codes ".ttf"
    ∷ codes ".eot"
    ∷ codes ".mp4"
    ∷ codes ".mp3"
    ∷ codes ".jar"
    ∷ codes ".so"
    ∷ codes ".dylib"
    ∷ codes ".dll"
    ∷ codes ".bin"
    ∷ codes ".wasm"
    ∷ []

abbrev pub generated_suffixes : List Text
generated_suffixes =
    codes ".min.js" ∷ codes ".min.css" ∷ codes ".map" ∷ codes "_pb2.py" ∷ codes ".pb.go" ∷ []

abbrev pub generated_dirs : List Text
generated_dirs =
    codes "node_modules"
    ∷ codes "vendor"
    ∷ codes "dist"
    ∷ codes "build"
    ∷ codes "__pycache__"
    ∷ codes ".venv"
    ∷ []

unfoldable pub is_removed : FileStatus → Bool
is_removed removed = true
is_removed _ = false

unfoldable pub should_skip : ChangedFile → Bool
unfolding is_removed strip path_name path_suffix path_parts lower ends_with any contains list_beq
should_skip file =
    is_removed file.status
    || is_nil (strip file.patch)
    || contains lockfiles (path_name file.file_path)
    || contains binary_ext (lower (path_suffix file.file_path))
    || any (λ suffix. ends_with suffix file.file_path) generated_suffixes
    || any (λ part. contains generated_dirs part) (path_parts file.file_path)

abbrev pub starts_hunk : Text → Bool
starts_hunk line = starts_with (codes "@@") line

-- The loop of `_split_hunks`; a hunk is the list of its lines.
unfoldable pub hunk_loop : List Text → List Text → List (List Text)
unfolding starts_with
hunk_loop current [] = if is_nil current then [] else current ∷ []
hunk_loop current (line ∷ lines) =
    let fresh = hunk_loop (line ∷ []) lines in
    let more = hunk_loop (if is_nil current then [] else current ++ (line ∷ [])) lines in
    if starts_hunk line then (if is_nil current then fresh else current ∷ fresh) else more

unfoldable pub split_hunks : Text → List Text
unfolding hunk_loop splitlines join
split_hunks patch = map (join newline) (hunk_loop [] (splitlines patch))

module _ (build_context_chunks : ChangedFile → List Text) where
  unfoldable pub analyze_files : List ChangedFile → List ReviewTarget
  unfolding should_skip split_hunks
  analyze_files [] = []
  analyze_files (file ∷ files) =
      let rest = analyze_files files in
      if should_skip file || is_nil (split_hunks file.patch)
      then rest
      else record {
        file_path = file.file_path;
        status = file.status;
        hunks = split_hunks file.patch;
        context_chunks = build_context_chunks file;
      }
        ∷ rest

  unfoldable pub analyze : ReviewRequestedEvent → List ReviewTarget
  unfolding analyze_files
  analyze event = analyze_files event.changed_files
