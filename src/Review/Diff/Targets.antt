-- ===== src/Review/Diff/Targets.antt =====
-- The changed files and the targets of `analyze`.
use mathlib.Core.List.{List, [], ◌∷◌}
use dovi_ai_server.Base.{
  ◌≡◌, refl, inl, inr, Bool, false, not, ◌||◌, Bool-cases, nat_eq, list_eq, triple_eq, is_nil, keep,
  Text,
}
use dovi_ai_server.Review.Schema.{ChangedFile, ReviewRequestedEvent, ReviewTarget}
use dovi_ai_server.Review.Diff.{should_skip, split_hunks, analyze_files, analyze}

-- Whether a changed file is reviewed.
abbrev pub is_reviewed : ChangedFile → Bool
is_reviewed file = not (should_skip file || is_nil (split_hunks file.patch))

-- The path, status and hunks of a target and of the file it comes from.
abbrev pub IsTargetOf : ReviewTarget → ChangedFile → Type 0
IsTargetOf target file =
    (target.file_path ≡ file.file_path)
    × (target.hunks ≡ split_hunks file.patch)
    × (is_nil target.hunks ≡ false)
    × (should_skip file ≡ false)

-- Two lists of one length, related item by item.
abbrev pub Zipped : List ReviewTarget → List ChangedFile → Type 0
Zipped [] [] = Unit
Zipped [] (f ∷ fs) = ⊥
Zipped (t ∷ ts) [] = ⊥
Zipped (t ∷ ts) (f ∷ fs) = IsTargetOf t f × Zipped ts fs

module _ (build_context_chunks : ChangedFile → List Text) where
  analyze_files-Zipped :
      (files : List ChangedFile)
      → Zipped (analyze_files build_context_chunks files) (keep is_reviewed files)
  unfolding analyze_files
  analyze_files-Zipped [] = tt
  analyze_files-Zipped (f ∷ fs) = elim (Bool-cases (should_skip f)) [
    | inl s ↦ rw s (analyze_files-Zipped fs)
    | inr s ↦ elim (Bool-cases (is_nil (split_hunks f.patch))) [
      | inl n ↦ rw (s, n) (analyze_files-Zipped fs)
      | inr n ↦ rw (s, n) ((refl, refl, n, s), analyze_files-Zipped fs)
    ]
  ]

  -- The targets of `analyze` stand one for one, in order, for the changed files that are not
  -- skipped and whose patch has a hunk: each has the path and the hunks of its file, and at least
  -- one hunk.
  pub analyze-Zipped :
      (event : ReviewRequestedEvent)
      → Zipped (analyze build_context_chunks event) (keep is_reviewed event.changed_files)
  unfolding analyze
  analyze-Zipped event = analyze_files-Zipped event.changed_files
