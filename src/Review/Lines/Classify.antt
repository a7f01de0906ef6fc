-- ===== src/Review/Lines/Classify.antt =====
-- The counts of `classify_finding_lines`.
use dovi_ai_server.Base.{
  ◌+◌, ◌≡◌, Bool, true, false, none, some, List, [], ◌∷◌, arith, nat_eq, list_eq, triple_eq, length,
  keep, contains,
}
use dovi_ai_server.Review.Schema.{ReviewComment, ChangedFile}
use dovi_ai_server.Review.Lines.{
  visible_of, LineCounts, count_line, classify_loop, classify_finding_lines,
}

module _ (files : List ChangedFile) where
  -- The finding's file is among the changed ones, and its line is visible there.
  abbrev pub on_diff : ReviewComment → Bool
  on_diff r = elim (visible_of files r.file_path) [
    | none ↦ false
    | some lines ↦ contains lines r.line
  ]

  -- The finding's file is not among the changed ones.
  abbrev pub off_files : ReviewComment → Bool
  off_files r = elim (visible_of files r.file_path) [ none ↦ true | some lines ↦ false ]

  classify_loop_sums :
      (c : LineCounts) (reviews : List ReviewComment)
      → let d = classify_loop files c reviews in
        (d.ok ≡ c.ok + length (keep on_diff reviews))
        × (d.file_not_in_diff ≡ c.file_not_in_diff + length (keep off_files reviews))
        × (d.ok + d.line_not_in_diff + d.file_not_in_diff
            ≡ c.ok + c.line_not_in_diff + c.file_not_in_diff + length reviews)
  unfolding classify_loop keep
  classify_loop_sums c [] = omega arith
  classify_loop_sums c (r ∷ rs) = ground (arith, classify_loop_sums (count_line files r c) rs)

  -- `classify_finding_lines` counts each finding in one of its three classes: `ok` counts those
  -- whose line is visible in the patch of their file, `file_not_in_diff` those whose file is not
  -- among the changed files, and the three counts add up to the number of findings.
  pub classify_finding_lines_exact :
      (reviews : List ReviewComment)
      → let c = classify_finding_lines reviews files in
        (c.ok ≡ length (keep on_diff reviews))
        × (c.file_not_in_diff ≡ length (keep off_files reviews))
        × (c.ok + c.line_not_in_diff + c.file_not_in_diff ≡ length reviews)
  unfolding classify_finding_lines
  classify_finding_lines_exact reviews = omega (
    arith,
    classify_loop_sums (record { ok = 0; line_not_in_diff = 0; file_not_in_diff = 0 }) reviews,
  )
