-- ===== src/Review/Budget/Share.antt =====
-- The blocks that `_truncate_diff_blocks_detailed` shows and drops.
use mathlib.Core.List.{append-nil}
use dovi_ai_server.Base.{
  ℕ, suc, ◌⊎◌, inl, inr, false, ◌+◌, ◌-◌, ◌≤◌, ◌<◌, min, ◌≡◌, refl, ap, true, false, List, [], ◌∷◌,
  map, arith, leb, nat_eq, list_eq, triple_eq, length, drop, All, Text, join,
}
use dovi_ai_server.Review.Budget.{
  Fit, whole, partial, no_room, fit_block, blank_line, Diff, paths_of, show_block, truncate_loop,
  truncate_diff_blocks_detailed,
}
use dovi_ai_server.Review.Budget.Part.{IsPart, FitsIn, fit_block-FitsIn}

abbrev pub sum_lengths : List Text → ℕ
sum_lengths [] = 0
sum_lengths (t ∷ ts) = length t + sum_lengths ts

module _ (max_file max_total : ℕ) where
  -- The characters that a block may have, behind `total` characters.
  abbrev pub room : ℕ → ℕ
  room total = min max_file (max_total - total)

  -- Which blocks are shown, and as what: whole if there is room, else cut, and from some block
  -- without room on none.
  pub data Shows : ℕ → List (Text × Text) → Diff → Type 0 where
    shows_all :
        (total : ℕ)
        → Shows total [] (record { shown = []; dropped_paths = []; truncated_paths = [] })
    stops :
        (total : ℕ) (path block : Text) (rest : List (Text × Text))
        → (max_total ≤ total) ⊎ (room total < length block)
        → Shows total ((path, block) ∷ rest) (record {
          shown = [];
          dropped_paths = path ∷ map (λ b. b.0) rest;
          truncated_paths = [];
        })
    shows_whole :
        (total : ℕ) (path block : Text) (rest : List (Text × Text)) (d : Diff)
        → length block ≤ room total
        → Shows (total + length block) rest d
        → Shows total ((path, block) ∷ rest) (record {
          shown = block ∷ d.shown;
          dropped_paths = d.dropped_paths;
          truncated_paths = d.truncated_paths;
        })
    shows_cut :
        (total : ℕ) (path block part : Text) (rest : List (Text × Text)) (d : Diff)
        → length part ≤ room total
        → room total < length block
        → IsPart (room total) block part
        → Shows (total + length part) rest d
        → Shows total ((path, block) ∷ rest) (record {
          shown = part ∷ d.shown;
          dropped_paths = d.dropped_paths;
          truncated_paths = path ∷ d.truncated_paths;
        })

  truncate_loop-Shows :
      (total : ℕ) (blocks : List (Text × Text))
      → Shows total blocks (truncate_loop max_file max_total total blocks)
  unfolding truncate_loop
  truncate_loop-Shows total [] = shows_all total
  truncate_loop-Shows total ((path, block) ∷ rest) =
      by_case (fit_block max_file (max_total - total) block) refl
        (fit_block-FitsIn max_file (max_total - total) block)
        (λ n. truncate_loop-Shows (total + n) rest)
    where
      by_case :
          (f : Fit)
          → fit_block max_file (max_total - total) block ≡ f
          → FitsIn max_file (max_total - total) block (fit_block max_file (max_total - total) block)
          → ((n : ℕ) → Shows (total + n) rest (truncate_loop max_file max_total (total + n) rest))
          → Shows total
              ((path, block) ∷ rest)
              (truncate_loop max_file max_total total ((path, block) ∷ rest))
      by_case no_room e k rec =
          let room : (max_total - total ≤ 0) ⊎ (min max_file (max_total - total) < length block) =
            rw e at k in
          rw (e, truncate_loop)
            (stops total path block rest
              (elim room [ inl over ↦ inl (omega arith) | inr wide ↦ inr wide ]))
      by_case whole e k rec =
          let fits : length block ≤ min max_file (max_total - total) = rw e at k in
          rw (e, truncate_loop) (shows_whole total path block rest _ fits (rec (length block)))
      by_case (partial t) e k rec =
          let (fits, over, part) : FitsIn max_file (max_total - total) block (partial t) =
            rw e at k in
          rw (e, truncate_loop)
            (shows_cut total path block t rest _ fits over part (rec (length t)))

  -- Shown blocks come first and dropped ones last, the sum of the lengths keeps to the total, and
  -- each length to that of a file.
  pub record IsShared (total : ℕ) (blocks : List (Text × Text)) (d : Diff) : Type 0 where
    pub blocks_shown : Shows total blocks d
    pub partition : drop (length d.shown) (paths_of blocks) ≡ d.dropped_paths
    pub complete : length d.shown + length d.dropped_paths ≡ length blocks
    pub within : total + sum_lengths d.shown ≤ max_total
    pub each : All (λ t. length t ≤ max_file) d.shown

  length-paths_of : (blocks : List (Text × Text)) → length (paths_of blocks) ≡ length blocks
  length-paths_of [] = refl
  length-paths_of (b ∷ blocks) = ap suc (length-paths_of blocks)

  Shows-IsShared :
      (total : ℕ) (blocks : List (Text × Text)) (d : Diff)
      → Shows total blocks d
      → total ≤ max_total
      → (drop (length d.shown) (paths_of blocks) ≡ d.dropped_paths)
        × (length d.shown + length d.dropped_paths ≡ length blocks)
        × (total + sum_lengths d.shown ≤ max_total)
        × All (λ t. length t ≤ max_file) d.shown
  Shows-IsShared total blocks d (shows_all _) h = (refl, omega arith, omega arith, tt)
  Shows-IsShared total blocks d (stops _ path block rest k) h =
      (refl, omega (arith, length-paths_of rest), omega arith, tt)
  Shows-IsShared total blocks d (shows_whole _ path block rest d' fits s) h =
      let (p, c, w, e) = Shows-IsShared (total + length block) rest d' s (omega arith) in
      (p, omega (arith, c), omega (arith, w), (omega arith, e))
  Shows-IsShared total blocks d (shows_cut _ path block part rest d' fits over cut s) h =
      let (p, c, w, e) = Shows-IsShared (total + length part) rest d' s (omega arith) in
      (p, omega (arith, c), omega (arith, w), (omega arith, e))

  -- The loop of `_truncate_diff_blocks_detailed` shows the blocks of the first files, in order:
  -- each whole, where it has room, and else its first characters with the mark of the cut behind
  -- them, at least half of what the room leaves beside the mark and the end of its first line, if
  -- it has one, among them, and its file stands in the list of those cut, which holds no others. It
  -- stops only at a block without room, and the files that it drops are exactly those from there
  -- on; what it shows keeps to `max_total_chars` characters in all and to `max_file_chars` in each
  -- block.
  pub truncate_diff-IsShared :
      (blocks : List (Text × Text)) → IsShared 0 blocks (truncate_loop max_file max_total 0 blocks)
  truncate_diff-IsShared blocks =
      let shows = truncate_loop-Shows 0 blocks in
      let (p, c, w, e) = Shows-IsShared 0 blocks _ shows (omega arith) in
      record { blocks_shown = shows; partition = p; complete = c; within = w; each = e }

  abbrev pub texts_of : List (Text × Text) → List Text
  texts_of = map (λ (path, block). block)

  -- Every block has characters, and no more than a file may have.
  abbrev pub IsModest : List (Text × Text) → Type 0
  IsModest = All (λ (path, block). (0 < length block) × (length block ≤ max_file))

  truncate_loop_whole :
      (total : ℕ) (blocks : List (Text × Text))
      → IsModest blocks
      → total + sum_lengths (texts_of blocks) ≤ max_total
      → truncate_loop max_file max_total total blocks
        ≡ record { shown = texts_of blocks; dropped_paths = []; truncated_paths = [] }
  unfolding truncate_loop fit_block
  truncate_loop_whole total [] m h = refl
  truncate_loop_whole total ((path, block) ∷ rest) m h =
      let more : leb (max_total - total) 0 ≡ false = ground arith in
      let fits : leb (length block) (min max_file (max_total - total)) ≡ true = ground arith in
      rw (more, fits, truncate_loop)
        (ap (show_block block) (truncate_loop_whole (total + length block) rest m.1 (omega arith)))

  -- Where every block has characters and none more than `max_file_chars`, and all together have no
  -- more than `max_total_chars`, the text is the blocks with blank lines between them, and no file
  -- is reported as dropped or as cut short.
  pub truncate_diff_whole :
      (blocks : List (Text × Text))
      → IsModest blocks
      → sum_lengths (texts_of blocks) ≤ max_total
      → truncate_diff_blocks_detailed max_file max_total blocks
        ≡ (join blank_line (texts_of blocks), [], [])
  unfolding truncate_diff_blocks_detailed
  truncate_diff_whole blocks m h = rw (truncate_loop_whole 0 blocks m (omega arith)) (rw append-nil)
