-- ===== src/Review/Budget/Part.antt =====
-- What `_truncate_diff_blocks_detailed` shows of one block.
use dovi_ai_server.Base.{
  ℕ, sym, ◌∙◌, suc, ◌/◌, ◌⊎◌, inl, inr, ◌++◌, Option, none, some, take, contains, Bool-cases,
  Option-cases, ◌==◌, leb→le, leb→gt, ltb, ltb→ge, zero, codes, false, ◌+◌, ◌-◌, ◌≤◌, ◌<◌, min, ◌≡◌,
  refl, true, false, [], ◌∷◌, arith, leb, nat_eq, list_eq, triple_eq, length, Text,
}
use dovi_ai_server.Review.Budget.{
  Fit, whole, partial, no_room, only_header, find_newline, cut_at_line_boundary, cut_to, trunc_msg,
  rfind_from, fit_block,
}
use dovi_ai_server.Review.Budget.Cut.{length-cut_to}

-- The first characters of a block with the mark of the cut behind them: at least half of what the
-- limit leaves beside the mark, and the end of the first line, if there is one, among them.
abbrev pub IsPart : ℕ → Text → Text → Type 0
IsPart limit block part =
    (n : ℕ) × (part ≡ take n block ++ codes "\n...(truncated)")
    × ((limit - 15) / 2 ≤ n)
    × (contains (take n block) b'\n' ≡ contains block b'\n')

-- What `fit_block` shows keeps to the characters that remain and to those of a file.
abbrev pub FitsIn : ℕ → ℕ → Text → Fit → Type 0
FitsIn max_file remaining block whole = length block ≤ min max_file remaining
FitsIn max_file remaining block (partial t) =
    (length t ≤ min max_file remaining)
    × (min max_file remaining < length block)
    × IsPart (min max_file remaining) block t
FitsIn max_file remaining block no_room = (remaining ≤ 0) ⊎ (min max_file remaining < length block)

find_newline-none : (i : ℕ) (t : Text) → find_newline i t ≡ none → contains t b'\n' ≡ false
unfolding find_newline contains
find_newline-none i [] h = refl
find_newline-none i (c ∷ t) h = elim (Bool-cases (c == 10)) [
  | inl e ↦ absurd (found (rw e at h))
  | inr e ↦ rw e (find_newline-none (i + 1) t (rw e at h))
]
  where
    found : ◌≡◌ {A = Option ℕ} (some i) none → ⊥
    found p = cc

some_same : (i e : ℕ) → ◌≡◌ {A = Option ℕ} (some i) (some e) → i ≡ e
some_same i e h = cc

find_newline-ge : (i e : ℕ) (t : Text) → find_newline i t ≡ some e → i ≤ e
unfolding find_newline
find_newline-ge i e [] h = ground arith
find_newline-ge i e (c ∷ t) h = elim (Bool-cases (c == 10)) [
  | inl k ↦ omega (arith, some_same i e (rw k at h))
  | inr k ↦ omega (arith, find_newline-ge (i + 1) e t (rw k at h))
]

-- A newline found in front of the cut stands in the part, and in the text.
find_newline-contains :
    (i e n : ℕ) (t : Text)
    → find_newline i t ≡ some e
    → e < i + n
    → (contains (take n t) b'\n' ≡ true) × (contains t b'\n' ≡ true)
unfolding find_newline contains
find_newline-contains i e n [] h k = ground arith
find_newline-contains i e zero (c ∷ t) h k =
    absurd (omega (arith, find_newline-ge i e (c ∷ t) h, k))
find_newline-contains i e (suc n) (c ∷ t) h k = elim (Bool-cases (c == 10)) [
  | inl found ↦ rw found (refl, refl)
  | inr other ↦ rw other (find_newline-contains (i + 1) e n t (rw other at h) (omega (arith, k)))
]

contains-take : (n : ℕ) (t : Text) → contains t b'\n' ≡ false → contains (take n t) b'\n' ≡ false
unfolding contains
contains-take zero t h = refl
contains-take (suc n) [] h = refl
contains-take (suc n) (c ∷ t) h = ground (arith, contains-take n t)

only_header-contains :
    (block : Text) (cut : ℕ)
    → only_header block cut ≡ false
    → contains (take cut block) b'\n' ≡ contains block b'\n'
only_header-contains block cut h = elim (Option-cases (find_newline 0 block)) [
  | inl e ↦ let absent = find_newline-none 0 block e in contains-take cut block absent ∙ sym absent
  | inr (i, e) ↦
      let later : leb cut i ≡ false = rw (e, only_header) at h in
      let both = find_newline-contains 0 i cut block e (omega (arith, leb→gt _ _ later)) in
      both.0 ∙ sym both.1
]

half-le-cut : (t : Text) (limit : ℕ) → limit / 2 ≤ cut_at_line_boundary t limit
unfolding cut_at_line_boundary
half-le-cut t limit = elim (Option-cases (rfind_from 0 none limit t)) [
  | inl e ↦ rw (e, cut_at_line_boundary) (omega arith)
  | inr (k, e) ↦ rw (e, cut_at_line_boundary) (ground arith)
]

pub fit_block-FitsIn :
    (max_file remaining : ℕ) (block : Text)
    → FitsIn max_file remaining block (fit_block max_file remaining block)
unfolding fit_block cut_to
fit_block-FitsIn max_file remaining block =
    let limit = min max_file remaining in
    let cut = cut_at_line_boundary block (limit - length trunc_msg) in
    elim (Bool-cases (leb remaining 0)) [
      | inl out ↦ rw out (inl (leb→le _ _ out))
      | inr more ↦ elim (Bool-cases (leb (length block) limit)) [
        | inl fits ↦ rw (more, fits) (leb→le _ _ fits)
        | inr over ↦ elim (Bool-cases (ltb limit (length trunc_msg))) [
          | inl narrow ↦ rw (more, over, narrow) (inr (leb→gt _ _ over))
          | inr wide ↦ elim (Bool-cases (only_header block cut)) [
            | inl bare ↦ rw (more, over, wide, bare) (inr (leb→gt _ _ over))
            | inr rich ↦
                rw (more, over, wide, rich)
                  (
                    length-cut_to block limit (ltb→ge _ _ wide),
                    leb→gt _ _ over,
                    (
                      cut,
                      refl,
                      half-le-cut block (limit - length trunc_msg),
                      only_header-contains block cut rich,
                    ),
                  )
          ]
        ]
      ]
    ]
