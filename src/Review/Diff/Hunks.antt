-- ===== src/Review/Diff/Hunks.antt =====
-- The lines of a patch and the hunks of `_split_hunks`.
use mathlib.Core.List.{flatten, append_assoc}
use dovi_ai_server.Base.{
  ℕ, ◌≡◌, refl, ap, ap₂, ◌∙◌, inl, inr, Bool, true, false, ◌&&◌, List, [], ◌∷◌, ◌++◌, map, arith,
  if◌then◌else◌, Bool-cases, ◌==◌, nat_eq, list_eq, triple_eq, Free, split_on-join, All, All-append,
  contains, Text, is_line_break, starts_with, cons_head, split_on, lines_after, splitlines, join,
  newline,
}
use dovi_ai_server.Review.Diff.{starts_hunk, hunk_loop, split_hunks}

-- The lines from the first one that starts a hunk.
unfoldable pub from_first_hunk : List Text → List Text
unfolding starts_with
from_first_hunk [] = []
from_first_hunk (line ∷ lines) = if starts_hunk line then line ∷ lines else from_first_hunk lines

-- A hunk: a line that starts one, and lines that do not.
abbrev pub IsHunk : List Text → Type 0
IsHunk [] = ⊥
IsHunk (line ∷ lines) = (starts_hunk line ≡ true) × All (λ l. starts_hunk l ≡ false) lines

IsHunk-snoc :
    (x : Text) (xs : List Text) (l : Text)
    → IsHunk (x ∷ xs)
    → starts_hunk l ≡ false
    → IsHunk (x ∷ (xs ++ (l ∷ [])))
IsHunk-snoc x xs l h e = (h.0, All-append _ xs (l ∷ []) h.1 (e, tt))

hunk_loop-lines :
    (x : Text) (xs lines : List Text) → flatten (hunk_loop (x ∷ xs) lines) ≡ x ∷ (xs ++ lines)
unfolding hunk_loop flatten
hunk_loop-lines x xs [] = refl
hunk_loop-lines x xs (line ∷ lines) = elim (Bool-cases (starts_hunk line)) [
  | inl e ↦ rw e (ap (λ r. x ∷ (xs ++ r)) (hunk_loop-lines line [] lines))
  | inr e ↦ rw e (
      hunk_loop-lines x (xs ++ (line ∷ [])) lines
      ∙ ap (λ r. x ∷ r) (append_assoc xs (line ∷ []) lines))
]

hunk_loop-none : (lines : List Text) → flatten (hunk_loop [] lines) ≡ from_first_hunk lines
unfolding hunk_loop flatten from_first_hunk
hunk_loop-none [] = refl
hunk_loop-none (line ∷ lines) = elim (Bool-cases (starts_hunk line)) [
  | inl e ↦ rw e (hunk_loop-lines line [] lines)
  | inr e ↦ rw e (hunk_loop-none lines)
]

hunk_loop-IsHunk :
    (x : Text) (xs lines : List Text) → IsHunk (x ∷ xs) → All IsHunk (hunk_loop (x ∷ xs) lines)
unfolding hunk_loop
hunk_loop-IsHunk x xs [] h = (h, tt)
hunk_loop-IsHunk x xs (line ∷ lines) h = elim (Bool-cases (starts_hunk line)) [
  | inl e ↦ rw e (h, hunk_loop-IsHunk line [] lines (e, tt))
  | inr e ↦ rw e (hunk_loop-IsHunk x (xs ++ (line ∷ [])) lines (IsHunk-snoc x xs line h e))
]

hunk_loop-IsHunk_none : (lines : List Text) → All IsHunk (hunk_loop [] lines)
unfolding hunk_loop
hunk_loop-IsHunk_none [] = tt
hunk_loop-IsHunk_none (line ∷ lines) = elim (Bool-cases (starts_hunk line)) [
  | inl e ↦ rw e (hunk_loop-IsHunk line [] lines (e, tt))
  | inr e ↦ rw e (hunk_loop-IsHunk_none lines)
]

-- No line of a split text holds a newline.
cons_head-Free :
    (c : ℕ) (ls : List Text) → (c == 10) ≡ false → Free 10 ls → Free 10 (cons_head c ls)
unfolding contains
cons_head-Free c [] e h = (ground arith, tt)
cons_head-Free c (l ∷ ls) e h = (ground arith, h.1)

lines_after-Free : (cr : Bool) (t : Text) → Free 10 (lines_after cr t)
unfolding lines_after
lines_after-Free cr [] = tt
lines_after-Free cr (c ∷ t) = elim (Bool-cases (cr && c == 10)) [
  | inl e ↦ rw e (lines_after-Free (c == 13) t)
  | inr e ↦ elim (Bool-cases (is_line_break c)) [
    | inl b ↦ rw (e, b) (unfold contains in refl, lines_after-Free (c == 13) t)
    | inr b ↦
        rw (e, b)
          (cons_head-Free c (lines_after (c == 13) t) (no_break b) (lines_after-Free (c == 13) t))
  ]
]
  where
    no_break : is_line_break c ≡ false → (c == 10) ≡ false
    no_break b = ground arith

joined :
    (hs : List (List Text))
    → All IsHunk hs
    → Free 10 (flatten hs)
    → map (split_on 10) (map (join newline) hs) ≡ hs
unfolding flatten
joined [] h k = refl
joined ([] ∷ hs) h k = absurd h.0
joined ((x ∷ xs) ∷ hs) h k =
    let r = free_parts (x ∷ xs) (flatten hs) k in
    ap₂ (λ a b. a ∷ b) (split_on-join 10 x xs r.0) (joined hs h.1 r.1)
  where
    free_parts : (us vs : List Text) → Free 10 (us ++ vs) → Free 10 us × Free 10 vs
    free_parts [] vs f = (tt, f)
    free_parts (u ∷ us) vs f = let r = free_parts us vs f.1 in ((f.0, r.0), r.1)

Free-from_first : (lines : List Text) → Free 10 lines → Free 10 (from_first_hunk lines)
unfolding from_first_hunk
Free-from_first [] h = tt
Free-from_first (line ∷ lines) h = elim (Bool-cases (starts_hunk line)) [
  | inl e ↦ rw e h
  | inr e ↦ rw e (Free-from_first lines h.1)
]

-- The hunks of `_split_hunks`, cut at newlines again, are the lines of the patch from the first
-- one that starts with `@@`, in order and with none left out; and each hunk is one line that
-- starts with `@@` and then lines that do not.
pub split_hunks_exact :
    (patch : Text)
    → (flatten (map (split_on 10) (split_hunks patch)) ≡ from_first_hunk (splitlines patch))
      × All IsHunk (map (split_on 10) (split_hunks patch))
unfolding split_hunks
split_hunks_exact patch =
    let lines = splitlines patch in
    let hunks = hunk_loop-IsHunk_none lines in
    let free : Free 10 (flatten (hunk_loop [] lines)) =
      rw hunk_loop-none
        (Free-from_first lines (unfold splitlines in lines_after-Free false patch)) in
    let same = joined (hunk_loop [] lines) hunks free in
    (rw same (hunk_loop-none lines), rw same hunks)
