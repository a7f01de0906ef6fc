-- ===== src/Review/Chunks/Windows.antt =====
-- The windows of `_merge_windows`.
use dovi_ai_server.Base.{
  ℕ, suc, ◌+◌, ◌≤◌, ◌<◌, max, ◌≡◌, refl, ap, ap₂, ◌∙◌, inl, inr, Bool, true, false, ◌&&◌, ◌||◌,
  List, [], ◌∷◌, map, arith, leb, leb→gt, Bool-cases, nat_eq, list_eq, triple_eq, any, All,
  All-map_of, sort, insert, All-sort, Ordered, sort-Ordered,
}
use dovi_ai_server.Review.Chunks.{
  Window, window_at, window_before, merge_into, merge_all, merge_windows,
}

abbrev pub is_in : ℕ → Window → Bool
is_in n w = leb w.0 n && leb n w.1

module _ {A : Type 0} (p : A → Bool) (le : A → A → Bool) where
  any-insert : (x : A) (xs : List A) → any p (insert le x xs) ≡ (p x || any p xs)
  unfolding any insert
  any-insert x [] = refl
  any-insert x (y ∷ ys) = elim (Bool-cases (le x y)) [
    | inl h ↦ rw h refl
    | inr h ↦ rw h (ap (λ b. p y || b) (any-insert x ys) ∙ exchange (p y) (p x) (any p ys))
  ]
    where
      exchange : (a b c : Bool) → (a || (b || c)) ≡ (b || (a || c))
      exchange true true c = refl
      exchange true false c = refl
      exchange false b c = refl

  any-sort : (xs : List A) → any p (sort le xs) ≡ any p xs
  unfolding any sort
  any-sort [] = refl
  any-sort (x ∷ xs) = any-insert x (sort le xs) ∙ ap (λ b. p x || b) (any-sort xs)

-- Every window ends before the line in front of the next one.
abbrev pub IsApart : List Window → Type 0
IsApart [] = Unit
IsApart (w ∷ ws) = All (λ v. w.1 + 1 < v.0) ws × IsApart ws

-- The windows start one after the other, none of them empty.
abbrev IsReady : List Window → Type 0
IsReady [] = Unit
IsReady (w ∷ ws) = (w.0 ≤ w.1) × All (λ v. w.0 ≤ v.0) ws × IsReady ws

in_merged :
    (n : ℕ) (last w : Window)
    → last.0 ≤ last.1
    → w.0 ≤ w.1
    → last.0 ≤ w.0
    → leb w.0 (last.1 + 1) ≡ true
    → is_in n (last.0, max last.1 w.1) ≡ (is_in n last || is_in n w)
in_merged n (a, b) (c, e) h k l j = ground arith

merge_into-is_in :
    (n : ℕ) (last : Window) (ws : List Window)
    → IsReady (last ∷ ws)
    → any (is_in n) (merge_into last ws) ≡ (is_in n last || any (is_in n) ws)
unfolding merge_into any
merge_into-is_in n last [] r = refl
merge_into-is_in n last (w ∷ ws) (h, (l, ls), (k, ks, rs)) =
    elim (Bool-cases (leb w.0 (last.1 + 1))) [
      | inl joins ↦ rw joins (
          merge_into-is_in n (last.0, max last.1 w.1) ws (omega arith, ls, rs)
          ∙ ap (λ b. b || any (is_in n) ws) (in_merged n last w h k l joins)
          ∙ or_assoc (is_in n last) (is_in n w) (any (is_in n) ws))
      | inr apart ↦ rw apart (ap (λ b. is_in n last || b) (merge_into-is_in n w ws (k, ks, rs)))
    ]
  where
    or_assoc : (a b c : Bool) → ((a || b) || c) ≡ (a || (b || c))
    or_assoc true b c = refl
    or_assoc false b c = refl

merge_into-starts :
    (low : ℕ) (last : Window) (ws : List Window)
    → low ≤ last.0
    → All (λ v. low ≤ v.0) ws
    → All (λ v. low ≤ v.0) (merge_into last ws)
unfolding merge_into
merge_into-starts low last [] h hs = (h, tt)
merge_into-starts low last (w ∷ ws) h hs = elim (Bool-cases (leb w.0 (last.1 + 1))) [
  | inl joins ↦ rw joins (merge_into-starts low (last.0, max last.1 w.1) ws h hs.1)
  | inr apart ↦ rw apart (h, merge_into-starts low w ws hs.0 hs.1)
]

merge_into-IsApart :
    (last : Window) (ws : List Window) → IsReady (last ∷ ws) → IsApart (merge_into last ws)
unfolding merge_into
merge_into-IsApart last [] r = (tt, tt)
merge_into-IsApart last (w ∷ ws) (h, (l, ls), (k, ks, rs)) =
    elim (Bool-cases (leb w.0 (last.1 + 1))) [
      | inl joins ↦ rw joins (merge_into-IsApart (last.0, max last.1 w.1) ws (omega arith, ls, rs))
      | inr apart ↦
          let gap : suc (last.1 + 1) ≤ w.0 = omega (arith, leb→gt w.0 (last.1 + 1) apart) in
          rw apart (
            All-map_of _ _ (λ v g. omega (arith, g)) _
                (merge_into-starts (suc (last.1 + 1)) w ws gap
                  (All-map_of _ _ (λ v g. omega (arith, g, gap)) ws ks)),
            merge_into-IsApart w ws (k, ks, rs),
          )
    ]

merge_all-exact :
    (ws : List Window)
    → IsReady ws
    → ((n : ℕ) → any (is_in n) (merge_all ws) ≡ any (is_in n) ws) × IsApart (merge_all ws)
unfolding any
merge_all-exact [] r = (λ n. refl, tt)
merge_all-exact (w ∷ ws) r = (λ n. merge_into-is_in n w ws r, merge_into-IsApart w ws r)

window_before_trans :
    (u v w : Window)
    → window_before u v ≡ true
    → window_before v w ≡ true
    → window_before u w ≡ true
window_before_trans (a, b) (c, d) (e, f) h k = ground arith

window_before_total : (v w : Window) → window_before v w ≡ false → window_before w v ≡ true
window_before_total (a, b) (c, d) h = ground arith

Ordered-IsReady :
    (ws : List Window) → All (λ w. w.0 ≤ w.1) ws → Ordered window_before ws → IsReady ws
Ordered-IsReady [] h o = tt
Ordered-IsReady (w ∷ ws) h o =
    (h.0, All-map_of _ _ (λ v g. starts w v g) ws o.0, Ordered-IsReady ws h.1 o.1)
  where
    starts : (v u : Window) → window_before v u ≡ true → v.0 ≤ u.0
    starts (a, b) (c, d) g = ground arith

windows_filled :
    (total radius : ℕ) (lines : List ℕ)
    → All (λ l. (1 ≤ l) × (l ≤ total)) lines
    → All (λ w. w.0 ≤ w.1) (map (window_at total radius) lines)
windows_filled total radius [] h = tt
windows_filled total radius (l ∷ ls) h =
    (omega (arith, h.0.0, h.0.1), windows_filled total radius ls h.1)

any-windows :
    (total radius n : ℕ) (lines : List ℕ)
    → any (is_in n) (map (window_at total radius) lines)
      ≡ any (λ l. is_in n (window_at total radius l)) lines
unfolding any
any-windows total radius n [] = refl
any-windows total radius n (l ∷ ls) =
    ap (λ b. is_in n (window_at total radius l) || b) (any-windows total radius n ls)

-- `n` is a line of the file, at most `radius` lines before or behind the line `l`.
abbrev pub is_near : ℕ → ℕ → ℕ → ℕ → Bool
is_near total radius n l = leb 1 n && leb n total && leb n (l + radius) && leb l (n + radius)

is_in-window_at :
    (total radius n : ℕ) (lines : List ℕ)
    → any (λ l. is_in n (window_at total radius l)) lines ≡ any (is_near total radius n) lines
unfolding any
is_in-window_at total radius n [] = refl
is_in-window_at total radius n (l ∷ ls) = ap₂ ◌||◌ here (is_in-window_at total radius n ls)
  where
    here : is_in n (window_at total radius l) ≡ is_near total radius n l
    here = ground arith

-- For lines of a file of `total` lines, a number stands in one of the merged windows exactly when
-- it is from 1 to `total` and at most `radius` below or above one of the given lines; and the
-- merged windows stand in order, with at least one line between a window and the next.
pub merge_windows-exact :
    (lines : List ℕ) (total radius : ℕ)
    → All (λ l. (1 ≤ l) × (l ≤ total)) lines
    → ((n : ℕ)
        → any (is_in n) (merge_windows lines total radius) ≡ any (is_near total radius n) lines)
      × IsApart (merge_windows lines total radius)
unfolding merge_windows
merge_windows-exact lines total radius h =
    let ws = map (window_at total radius) lines in
    let ready : IsReady (sort window_before ws) =
      Ordered-IsReady (sort window_before ws)
        (All-sort window_before _ ws (windows_filled total radius lines h))
        (sort-Ordered window_before window_before_trans window_before_total ws) in
    let merged = merge_all-exact (sort window_before ws) ready in
    (
      λ n.
          merged.0 n
          ∙ any-sort (is_in n) window_before ws
          ∙ any-windows total radius n lines
          ∙ is_in-window_at total radius n lines,
      merged.1,
    )
