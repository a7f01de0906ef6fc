-- ===== src/Base/Split.antt =====
-- `str.split` undoes `str.join`, where no part holds the separator.
use mathlib.Core.Path.{◌≡◌, refl, ap, ◌∙◌}
use mathlib.Core.Logic.{inl, inr}
use mathlib.Core.Bool.{false}
use mathlib.Core.List.{List, [], ◌∷◌, ◌++◌}
use Prim.Native.Nat.{ℕ, zero, suc, ◌+◌, ◌/◌, ◌%◌}
use native.Mathlib.Omega.{arith}
use dovi_ai_server.Base.Tests.{Bool-cases, ◌==◌, nat_eq, ltb}
use dovi_ai_server.Base.Lists.{All, contains, contains-append}
use dovi_ai_server.Base.Texts.{Text, split_on, cons_head, join, show, show_digits}

split_on-append :
    (c : ℕ) (l t : Text) → contains l c ≡ false → split_on c (l ++ (c ∷ t)) ≡ l ∷ split_on c t
unfolding split_on contains
split_on-append c [] t h = ground arith
split_on-append c (x ∷ l) t h = ground (arith, split_on-append c l t)

split_on-single : (c : ℕ) (l : Text) → contains l c ≡ false → split_on c l ≡ l ∷ []
unfolding split_on contains
split_on-single c [] h = refl
split_on-single c (x ∷ l) h = ground (arith, split_on-single c l)

abbrev pub Free : ℕ → List Text → Type 0
Free c = All (λ l. contains l c ≡ false)

pub split_on-join :
    (c : ℕ) (l : Text) (ls : List Text)
    → Free c (l ∷ ls)
    → split_on c (join (c ∷ []) (l ∷ ls)) ≡ l ∷ ls
unfolding join
split_on-join c l [] h = split_on-single c l h.0
split_on-join c l (m ∷ ls) h =
    split_on-append c l _ h.0 ∙ ap (λ r. l ∷ r) (split_on-join c m ls h.1)

Free-cons_head : (c x : ℕ) (ls : List Text) → (x == c) ≡ false → Free c ls → Free c (cons_head x ls)
unfolding contains
Free-cons_head c x [] e h = (ground arith, tt)
Free-cons_head c x (l ∷ ls) e h = (ground arith, h.1)

-- No part of a split holds the separator.
pub split_on-Free : (c : ℕ) (t : Text) → Free c (split_on c t)
unfolding split_on
split_on-Free c [] = (unfold contains in refl, tt)
split_on-Free c (x ∷ t) = elim (Bool-cases (x == c)) [
  | inl e ↦ rw e (unfold contains in refl, split_on-Free c t)
  | inr e ↦ rw e (Free-cons_head c x (split_on c t) e (split_on-Free c t))
]

show_digits-Free : (f n : ℕ) → contains (show_digits f n) 10 ≡ false
unfolding show_digits contains
show_digits-Free zero n = refl
show_digits-Free (suc f) n = elim (Bool-cases (ltb n 10)) [
  | inl e ↦ rw e (ground arith)
  | inr e ↦ rw e (
      ground (
        arith,
        contains-append (show_digits f (n / 10)) ((n % 10 + 48) ∷ []) 10,
        show_digits-Free f (n / 10),
      ))
]

-- A printed number holds no newline.
pub show-Free : (n : ℕ) → contains (show n) 10 ≡ false
unfolding show
show-Free n = show_digits-Free (suc n) n
