-- ===== src/Evaluation/Shorter.antt =====
-- The length of a list without repetition.
use dovi_ai_server.Base.{
  contains-keep, suc, ◌≤◌, ◌≡◌, inl, inr, true, false, not, List, [], ◌∷◌, arith, Bool-cases, Eq,
  ◌==◌, nat_eq, list_eq, triple_eq, length, keep, All, contains, contains-keep, Distinct,
}

-- A list without repetition that stands in another is not longer than it.
module _ {ℓ} {A : Type ℓ} ⦃e : Eq A⦄ where
  length-keep_other :
      (x : A) (ys : List A)
      → length (keep (λ y. not (y == x)) ys) ≤ length ys
        × (contains ys x ≡ true → suc (length (keep (λ y. not (y == x)) ys)) ≤ length ys)
  unfolding keep contains
  length-keep_other x [] = (omega arith, λ h. ground arith)
  length-keep_other x (y ∷ ys) = elim (Bool-cases (y == x)) [
    | inl here ↦
        rw here
          (let (le, lt) = length-keep_other x ys in (omega (arith, le), λ _. omega (arith, le)))
    | inr other ↦
        rw other
          (let (le, lt) = length-keep_other x ys in (omega (arith, le), λ h. omega (arith, lt h)))
  ]

  All-keep_other :
      (x : A) (xs ys : List A)
      → contains xs x ≡ false
      → All (λ a. contains ys a ≡ true) xs
      → All (λ a. contains (keep (λ y. not (y == x)) ys) a ≡ true) xs
  unfolding contains
  All-keep_other x [] ys new h = tt
  All-keep_other x (a ∷ xs) ys new h =
      let split = contains-keep (λ y. not (y == x)) ys a in
      (ground (arith, h.0), All-keep_other x xs ys (ground arith) h.1)

  pub length-Distinct :
      (xs ys : List A) → Distinct xs → All (λ a. contains ys a ≡ true) xs → length xs ≤ length ys
  length-Distinct [] ys d h = omega arith
  length-Distinct (x ∷ xs) ys d h =
      let rest =
        length-Distinct xs (keep (λ y. not (y == x)) ys) d.1 (All-keep_other x xs ys d.0 h.1) in
      omega (arith, rest, (length-keep_other x ys).1 h.0)
