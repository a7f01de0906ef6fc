-- ===== src/Base/Dedup.antt =====
-- Sublists, and the loop with a `seen` set that keeps the first element of each key.
use mathlib.Core.Path.{◌≡◌, refl}
use mathlib.Core.Bool.{Bool, true, false, ◌||◌}
use mathlib.Core.List.{List, [], ◌∷◌, map}
use mathlib.Core.Logic.{inl, inr}
use native.Mathlib.Omega.{arith}
use dovi_ai_server.Base.Tests.{if◌then◌else◌, Eq, Bool-cases}
use dovi_ai_server.Base.Sort.{Ordered, insert, sort}
use dovi_ai_server.Base.Lists.{All, contains, keep, Distinct}

-- `Sub xs ys`: `xs` is `ys` with some elements left out.
pub data Sub {ℓ} {A : Type ℓ} : List A → List A → Type ℓ where
  none_left : (ys : List A) → Sub [] ys
  keeps : (x : A) {xs ys : List A} → Sub xs ys → Sub (x ∷ xs) (x ∷ ys)
  skips : (y : A) {xs ys : List A} → Sub xs ys → Sub xs (y ∷ ys)

module _ {ℓ} {A : Type ℓ} where
  pub Sub-refl : (xs : List A) → Sub xs xs
  Sub-refl [] = none_left []
  Sub-refl (x ∷ xs) = keeps x (Sub-refl xs)

  pub Sub-All {κ} : (P : A → Type κ) {xs ys : List A} → Sub xs ys → All P ys → All P xs
  Sub-All P (none_left ys) h = tt
  Sub-All P (keeps x s) h = (h.0, Sub-All P s h.1)
  Sub-All P (skips y s) h = Sub-All P s h.1

  pub Sub-keep : (p : A → Bool) (xs : List A) → Sub (keep p xs) xs
  unfolding keep
  Sub-keep p [] = none_left []
  Sub-keep p (x ∷ xs) = elim (Bool-cases (p x)) [
    | inl h ↦ rw h (keeps x (Sub-keep p xs))
    | inr h ↦ rw h (skips x (Sub-keep p xs))
  ]

  module _ {κ} {K : Type κ} ⦃e : Eq K⦄ (key : A → K) where
    contains-Sub :
        {xs ys : List A} (k : K)
        → Sub xs ys
        → contains (map key ys) k ≡ false
        → contains (map key xs) k ≡ false
    unfolding contains
    contains-Sub k (none_left ys) h = refl
    contains-Sub k (keeps x s) h = ground (arith, contains-Sub k s)
    contains-Sub k (skips y s) h = contains-Sub k s (ground arith)

    pub Sub-Distinct : {xs ys : List A} → Sub xs ys → Distinct (map key ys) → Distinct (map key xs)
    Sub-Distinct (none_left ys) h = tt
    Sub-Distinct (keeps x s) h = (contains-Sub (key x) s h.0, Sub-Distinct s h.1)
    Sub-Distinct (skips y s) h = Sub-Distinct s h.1

module _ {ℓ} {A : Type ℓ} (le : A → A → Bool) where
  pub Sub-Ordered : {xs ys : List A} → Sub xs ys → Ordered le ys → Ordered le xs
  Sub-Ordered (none_left ys) h = tt
  Sub-Ordered (keeps x s) h = (Sub-All _ s h.0, Sub-Ordered s h.1)
  Sub-Ordered (skips y s) h = Sub-Ordered s h.1

module _ {ℓ κ} {A : Type ℓ} {K : Type κ} ⦃e : Eq K⦄ (key : A → K) where
  -- `if key in seen: continue; seen.add(key); out.append(x)`.
  unfoldable pub first_of_each : List K → List A → List A
  unfolding contains
  first_of_each seen [] = []
  first_of_each seen (x ∷ xs) =
      let again = contains seen (key x) in
      let rest = first_of_each (if again then seen else key x ∷ seen) xs in
      if again then rest else x ∷ rest

  pub Sub-first_of_each : (seen : List K) (xs : List A) → Sub (first_of_each seen xs) xs
  unfolding first_of_each
  Sub-first_of_each seen [] = none_left []
  Sub-first_of_each seen (x ∷ xs) = elim (Bool-cases (contains seen (key x))) [
    | inl h ↦ rw h (skips x (Sub-first_of_each seen xs))
    | inr h ↦ rw h (keeps x (Sub-first_of_each (key x ∷ seen) xs))
  ]

  -- A key that was seen before does not come again.
  fresh :
      (k : K) (seen : List K) (xs : List A)
      → contains seen k ≡ true
      → contains (map key (first_of_each seen xs)) k ≡ false
  unfolding first_of_each
  fresh k seen [] h = refl
  fresh k seen (x ∷ xs) h = elim (Bool-cases (contains seen (key x))) [
    | inl again ↦ rw again (fresh k seen xs h)
    | inr new ↦ rw new (
        ground
          (arith, fresh k (key x ∷ seen) xs, (e.same_iff (key x) k).0, ap_contains k (key x) seen))
  ]
    where
      ap_contains : (a b : K) (s : List K) → a ≡ b → contains s a ≡ contains s b
      ap_contains a b s p = λ i. contains s (p i)

  pub first_of_each-Distinct :
      (seen : List K) (xs : List A) → Distinct (map key (first_of_each seen xs))
  unfolding first_of_each
  first_of_each-Distinct seen [] = tt
  first_of_each-Distinct seen (x ∷ xs) = elim (Bool-cases (contains seen (key x))) [
    | inl again ↦ rw again (first_of_each-Distinct seen xs)
    | inr new ↦ rw new (
      fresh (key x) (key x ∷ seen) xs (ground (arith, (e.same_iff (key x) (key x)).1 refl)),
      first_of_each-Distinct (key x ∷ seen) xs,
    )
  ]

  -- Every key is still there, or was seen before.
  pub contains-first_of_each :
      (k : K) (seen : List K) (xs : List A)
      → (contains seen k || contains (map key (first_of_each seen xs)) k)
        ≡ (contains seen k || contains (map key xs) k)
  unfolding first_of_each
  contains-first_of_each k seen [] = refl
  contains-first_of_each k seen (x ∷ xs) = elim (Bool-cases (contains seen (key x))) [
    | inl again ↦ rw again (
        ground (
          arith,
          contains-first_of_each k seen xs,
          (e.same_iff (key x) k).0,
          ap_contains (key x) k seen,
        ))
    | inr new ↦ rw new (ground (arith, contains-first_of_each k (key x ∷ seen) xs))
  ]
    where
      ap_contains : (a b : K) (s : List K) → a ≡ b → contains s a ≡ contains s b
      ap_contains a b s p = λ i. contains s (p i)

  contains-insert :
      (le : A → A → Bool) (k : K) (x : A) (ys : List A)
      → contains (map key (insert le x ys)) k ≡ contains (map key (x ∷ ys)) k
  unfolding insert contains
  contains-insert le k x [] = refl
  contains-insert le k x (y ∷ ys) = ground (arith, contains-insert le k x ys)

  -- Sorting keeps the keys.
  pub contains-sort :
      (le : A → A → Bool) (k : K) (xs : List A)
      → contains (map key (sort le xs)) k ≡ contains (map key xs) k
  unfolding sort contains
  contains-sort le k [] = refl
  contains-sort le k (x ∷ xs) =
      ground (arith, contains-insert le k x (sort le xs), contains-sort le k xs)
