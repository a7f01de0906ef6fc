-- ===== src/Review/Verify/Split.antt =====
-- The batches of `_split_findings_into_batches`.
use mathlib.Core.List.{List, [], ◌∷◌, ◌++◌, flatten, append_assoc}
use dovi_ai_server.Base.{
  ℕ, ◌+◌, ◌≤◌, ◌≡◌, refl, ap, ◌∙◌, ◌⊎◌, inl, inr, Bool, true, false, not, ◌&&◌, arith, ltb→ge,
  Bool-cases, nat_eq, list_eq, triple_eq, is_nil, keep, All,
}
use dovi_ai_server.Review.Schema.{ReviewComment}
use dovi_ai_server.Review.Model.{Model}
use dovi_ai_server.Review.Verify.{
  Indexed, enumerate, finding_tokens, is_over, split_loop, split_findings_into_batches,
}

module _ (m : Model) (base_tokens context reserve : ℕ) where
  -- Whether a request with this finding alone is within the budget.
  abbrev pub fits_alone : Indexed → Bool
  fits_alone x = not (is_over m base_tokens context reserve (base_tokens + finding_tokens m x))

  abbrev pub total_tokens : List Indexed → ℕ
  total_tokens [] = 0
  total_tokens (x ∷ xs) = finding_tokens m x + total_tokens xs

  -- A batch that can be sent: not empty, and its request fits the context with the reserve.
  abbrev pub IsSendable : List Indexed → Type 0
  IsSendable batch = (is_nil batch ≡ false) × (base_tokens + total_tokens batch + reserve ≤ context)

  total_tokens-snoc :
      (xs : List Indexed) (x : Indexed)
      → total_tokens (xs ++ (x ∷ [])) ≡ total_tokens xs + finding_tokens m x
  total_tokens-snoc [] x = omega arith
  total_tokens-snoc (y ∷ xs) x = omega (arith, total_tokens-snoc xs x)

  abbrev loop : List Indexed → ℕ → List Indexed → List (List Indexed)
  loop = split_loop m base_tokens context reserve

  abbrev over : ℕ → Bool
  over = is_over m base_tokens context reserve

  flatten-split_loop :
      (current : List Indexed) (n : ℕ) (xs : List Indexed)
      → flatten (loop current n xs) ≡ current ++ keep fits_alone xs
  unfolding split_loop flatten keep
  flatten-split_loop [] n [] = refl
  flatten-split_loop (c ∷ cs) n [] = refl
  flatten-split_loop current n (x ∷ xs) =
      elim (Bool-cases (over (base_tokens + finding_tokens m x))) [
        | inl big ↦ rw big (flatten-split_loop current n xs)
        | inr fits ↦ elim (Bool-cases (not (is_nil current) && over (n + finding_tokens m x))) [
          | inl cut ↦
              rw (fits, cut)
                (ap (λ l. current ++ l)
                  (flatten-split_loop (x ∷ []) (base_tokens + finding_tokens m x) xs))
          | inr more ↦
              rw (fits, more)
                (flatten-split_loop (current ++ (x ∷ [])) (n + finding_tokens m x) xs
                  ∙ append_assoc current (x ∷ []) (keep fits_alone xs))
        ]
      ]

  -- The batch under way: its sum is kept, and it is empty or within the budget.
  IsOpen : List Indexed → ℕ → Type 0
  IsOpen current n =
      (n ≡ base_tokens + total_tokens current) × ((is_nil current ≡ true) ⊎ (n + reserve ≤ context))

  not_nil : (current : List Indexed) (x : Indexed) → is_nil (current ++ (x ∷ [])) ≡ false
  not_nil [] x = refl
  not_nil (c ∷ cs) x = refl

  IsOpen-snoc :
      (current : List Indexed) (n : ℕ) (x : Indexed)
      → IsOpen current n
      → over (base_tokens + finding_tokens m x) ≡ false
      → (not (is_nil current) && over (n + finding_tokens m x)) ≡ false
      → IsOpen (current ++ (x ∷ [])) (n + finding_tokens m x)
  unfolding IsOpen
  IsOpen-snoc [] n x h fits more = (omega (arith, h.0), inr (ground (arith, h.0)))
  IsOpen-snoc (c ∷ cs) n x h fits more =
      (omega (arith, h.0, total_tokens-snoc (c ∷ cs) x), inr (ground arith))

  split_loop-IsSendable :
      (current : List Indexed) (n : ℕ) (xs : List Indexed)
      → IsOpen current n
      → All IsSendable (loop current n xs)
  unfolding split_loop IsOpen
  split_loop-IsSendable [] n [] h = tt
  split_loop-IsSendable (c ∷ cs) n [] h = ((refl, closed h), tt)
    where
      closed : IsOpen (c ∷ cs) n → base_tokens + total_tokens (c ∷ cs) + reserve ≤ context
      closed h = ground (arith, h.0)
  split_loop-IsSendable current n (x ∷ xs) h =
      elim (Bool-cases (over (base_tokens + finding_tokens m x))) [
        | inl big ↦ rw big (split_loop-IsSendable current n xs h)
        | inr fits ↦ elim (Bool-cases (not (is_nil current) && over (n + finding_tokens m x))) [
          | inl cut ↦
              rw (fits, cut)
                (
                  sendable current n h cut,
                  split_loop-IsSendable (x ∷ []) (base_tokens + finding_tokens m x) xs
                      (omega arith, inr (ltb→ge _ _ fits)),
                )
          | inr more ↦
              rw (fits, more)
                (split_loop-IsSendable (current ++ (x ∷ [])) (n + finding_tokens m x) xs
                  (IsOpen-snoc current n x h fits more))
        ]
      ]
    where
      sendable :
          (current : List Indexed) (n : ℕ)
          → IsOpen current n
          → (not (is_nil current) && over (n + finding_tokens m x)) ≡ true
          → IsSendable current
      sendable [] n h cut = absurd (ground arith)
      sendable (c ∷ cs) n h cut = (refl, ground (arith, h.0))

  -- The verification batches, one behind the other, are the numbered findings in order, less those
  -- that are over the budget alone; every batch holds a finding, and the tokens of the diff and of
  -- its findings leave the reserve free in the context.
  pub split_findings_into_batches_exact :
      (reviews : List ReviewComment)
      → let batches = split_findings_into_batches m base_tokens context reserve reviews in
        (flatten batches ≡ keep fits_alone (enumerate 0 reviews)) × All IsSendable batches
  unfolding split_findings_into_batches IsOpen
  split_findings_into_batches_exact reviews = (
    flatten-split_loop [] base_tokens (enumerate 0 reviews),
    split_loop-IsSendable [] base_tokens (enumerate 0 reviews) (omega arith, inl refl),
  )
