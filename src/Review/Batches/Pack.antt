-- ===== src/Review/Batches/Pack.antt =====
-- The order of the targets that `pack` is given, and the budgets of its batches.
use mathlib.Core.List.{List, [], ◌∷◌, ◌++◌, flatten, append_assoc}
use dovi_ai_server.Base.{
  ℕ, ◌+◌, ◌≤◌, ◌≡◌, refl, ap, ◌∙◌, ◌⊎◌, inl, inr, false, not, ◌&&◌, ◌||◌, arith, ltb, Bool-cases,
  nat_eq, list_eq, triple_eq, length, is_nil, All,
}
use dovi_ai_server.Review.Batches.{Item, Budget, pack_loop, pack}

abbrev pub total_tokens : List Item → ℕ
total_tokens [] = 0
total_tokens (x ∷ xs) = x.tokens + total_tokens xs

abbrev pub total_chars : List Item → ℕ
total_chars [] = 0
total_chars (x ∷ xs) = x.chars + total_chars xs

total_tokens-snoc :
    (xs : List Item) (x : Item) → total_tokens (xs ++ (x ∷ [])) ≡ total_tokens xs + x.tokens
total_tokens-snoc [] x = omega arith
total_tokens-snoc (y ∷ xs) x = omega (arith, total_tokens-snoc xs x)

total_chars-snoc :
    (xs : List Item) (x : Item) → total_chars (xs ++ (x ∷ [])) ≡ total_chars xs + x.chars
total_chars-snoc [] x = omega arith
total_chars-snoc (y ∷ xs) x = omega (arith, total_chars-snoc xs x)

module _ (b : Budget) where
  -- A batch that is not empty, and that holds one target or fits both budgets beside the shared
  -- part of its prompt.
  abbrev pub Fits : ℕ → ℕ → List Item → Type 0
  Fits common char_budget batch =
      (is_nil batch ≡ false)
      × ((length batch ≤ 1)
          ⊎ ((common + total_tokens batch + b.reserve ≤ b.context)
              × (total_chars batch ≤ char_budget)))

  -- The first batch by its own budgets, the others by theirs.
  abbrev pub FitFrom : ℕ → ℕ → List (List Item) → Type 0
  FitFrom common char_budget [] = Unit
  FitFrom common char_budget (batch ∷ batches) =
      Fits common char_budget batch × All (Fits b.common_rest b.char_budget_rest) batches

  flatten-pack_loop :
      (current : List Item) (tokens chars char_budget : ℕ) (xs : List Item)
      → flatten (pack_loop b current tokens chars char_budget xs) ≡ current ++ xs
  unfolding pack_loop flatten
  flatten-pack_loop [] tokens chars char_budget [] = refl
  flatten-pack_loop (c ∷ cs) tokens chars char_budget [] = refl
  flatten-pack_loop current tokens chars char_budget (x ∷ xs) =
      elim (Bool-cases (
        not (is_nil current)
        && (ltb b.context (tokens + x.tokens + b.reserve) || ltb char_budget (chars + x.chars)))) [
          | inl cut ↦ rw cut (
              ap (λ l. current ++ l)
                (flatten-pack_loop (x ∷ []) (b.common_rest + x.tokens) x.chars b.char_budget_rest
                  xs))
          | inr more ↦ rw more (
              flatten-pack_loop (current ++ (x ∷ [])) (tokens + x.tokens) (chars + x.chars)
                char_budget xs
              ∙ append_assoc current (x ∷ []) xs)
        ]

  -- The batch under way: its sums, and that it is short or within the budgets.
  IsOpen : ℕ → ℕ → List Item → ℕ → ℕ → Type 0
  IsOpen common char_budget current tokens chars =
      (tokens ≡ common + total_tokens current)
      × (chars ≡ total_chars current)
      × ((length current ≤ 1) ⊎ ((tokens + b.reserve ≤ b.context) × (chars ≤ char_budget)))

  Fits-closed :
      (common char_budget : ℕ) (current : List Item) (tokens chars : ℕ)
      → IsOpen common char_budget current tokens chars
      → is_nil current ≡ false
      → Fits common char_budget current
  unfolding IsOpen
  Fits-closed common char_budget current tokens chars h n = (n, ground (arith, h.0, h.1, h.2))

  IsOpen-snoc :
      (common char_budget : ℕ) (current : List Item) (tokens chars : ℕ) (x : Item)
      → IsOpen common char_budget current tokens chars
      → (not (is_nil current)
          && (ltb b.context (tokens + x.tokens + b.reserve) || ltb char_budget (chars + x.chars)))
        ≡ false
      → IsOpen common char_budget (current ++ (x ∷ [])) (tokens + x.tokens) (chars + x.chars)
  unfolding IsOpen
  IsOpen-snoc common char_budget [] tokens chars x h e =
      (omega (arith, h.0), omega (arith, h.1), inl (omega arith))
  IsOpen-snoc common char_budget (c ∷ cs) tokens chars x h e = (
    omega (arith, h.0, total_tokens-snoc (c ∷ cs) x),
    omega (arith, h.1, total_chars-snoc (c ∷ cs) x),
    inr (ground arith),
  )

  pack_loop-Fits :
      (common char_budget : ℕ) (current : List Item) (tokens chars : ℕ) (xs : List Item)
      → IsOpen common char_budget current tokens chars
      → FitFrom common char_budget (pack_loop b current tokens chars char_budget xs)
  unfolding pack_loop
  pack_loop-Fits common char_budget [] tokens chars [] h = tt
  pack_loop-Fits common char_budget (c ∷ cs) tokens chars [] h =
      (Fits-closed common char_budget (c ∷ cs) tokens chars h refl, tt)
  pack_loop-Fits common char_budget current tokens chars (x ∷ xs) h =
      elim (Bool-cases (
        not (is_nil current)
        && (ltb b.context (tokens + x.tokens + b.reserve) || ltb char_budget (chars + x.chars)))) [
          | inl cut ↦ rw cut (
            Fits-closed common char_budget current tokens chars h (ground arith),
            All-FitFrom _ (
                pack_loop-Fits b.common_rest b.char_budget_rest (x ∷ []) (b.common_rest + x.tokens)
                  x.chars xs (unfold IsOpen in (omega arith, omega arith, inl (omega arith)))),
          )
          | inr more ↦ rw more (
              pack_loop-Fits common char_budget (current ++ (x ∷ [])) (tokens + x.tokens)
                (chars + x.chars) xs (IsOpen-snoc common char_budget current tokens chars x h more))
        ]
    where
      All-FitFrom :
          (batches : List (List Item))
          → FitFrom b.common_rest b.char_budget_rest batches
          → All (Fits b.common_rest b.char_budget_rest) batches
      All-FitFrom [] h = tt
      All-FitFrom (batch ∷ batches) h = h

  -- The batches of `pack`, one behind the other, are the targets in their order; none is empty; and
  -- a batch of more than one target fits, with the shared part of its prompt, both the token budget
  -- and the character budget, which differ between the first batch and the others.
  pub pack_exact :
      (ordered : List Item)
      → (flatten (pack b ordered) ≡ ordered)
        × FitFrom b.common_first b.char_budget_first (pack b ordered)
  unfolding pack IsOpen
  pack_exact ordered = (
    flatten-pack_loop [] b.common_first 0 b.char_budget_first ordered,
    pack_loop-Fits b.common_first b.char_budget_first [] b.common_first 0 ordered
        (omega arith, refl, inl (omega arith)),
  )
