-- ===== src/Review/Assemble/Fits.antt =====
-- The prompts that `_assemble_within_budget` returns.
use dovi_ai_server.Base.{
  ℕ, zero, suc, ◌+◌, ◌≤◌, max, ◌≡◌, refl, inl, inr, Bool, Option, none, some, List, [], ◌∷◌, arith,
  leb, leb→le, Bool-cases, nat_eq, list_eq, triple_eq, length, Text,
}
use dovi_ai_server.Review.Schema.{ReviewRequestedEvent, ReviewTarget}
use dovi_ai_server.Review.Render.{ChunkSearchResult}
use dovi_ai_server.Review.Model.{Model, Settings, Session, count_tokens, resolve_max_context}
use dovi_ai_server.Review.Prompt.{Prompts, Built}
use dovi_ai_server.Review.Assemble.{
  Step, official_docs, api_spec, context, pr_body, diff, reduction_steps, Overrides, no_overrides,
  override, floor_of, sent_text, diff_floor_chars, build, reserve, next_attempt, assemble_loop,
  assemble_within_budget, max_attempts,
}

-- A limit that is set is not below the floor.
abbrev pub IsAtLeast : ℕ → Option ℕ → Type 0
IsAtLeast low none = Unit
IsAtLeast low (some limit) = low ≤ limit

override-IsAtLeast :
    (step : Step) (diff_floor reduced : ℕ) (o : Overrides)
    → IsAtLeast diff_floor o.diff_max
    → IsAtLeast diff_floor (override step (max (floor_of step diff_floor) reduced) o).diff_max
override-IsAtLeast official_docs diff_floor reduced o h = h
override-IsAtLeast api_spec diff_floor reduced o h = h
override-IsAtLeast context diff_floor reduced o h = h
override-IsAtLeast pr_body diff_floor reduced o h = h
override-IsAtLeast diff diff_floor reduced o h = omega arith

module _ (m : Model) (p : Prompts) (event : ReviewRequestedEvent) (targets : List ReviewTarget)
    (related : Text → List ChunkSearchResult) (o : Settings)
    (api_spec_context official_docs_context extra_user_suffix : Text) (include_shared : Bool) where
  next_attempt-IsAtLeast :
      (max_context diff_floor : ℕ) (step : Step) (later : List Step) (overrides : Overrides)
      (current : Text) (reduced : ℕ)
      → IsAtLeast diff_floor overrides.diff_max
      → IsAtLeast diff_floor
          (next_attempt m p event targets related o api_spec_context official_docs_context
            extra_user_suffix include_shared max_context diff_floor step later overrides current
            reduced).1.diff_max
  unfolding next_attempt
  next_attempt-IsAtLeast max_context diff_floor step later overrides current reduced h =
      elim (Bool-cases (leb (length current) (max (floor_of step diff_floor) reduced))) [
        | inl kept ↦ rw kept h
        | inr cut ↦ rw cut (override-IsAtLeast step diff_floor reduced overrides h)
      ]

  -- A prompt that is returned: built under limits of which that of the diff, if there is one, is not
  -- below the floor, with tokens, by the last count, that leave room for the answer and the margin.
  abbrev pub Fits : ℕ → ℕ → Option Built × Session m → Type 0
  Fits max_context diff_floor (none, s') = Unit
  Fits max_context diff_floor (some built, s') =
      (overrides : Overrides) × (s : Session m) × (built
        ≡ build m p event targets related o api_spec_context official_docs_context extra_user_suffix
            include_shared overrides)
      × IsAtLeast diff_floor overrides.diff_max
      × ((count_tokens m (sent_text built) s).0 + reserve o ≤ max_context)
      × ((count_tokens m (sent_text built) s).1 ≡ s')

  abbrev counted : Overrides → Session m → ℕ × Session m
  counted overrides s =
      let built =
        build m p event targets related o api_spec_context official_docs_context extra_user_suffix
          include_shared overrides in
      let (actual, s') = count_tokens m (sent_text built) s in (actual + reserve o, s')

  assemble_loop-Fits :
      (max_context diff_floor attempts : ℕ) (steps : List Step) (overrides : Overrides)
      (s : Session m)
      → IsAtLeast diff_floor overrides.diff_max
      → Fits max_context diff_floor (
          assemble_loop m p event targets related o api_spec_context official_docs_context
            extra_user_suffix include_shared max_context diff_floor attempts steps overrides s)
  unfolding assemble_loop
  assemble_loop-Fits max_context diff_floor zero steps overrides s h = tt
  assemble_loop-Fits max_context diff_floor (suc attempts) [] overrides s h =
      elim (Bool-cases (leb (counted overrides s).0 max_context)) [
        | inl fits ↦
            rw fits (overrides, s, refl, h, leb→le (counted overrides s).0 max_context fits, refl)
        | inr over ↦ rw over tt
      ]
  assemble_loop-Fits max_context diff_floor (suc attempts) (step ∷ later) overrides s h =
      elim (Bool-cases (leb (counted overrides s).0 max_context)) [
        | inl fits ↦
            rw fits (overrides, s, refl, h, leb→le (counted overrides s).0 max_context fits, refl)
        | inr over ↦ rw over (
            assemble_loop-Fits max_context diff_floor attempts _ _ _
              (next_attempt-IsAtLeast max_context diff_floor step later overrides _ _ h))
      ]

  -- A prompt that `_assemble_within_budget` returns is built by `_build_messages` under limits of
  -- its sections of which that of the diff, if the reduction has set one, is not below the floor;
  -- and the last count of the tokens of the prompt, with the tokens of the answer and the margin, is within the
  -- context size that is resolved at the start.
  pub assemble_within_budget-Fits :
      (s : Session m)
      → Fits
          (resolve_max_context m o s).0
          (diff_floor_chars m p event targets related (resolve_max_context m o s).1).0
          (assemble_within_budget m p event targets related o api_spec_context official_docs_context
            extra_user_suffix include_shared s)
  unfolding assemble_within_budget
  assemble_within_budget-Fits s =
      assemble_loop-Fits (resolve_max_context m o s).0
        (diff_floor_chars m p event targets related (resolve_max_context m o s).1).0 max_attempts
        reduction_steps no_overrides
        (diff_floor_chars m p event targets related (resolve_max_context m o s).1).1 tt
