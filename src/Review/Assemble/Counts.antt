-- ===== src/Review/Assemble/Counts.antt =====
-- The token counts that `_assemble_within_budget` asks the model server for.
use dovi_ai_server.Base.{
  ℕ, zero, suc, ◌+◌, ◌-◌, ◌*◌, ◌≤◌, ◌≡◌, refl, ◌∙◌, inl, inr, Bool, Option, none, some, List, [],
  ◌∷◌, arith, leb, Bool-cases, nat_eq, list_eq, triple_eq, Text,
}
use dovi_ai_server.Review.Schema.{ReviewRequestedEvent, ReviewTarget}
use dovi_ai_server.Review.Render.{ChunkSearchResult}
use dovi_ai_server.Review.Model.{
  Model, Settings, Session, count_tokens, resolve_max_context, resolved,
}
use dovi_ai_server.Review.Prompt.{Prompts}
use dovi_ai_server.Review.Assemble.{
  Step, reduction_steps, Overrides, no_overrides, section_of, sent_text, reduced_char_limit,
  diff_floor_chars, reserve, original_diff, build, next_attempt, assemble_loop,
  assemble_within_budget, max_attempts,
}

-- A number that each token count raises by one and that asking for the context size leaves alone.
module _ (m : Model) (asked : m.State → ℕ)
    (one_more : (text : Text) (st : m.State) → asked (m.ask_tokens text st).1 ≡ suc (asked st))
    (window_free : (st : m.State) → asked (m.get_context_window st).1 ≡ asked st) where
  count_tokens-asked :
      (text : Text) (s : Session m) → asked (count_tokens m text s).1.0 ≡ suc (asked s.0)
  unfolding count_tokens
  count_tokens-asked text (st, cached) = one_more text st

  reduced_char_limit-asked :
      (text : Text) (overshoot : ℕ) (s : Session m)
      → asked (reduced_char_limit m text overshoot s).1.0 ≡ suc (asked s.0)
  unfolding reduced_char_limit
  reduced_char_limit-asked text overshoot s = count_tokens-asked text s

  resolved-asked : (o : Settings) (r : Option ℕ × m.State) → asked (resolved m o r).1.0 ≡ asked r.1
  resolved-asked o (some actual, st) = refl
  resolved-asked o (none, st) = refl

  resolve_max_context-asked :
      (o : Settings) (s : Session m) → asked (resolve_max_context m o s).1.0 ≡ asked s.0
  unfolding resolve_max_context
  resolve_max_context-asked o (st, some n) = refl
  resolve_max_context-asked o (st, none) =
      resolved-asked o (m.get_context_window st) ∙ window_free st

  module _ (p : Prompts) (event : ReviewRequestedEvent) (targets : List ReviewTarget)
      (related : Text → List ChunkSearchResult) (o : Settings)
      (api_spec_context official_docs_context extra_user_suffix : Text)
      (include_shared : Bool) where
    diff_floor_chars-asked :
        (s : Session m) → asked (diff_floor_chars m p event targets related s).1.0 ≡ suc (asked s.0)
    unfolding diff_floor_chars
    diff_floor_chars-asked s = count_tokens-asked (original_diff m p event targets related) s

    abbrev text_under : Overrides → Text
    text_under overrides = sent_text (
        build m p event targets related o api_spec_context official_docs_context extra_user_suffix
          include_shared overrides)

    abbrev section_under : Step → Overrides → Text
    section_under step overrides = section_of step (
        build m p event targets related o api_spec_context official_docs_context extra_user_suffix
          include_shared overrides)

    abbrev overshoot : ℕ → Overrides → Session m → ℕ
    overshoot max_context overrides s =
        (count_tokens m (text_under overrides) s).0 + reserve o - max_context

    abbrev after : ℕ → ℕ → Step → List Step → Overrides → Session m → List Step × Overrides
    after max_context diff_floor step later overrides s =
        next_attempt m p event targets related o api_spec_context official_docs_context
          extra_user_suffix include_shared max_context diff_floor step later overrides
          (section_under step overrides)
          (reduced_char_limit m (section_under step overrides) (overshoot max_context overrides s)
            (count_tokens m (text_under overrides) s).1).0

    assemble_loop-asked :
        (max_context diff_floor attempts : ℕ) (steps : List Step) (overrides : Overrides)
        (s : Session m)
        → asked
            (assemble_loop m p event targets related o api_spec_context official_docs_context
              extra_user_suffix include_shared max_context diff_floor attempts steps overrides
              s).1.0
          ≤ attempts * 2 + asked s.0
    unfolding assemble_loop
    assemble_loop-asked max_context diff_floor zero steps overrides s = omega arith
    assemble_loop-asked max_context diff_floor (suc attempts) [] overrides s =
        omega (arith, count_tokens-asked (text_under overrides) s)
    assemble_loop-asked max_context diff_floor (suc attempts) (step ∷ later) overrides s =
        elim (Bool-cases
          (leb ((count_tokens m (text_under overrides) s).0 + reserve o) max_context)) [
            | inl fits ↦ rw fits (omega (arith, count_tokens-asked (text_under overrides) s))
            | inr over ↦ rw over (
                omega (
                  arith,
                  count_tokens-asked (text_under overrides) s,
                  reduced_char_limit-asked (section_under step overrides)
                      (overshoot max_context overrides s)
                      (count_tokens m (text_under overrides) s).1,
                  assemble_loop-asked max_context diff_floor attempts
                      (after max_context diff_floor step later overrides s).0
                      (after max_context diff_floor step later overrides s).1
                      (reduced_char_limit m (section_under step overrides)
                        (overshoot max_context overrides s)
                        (count_tokens m (text_under overrides) s).1).1,
                ))
          ]

    -- For any number of the state of the model server that each request for a token count raises by
    -- one, and a request for the context size leaves alone, `_assemble_within_budget` raises it by
    -- at most 33, whatever the server answers.
    pub assemble_within_budget-asked :
        (s : Session m)
        → asked
            (assemble_within_budget m p event targets related o api_spec_context
              official_docs_context extra_user_suffix include_shared s).1.0
          ≤ 33 + asked s.0
    unfolding assemble_within_budget
    assemble_within_budget-asked s = omega (
      arith,
      resolve_max_context-asked o s,
      diff_floor_chars-asked (resolve_max_context m o s).1,
      assemble_loop-asked (resolve_max_context m o s).0
          (diff_floor_chars m p event targets related (resolve_max_context m o s).1).0 max_attempts
          reduction_steps no_overrides
          (diff_floor_chars m p event targets related (resolve_max_context m o s).1).1,
    )
