-- ===== src/Comment/Answer/Thread.antt =====
-- The prompts of `CommentAnswerPipeline._assemble_within_budget`.
use mathlib.Core.Path.{subst}
use dovi_ai_server.Base.{
  ℕ, zero, suc, ◌+◌, ◌-◌, ◌≤◌, max, ◌≡◌, refl, ap, inl, inr, true, Option, none, some, List, [],
  ◌∷◌, arith, leb, leb→le, Bool-cases, nat_eq, list_eq, triple_eq, length, drop, Text,
}
use dovi_ai_server.Comment.Schema.{ThreadComment, CommentAnswerRequestedEvent}
use dovi_ai_server.Review.Model.{
  Messages, Model, Settings, Session, count_tokens, resolve_max_context, safety_margin_tokens,
}
use dovi_ai_server.Review.Prompt.{shrunk}
use dovi_ai_server.Review.Assemble.{reduced_char_limit}
use dovi_ai_server.Comment.Answer.{
  build_messages, sent_text, diff_hunk_floor_chars, has_room, assemble_loop, assemble_within_budget,
  max_attempts,
}

-- A limit of the diff hunk is set only when no comment of the thread is left, and not below the
-- floor.
abbrev pub IsLast : ℕ → List ThreadComment → Option ℕ → Type 0
IsLast diff_hunk_floor thread none = Unit
IsLast diff_hunk_floor thread (some limit) = (thread ≡ []) × (diff_hunk_floor ≤ limit)

drop-next :
    {A : Type 0} (x : A) (xs : List A) (n : ℕ) (ys : List A)
    → x ∷ xs ≡ drop n ys
    → xs ≡ drop (suc n) ys
drop-next x xs zero [] e = cc
drop-next x xs zero (y ∷ ys) e = cc
drop-next x xs (suc n) [] e = cc
drop-next x xs (suc n) (y ∷ ys) e = drop-next x xs n ys e

module _ (m : Model) (o : Settings) (system_prompt : Text)
    (event : CommentAnswerRequestedEvent) where
  -- A prompt that is returned: of the last comments of the thread, within the budget by the last
  -- count of its tokens.
  abbrev pub FitsThread : ℕ → ℕ → Option Messages × Session m → Type 0
  FitsThread max_context diff_hunk_floor (none, s') = Unit
  FitsThread max_context diff_hunk_floor (some messages, s') =
      (dropped : ℕ) × (limit : Option ℕ) × (s : Session m) × (messages
        ≡ build_messages system_prompt event (drop dropped event.thread) limit)
      × IsLast diff_hunk_floor (drop dropped event.thread) limit
      × ((count_tokens m (sent_text messages) s).0 + o.max_tokens + safety_margin_tokens
          ≤ max_context)
      × ((count_tokens m (sent_text messages) s).1 ≡ s')

  abbrev counted : List ThreadComment → Option ℕ → Session m → ℕ
  counted thread limit s =
      (count_tokens m (sent_text (build_messages system_prompt event thread limit)) s).0

  abbrev next_limit : ℕ → ℕ → Option ℕ → Session m → ℕ
  next_limit max_context diff_hunk_floor limit s =
      max diff_hunk_floor
        (reduced_char_limit m (shrunk limit event.diff_hunk)
          (counted [] limit s + o.max_tokens + safety_margin_tokens - max_context)
          (count_tokens m (sent_text (build_messages system_prompt event [] limit)) s).1).0

  returned :
      (max_context diff_hunk_floor dropped : ℕ) (thread : List ThreadComment) (limit : Option ℕ)
      (s : Session m)
      → thread ≡ drop dropped event.thread
      → IsLast diff_hunk_floor thread limit
      → has_room o max_context (counted thread limit s) ≡ true
      → let messages = build_messages system_prompt event thread limit in
        FitsThread max_context diff_hunk_floor
          (some messages, (count_tokens m (sent_text messages) s).1)
  returned max_context diff_hunk_floor dropped thread limit s e h room = (
    dropped,
    limit,
    s,
    ap (λ t. build_messages system_prompt event t limit) e,
    subst (λ t. IsLast diff_hunk_floor t limit) e h,
    leb→le _ max_context room,
    refl,
  )

  assemble_loop-FitsThread :
      (max_context diff_hunk_floor attempts dropped : ℕ) (thread : List ThreadComment)
      (limit : Option ℕ) (s : Session m)
      → thread ≡ drop dropped event.thread
      → IsLast diff_hunk_floor thread limit
      → FitsThread max_context diff_hunk_floor (
          assemble_loop m o system_prompt event max_context diff_hunk_floor attempts thread limit s)
  unfolding assemble_loop
  assemble_loop-FitsThread max_context diff_hunk_floor zero dropped thread limit s e h = tt
  assemble_loop-FitsThread max_context diff_hunk_floor (suc attempts) dropped (c ∷ cs) (some n) s e
        h =
      absurd (cons_nil h.0)
    where
      cons_nil : ◌≡◌ {A = List ThreadComment} (c ∷ cs) [] → ⊥
      cons_nil p = cc
  assemble_loop-FitsThread max_context diff_hunk_floor (suc attempts) dropped (c ∷ cs) none s e h =
      elim (Bool-cases (has_room o max_context (counted (c ∷ cs) none s))) [
        | inl room ↦ rw room (returned max_context diff_hunk_floor dropped (c ∷ cs) none s e h room)
        | inr over ↦ rw over (
            assemble_loop-FitsThread max_context diff_hunk_floor attempts (suc dropped) cs none _
              (drop-next c cs dropped event.thread e) tt)
      ]
  assemble_loop-FitsThread max_context diff_hunk_floor (suc attempts) dropped [] limit s e h =
      elim (Bool-cases (has_room o max_context (counted [] limit s))) [
        | inl room ↦ rw room (returned max_context diff_hunk_floor dropped [] limit s e h room)
        | inr over ↦
            elim (Bool-cases (
              leb (length (shrunk limit event.diff_hunk))
                (next_limit max_context diff_hunk_floor limit s))) [
                  | inl stuck ↦ rw (over, stuck) tt
                  | inr cut ↦
                      rw (over, cut)
                        (assemble_loop-FitsThread max_context diff_hunk_floor attempts dropped []
                          (some (next_limit max_context diff_hunk_floor limit s)) _ e
                          (refl, omega arith))
                ]
      ]

  -- A prompt that the answer pipeline assembles is `_build_messages` of the last comments of the
  -- thread; a limit is set for its diff hunk only when no comment of the thread is left in it, and
  -- that limit is not below the floor; and the last count of its tokens, with the tokens of the answer and
  -- the margin, is within the context size that is resolved at the start.
  pub assemble_within_budget-FitsThread :
      (s : Session m)
      → FitsThread
          (resolve_max_context m o s).0
          (diff_hunk_floor_chars m o system_prompt event (resolve_max_context m o s).1).0
          (assemble_within_budget m o system_prompt event s)
  unfolding assemble_within_budget
  assemble_within_budget-FitsThread s =
      assemble_loop-FitsThread (resolve_max_context m o s).0
        (diff_hunk_floor_chars m o system_prompt event (resolve_max_context m o s).1).0
        (max_attempts m o system_prompt event) 0 event.thread none
        (diff_hunk_floor_chars m o system_prompt event (resolve_max_context m o s).1).1 refl tt
