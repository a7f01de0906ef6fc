-- ===== src/Comment/Answer/Job.antt =====
-- The result of `CommentAnswerPipeline.run`.
use dovi_ai_server.Base.{
  ℕ, ◌≡◌, refl, inl, inr, Bool, true, false, Option, none, some, Bool-cases, ◌==◌, list_beq, nat_eq,
  list_eq, triple_eq, is_nil, Text, codes, strip,
}
use dovi_ai_server.Comment.Schema.{
  CommentAnswerRequestedEvent, CommentResult, answered, not_answered,
}
use dovi_ai_server.Review.Model.{Messages, Model, Settings, Session}
use dovi_ai_server.Comment.Answer.{
  TextAnswer, replied, timed_out, crashed, result_of, assemble_within_budget, ask, run,
}

abbrev pub is_none {ℓ} : {A : Type ℓ} → Option A → Bool
is_none none = true
is_none (some a) = false

module _ (m : Model) (o : Settings) (system_prompt : Text)
    (event : CommentAnswerRequestedEvent) where
  -- A result of the event that was given; an answer is not empty, and a failure is said to be an
  -- overflow of the context exactly when no prompt was assembled.
  abbrev pub IsResult : Option Messages → CommentResult → Type 0
  IsResult prompt (answered e) =
      (e.comment_job_id ≡ event.comment_job_id) × (is_nil e.answer ≡ false)
  IsResult prompt (not_answered e) =
      (e.comment_job_id ≡ event.comment_job_id)
      × ((e.reason == codes "context_overflow") ≡ is_none prompt)

  result_of-IsResult :
      (q : Messages) (a : TextAnswer) → IsResult (some q) (result_of m o system_prompt event a)
  unfolding result_of list_beq
  result_of-IsResult q (replied text) = elim (Bool-cases (is_nil (strip text))) [
    | inl blank ↦ rw blank (refl, refl)
    | inr said ↦ rw said (refl, said)
  ]
  result_of-IsResult q timed_out = (refl, refl)
  result_of-IsResult q crashed = (refl, refl)

  module _ (generate_text : Messages → ℕ → m.State → TextAnswer × m.State) where
    ask-IsResult :
        (r : Option Messages × Session m)
        → IsResult r.0 (ask m o system_prompt event generate_text r).0
    unfolding list_beq
    ask-IsResult (none, s) = (refl, refl)
    ask-IsResult (some q, (st, cached)) = result_of-IsResult q (generate_text q o.max_tokens st).0

    -- A result of the answer pipeline names the job of its event; an answer is not empty; and a
    -- failure gives the overflow of the context as its reason exactly when no prompt was assembled.
    pub run-IsResult :
        (s : Session m)
        → IsResult
            (assemble_within_budget m o system_prompt event s).0
            (run m o system_prompt event generate_text s).0
    unfolding run
    run-IsResult s = ask-IsResult (assemble_within_budget m o system_prompt event s)
