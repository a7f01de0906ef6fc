-- ===== src/Review/Generate/Calls.antt =====
-- The requests that `_generate_batch` sends.
use dovi_ai_server.Base.{
  ℕ, zero, suc, ◌+◌, ◌≤◌, ◌≡◌, refl, Option, none, some, arith, nat_eq, list_eq, triple_eq,
}
use dovi_ai_server.Review.Schema.{ReviewModelOutput, FailureReason, parse_error, server_error}
use dovi_ai_server.Review.Model.{
  Messages, Model, Settings, Session, Answer, answered, timed_out, truncated, invalid, crashed,
}
use dovi_ai_server.Llm.Partial.{Decoders, PartialRecoveryResult, parse_partial_review_output}
use dovi_ai_server.Review.Generate.{
  Generated, generated, retry_shortened, send_shortened, of_retry, on_answer, generate_loop,
  generate_batch,
}

module _ (m : Model) (d : Decoders) (o : Settings)
    (assemble : Session m → Option Messages × Session m) where
  -- A count of requests that `generate` raises by one and `assemble` leaves alone.
  module _ (calls : m.State → ℕ)
      (one_call : (q : Messages) (limit : Option ℕ) (st : m.State)
        → calls (m.generate q limit st).1 ≡ suc (calls st))
      (assemble_calls : (s : Session m) → calls (assemble s).1.0 ≡ calls s.0) where
    retry-calls :
        (r : Option Messages × Session m)
        → calls (send_shortened m d o assemble r).1.0 ≤ 1 + calls r.1.0
    retry-calls (none, s) = omega arith
    retry-calls (some q, (st, cached)) =
        omega (arith, one_call q (some o.truncation_retry_max_findings) st)

    of_retry-calls :
        (r : Option (ReviewModelOutput × Messages) × Session m)
        → calls (of_retry m d o assemble r).1.0 ≡ calls r.1.0
    of_retry-calls (none, s) = refl
    of_retry-calls (some (output, q), s) = refl

    cut-calls :
        (s : Session m) (messages : Messages) (found : Option PartialRecoveryResult)
        → calls
            (elim found as (λ x. Generated × Session m) [
              | some recovered ↦ (generated recovered.output messages, s)
              | none ↦ of_retry m d o assemble (retry_shortened m d o assemble s)
            ]).1.0
          ≤ 1 + calls s.0
    unfolding retry_shortened
    cut-calls s messages (some recovered) = omega arith
    cut-calls s messages none = omega (
      arith,
      of_retry-calls (retry_shortened m d o assemble s),
      retry-calls (assemble s),
      assemble_calls s,
    )

    turn-calls :
        (again : FailureReason → Session m → Generated × Session m) (k : ℕ)
        → ((r : FailureReason) (t : Session m) → calls (again r t).1.0 ≤ k + 1 + calls t.0)
        → (messages : Messages) (a : Answer) (s : Session m)
        → calls (on_answer m d o assemble again messages a s).1.0 ≤ k + 1 + calls s.0
    unfolding on_answer
    turn-calls again k h messages (answered output) s = omega arith
    turn-calls again k h messages timed_out s = omega arith
    turn-calls again k h messages (truncated raw) s =
        omega (arith, cut-calls s messages (parse_partial_review_output d raw))
    turn-calls again k h messages invalid s = h parse_error s
    turn-calls again k h messages crashed s = h server_error s

    loop-calls :
        (n : ℕ) (reason : FailureReason) (messages : Messages) (s : Session m)
        → calls (generate_loop m d o assemble n reason messages s).1.0 ≤ n + 1 + calls s.0
    unfolding generate_loop
    loop-calls zero reason messages s = omega arith
    loop-calls (suc n) reason messages (st, cached) = omega (
      arith,
      turn-calls (λ r t. generate_loop m d o assemble n r messages t) n
          (λ r t. loop-calls n r messages t) messages (m.generate messages none st).0
          ((m.generate messages none st).1, cached),
      one_call messages none st,
    )

    -- `_generate_batch` sends at most three requests: a count of the client that `generate`
    -- raises by one, and that the assembly of the shortened prompt leaves alone, grows by three
    -- at most.
    pub generate_batch-calls :
        (messages : Messages) (s : Session m)
        → calls (generate_batch m d o assemble messages s).1.0 ≤ 3 + calls s.0
    unfolding generate_batch
    generate_batch-calls messages s = loop-calls 2 server_error messages s
