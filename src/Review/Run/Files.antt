-- ===== src/Review/Run/Files.antt =====
-- The files of a run, from the pieces of the targets to the notes for the user.
use dovi_ai_server.Base.{ℕ, Bool, true, Option, List, map, nat_eq, list_eq, triple_eq, Text}
use dovi_ai_server.Review.Schema.{ChangedFile, ReviewRequestedEvent, ReviewTarget}
use dovi_ai_server.Review.Model.{Messages, Model, Session, resolve_max_context}
use dovi_ai_server.Review.Batches.Omitted.{all_pieces}
use dovi_ai_server.Review.Progress.{Gathered, Setup, Progress, common_for}
use dovi_ai_server.Review.Progress.Turns.{Turn, turns}
use dovi_ai_server.Review.Run.{review_batches, split}
use dovi_ai_server.Llm.Partial.{Decoders}

module _ (m : Model) (d : Decoders) (setup : Setup)
    (summary_llm : Option (Messages → m.State → Option Text × m.State))
    (build_context_chunks : ChangedFile → List Text) (found : Gathered)
    (event : ReviewRequestedEvent) where
  abbrev pub shared_chars : Session m → ℕ
  shared_chars s =
      (common_for m setup event found true (resolve_max_context m setup.settings s).1).0.1

  abbrev pub pieces : List ReviewTarget → Session m → List ReviewTarget
  pieces targets s =
      all_pieces m setup.settings setup.prompts.annotate_diff_lines found.related_context
        (shared_chars s) targets

  abbrev pub progress : List ReviewTarget → Session m → Progress
  progress targets s =
      (review_batches m d setup summary_llm build_context_chunks found event
        (split m d setup summary_llm build_context_chunks found event targets s)).0

  -- The files of the batches over the limit of batches.
  abbrev pub left_over : List ReviewTarget → Session m → List Text
  left_over targets s = (split m d setup summary_llm build_context_chunks found event targets s).0.1

  abbrev pub all_turns : List ReviewTarget → Session m → List Turn
  all_turns targets s =
      let r = split m d setup summary_llm build_context_chunks found event targets s in
      turns m setup event found d true (map (map (λ x. x.target)) r.0.0) r.1
