-- ===== src/Tests/Comments.antt =====
-- Answers to comments.
use mathlib.Core.List.{List, [], ◌∷◌}
use dovi_ai_server.Comment.Answer.Job.{IsResult, run-IsResult}
use dovi_ai_server.Base.{ℕ, Text, codes, Option, none, some, refl}
use dovi_ai_server.Review.Model.{Messages, resolve_max_context}
use dovi_ai_server.Comment.Schema.{CommentAnswerRequestedEvent, CommentResult, answered}
use dovi_ai_server.Comment.Answer.{
  run, TextAnswer, replied, diff_hunk_floor_chars, assemble_within_budget,
}
use dovi_ai_server.Comment.Answer.Thread.{FitsThread, assemble_within_budget-FitsThread}
use dovi_ai_server.Consumer.{Outcome, done, lost, World}
use dovi_ai_server.Consumer.Comment.{handle}
use dovi_ai_server.Consumer.Comment.Once.{Returns, IsDone, handle-IsDone}
use dovi_ai_server.Tests.Prompts.{server, settings}

abbrev reply : CommentAnswerRequestedEvent
reply = record {
  comment_job_id = codes "c1";
  repository_id = 1;
  pr_number = 2;
  path = codes "a.py";
  line = some 3;
  diff_hunk = codes "@@ -1 +1 @@\n+a";
  thread =
      record { comment_id = 7; author = codes "bot"; body = codes "leak"; created_at = codes "t0" }
      ∷ record { comment_id = 8; author = codes "me"; body = codes "why?"; created_at = codes "t1" }
      ∷ [];
}

assemble_within_budget-FitsThread_example :
    FitsThread server settings
      (codes "s")
      reply
      (resolve_max_context server settings (0, none)).0
      (diff_hunk_floor_chars server settings
        (codes "s")
        reply
        (resolve_max_context server settings (0, none)).1).0
      (assemble_within_budget server settings (codes "s") reply (0, none))
assemble_within_budget-FitsThread_example =
    assemble_within_budget-FitsThread server settings (codes "s") reply (0, none)

abbrev generate_text : Messages → ℕ → ℕ → TextAnswer × ℕ
generate_text q limit n = (replied (codes " because "), n)

run-IsResult_example :
    IsResult server settings
      (codes "s")
      reply
      (assemble_within_budget server settings (codes "s") reply (0, none)).0
      (run server settings (codes "s") reply generate_text (0, none)).0
run-IsResult_example = run-IsResult server settings (codes "s") reply generate_text (0, none)

abbrev decode : Text → Option CommentAnswerRequestedEvent
decode raw = some reply

abbrev answer : CommentAnswerRequestedEvent → CommentResult
answer event = answered (record { comment_job_id = event.comment_job_id; answer = codes "because" })

abbrev world : List Outcome → World CommentResult
world outcomes = record {
  redis = λ key. none;
  attempts = λ key. 0;
  published = [];
  saved = [];
  committed = 0;
  outcomes = outcomes;
}

handle-IsDone_example :
    Returns
      (handle decode answer (codes "m") (world (done ∷ done ∷ lost ∷ [])))
      (λ u. IsDone decode answer [] (codes "c1") (answer reply))
handle-IsDone_example =
    handle-IsDone decode answer (codes "m") reply (world (done ∷ done ∷ lost ∷ [])) refl refl
