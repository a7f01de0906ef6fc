-- ===== src/Lib.antt =====
-- Dovi AI server: a service that reviews pull requests with a language model. Kafka consumers take
-- requests, Redis keeps a job from being done twice, the review pipeline cuts the diff into batches
-- that fit the model's context, asks for findings, verifies and filters them, and producers publish
-- the result. A sandbox probe builds and starts the changed program and reports a verdict.
--
-- Which file models which part; functions keep their names, without a leading underscore:
--   Review/Schema     app/review/schema.py, the events and values
--   Review/Diff       app/review/diff.py: analyze, _should_skip, _split_hunks
--   Review/Header     the hunk headers of app/review/hunk_split.py and diff_lines.py, read and printed
--   Review/Hunk       app/review/hunk_split.py: split_hunk, split_oversized_target
--   Review/Lines      app/review/diff_lines.py: annotate_hunk, visible_right_lines and the line check
--   Review/Filter     app/review/result_filter.py: filter_reviews, summarize_minor
--   Review/Budget     app/review/pipeline.py: _shrink_to_char_limit, _truncate_diff_blocks_detailed
--   Review/Chunks     app/review/chunking.py: extract_context_chunks, merge_small_chunks
--   Review/Context    app/review/context.py: build_context and the tests on paths
--   Review/Risk       app/review/risk_hints.py: build_risk_hint
--   Review/Model      app/review/pipeline.py: _count_tokens, _resolve_max_context; app/llm/tokens.py
--   Review/Render     app/review/pipeline.py: _render_target, _is_low_priority_path
--   Review/Batches    app/review/pipeline.py: _split_targets_into_batches with pack
--   Review/Generate   app/review/pipeline.py: _generate_batch, _retry_shortened
--   Review/Verify     app/review/pipeline.py: _verify, _split_findings_into_batches
--   Review/Track      app/review/pipeline.py: _verify_across_batches
--   Review/Prompt     app/review/pipeline.py: _build_messages, _build_pr_description_section
--   Review/Assemble   app/review/pipeline.py: _assemble_within_budget
--   Review/Notes      app/review/pipeline.py: _short_names, _format_file_note
--   Review/Progress   app/review/pipeline.py: the loop of run over the batches
--   Review/Told       app/review/pipeline.py: the notes on files, _reduce_summary
--   Review/Run        app/review/pipeline.py: run
--   Review/Summary    app/review/pipeline.py: _build_summary
--   Llm/Partial       app/llm/output_parser.py: parse_partial_review_output and its scanners
--   Consumer          app/review/dedup.py, the loop of the consumers, and their calls with outcomes
--   Consumer/Review   app/kafka/consumer.py: ReviewRequestConsumer
--   Comment           app/comment_answer/pipeline.py, schema.py: the answers to comments
--   Consumer/Comment  app/comment_answer/consumer.py: CommentAnswerConsumer
--   Consumer/Probe    app/sandbox_probe/consumer.py: SandboxProbeConsumer
--   Consumer/Superseded  app/review/superseded.py: PrHeadTracker
--   Sandbox           app/sandbox_probe/schema.py, verdict.py: aggregate, cap_completed_event
--   Sandbox/Env       app/sandbox_probe/repo_inspect.py, sidecars.py: classify_env,
--     build_probe_env, sidecar_resolver
--   Evaluation        app/evaluation/context_effect/metrics.py, schema.py: compute_metrics,
--     classify_finding, pending_judgments
--   Evaluation/Repository  app/evaluation/repository.py, models.py:
--     SqlAlchemyEvaluationRepository
--   Base              shared helpers: Boolean tests, lists, texts, sorting, paths
--   Tests             the theorems at concrete inputs
--
-- A text is the list of its code points. Numbers are natural numbers; a budget that may fall below
-- zero in Python is written as a sum on the other side of the comparison. Confidences, floats in
-- [0, 1], are whole numbers of units of 2^-1074. Upper and lower case, and the digits of headers,
-- are those of ASCII. A method that awaits is a function of a state: the model client has a state
-- of its own, and each awaited call of a consumer has an outcome of a queue (done, lost or stopped,
-- with or without its effect). Loops are structural recursion. The attempts of _generate_batch and
-- of the assembly of prompts are counted as in the source. _short_names loops until nothing
-- changes: its fuel is the number of the parts of all paths, which the longest name can use up.
--
-- Parameters: the model server, the decoders and the writer of JSON (json, pydantic), the float
-- quotients of estimate_tokens, the nodes that tree-sitter finds, the fixed texts of the prompts.
-- math.floor(a * b / c) is the quotient of the integers, which it is below 2^53. Arguments that
-- stand for parts of the program not modelled: what retrieval, the dependency resolver and the
-- documentation workflow find for an event, the pipeline's result and the answer of the checker in
-- the consumers, the sandbox runner; the splitting of URLs and the quantiles of latencies are
-- parameters too. Not modelled: retrieval, dependency context, the scripts of the evaluation, the
-- sandbox's containers and probes, HTTP clients, logging, tracing, timing, settings, and the expiry
-- of Redis keys.
pub mod Base
pub mod Review
pub mod Llm
pub mod Sandbox
pub mod Comment
pub mod Consumer
pub mod Evaluation
pub mod Tests
