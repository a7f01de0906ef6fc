-- ===== src/Evaluation/Repository.antt =====
-- app/evaluation/repository.py: SqlAlchemyEvaluationRepository. `now` is the value of
-- `datetime.now(UTC)`; a transaction is committed as a whole. `int` is read on decimal digits of
-- ASCII only. A row of the feedback that names no job is refused by the database's foreign key.
pub mod Keys
pub mod Ids
use dovi_ai_server.Base.{
  ℕ, zero, suc, ◌+◌, ◌-◌, ◌*◌, ◌/◌, ◌%◌, ◌^◌, ◌≤◌, ◌<◌, min, max, ◌≡◌, refl, sym, ap, ap₂, ◌∙◌, ◌≢◌,
  ◌↔◌, ◌⊎◌, inl, inr, Bool, true, false, not, ◌&&◌, ◌||◌, Option, none, some, List, [], ◌∷◌, ◌++◌,
  map, arith, ltb, leb, nat_beq, if◌then◌else◌, ltb→lt, ltb→ge, leb→le, leb→gt, nat_beq_iff,
  Bool-cases, Option-cases, ◌>>=◌, Eq, ◌==◌, list_beq, list_beq_iff, nat_eq, list_eq, triple_beq,
  triple_beq_iff, triple_eq, ==_refl, ==_sound, ==_complete, Free, split_on-join, split_on-Free,
  show-Free, length, get_elem?, take, drop, is_nil, length-append, take-append-drop, length-take,
  length-drop, keep, any, All, All-append, All-take, All-keep, All-map_of, keep-All, contains,
  contains-append, contains-keep, count, count-append, Distinct, sort, sort-perm, All-sort, Ordered,
  sort-Ordered, Sub, Sub-refl, Sub-All, Sub-keep, Sub-Distinct, Sub-Ordered, first_of_each,
  Sub-first_of_each, first_of_each-Distinct, contains-first_of_each, contains-sort, none_left,
  keeps, skips, Text, codes, is_space, is_line_break, lower_char, lower, starts_with, ends_with,
  has_text, after_prefix, lstrip, strip, cons_head, split_on, lines_after, splitlines, join,
  newline, show_digits, show, is_digit, take_digits, head_is_digit, read_number, read_number-show,
  path_parts, last_or_nil, path_name, suffix_of_parts, path_suffix, lstrip_dots, drop_first,
  path_suffixes,
}
use dovi_ai_server.Review.Schema.{ReviewCompletedEvent, ReviewFailedEvent}
use dovi_ai_server.Evaluation.Tables.{
  JobStatus, job_completed, job_failed, ReviewJobRow, ReviewRecordRow, ReviewFeedbackEvent,
  ReviewFeedbackRow, LineCounts, LineCheckRecord, ReviewLineCheckRow, ReviewTimingRecord,
  ReviewTimingRow, Tables,
}

unfoldable pub make_review_job_id : ℕ → ℕ → Text → Text
unfolding show
make_review_job_id repository_id pr_number head_sha =
    show repository_id ++ (b':' ∷ (show pr_number ++ (b':' ∷ head_sha)))

-- The text before the first colon, and the text behind it.
unfoldable pub at_colon : Text → Option (Text × Text)
at_colon [] = none
at_colon (c ∷ t) =
    let later = at_colon t in
    if c == b':'
    then some ([], t)
    else elim later [ none ↦ none | some (before, behind) ↦ some (c ∷ before, behind) ]

abbrev pub all_read : Option (ℕ × Text) → Option ℕ
all_read (some (n, [])) = some n
all_read (some (n, c ∷ t)) = none
all_read none = none

unfoldable pub parse_review_job_id : Text → Option (ℕ × ℕ × Text)
unfolding at_colon read_number
parse_review_job_id review_job_id = do
  (repository, behind) ← at_colon review_job_id
  (number, head_sha) ← at_colon behind
  repository_id ← all_read (read_number repository)
  pr_number ← all_read (read_number number)
  some (repository_id, pr_number, head_sha)

abbrev pub put_row : {A : Type 0} → Text → A → (Text → Option A) → Text → Option A
put_row key row table k = if k == key then some row else table k

abbrev pub completed_job : ReviewCompletedEvent → ℕ → Option ReviewJobRow → ReviewJobRow
completed_job event now none = record {
  repository_id = event.repository_id;
  pr_number = event.pr_number;
  head_sha = event.head_sha;
  status = job_completed;
  fail_reason = none;
  created_at = now;
}
completed_job event now (some job) = record job { status = job_completed; fail_reason = none }

-- A new record and the update of a record set the same fields.
abbrev pub completed_record : ReviewCompletedEvent → ReviewRecordRow
completed_record event = record {
  reviews = event.reviews;
  summary = event.summary;
  model_version = event.model_version;
  prompt_version = event.prompt_version;
}

unfoldable pub save_completed : ℕ → ReviewCompletedEvent → Tables → Tables
unfolding list_beq
save_completed now event db =
    let key = event.review_job_id in
    record db {
      jobs = put_row key (completed_job event now (db.jobs key)) db.jobs;
      records = put_row key (completed_record event) db.records;
    }

abbrev pub failed_job : ReviewFailedEvent → ℕ → ℕ × ℕ × Text → Option ReviewJobRow → ReviewJobRow
failed_job event now (repository_id, pr_number, head_sha) none = record {
  repository_id = repository_id;
  pr_number = pr_number;
  head_sha = head_sha;
  status = job_failed;
  fail_reason = some event.reason;
  created_at = now;
}
failed_job event now ids (some job) = record job {
  status = job_failed;
  fail_reason = some event.reason;
}

abbrev pub save_failed_as : ℕ → ReviewFailedEvent → Option (ℕ × ℕ × Text) → Tables → Option Tables
save_failed_as now event none db = none
save_failed_as now event (some ids) db =
    let key = event.review_job_id in
    some (record db { jobs = put_row key (failed_job event now ids (db.jobs key)) db.jobs })

-- No result is the ValueError of an id that is not read, before the transaction.
unfoldable pub save_failed : ℕ → ReviewFailedEvent → Tables → Option Tables
unfolding list_beq parse_review_job_id
save_failed now event db = save_failed_as now event (parse_review_job_id event.review_job_id) db

abbrev pub put_feedback : ReviewFeedbackEvent → ℕ → Tables → Tables
put_feedback event now db = record db {
  feedback = λ key i.
      if key == event.review_job_id && i == event.finding_index
      then some (record { reflected = event.reflected; reason = event.reason; updated_at = now })
      else db.feedback key i;
}

-- The row that is there, and the job that a new row names.
abbrev pub upsert_with :
    Option ReviewFeedbackRow → Option ReviewJobRow → ReviewFeedbackEvent → ℕ → Tables → Tables
upsert_with (some row) job event now db = put_feedback event now db
upsert_with none (some job) event now db = put_feedback event now db
upsert_with none none event now db = db

unfoldable pub upsert_feedback : ℕ → ReviewFeedbackEvent → Tables → Tables
unfolding list_beq
upsert_feedback now event db =
    upsert_with (db.feedback event.review_job_id event.finding_index) (db.jobs event.review_job_id)
      event now db

abbrev pub created_of_check : ℕ → Option ReviewLineCheckRow → ℕ
created_of_check now none = now
created_of_check now (some row) = row.created_at

unfoldable pub save_line_check : ℕ → LineCheckRecord → Tables → Tables
unfolding list_beq
save_line_check now check db =
    let key = check.review_job_id in
    record db {
      line_checks =
          put_row key
            (record {
              annotated = check.annotated;
              llm_ok = check.llm.ok;
              llm_line_not_in_diff = check.llm.line_not_in_diff;
              llm_file_not_in_diff = check.llm.file_not_in_diff;
              final_ok = check.final.ok;
              final_line_not_in_diff = check.final.line_not_in_diff;
              final_file_not_in_diff = check.final.file_not_in_diff;
              created_at = created_of_check now (db.line_checks key);
            })
            db.line_checks;
    }

abbrev pub created_of_timing : ℕ → Option ReviewTimingRow → ℕ
created_of_timing now none = now
created_of_timing now (some row) = row.created_at

unfoldable pub save_review_timing : ℕ → ReviewTimingRecord → Tables → Tables
unfolding list_beq
save_review_timing now timing db =
    let key = timing.review_job_id in
    record db {
      timings =
          put_row key
            (record {
              total_ms = timing.total_ms;
              prep_ms = timing.prep_ms;
              generate_ms = timing.generate_ms;
              summary_ms = timing.summary_ms;
              verify_ms = timing.verify_ms;
              batches = timing.batches;
              targets = timing.targets;
              prompt_chars = timing.prompt_chars;
              created_at = created_of_timing now (db.timings key);
            })
            db.timings;
    }
