-- ===== src/Evaluation/Repository/Keys.antt =====
-- The tables that the calls of the repository reach.
use dovi_ai_server.Base.{
  ℕ, ◌≡◌, refl, ap, inl, inr, Bool, true, false, Option, none, some, arith, Bool-cases, ◌==◌,
  nat_eq, list_eq, triple_eq, ==_sound, Text,
}
use mathlib.Core.Path.{subst}
use dovi_ai_server.Review.Schema.{ReviewCompletedEvent, ReviewFailedEvent, FailureReason}
use dovi_ai_server.Evaluation.Tables.{
  JobStatus, job_completed, job_failed, ReviewJobRow, ReviewRecordRow, ReviewFeedbackEvent,
  ReviewFeedbackRow, LineCheckRecord, ReviewTimingRecord, Tables, no_rows,
}
use dovi_ai_server.Evaluation.Repository.{
  completed_job, save_completed, failed_job, save_failed_as, save_failed, parse_review_job_id,
  put_feedback, upsert_with, upsert_feedback, save_line_check, save_review_timing,
}

-- A call of the repository that returns.
pub data Saves : Tables → Tables → Type 0 where
  saves_completed :
      (now : ℕ) (event : ReviewCompletedEvent) (db : Tables)
      → Saves db (save_completed now event db)
  saves_failed :
      (now : ℕ) (event : ReviewFailedEvent) (db db' : Tables)
      → save_failed now event db ≡ some db'
      → Saves db db'
  saves_feedback :
      (now : ℕ) (event : ReviewFeedbackEvent) (db : Tables)
      → Saves db (upsert_feedback now event db)
  saves_line_check :
      (now : ℕ) (check : LineCheckRecord) (db : Tables) → Saves db (save_line_check now check db)
  saves_timing :
      (now : ℕ) (timing : ReviewTimingRecord) (db : Tables)
      → Saves db (save_review_timing now timing db)

-- The tables after any calls, from tables without rows.
pub data Reached : Tables → Type 0 where
  reached_none : Reached no_rows
  reached_by : {db db' : Tables} → Reached db → Saves db db' → Reached db'

abbrev pub job_fits : JobStatus → Option FailureReason → Option ReviewRecordRow → Bool
job_fits job_completed none (some row) = true
job_fits job_failed (some reason) row = true
job_fits _ _ _ = false

-- A completed job has a record and no reason of a failure, a failed one has a reason, and a record
-- has a job.
abbrev pub row_fits : Option ReviewJobRow → Option ReviewRecordRow → Bool
row_fits none none = true
row_fits none (some row) = false
row_fits (some job) row = job_fits job.status job.fail_reason row

abbrev pub has_job : Option ReviewJobRow → Option ReviewFeedbackRow → Bool
has_job none (some row) = false
has_job none none = true
has_job (some job) row = true

abbrev pub IsConsistent : Tables → Type 0
IsConsistent db =
    ((key : Text) → row_fits (db.jobs key) (db.records key) ≡ true)
    × ((key : Text) (i : ℕ) → has_job (db.jobs key) (db.feedback key i) ≡ true)

completed_job-fits :
    (event : ReviewCompletedEvent) (now : ℕ) (old : Option ReviewJobRow) (row : ReviewRecordRow)
    → row_fits (some (completed_job event now old)) (some row) ≡ true
completed_job-fits event now none row = refl
completed_job-fits event now (some job) row = refl

failed_job-fits :
    (event : ReviewFailedEvent) (now : ℕ) (ids : ℕ × ℕ × Text) (old : Option ReviewJobRow)
    (row : Option ReviewRecordRow)
    → row_fits (some (failed_job event now ids old)) row ≡ true
failed_job-fits event now ids none row = refl
failed_job-fits event now ids (some job) row = refl

save_completed-IsConsistent :
    (now : ℕ) (event : ReviewCompletedEvent) (db : Tables)
    → IsConsistent db
    → IsConsistent (save_completed now event db)
unfolding save_completed
save_completed-IsConsistent now event db (fits, named) = (
  λ key. elim (Bool-cases (key == event.review_job_id)) [
    | inl here ↦ rw here (completed_job-fits event now _ _)
    | inr other ↦ rw other (fits key)
  ],
  λ key i. elim (Bool-cases (key == event.review_job_id)) [
    | inl here ↦ rw here refl
    | inr other ↦ rw other (named key i)
  ],
)

abbrev tables_or : Tables → Option Tables → Tables
tables_or db none = db
tables_or db (some db') = db'

save_failed_as-IsConsistent :
    (now : ℕ) (event : ReviewFailedEvent) (ids : Option (ℕ × ℕ × Text)) (db db' : Tables)
    → save_failed_as now event ids db ≡ some db'
    → IsConsistent db
    → IsConsistent db'
save_failed_as-IsConsistent now event none db db' saved h = ground arith
save_failed_as-IsConsistent now event (some ids) db db' saved (fits, named) =
    subst IsConsistent (ap (tables_or db) saved) (
      λ key. elim (Bool-cases (key == event.review_job_id)) [
        | inl here ↦ rw here (failed_job-fits event now ids _ _)
        | inr other ↦ rw other (fits key)
      ],
      λ key i. elim (Bool-cases (key == event.review_job_id)) [
        | inl here ↦ rw here refl
        | inr other ↦ rw other (named key i)
      ],
    )

has_job-any :
    (job : Option ReviewJobRow) (row : ReviewFeedbackRow) (other : Option ReviewFeedbackRow)
    → has_job job (some row) ≡ true
    → has_job job other ≡ true
has_job-any none row other h = ground arith
has_job-any (some job) row other h = refl

put_feedback-IsConsistent :
    (event : ReviewFeedbackEvent) (now : ℕ) (db : Tables) (row : ReviewFeedbackRow)
    → has_job (db.jobs event.review_job_id) (some row) ≡ true
    → IsConsistent db
    → IsConsistent (put_feedback event now db)
put_feedback-IsConsistent event now db row h (fits, named) = (
  fits,
  λ key i. elim (Bool-cases (key == event.review_job_id)) [
    | inl here ↦
        has_job-any (db.jobs key) row _ (rw (ap db.jobs (==_sound key event.review_job_id here)) h)
    | inr other ↦ rw other (named key i)
  ],
)

upsert_with-IsConsistent :
    (row : Option ReviewFeedbackRow) (job : Option ReviewJobRow) (event : ReviewFeedbackEvent)
    (now : ℕ) (db : Tables)
    → db.feedback event.review_job_id event.finding_index ≡ row
    → db.jobs event.review_job_id ≡ job
    → IsConsistent db
    → IsConsistent (upsert_with row job event now db)
upsert_with-IsConsistent (some row) job event now db old known h =
    put_feedback-IsConsistent event now db row
      (subst (λ r. has_job (db.jobs event.review_job_id) r ≡ true) old
        (h.1 event.review_job_id event.finding_index))
      h
upsert_with-IsConsistent none (some job) event now db old known h =
    put_feedback-IsConsistent event now db
      (record { reflected = event.reflected; reason = event.reason; updated_at = now })
      (rw known refl) h
upsert_with-IsConsistent none none event now db old known h = h

Saves-IsConsistent : {db db' : Tables} → Saves db db' → IsConsistent db → IsConsistent db'
unfolding save_failed upsert_feedback save_line_check save_review_timing
Saves-IsConsistent (saves_completed now event db) h = save_completed-IsConsistent now event db h
Saves-IsConsistent (saves_failed now event db db' saved) h =
    save_failed_as-IsConsistent now event (parse_review_job_id event.review_job_id) db db' saved h
Saves-IsConsistent (saves_feedback now event db) h =
    upsert_with-IsConsistent _ _ event now db refl refl h
Saves-IsConsistent (saves_line_check now check db) h = h
Saves-IsConsistent (saves_timing now timing db) h = h

-- After any calls of the repository that return, from tables without rows, a completed job has a
-- record and no reason of a failure, a failed job has a reason, and every record and every row of
-- the feedback has its job.
pub Reached-IsConsistent : {db : Tables} → Reached db → IsConsistent db
Reached-IsConsistent reached_none = (λ key. refl, λ key i. refl)
Reached-IsConsistent (reached_by r s) = Saves-IsConsistent s (Reached-IsConsistent r)
