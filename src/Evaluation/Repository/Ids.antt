-- ===== src/Evaluation/Repository/Ids.antt =====
-- The ids of review jobs, as app/review/schema.py makes them and the repository reads them.
use dovi_ai_server.Base.{
  ℕ, zero, suc, ◌+◌, ◌/◌, ◌%◌, ◌≡◌, refl, sym, ap, inl, inr, false, some, [], ◌∷◌, ◌++◌, arith, ltb,
  Bool-cases, ◌==◌, nat_eq, list_eq, triple_eq, contains, contains-append, Text, show_digits, show,
  read_number, read_number-show,
}
use dovi_ai_server.Evaluation.Repository.{
  at_colon, all_read, make_review_job_id, parse_review_job_id,
}

show_digits-contains : (f n : ℕ) → contains (show_digits f n) b':' ≡ false
unfolding show_digits contains
show_digits-contains zero n = refl
show_digits-contains (suc f) n = elim (Bool-cases (ltb n 10)) [
  | inl e ↦ rw e (ground arith)
  | inr e ↦ rw e (
      ground (
        arith,
        contains-append (show_digits f (n / 10)) ((n % 10 + 48) ∷ []) b':',
        show_digits-contains f (n / 10),
      ))
]

at_colon-append :
    (before behind : Text)
    → contains before b':' ≡ false
    → at_colon (before ++ (b':' ∷ behind)) ≡ some (before, behind)
unfolding at_colon contains
at_colon-append [] behind h = refl
at_colon-append (c ∷ t) behind h = elim (Bool-cases (c == b':')) [
  | inl colon ↦ ground arith
  | inr other ↦ rw other (rw (at_colon-append t behind (ground arith)) refl)
]

at_colon-show :
    (n : ℕ) (behind : Text) → at_colon (show n ++ (b':' ∷ behind)) ≡ some (show n, behind)
unfolding show
at_colon-show n behind = at_colon-append (show n) behind (show_digits-contains (suc n) n)

all_read-show : (n : ℕ) → all_read (read_number (show n)) ≡ some n
all_read-show n = rw (sym (append_nil (show n))) (rw (read_number-show n [] refl) refl)
  where
    append_nil : (t : Text) → t ++ [] ≡ t
    append_nil [] = refl
    append_nil (c ∷ t) = ap (λ l. c ∷ l) (append_nil t)

-- The id that is made of a repository, a number and a head of any characters, colons included, is
-- read back as the three.
pub parse_review_job_id-make_review_job_id :
    (repository_id pr_number : ℕ) (head_sha : Text)
    → parse_review_job_id (make_review_job_id repository_id pr_number head_sha)
      ≡ some (repository_id, pr_number, head_sha)
unfolding parse_review_job_id make_review_job_id
parse_review_job_id-make_review_job_id repository_id pr_number head_sha =
    rw
      (
        at_colon-show repository_id (show pr_number ++ (b':' ∷ head_sha)),
        at_colon-show pr_number head_sha,
        all_read-show repository_id,
        all_read-show pr_number,
      )
      refl
