-- ===== src/Review/Run/Job.antt =====
-- The result that `run` returns.
use mathlib.Core.Path.{subst, subst⁻¹}
use dovi_ai_server.Base.{
  ℕ, suc, ◌≤◌, ◌≡◌, refl, inl, inr, true, false, Option, none, some, List, [], ◌∷◌, map, arith,
  Bool-cases, nat_eq, list_eq, triple_eq, length, is_nil, All, All-append, Distinct, Ordered, Sub,
  Sub-All, Sub-Distinct, Sub-Ordered, none_left, keeps, skips, Text,
}
use dovi_ai_server.Review.Schema.{
  ChangedFile, ReviewRequestedEvent, ReviewComment, ReviewResult, completed, failed, ReviewTarget,
  context_overflow,
}
use dovi_ai_server.Review.Filter.{
  FilterOptions, is_inline, is_kept, ranks_before, place, filter_reviews,
}
use dovi_ai_server.Review.Filter.Inline.{filter_reviews-IsPublishable}
use dovi_ai_server.Review.Diff.{analyze}
use dovi_ai_server.Review.Model.{Messages, Model, Session}
use dovi_ai_server.Review.Track.{Tracked, filter_tracked, reviews_of, verify_across_batches}
use dovi_ai_server.Review.Track.Filter.{filter_tracked-filter_reviews}
use dovi_ai_server.Review.Track.Verified.{
  HasBatchOrIsMinor, IsVerified, verify_across_batches-IsVerified, verify_across_batches-some,
}
use dovi_ai_server.Review.Progress.{Gathered, Setup, Success, Progress}
use dovi_ai_server.Review.Told.{
  with_file_notes, told_files, track, untracked, messages_at, combined_summary,
}
use dovi_ai_server.Review.Batches.{Item}
use dovi_ai_server.Review.Run.{
  after_split, split, review_batches, all_tracked, verified, finished, conclude, failed_result,
  run_targets, run,
}
use dovi_ai_server.Llm.Partial.{Decoders}

-- Findings that may be published: they pass the tests, are ordered by severity and confidence,
-- stand at distinct places, and are not too many.
abbrev pub IsPublished : FilterOptions → List ReviewComment → Type 0
IsPublished o reviews =
    All (λ r. is_kept o r ≡ true) reviews
    × Ordered ranks_before reviews
    × Distinct (map place reviews)
    × (length reviews ≤ o.max_comments)

length-Sub {ℓ} : {A : Type ℓ} {xs ys : List A} → Sub xs ys → length xs ≤ length ys
length-Sub (none_left ys) = omega arith
length-Sub (keeps x s) = omega (arith, length-Sub s)
length-Sub (skips y s) = omega (arith, length-Sub s)

Sub-map {ℓ κ} :
    {A : Type ℓ} {B : Type κ} (f : A → B) {xs ys : List A} → Sub xs ys → Sub (map f xs) (map f ys)
Sub-map f (none_left ys) = none_left _
Sub-map f (keeps x s) = keeps (f x) (Sub-map f s)
Sub-map f (skips y s) = skips (f y) (Sub-map f s)

Sub-IsPublished :
    (o : FilterOptions) (all reviews : List ReviewComment)
    → Sub reviews (filter_reviews o all)
    → IsPublished o reviews
Sub-IsPublished o all reviews s =
    let p = filter_reviews-IsPublishable o all in
    (
      Sub-All _ s p.kept,
      Sub-Ordered ranks_before s p.ordered,
      Sub-Distinct place s p.distinct,
      omega (arith, length-Sub s, p.few),
    )

HasBatch-track : (n : ℕ) (bs : List Success) → All HasBatchOrIsMinor (track n bs)
unfolding track
HasBatch-track n [] = tt
HasBatch-track n (b ∷ bs) =
    All-append HasBatchOrIsMinor _ _ (of_batch b.output.reviews) (HasBatch-track (suc n) bs)
  where
    of_batch :
        (rs : List ReviewComment)
        → All HasBatchOrIsMinor (map (λ r. record { review = r; batch = some n }) rs)
    of_batch [] = tt
    of_batch (r ∷ rs) = (inl (n, refl), of_batch rs)

IsMinor-untracked :
    (rs : List ReviewComment)
    → All (λ r. is_inline r.severity ≡ false) rs
    → All HasBatchOrIsMinor (untracked rs)
IsMinor-untracked [] h = tt
IsMinor-untracked (r ∷ rs) h = (inr h.0, IsMinor-untracked rs h.1)

-- The answer of the verification of the filtered findings.
asked-some :
    (m : Model) (setup : Setup) (messages_of : ℕ → Messages) (tracked : List Tracked)
    (s : Session m)
    → All HasBatchOrIsMinor tracked
    → let filtered = filter_tracked setup.filter_options tracked in
      (reviews : List ReviewComment) × ((verify_across_batches m setup.verify_prompt setup.settings
          messages_of filtered s).0
        ≡ some reviews)
      × Sub reviews (filter_reviews setup.filter_options (reviews_of tracked))
asked-some m setup messages_of tracked s h =
    let filtered = filter_tracked setup.filter_options tracked in
    let answer =
      verify_across_batches-some m setup.verify_prompt setup.settings messages_of
        setup.filter_options tracked s h in
    let known : IsVerified m setup.verify_prompt setup.settings messages_of filtered
        (some answer.0) =
      subst (IsVerified m setup.verify_prompt setup.settings messages_of filtered) answer.1 (
        verify_across_batches-IsVerified m setup.verify_prompt setup.settings messages_of filtered
          s) in
    (
      answer.0,
      answer.1,
      subst (λ l. Sub answer.0 l) (filter_tracked-filter_reviews setup.filter_options tracked)
          (subst⁻¹ (λ l. Sub l (reviews_of filtered)) known.1 (Sub-map (λ t. t.review) known.2)),
    )

module _ (m : Model) (d : Decoders) (setup : Setup)
    (summary_llm : Option (Messages → m.State → Option Text × m.State))
    (build_context_chunks : ChangedFile → List Text) (found : Gathered)
    (event : ReviewRequestedEvent) where
  -- A result for the event that was given, with findings that may be published.
  abbrev pub IsResult : ReviewResult → Type 0
  IsResult (completed e) =
      (e.review_job_id ≡ event.review_job_id)
      × (e.head_sha ≡ event.head_sha)
      × IsPublished setup.filter_options e.reviews
  IsResult (failed e) = (e.review_job_id ≡ event.review_job_id) × (e.head_sha ≡ event.head_sha)

  abbrev pub IsReturned : Option ReviewResult × Session m → Type 0
  IsReturned r = (result : ReviewResult) × (r.0 ≡ some result) × IsResult result

  verified-some :
      (tracked : List Tracked) (successful : List Success) (s : Session m)
      → All HasBatchOrIsMinor tracked
      → let filtered = filter_tracked setup.filter_options tracked in
        (reviews : List ReviewComment) × ((verified m d setup summary_llm build_context_chunks found
            event filtered successful s).0
          ≡ some reviews)
        × Sub reviews (filter_reviews setup.filter_options (reviews_of tracked))
  verified-some tracked successful s h =
      let filtered = filter_tracked setup.filter_options tracked in
      elim (Bool-cases (is_nil filtered)) [
        | inl empty ↦ rw empty ([], refl, none_left _)
        | inr some_found ↦ rw some_found (asked-some m setup (messages_at successful) tracked s h)
      ]

  IsPublishedIfSome : Option (List ReviewComment) → Type 0
  IsPublishedIfSome none = ⊥
  IsPublishedIfSome (some reviews) = IsPublished setup.filter_options reviews

  finished-IsReturned :
      (g : Progress) (summary : Text) (r : Option (List ReviewComment) × Session m)
      (reviews : List ReviewComment)
      → r.0 ≡ some reviews
      → IsPublished setup.filter_options reviews
      → IsReturned (finished m d setup summary_llm build_context_chunks found event g summary r)
  unfolding IsPublishedIfSome
  finished-IsReturned g summary (none, s) reviews e h = absurd (subst⁻¹ IsPublishedIfSome e h)
  finished-IsReturned g summary (some found_reviews, s) reviews e h =
      (_, refl, (refl, refl, subst⁻¹ IsPublishedIfSome e h))

  module _
      (minor_dependencies : All (λ r. is_inline r.severity ≡ false) found.dependency_findings) where
    all_tracked-HasBatch :
        (g : Progress)
        → All HasBatchOrIsMinor
            (all_tracked m d setup summary_llm build_context_chunks found event g)
    all_tracked-HasBatch g =
        All-append HasBatchOrIsMinor _ _ (HasBatch-track 0 g.successful)
          (IsMinor-untracked found.dependency_findings minor_dependencies)

    conclude-IsReturned :
        (g : Progress) (s : Session m)
        → IsReturned (conclude m d setup summary_llm build_context_chunks found event g s)
    unfolding conclude
    conclude-IsReturned g s = elim (Bool-cases (is_nil g.successful)) [
      | inl nothing ↦ rw nothing (failed_result event g.last_reason, refl, (refl, refl))
      | inr some_batch ↦
          let combined = combined_summary m setup summary_llm event g.successful s in
          let tracked = all_tracked m d setup summary_llm build_context_chunks found event g in
          let answer = verified-some tracked g.successful combined.1 (all_tracked-HasBatch g) in
          rw some_batch (
            finished-IsReturned g (with_file_notes combined.0 (told_files g))
              (verified m d setup summary_llm build_context_chunks found event
                (filter_tracked setup.filter_options tracked) g.successful combined.1)
              answer.0 answer.1
              (Sub-IsPublished setup.filter_options (reviews_of tracked) answer.0 answer.2))
    ]

    batched-IsReturned :
        (r : (List (List Item) × List Text) × Session m)
        → IsReturned (after_split m d setup summary_llm build_context_chunks found event r)
    unfolding after_split
    batched-IsReturned r = elim (Bool-cases (is_nil r.0.0)) [
      | inl nothing ↦ rw nothing (failed_result event context_overflow, refl, (refl, refl))
      | inr some_batch ↦
          let progress = review_batches m d setup summary_llm build_context_chunks found event r in
          rw some_batch (conclude-IsReturned progress.0 progress.1)
    ]

    run_targets-IsReturned :
        (targets : List ReviewTarget) (s : Session m)
        → IsReturned (run_targets m d setup summary_llm build_context_chunks found event targets s)
    unfolding run_targets
    run_targets-IsReturned targets s = elim (Bool-cases (is_nil targets)) [
      | inl nothing ↦ rw nothing (_, refl, (refl, refl, (tt, tt, tt, omega arith)))
      | inr some_target ↦ rw some_target (
          batched-IsReturned
            (split m d setup summary_llm build_context_chunks found event targets s))
    ]

    -- When the dependency findings are minor or suggestions, `run` returns a result and raises no
    -- `KeyError`; the result names the job and the head of its event; and the findings of a
    -- completed review pass the tests of `filter_reviews`, are ordered by severity and confidence,
    -- stand at distinct places, and are at most `max_comments`.
    pub run-IsReturned :
        (s : Session m) → IsReturned (run m d setup summary_llm build_context_chunks found event s)
    unfolding run
    run-IsReturned s = run_targets-IsReturned (analyze build_context_chunks event) s
