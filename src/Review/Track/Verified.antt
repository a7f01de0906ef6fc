-- ===== src/Review/Track/Verified.antt =====
-- The findings that `_verify_across_batches` keeps, and the batches that it asks about them.
use dovi_ai_server.Base.{
  ℕ, suc, ◌≡◌, refl, ap, ◌⊎◌, inl, inr, Bool, true, false, ◌&&◌, ◌||◌, Option, none, some, List, [],
  ◌∷◌, map, arith, leb, Bool-cases, ◌==◌, nat_eq, list_eq, triple_eq, ==_sound, keep, any, All,
  All-map_of, keep-All, contains, sort, All-sort, Sub, Sub-All, Sub-keep, first_of_each,
  Sub-first_of_each, none_left, keeps, skips, Text,
}
use dovi_ai_server.Review.Schema.{ReviewComment}
use dovi_ai_server.Review.Filter.{FilterOptions, is_inline, is_kept, ranks_before, place, bump}
use dovi_ai_server.Review.Model.{Messages, Model, Settings, Session}
use dovi_ai_server.Review.Verify.{verify}
use dovi_ai_server.Review.Track.{
  Tracked, cap_tracked, filter_tracked, batches_of, is_in_batch, reviews_of, verify_groups,
  is_confirmed_id, verify_in, verify_across_batches,
}

either : (a b : Bool) → (a || b) ≡ true → (a ≡ true) ⊎ (b ≡ true)
either true b h = inl refl
either false b h = inr h

both : (a b : Bool) → (a && b) ≡ true → (a ≡ true) × (b ≡ true)
both true b h = (refl, h)
both false b h = ground arith

module _ (m : Model) (verify_prompt : Text) (o : Settings) (messages_of : ℕ → Messages)
    (filtered : List Tracked) where
  -- `_verify`, asked about the filtered findings of the finding's own batch with the messages of
  -- that batch, confirmed a finding at its place.
  abbrev pub IsConfirmed : Tracked → Type 0
  IsConfirmed t =
      (n : ℕ) × (s : Session m) × (t.batch ≡ some n)
      × (contains
            (map place
              (verify m verify_prompt (messages_of n) o (reviews_of (keep (is_in_batch n) filtered))
                s).0)
            (place t.review)
          ≡ true)

  batch_of : (n : ℕ) (t : Tracked) → is_in_batch n t ≡ true → t.batch ≡ some n
  batch_of n t h = of_batch t.batch h
    where
      of_batch : (b : Option ℕ) → (elim b [ some k ↦ k == n | none ↦ false ]) ≡ true → b ≡ some n
      of_batch none h = ground arith
      of_batch (some k) h = ap some (==_sound k n h)

  groups-IsConfirmed :
      (ns : List ℕ) (s : Session m) (t : Tracked)
      → is_confirmed_id (verify_groups m verify_prompt o messages_of ns filtered s).0 t ≡ true
      → IsConfirmed t
  unfolding verify_groups is_confirmed_id any
  groups-IsConfirmed [] s t h = ground arith
  groups-IsConfirmed (n ∷ ns) s t h =
      let asked =
        verify m verify_prompt (messages_of n) o (reviews_of (keep (is_in_batch n) filtered)) s in
      elim (either (is_in_batch n t && contains (map place asked.0) (place t.review)) _ h) [
        | inl here ↦
            let parts = both (is_in_batch n t) _ here in (n, s, batch_of n t parts.0, parts.1)
        | inr later ↦ groups-IsConfirmed ns asked.1 t later
      ]

  -- The answer, if no `KeyError` is raised: findings of the filtered ones, in their order, each
  -- confirmed with the messages of its own batch.
  abbrev pub IsVerified : Option (List ReviewComment) → Type 0
  IsVerified none = batches_of filtered ≡ none
  IsVerified (some result) =
      (kept : List Tracked) × (result ≡ reviews_of kept) × Sub kept filtered × All IsConfirmed kept

  verify_in-IsVerified :
      (numbers : Option (List ℕ)) (s : Session m)
      → batches_of filtered ≡ numbers
      → IsVerified (verify_in m verify_prompt o messages_of numbers filtered s).0
  verify_in-IsVerified none s e = e
  verify_in-IsVerified (some numbers) s e =
      let order = first_of_each (λ n. n) [] numbers in
      let groups = (verify_groups m verify_prompt o messages_of order filtered s).0 in
      (
        keep (is_confirmed_id groups) filtered,
        refl,
        Sub-keep (is_confirmed_id groups) filtered,
        All-map_of _ _ (groups-IsConfirmed order s) _ (keep-All (is_confirmed_id groups) filtered),
      )

  -- `_verify_across_batches` raises `KeyError` only when a filtered finding came from no batch; else
  -- its answer are filtered findings, in their order and no more often, and each of them has the
  -- place of a finding that `_verify` confirmed when it was asked, with the messages of the batch
  -- that the finding came from, about the filtered findings of that batch.
  pub verify_across_batches-IsVerified :
      (s : Session m)
      → IsVerified (verify_across_batches m verify_prompt o messages_of filtered s).0
  unfolding verify_across_batches
  verify_across_batches-IsVerified s = verify_in-IsVerified (batches_of filtered) s refl

abbrev pub HasBatch : Tracked → Type 0
HasBatch t = (n : ℕ) × (t.batch ≡ some n)

batches_of-some : (ts : List Tracked) → All HasBatch ts → (ns : List ℕ) × (batches_of ts ≡ some ns)
unfolding batches_of
batches_of-some [] h = ([], refl)
batches_of-some (t ∷ ts) h =
    let rest = batches_of-some ts h.1 in (h.0.0 ∷ rest.0, rw (h.0.1, rest.1) refl)

Sub-cap_tracked :
    (o : FilterOptions) (n : ℕ) (per_file : Text → ℕ) (ts : List Tracked)
    → Sub (cap_tracked o n per_file ts) ts
unfolding cap_tracked
Sub-cap_tracked o n per_file [] = none_left []
Sub-cap_tracked o n per_file (t ∷ ts) = elim (Bool-cases (leb o.max_comments n)) [
  | inl stop ↦ rw stop (none_left (t ∷ ts))
  | inr more ↦ elim (Bool-cases (leb o.max_per_file (per_file t.review.file_path))) [
    | inl full ↦ rw (more, full) (skips t (Sub-cap_tracked o n per_file ts))
    | inr free ↦
        rw (more, free) (keeps t (Sub-cap_tracked o (suc n) (bump t.review.file_path per_file) ts))
  ]
]

abbrev pub HasBatchOrIsMinor : Tracked → Type 0
HasBatchOrIsMinor t = HasBatch t ⊎ (is_inline t.review.severity ≡ false)

is_kept-inline :
    (o : FilterOptions) (r : ReviewComment) → is_kept o r ≡ true → is_inline r.severity ≡ true
unfolding is_kept
is_kept-inline o r h = (both (is_inline r.severity) _ (both _ _ h).0).0

kept-HasBatch :
    (o : FilterOptions) (ts : List Tracked)
    → All HasBatchOrIsMinor ts
    → All HasBatch (keep (λ t. is_kept o t.review) ts)
unfolding keep
kept-HasBatch o [] h = tt
kept-HasBatch o (t ∷ ts) h = elim (Bool-cases (is_kept o t.review)) [
  | inl passes ↦ rw passes (tracked_of h.0 passes, kept-HasBatch o ts h.1)
  | inr fails ↦ rw fails (kept-HasBatch o ts h.1)
]
  where
    tracked_of : HasBatchOrIsMinor t → is_kept o t.review ≡ true → HasBatch t
    tracked_of (inl has) passes = has
    tracked_of (inr small) passes = absurd (ground (arith, is_kept-inline o t.review passes))

-- When every finding that came from no batch is minor or a suggestion, `_verify_across_batches`
-- raises no `KeyError` on the filtered findings.
pub verify_across_batches-some :
    (m : Model) (verify_prompt : Text) (o : Settings) (messages_of : ℕ → Messages)
    (options : FilterOptions) (tracked : List Tracked) (s : Session m)
    → All HasBatchOrIsMinor tracked
    → (result : List ReviewComment) × ((verify_across_batches m verify_prompt o messages_of
          (filter_tracked options tracked)
          s).0
        ≡ some result)
unfolding verify_across_batches filter_tracked
verify_across_batches-some m verify_prompt o messages_of options tracked s h =
    let kept = keep (λ t. is_kept options t.review) tracked in
    let sorted = sort (λ a b. ranks_before a.review b.review) kept in
    let found = batches_of-some (filter_tracked options tracked) (
      Sub-All HasBatch (Sub-cap_tracked options 0 (λ path. 0) _) (
        Sub-All HasBatch (Sub-first_of_each (λ t. place t.review) [] sorted)
          (All-sort _ HasBatch kept (kept-HasBatch options tracked h)))) in
    rw found.1 (_, refl)
