-- ===== src/Review/Track/Filter.antt =====
-- The filter on findings with their batches, beside `filter_reviews`.
use dovi_ai_server.Base.{
  ℕ, suc, ◌≡◌, refl, ap, ◌∙◌, inl, inr, Bool, List, [], ◌∷◌, map, leb, Bool-cases, Eq, nat_eq,
  list_eq, triple_eq, keep, contains, sort, insert, first_of_each, Text,
}
use dovi_ai_server.Review.Filter.{
  FilterOptions, is_kept, ranks_before, place, bump, cap_comments, filter_reviews,
}
use dovi_ai_server.Review.Track.{Tracked, cap_tracked, filter_tracked, reviews_of}

-- Operations on lists that look at a view of the elements commute with the view.
module _ {ℓ κ} {A : Type ℓ} {B : Type κ} (view : A → B) where
  map-keep :
      (p : B → Bool) (xs : List A) → map view (keep (λ x. p (view x)) xs) ≡ keep p (map view xs)
  unfolding keep
  map-keep p [] = refl
  map-keep p (x ∷ xs) = elim (Bool-cases (p (view x))) [
    | inl h ↦ rw h (ap (λ l. view x ∷ l) (map-keep p xs))
    | inr h ↦ rw h (map-keep p xs)
  ]

  map-insert :
      (le : B → B → Bool) (x : A) (ys : List A)
      → map view (insert (λ a b. le (view a) (view b)) x ys) ≡ insert le (view x) (map view ys)
  unfolding insert
  map-insert le x [] = refl
  map-insert le x (y ∷ ys) = elim (Bool-cases (le (view x) (view y))) [
    | inl h ↦ rw h refl
    | inr h ↦ rw h (ap (λ l. view y ∷ l) (map-insert le x ys))
  ]

  map-sort :
      (le : B → B → Bool) (xs : List A)
      → map view (sort (λ a b. le (view a) (view b)) xs) ≡ sort le (map view xs)
  unfolding sort
  map-sort le [] = refl
  map-sort le (x ∷ xs) =
      map-insert le x (sort (λ a b. le (view a) (view b)) xs)
      ∙ ap (insert le (view x)) (map-sort le xs)

  map-first_of_each {μ} :
      {K : Type μ} ⦃e : Eq K⦄ (key : B → K) (seen : List K) (xs : List A)
      → map view (first_of_each (λ x. key (view x)) seen xs) ≡ first_of_each key seen (map view xs)
  unfolding first_of_each
  map-first_of_each key seen [] = refl
  map-first_of_each key seen (x ∷ xs) = elim (Bool-cases (contains seen (key (view x)))) [
    | inl h ↦ rw h (map-first_of_each key seen xs)
    | inr h ↦ rw h (ap (λ l. view x ∷ l) (map-first_of_each key (key (view x) ∷ seen) xs))
  ]

cap_tracked-reviews :
    (o : FilterOptions) (n : ℕ) (per_file : Text → ℕ) (ts : List Tracked)
    → reviews_of (cap_tracked o n per_file ts) ≡ cap_comments o n per_file (reviews_of ts)
unfolding cap_tracked cap_comments
cap_tracked-reviews o n per_file [] = refl
cap_tracked-reviews o n per_file (t ∷ ts) = elim (Bool-cases (leb o.max_comments n)) [
  | inl stop ↦ rw stop refl
  | inr more ↦ elim (Bool-cases (leb o.max_per_file (per_file t.review.file_path))) [
    | inl full ↦ rw (more, full) (cap_tracked-reviews o n per_file ts)
    | inr free ↦
        rw (more, free)
          (ap (λ l. t.review ∷ l)
            (cap_tracked-reviews o (suc n) (bump t.review.file_path per_file) ts))
  ]
]

-- The findings that pass the filter with their batches are, without them, those of
-- `filter_reviews`, in the same order.
pub filter_tracked-filter_reviews :
    (o : FilterOptions) (tracked : List Tracked)
    → reviews_of (filter_tracked o tracked) ≡ filter_reviews o (reviews_of tracked)
unfolding filter_tracked filter_reviews
filter_tracked-filter_reviews o tracked =
    cap_tracked-reviews o 0 (λ path. 0) _
    ∙ ap (cap_comments o 0 (λ path. 0)) (
        map-first_of_each (λ (t : Tracked). t.review) place [] _
        ∙ ap (first_of_each place []) (
            map-sort (λ (t : Tracked). t.review) ranks_before
              (keep (λ t. is_kept o t.review) tracked)
            ∙ ap (sort ranks_before) (map-keep (λ (t : Tracked). t.review) (is_kept o) tracked)))
