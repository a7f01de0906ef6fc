-- ===== src/Review/Filter/Inline.antt =====
-- The findings that `filter_reviews` keeps.
use mathlib.Core.List.{List, [], ◌∷◌, map}
use dovi_ai_server.Base.{
  ℕ, suc, ◌+◌, ◌≤◌, ◌≡◌, ◌∙◌, ◌⊎◌, inl, inr, true, false, ◌||◌, arith, Text, leb, leb→le, leb→gt,
  ltb, nat_beq, ◌&&◌, Sub-Ordered, contains-sort, ◌==◌, nat_eq, list_eq, triple_eq, Bool-cases,
  ==_sound, length, All, keep, keep-All, sort, All-sort, Ordered, sort-Ordered, count, contains,
  Distinct, Sub, none_left, keeps, skips, Sub-All, Sub-Distinct, first_of_each, Sub-first_of_each,
  first_of_each-Distinct, contains-first_of_each,
}
use dovi_ai_server.Review.Schema.{ReviewComment}
use dovi_ai_server.Review.Filter.{
  FilterOptions, is_kept, ranks_before, place, bump, cap_comments, filter_reviews, severity_order,
}

module _ (o : FilterOptions) where
  Sub-cap_comments :
      (n : ℕ) (per_file : Text → ℕ) (rs : List ReviewComment)
      → Sub (cap_comments o n per_file rs) rs
  unfolding cap_comments
  Sub-cap_comments n per_file [] = none_left []
  Sub-cap_comments n per_file (r ∷ rs) = elim (Bool-cases (leb o.max_comments n)) [
    | inl stop ↦ rw stop (none_left _)
    | inr more ↦ elim (Bool-cases (leb o.max_per_file (per_file r.file_path))) [
      | inl full ↦ rw (more, full) (skips r (Sub-cap_comments n per_file rs))
      | inr room ↦
          rw (more, room) (keeps r (Sub-cap_comments (suc n) (bump r.file_path per_file) rs))
    ]
  ]

  length-cap_comments :
      (n : ℕ) (per_file : Text → ℕ) (rs : List ReviewComment)
      → n ≤ o.max_comments
      → length (cap_comments o n per_file rs) + n ≤ o.max_comments
  unfolding cap_comments
  length-cap_comments n per_file [] h = omega arith
  length-cap_comments n per_file (r ∷ rs) h = elim (Bool-cases (leb o.max_comments n)) [
    | inl stop ↦ rw stop (omega arith)
    | inr more ↦ elim (Bool-cases (leb o.max_per_file (per_file r.file_path))) [
      | inl full ↦ rw (more, full) (length-cap_comments n per_file rs h)
      | inr room ↦
          rw (more, room)
            (omega (
              arith,
              leb→gt _ _ more,
              length-cap_comments (suc n) (bump r.file_path per_file) rs (leb→gt _ _ more),
            ))
    ]
  ]

  abbrev file_count : Text → List ReviewComment → ℕ
  file_count path rs = count path (map (λ r. r.file_path) rs)

  count-cap_comments :
      (path : Text) (n : ℕ) (per_file : Text → ℕ) (rs : List ReviewComment)
      → per_file path ≤ o.max_per_file
      → file_count path (cap_comments o n per_file rs) + per_file path ≤ o.max_per_file
  unfolding cap_comments count
  count-cap_comments path n per_file [] h = omega arith
  count-cap_comments path n per_file (r ∷ rs) h = elim (Bool-cases (leb o.max_comments n)) [
    | inl stop ↦ rw stop (omega arith)
    | inr more ↦ elim (Bool-cases (leb o.max_per_file (per_file r.file_path))) [
      | inl full ↦ rw (more, full) (count-cap_comments path n per_file rs h)
      | inr room ↦
          rw (more, room)
            (let below : suc (per_file r.file_path) ≤ o.max_per_file = leb→gt _ _ room in
              let same : (r.file_path == path) ≡ true → per_file r.file_path ≡ per_file path =
                λ e i. per_file (==_sound r.file_path path e i) in
              ground (arith, same, count-cap_comments path (suc n) (bump r.file_path per_file) rs))
    ]
  ]

  -- A finding of the list is kept, or its file is full, or the list is.
  abbrev pub Placed : List ReviewComment → Text × ℕ × Text → Type 0
  Placed result k =
      (contains (map place result) k ≡ true)
      ⊎ (o.max_per_file ≤ file_count k.0 result)
      ⊎ (o.max_comments ≤ length result)

  complete-cap_comments :
      (k : Text × ℕ × Text) (n : ℕ) (per_file : Text → ℕ) (rs : List ReviewComment)
      → contains (map place rs) k ≡ true
      → let result = cap_comments o n per_file rs in
        (contains (map place result) k ≡ true)
        ⊎ (o.max_per_file ≤ file_count k.0 result + per_file k.0)
        ⊎ (o.max_comments ≤ length result + n)
  unfolding cap_comments count contains
  complete-cap_comments k n per_file [] h = absurd (ground arith)
  complete-cap_comments k n per_file (r ∷ rs) h = elim (Bool-cases (leb o.max_comments n)) [
    | inl stop ↦ rw stop (inr (inr (omega (arith, leb→le _ _ stop))))
    | inr more ↦ elim (Bool-cases (leb o.max_per_file (per_file r.file_path))) [
      | inl full ↦
          let below : o.max_per_file ≤ per_file r.file_path = leb→le _ _ full in
          rw (more, full) (ground (arith, same_file, complete-cap_comments k n per_file rs))
      | inr room ↦
          rw (more, room)
            (ground (arith, complete-cap_comments k (suc n) (bump r.file_path per_file) rs))
    ]
  ]
    where
      same_file : (r.file_path == k.0) ≡ true → per_file r.file_path ≡ per_file k.0
      same_file e i = per_file (==_sound r.file_path k.0 e i)

ranks_before_trans :
    (a b c : ReviewComment)
    → ranks_before a b ≡ true
    → ranks_before b c ≡ true
    → ranks_before a c ≡ true
unfolding ranks_before
ranks_before_trans a b c h k = order_trans (severity_order a.severity) _ _ _ _ _ h k
  where
    order_trans :
        (x y z p q r : ℕ)
        → (ltb x y || (nat_beq x y && leb q p)) ≡ true
        → (ltb y z || (nat_beq y z && leb r q)) ≡ true
        → (ltb x z || (nat_beq x z && leb r p)) ≡ true
    order_trans x y z p q r h k = ground arith

ranks_before_total : (a b : ReviewComment) → ranks_before a b ≡ false → ranks_before b a ≡ true
unfolding ranks_before
ranks_before_total a b h = order_total (severity_order a.severity) _ _ _ h
  where
    order_total :
        (x y p q : ℕ)
        → (ltb x y || (nat_beq x y && leb q p)) ≡ false
        → (ltb y x || (nat_beq y x && leb p q)) ≡ true
    order_total x y p q h = ground arith

-- What an inline review list is: every finding passes the tests, most severe and most confident
-- first, no place twice, at most `max_comments` in all and `max_per_file` in a file.
pub record IsPublishable (o : FilterOptions) (result : List ReviewComment) : Type 0 where
  pub kept : All (λ r. is_kept o r ≡ true) result
  pub ordered : Ordered ranks_before result
  pub distinct : Distinct (map place result)
  pub few : length result ≤ o.max_comments
  pub few_in_file : (path : Text) → file_count o path result ≤ o.max_per_file

module _ (o : FilterOptions) (reviews : List ReviewComment) where
  abbrev candidates : List ReviewComment
  candidates = sort ranks_before (keep (is_kept o) reviews)

  -- `filter_reviews` returns findings that each pass the severity, confidence and evidence tests,
  -- in order of severity and then of falling confidence, no two at one place (file, line and
  -- title), at most `max_comments` of them, and at most `max_per_file` in any one file.
  pub filter_reviews-IsPublishable : IsPublishable o (filter_reviews o reviews)
  unfolding filter_reviews
  filter_reviews-IsPublishable =
      let capped = Sub-cap_comments o 0 (λ path. 0) (first_of_each place [] candidates) in
      let sub = Sub-first_of_each place [] candidates in
      record {
        kept =
            Sub-All _ capped
              (Sub-All _ sub (All-sort ranks_before _ _ (keep-All (is_kept o) reviews)));
        ordered = Sub-Ordered ranks_before capped (
            Sub-Ordered ranks_before sub
              (sort-Ordered ranks_before ranks_before_trans ranks_before_total _));
        distinct = Sub-Distinct place capped (first_of_each-Distinct place [] candidates);
        few =
            omega (arith, length-cap_comments o 0 (λ path. 0) (first_of_each place [] candidates));
        few_in_file = λ path.
            omega
              (arith, count-cap_comments o path 0 (λ path. 0) (first_of_each place [] candidates));
      }

  -- Nothing that passes the tests is lost without need: the place of a finding that passes is
  -- among the places of the result, or the result already holds `max_per_file` findings of its
  -- file, or `max_comments` findings.
  pub filter_reviews-Placed :
      (k : Text × ℕ × Text)
      → contains (map place (keep (is_kept o) reviews)) k ≡ true
      → Placed o (filter_reviews o reviews) k
  unfolding filter_reviews contains
  filter_reviews-Placed k h =
      let present : contains (map place candidates) k ≡ true =
        contains-sort place ranks_before k _ ∙ h in
      let distinct : contains (map place (first_of_each place [] candidates)) k ≡ true =
        contains-first_of_each place k [] candidates ∙ present in
      ground (
        arith,
        complete-cap_comments o k 0 (λ path. 0) (first_of_each place [] candidates) distinct,
      )
