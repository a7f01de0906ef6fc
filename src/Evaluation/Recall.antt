-- ===== src/Evaluation/Recall.antt =====
-- The expected issues that the loop of `compute_metrics` matches, and their number.
use dovi_ai_server.Base.{
  ℕ, suc, ◌+◌, ◌≤◌, ◌≡◌, refl, ap, ◌⊎◌, inl, inr, Bool, true, false, ◌||◌, Option, none, some, List,
  [], ◌∷◌, ◌++◌, map, arith, if◌then◌else◌, Bool-cases, ◌==◌, nat_eq, list_eq, triple_eq, ==_refl,
  ==_sound, length, length-append, All, contains, contains-append, Distinct, Text,
}
use dovi_ai_server.Evaluation.Shorter.{length-Distinct}
use dovi_ai_server.Review.Schema.{ReviewComment, ReviewCompletedEvent}
use dovi_ai_server.Evaluation.Labels.{
  ExpectedIssue, CaseLabels, Classification, true_positive, false_positive, unjudged,
  matching_expected, classify_finding, is_critical_major,
}
use dovi_ai_server.Evaluation.Tally.{
  Tally, id_eq, no_tally, add_matched, add_classified, tally_finding, tally_findings,
}
use dovi_ai_server.Evaluation.Metrics.{
  CaseRunResult, expected_of, tally_expected, tally_evidence, tally_reviews, tally_case,
  tally_cases,
}

abbrev pub case_ids : Text → List ExpectedIssue → List (Text × Text)
case_ids case issues = map (λ e. (case, e.id)) issues

abbrev value_or {ℓ} : {A : Type ℓ} → A → Option A → A
value_or d none = d
value_or d (some a) = a

first_or {ℓ} :
    {A : Type ℓ} (test : Bool) (x e : A) (later : Option A)
    → (if test then some x else later) ≡ some e
    → (x ≡ e) ⊎ (later ≡ some e)
first_or true x e later h = inl (ap (value_or x) h)
first_or false x e later h = inr h

matching_expected-contains :
    (case : Text) (comment : ReviewComment) (issues : List ExpectedIssue) (tolerance : ℕ)
    (e : ExpectedIssue)
    → matching_expected comment issues tolerance ≡ some e
    → contains (case_ids case issues) (case, e.id) ≡ true
unfolding matching_expected contains
matching_expected-contains case comment [] tolerance e h = ground arith
matching_expected-contains case comment (issue ∷ issues) tolerance e h =
    elim (first_or _ issue e (matching_expected comment issues tolerance) h) [
      | inl same ↦ rw same (ground (arith, ==_refl case, ==_refl e.id))
      | inr later ↦
          let rest = matching_expected-contains case comment issues tolerance e later in
          ground arith
    ]

length-case_ids :
    (case : Text) (issues : List ExpectedIssue) → length (case_ids case issues) ≡ length issues
length-case_ids case [] = refl
length-case_ids case (e ∷ issues) = ap (λ n. suc n) (length-case_ids case issues)

or_true : (b : Bool) → (b || true) ≡ true
or_true true = refl
or_true false = refl

module _ (labels_by_case : Text → Option CaseLabels) where
  abbrev pub expected_ids : List Text → List (Text × Text)
  expected_ids [] = []
  expected_ids (case ∷ cases) =
      case_ids case (expected_of (labels_by_case case)) ++ expected_ids cases

  -- The matched issues are distinct issues of the cases that are counted.
  abbrev pub Within : Tally → Type 0
  Within t =
      Distinct t.matched_expected_ids
      × All (λ id. contains (expected_ids t.seen_case_ids) id ≡ true) t.matched_expected_ids
      × (t.total_expected ≡ length (expected_ids t.seen_case_ids))

  contains-expected_ids :
      (case : Text) (id : Text × Text) (cases : List Text)
      → contains cases case ≡ true
      → contains (case_ids case (expected_of (labels_by_case case))) id ≡ true
      → contains (expected_ids cases) id ≡ true
  unfolding contains
  contains-expected_ids case id [] h k = ground arith
  contains-expected_ids case id (c ∷ cases) h k =
      let split =
        contains-append (case_ids c (expected_of (labels_by_case c))) (expected_ids cases) id in
      elim (Bool-cases (c == case)) [
        | inl here ↦
            let first : contains (case_ids c (expected_of (labels_by_case c))) id ≡ true =
              rw (==_sound c case here) k in
            ground arith
        | inr other ↦
            let rest = contains-expected_ids case id cases (ground arith) k in ground arith
      ]

  add_matched-Within :
      (case : Text) (comment : ReviewComment) (labels : CaseLabels) (seen : List Text)
      (matched : Option ExpectedIssue) (ids : List (Text × Text))
      → contains seen case ≡ true
      → labels_by_case case ≡ some labels
      → matching_expected comment labels.expected 3 ≡ matched
      → Distinct ids × All (λ id. contains (expected_ids seen) id ≡ true) ids
      → Distinct (add_matched case matched ids)
        × All (λ id. contains (expected_ids seen) id ≡ true) (add_matched case matched ids)
  add_matched-Within case comment labels seen none ids here known m h = h
  add_matched-Within case comment labels seen (some e) ids here known m (d, w) =
      elim (Bool-cases (contains ids (case, e.id))) [
        | inl old ↦ rw old (d, w)
        | inr new ↦ rw new (
          (new, d),
          (
            contains-expected_ids case (case, e.id) seen here
                (rw known (matching_expected-contains case comment labels.expected 3 e m)),
            w,
          ),
        )
      ]

  add_classified-Within :
      (c : Classification) (severe : Bool) (t : Tally)
      → Within t
      → Within (add_classified c severe t)
  add_classified-Within true_positive severe t h = h
  add_classified-Within false_positive severe t h = h
  add_classified-Within unjudged severe t h = h

  add_classified-seen :
      (c : Classification) (severe : Bool) (t : Tally)
      → (add_classified c severe t).seen_case_ids ≡ t.seen_case_ids
  add_classified-seen true_positive severe t = refl
  add_classified-seen false_positive severe t = refl
  add_classified-seen unjudged severe t = refl

  tally_findings-Within :
      (case : Text) (changed_packages : List Text) (labels : CaseLabels)
      (reviews : List ReviewComment) (t : Tally)
      → labels_by_case case ≡ some labels
      → contains t.seen_case_ids case ≡ true
      → Within t
      → Within (tally_findings case changed_packages labels reviews t)
  unfolding tally_findings tally_finding
  tally_findings-Within case changed_packages labels [] t known here h = h
  tally_findings-Within case changed_packages labels (comment ∷ reviews) t known here (d, w, n) =
      let (d', w') =
        add_matched-Within case comment labels t.seen_case_ids
          (matching_expected comment labels.expected 3) t.matched_expected_ids here known refl
          (d, w) in
      let c = classify_finding comment labels 3 in
      let severe = is_critical_major comment.severity in
      tally_findings-Within case changed_packages labels reviews
        (tally_finding case changed_packages labels comment t) known
        (rw (add_classified-seen c severe _) here) (add_classified-Within c severe _ (d', w', n))

  expected_ids-All :
      (case : Text) (cases : List Text) (ids : List (Text × Text))
      → All (λ id. contains (expected_ids cases) id ≡ true) ids
      → All (λ id. contains (expected_ids (case ∷ cases)) id ≡ true) ids
  expected_ids-All case cases [] h = tt
  expected_ids-All case cases (id ∷ ids) h =
      let split =
        contains-append (case_ids case (expected_of (labels_by_case case))) (expected_ids cases)
          id in
      (rw (split, h.0) (or_true _), expected_ids-All case cases ids h.1)

  tally_expected-Within :
      (case : Text) (labels : Option CaseLabels) (t : Tally)
      → labels_by_case case ≡ labels
      → Within t
      → Within (tally_expected case labels t)
  tally_expected-Within case none t known h = h
  tally_expected-Within case (some labels) t known (d, w, n) =
      elim (Bool-cases (contains t.seen_case_ids case)) [
        | inl seen ↦ rw seen (d, w, n)
        | inr new ↦
            let added = case_ids case (expected_of (labels_by_case case)) in
            let total : t.total_expected + length labels.expected
                ≡ length (added ++ expected_ids t.seen_case_ids) =
              rw known (
                omega (
                  arith,
                  n,
                  length-case_ids case labels.expected,
                  length-append (case_ids case labels.expected) (expected_ids t.seen_case_ids),
                )) in
            rw new (d, expected_ids-All case t.seen_case_ids t.matched_expected_ids w, total)
      ]

  tally_expected-contains :
      (case : Text) (labels : CaseLabels) (t : Tally)
      → contains (tally_expected case (some labels) t).seen_case_ids case ≡ true
  unfolding contains
  tally_expected-contains case labels t = elim (Bool-cases (contains t.seen_case_ids case)) [
    | inl seen ↦ rw seen seen
    | inr new ↦ rw new (ground (arith, ==_refl case))
  ]

module _ {Latency : Type 0} (labels_by_case : Text → Option CaseLabels) where
  tally_reviews-Within :
      (result : CaseRunResult Latency) (completed : Option ReviewCompletedEvent)
      (labels : Option CaseLabels) (t : Tally)
      → labels_by_case result.case_id ≡ labels
      → Within labels_by_case t
      → Within labels_by_case (
          tally_reviews labels_by_case result completed labels
            (tally_evidence labels_by_case result (tally_expected result.case_id labels t)))
  tally_reviews-Within result (some event) (some labels) t known h =
      tally_findings-Within labels_by_case result.case_id result.changed_packages labels
        event.reviews
        (tally_evidence labels_by_case result (tally_expected result.case_id (some labels) t)) known
        (tally_expected-contains labels_by_case result.case_id labels t)
        (tally_expected-Within labels_by_case result.case_id (some labels) t known h)
  tally_reviews-Within result (some event) none t known h = h
  tally_reviews-Within result none labels t known h =
      tally_expected-Within labels_by_case result.case_id labels t known h

  tally_cases-Within :
      (results : List (CaseRunResult Latency)) (t : Tally)
      → Within labels_by_case t
      → Within labels_by_case (tally_cases labels_by_case results t)
  unfolding tally_cases tally_case
  tally_cases-Within [] t h = h
  tally_cases-Within (result ∷ results) t h =
      tally_cases-Within results (tally_case labels_by_case result t)
        (tally_reviews-Within result result.completed (labels_by_case result.case_id) t refl h)

  pub tally_cases-recall :
      (results : List (CaseRunResult Latency))
      → length (tally_cases labels_by_case results no_tally).matched_expected_ids
        ≤ (tally_cases labels_by_case results no_tally).total_expected
  tally_cases-recall results =
      let (d, w, n) = tally_cases-Within results no_tally (tt, tt, refl) in
      let t = tally_cases labels_by_case results no_tally in
      omega (
        arith,
        n,
        length-Distinct t.matched_expected_ids (expected_ids labels_by_case t.seen_case_ids) d w,
      )
