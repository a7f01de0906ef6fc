-- ===== src/Review/Summary.antt =====
-- app/review/pipeline.py, `_build_summary`: the text of the main comment, with the minor findings
-- in a folded list.
use mathlib.Core.List.{List, [], ◌∷◌, ◌++◌, reverse, reverse_aux}
use dovi_ai_server.Base.{
  ℕ, ◌-◌, ◌≡◌, refl, sym, ap, ◌∙◌, ◌⊎◌, inl, inr, Bool, true, false, not, ◌&&◌, ◌||◌, map, arith,
  ltb, if◌then◌else◌, Bool-cases, nat_eq, list_eq, triple_eq, length, take, is_nil, any, Text,
  codes, is_space, lstrip, strip, join, newline, show,
}
use dovi_ai_server.Review.Schema.{ReviewComment}
use dovi_ai_server.Review.Filter.{summarize_minor}

abbrev pub max_minor_notes : ℕ
max_minor_notes = 5

abbrev pub empty_summary : Text
empty_summary = codes "요약 생성에 실패했습니다 (모델 출력이 비어 있음)."

abbrev pub bullet : Text → Text
bullet note = codes "- " ++ note

unfoldable pub bullets : List Text → List Text
unfolding show
bullets notes =
    map bullet (take max_minor_notes notes)
    ++ (if ltb max_minor_notes (length notes)
        then (codes "- 외 " ++ show (length notes - max_minor_notes) ++ codes "건") ∷ []
        else [])

abbrev pub shown_summary : Text → Text
shown_summary summary = if is_nil (strip summary) then empty_summary else summary

-- What stands behind the summary.
unfoldable pub folded_notes : List Text → Text
unfolding bullets join show
folded_notes notes =
    (10 ∷ 10 ∷ codes "<details>")
    ++ (10 ∷ codes "<summary>참고: 경미한 항목 ")
    ++ show (length notes)
    ++ codes "건</summary>"
    ++ (10 ∷ 10 ∷ join newline (bullets notes))
    ++ (10 ∷ 10 ∷ codes "</details>")

unfoldable pub with_notes : Text → List Text → Text
unfolding folded_notes
with_notes summary notes = if is_nil notes then summary else summary ++ folded_notes notes

-- `min_confidence` is the default of `summarize_minor`.
unfoldable pub build_summary : ℕ → Text → List ReviewComment → Text
unfolding strip with_notes summarize_minor
build_summary min_confidence summary all_reviews =
    with_notes (shown_summary summary) (summarize_minor min_confidence all_reviews)

-- Whether a text has a character that is not a space.
abbrev has_ink : Text → Bool
has_ink t = any (λ c. not (is_space c)) t

has_ink-append : (t u : Text) → has_ink (t ++ u) ≡ (has_ink t || has_ink u)
unfolding any
has_ink-append [] u = refl
has_ink-append (c ∷ t) u = ground (arith, has_ink-append t u)

lstrip-ink : (c : ℕ) (t : Text) → is_space c ≡ false → lstrip (c ∷ t) ≡ c ∷ t
unfolding lstrip
lstrip-ink c t n = rw n refl

has_ink-lstrip : (t : Text) → has_ink (lstrip t) ≡ has_ink t
unfolding any lstrip
has_ink-lstrip [] = refl
has_ink-lstrip (c ∷ t) = elim (Bool-cases (is_space c)) [
  | inl s ↦ rw s (has_ink-lstrip t)
  | inr n ↦ ap has_ink (lstrip-ink c t n)
]

is_nil-lstrip : (t : Text) → is_nil (lstrip t) ≡ not (has_ink t)
unfolding any lstrip
is_nil-lstrip [] = refl
is_nil-lstrip (c ∷ t) = elim (Bool-cases (is_space c)) [
  | inl s ↦ rw s (is_nil-lstrip t)
  | inr n ↦ rw n refl
]

has_ink-reverse_aux : (t u : Text) → has_ink (reverse_aux t u) ≡ (has_ink t || has_ink u)
unfolding any
has_ink-reverse_aux [] u = refl
has_ink-reverse_aux (c ∷ t) u = ground (arith, has_ink-reverse_aux t (c ∷ u))

is_nil-reverse_aux : (t u : Text) → is_nil (reverse_aux t u) ≡ (is_nil t && is_nil u)
is_nil-reverse_aux [] u = refl
is_nil-reverse_aux (c ∷ t) u = is_nil-reverse_aux t (c ∷ u) ∙ false_right (is_nil t)
  where
    false_right : (b : Bool) → (b && false) ≡ false
    false_right true = refl
    false_right false = refl

-- A text is blank when it has no ink.
is_nil-strip : (t : Text) → is_nil (strip t) ≡ not (has_ink t)
unfolding strip
is_nil-strip t =
    let inner = lstrip t in
    is_nil-reverse_aux (lstrip (reverse inner)) []
    ∙ right (is_nil (lstrip (reverse inner)))
    ∙ is_nil-lstrip (reverse inner)
    ∙ ap not
        (has_ink-reverse_aux inner [] ∙ unfold any in or_false (has_ink inner) ∙ has_ink-lstrip t)
  where
    right : (b : Bool) → (b && true) ≡ b
    right true = refl
    right false = refl

    or_false : (b : Bool) → (b || false) ≡ b
    or_false true = refl
    or_false false = refl

has_ink-shown : (summary : Text) → has_ink (shown_summary summary) ≡ true
unfolding is_space
has_ink-shown summary = elim (Bool-cases (is_nil (strip summary))) [
  | inl blank ↦ rw blank (unfold any in refl)
  | inr ink ↦ rw ink (not_false (has_ink summary) (sym (is_nil-strip summary) ∙ ink))
]
  where
    not_false : (b : Bool) → not b ≡ false → b ≡ true
    not_false true h = refl
    not_false false h = cc

ink_before : (t u : Text) → has_ink t ≡ true → has_ink (t ++ u) ≡ true
ink_before t u h = has_ink-append t u ∙ ap (λ b. b || has_ink u) h

has_ink-with_notes :
    (summary : Text) (notes : List Text)
    → has_ink summary ≡ true
    → has_ink (with_notes summary notes) ≡ true
unfolding with_notes
has_ink-with_notes summary [] h = h
has_ink-with_notes summary (n ∷ ns) h = ink_before summary (folded_notes (n ∷ ns)) h

-- Whatever the model wrote as its summary, and whatever it found, the text of the main comment is
-- not blank; and when the summary is not blank and no minor finding is to be noted, the text is the
-- summary itself.
pub build_summary-Written :
    (min_confidence : ℕ) (summary : Text) (reviews : List ReviewComment)
    → (is_nil (strip (build_summary min_confidence summary reviews)) ≡ false)
      × ((is_nil (strip summary) ≡ true)
          ⊎ (is_nil (summarize_minor min_confidence reviews) ≡ false)
          ⊎ (build_summary min_confidence summary reviews ≡ summary))
unfolding build_summary
build_summary-Written min_confidence summary reviews = (
  is_nil-strip (with_notes (shown_summary summary) notes)
      ∙ ap not (has_ink-with_notes (shown_summary summary) notes (has_ink-shown summary)),
  same,
)
  where
    notes : List Text
    notes = summarize_minor min_confidence reviews

    same :
        (is_nil (strip summary) ≡ true)
        ⊎ (is_nil notes ≡ false)
        ⊎ (with_notes (shown_summary summary) notes ≡ summary)
    same = elim (Bool-cases (is_nil (strip summary))) [
      | inl blank ↦ inl blank
      | inr ink ↦ elim (Bool-cases (is_nil notes)) [
        | inr some_note ↦ inr (inl some_note)
        | inl none_at_all ↦ inr (inr (rw ink (unfold with_notes in rw none_at_all refl)))
      ]
    ]
