-- ===== src/Review/Filter/Minor.antt =====
-- The notes of `summarize_minor`.
use dovi_ai_server.Base.{
  ℕ, ◌≡◌, refl, Bool, true, false, not, ◌&&◌, ◌||◌, List, [], ◌∷◌, Text, arith, ◌==◌, nat_eq,
  list_eq, Bool-cases, any, contains, Distinct, ==_refl, ==_sound, inl, inr,
}
use dovi_ai_server.Review.Schema.{ReviewComment}
use dovi_ai_server.Review.Filter.{is_minor_note, note_of, note_loop, summarize_minor}

module _ (min_confidence : ℕ) where
  seen_before :
      (note : Text) (seen : List Text) (rs : List ReviewComment)
      → contains seen note ≡ true
      → contains (note_loop min_confidence seen rs) note ≡ false
  unfolding note_loop
  seen_before note seen [] h = refl
  seen_before note seen (r ∷ rs) h = ground (
    arith,
    seen_before note seen rs,
    seen_before note (note_of r ∷ seen) rs,
    ==_sound (note_of r) note,
    same_note,
  )
    where
      same_note : note_of r ≡ note → contains seen (note_of r) ≡ contains seen note
      same_note p i = contains seen (p i)

  note_loop-Distinct :
      (seen : List Text) (rs : List ReviewComment) → Distinct (note_loop min_confidence seen rs)
  unfolding note_loop
  note_loop-Distinct seen [] = tt
  note_loop-Distinct seen (r ∷ rs) =
      elim (Bool-cases (is_minor_note min_confidence r && not (contains seen (note_of r)))) [
        | inl adds ↦ rw adds (
          seen_before (note_of r) (note_of r ∷ seen) rs (ground (arith, ==_refl (note_of r))),
          note_loop-Distinct (note_of r ∷ seen) rs,
        )
        | inr skips ↦ rw skips (note_loop-Distinct seen rs)
      ]

  abbrev pub noted : List ReviewComment → Text → Bool
  noted rs note = any (λ r. is_minor_note min_confidence r && note_of r == note) rs

  contains-note_loop :
      (note : Text) (seen : List Text) (rs : List ReviewComment)
      → (contains seen note || contains (note_loop min_confidence seen rs) note)
        ≡ (contains seen note || noted rs note)
  unfolding note_loop any
  contains-note_loop note seen [] = refl
  contains-note_loop note seen (r ∷ rs) = ground (
    arith,
    contains-note_loop note seen rs,
    contains-note_loop note (note_of r ∷ seen) rs,
    ==_sound (note_of r) note,
    same_note,
  )
    where
      same_note : note_of r ≡ note → contains seen (note_of r) ≡ contains seen note
      same_note p i = contains seen (p i)

  -- `summarize_minor` lists no note twice, and lists a note exactly when a finding has it that is
  -- not inline, reaches the confidence and has a message that is not blank.
  pub summarize_minor_exact :
      (rs : List ReviewComment)
      → Distinct (summarize_minor min_confidence rs)
        × ((note : Text) → contains (summarize_minor min_confidence rs) note ≡ noted rs note)
  unfolding summarize_minor
  summarize_minor_exact rs = (note_loop-Distinct [] rs, λ note. contains-note_loop note [] rs)
