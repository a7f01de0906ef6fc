-- ===== src/Review/Budget/Cut.antt =====
-- The lengths of texts that are cut at a line.
use dovi_ai_server.Base.{
  ℕ, zero, suc, ◌+◌, ◌-◌, ◌≤◌, ◌<◌, ◌≡◌, ◌⊎◌, inl, inr, Bool, true, false, Option, none, some, [],
  ◌∷◌, arith, if◌then◌else◌, Option-cases, ◌==◌, nat_eq, list_eq, triple_eq, length, take,
  length-append, length-take, Text,
}
use dovi_ai_server.Review.Budget.{
  rfind_from, cut_at_line_boundary, trunc_msg, cut_to, shrink_to_char_limit,
}

-- An index that is found lies below the limit.
abbrev Below : ℕ → Option ℕ → Type 0
Below n none = Unit
Below n (some i) = i < n

rfind_from-Below :
    (i : ℕ) (found : Option ℕ) (limit : ℕ) (t : Text)
    → Below i found
    → Below (i + limit) (rfind_from i found limit t)
unfolding rfind_from
rfind_from-Below i none limit [] h = tt
rfind_from-Below i (some k) limit [] h = omega arith
rfind_from-Below i none zero (c ∷ t) h = tt
rfind_from-Below i (some k) zero (c ∷ t) h = omega arith
rfind_from-Below i found (suc limit) (c ∷ t) h =
    let e : i + 1 + limit ≡ i + suc limit = omega arith in
    rw (← e) (
      rfind_from-Below (i + 1) (if c == 10 then some i else found) limit t (next (c == 10) found h))
  where
    next :
        (b : Bool) (found : Option ℕ) → Below i found → Below (i + 1) (if b then some i else found)
    next true found h = omega arith
    next false none h = tt
    next false (some k) h = omega arith

pub cut-le-limit : (t : Text) (limit : ℕ) → cut_at_line_boundary t limit ≤ limit
unfolding cut_at_line_boundary
cut-le-limit t limit = elim (Option-cases (rfind_from 0 none limit t)) [
  | inl e ↦ rw (e, cut_at_line_boundary) (omega arith)
  | inr (k, e) ↦
      let b : k < 0 + limit = rw e at (rfind_from-Below 0 none limit t tt) in
      rw (e, cut_at_line_boundary) (ground arith)
]

pub length-cut_to :
    (t : Text) (limit : ℕ) → length trunc_msg ≤ limit → length (cut_to t limit) ≤ limit
unfolding cut_to
length-cut_to t limit h = omega (
  arith,
  length-append (take (cut_at_line_boundary t (limit - length trunc_msg)) t) trunc_msg,
  length-take (cut_at_line_boundary t (limit - length trunc_msg)) t,
  cut-le-limit t (limit - length trunc_msg),
)

-- `_shrink_to_char_limit` never returns more than `target_chars` characters, and it returns the
-- text as it is, unless the text is longer than that or `target_chars` is 0.
pub shrink_to_char_limit_bound :
    (t : Text) (target_chars : ℕ)
    → (length (shrink_to_char_limit t target_chars) ≤ target_chars)
      × ((shrink_to_char_limit t target_chars ≡ t) ⊎ (target_chars < length t) ⊎ (target_chars ≡ 0))
unfolding shrink_to_char_limit
shrink_to_char_limit_bound t n = (ground (arith, length-cut_to t n), ground arith)
