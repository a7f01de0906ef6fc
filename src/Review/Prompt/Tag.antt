-- ===== src/Review/Prompt/Tag.antt =====
-- The description of a pull request in a prompt, and its closing tag.
use mathlib.Core.Path.{subst, subst⁻¹}
use mathlib.Core.List.{append_assoc}
use dovi_ai_server.Base.{
  ℕ, zero, suc, ◌-◌, ◌≡◌, refl, sym, ap, ap₂, ◌∙◌, ◌⊎◌, inl, inr, Bool, true, false, ◌&&◌, ◌||◌,
  List, [], ◌∷◌, ◌++◌, arith, ltb, Bool-cases, ◌==◌, nat_eq, list_eq, triple_eq, length, take,
  is_nil, All, All-append, contains, Text, codes, lower_char, lower, starts_with, has_text, strip,
  join, newline,
}
use dovi_ai_server.Review.Schema.{ReviewRequestedEvent}
use dovi_ai_server.Review.Budget.{blank_line}
use dovi_ai_server.Review.Prompt.{
  closing_tag, tag_here, redacted, neutralize_loop, neutralize_closing_tag, cut_body,
  line_unless_empty, build_pr_description_section, max_pr_body_chars,
}

-- No closing tag stands in a text, in any case.
abbrev pub IsTagFree : Text → Type 0
IsTagFree t = has_text closing_tag (lower t) ≡ false

tail_chars : ℕ
tail_chars = length closing_tag - 1

neutralize_loop-found :
    (c : ℕ) (t : Text)
    → tag_here (c ∷ t) ≡ true
    → neutralize_loop 0 (c ∷ t) ≡ redacted ++ neutralize_loop tail_chars t
unfolding neutralize_loop tail_chars
neutralize_loop-found c t h = rw h refl

neutralize_loop-plain :
    (c : ℕ) (t : Text)
    → tag_here (c ∷ t) ≡ false
    → neutralize_loop 0 (c ∷ t) ≡ c ∷ neutralize_loop 0 t
unfolding neutralize_loop
neutralize_loop-plain c t h = rw h refl

-- What a text without a bracket begins with after the replacement, it begins with before it.
starts_with-neutralize_loop :
    (p t : Text)
    → contains p b'[' ≡ false
    → starts_with p (lower (neutralize_loop 0 t)) ≡ true
    → starts_with p (lower t) ≡ true
unfolding starts_with neutralize_loop contains lower
starts_with-neutralize_loop [] t h e = refl
starts_with-neutralize_loop (x ∷ p) [] h e = e
starts_with-neutralize_loop (x ∷ p) (c ∷ t) h e = elim (Bool-cases (tag_here (c ∷ t))) [
  | inl found ↦
      let bracket : starts_with (x ∷ p) (lower (redacted ++ neutralize_loop tail_chars t)) ≡ true =
        subst (λ u. starts_with (x ∷ p) (lower u) ≡ true) (neutralize_loop-found c t found) e in
      ground arith
  | inr plain ↦
      let kept : starts_with (x ∷ p) (lower (c ∷ neutralize_loop 0 t)) ≡ true =
        subst (λ u. starts_with (x ∷ p) (lower u) ≡ true) (neutralize_loop-plain c t plain) e in
      ground (arith, starts_with-neutralize_loop p t)
]

abbrev tag_tail : Text
tag_tail = codes "/pr_description>"

no_prefix :
    (c : ℕ) (t u : Text)
    → starts_with (b'<' ∷ tag_tail) (c ∷ t) ≡ false
    → (starts_with tag_tail u ≡ true → starts_with tag_tail t ≡ true)
    → (b'<' == c && starts_with tag_tail u) ≡ false
unfolding starts_with
no_prefix c t u h k = and_false (b'<' == c) (starts_with tag_tail u) (starts_with tag_tail t) h k
  where
    and_false : (a b b' : Bool) → (a && b') ≡ false → (b ≡ true → b' ≡ true) → (a && b) ≡ false
    and_false false b b' h k = refl
    and_false true false b' h k = refl
    and_false true true b' h k = ground (arith, k refl)

neither : {a b : Bool} → a ≡ false → b ≡ false → (a || b) ≡ false
neither h k = rw (h, k) refl

neutralize_loop-IsTagFree : (skip : ℕ) (t : Text) → IsTagFree (neutralize_loop skip t)
unfolding neutralize_loop has_text contains
neutralize_loop-IsTagFree skip [] = refl
neutralize_loop-IsTagFree (suc skip) (c ∷ t) = neutralize_loop-IsTagFree skip t
neutralize_loop-IsTagFree zero (c ∷ t) = elim (Bool-cases (tag_here (c ∷ t))) [
  | inl found ↦
      subst⁻¹ IsTagFree (neutralize_loop-found c t found) (neutralize_loop-IsTagFree tail_chars t)
  | inr plain ↦ subst⁻¹ IsTagFree (neutralize_loop-plain c t plain) (
      neither
        (no_prefix (lower_char c) (lower t) (lower (neutralize_loop 0 t)) plain
          (starts_with-neutralize_loop tag_tail t refl))
        (neutralize_loop-IsTagFree zero t))
]

-- A text that holds a character which no closing tag has is free of tags when both its sides are.
abbrev IsApart : ℕ → Type 0
IsApart c = contains closing_tag (lower_char c) ≡ false

starts_with-apart :
    (p t u : Text) (c : ℕ) → contains p c ≡ false → starts_with p (t ++ (c ∷ u)) ≡ starts_with p t
unfolding starts_with contains
starts_with-apart [] t u c h = refl
starts_with-apart (x ∷ p) [] u c h = ground arith
starts_with-apart (x ∷ p) (d ∷ t) u c h = ground (arith, starts_with-apart p t u c)

has_text-apart :
    (p t u : Text) (c : ℕ)
    → contains p c ≡ false
    → is_nil p ≡ false
    → has_text p (t ++ (c ∷ u)) ≡ (has_text p t || has_text p u)
unfolding has_text starts_with contains
has_text-apart [] t u c h n = ground arith
has_text-apart (x ∷ p) [] u c h n = ground (arith, starts_with-apart (x ∷ p) [] u c h)
has_text-apart (x ∷ p) (d ∷ t) u c h n =
    ap₂ ◌||◌ (starts_with-apart (x ∷ p) (d ∷ t) u c h) (has_text-apart (x ∷ p) t u c h n)
    ∙ or_assoc (starts_with (x ∷ p) (d ∷ t)) (has_text (x ∷ p) t) (has_text (x ∷ p) u)
  where
    or_assoc : (a b e : Bool) → (a || (b || e)) ≡ ((a || b) || e)
    or_assoc true b e = refl
    or_assoc false b e = refl

lower-append : (t u : Text) → lower (t ++ u) ≡ lower t ++ lower u
unfolding lower
lower-append [] u = refl
lower-append (c ∷ t) u = ap (λ r. lower_char c ∷ r) (lower-append t u)

IsTagFree-apart :
    (t u : Text) (c : ℕ) → IsApart c → IsTagFree t → IsTagFree u → IsTagFree (t ++ (c ∷ u))
unfolding lower
IsTagFree-apart t u c a h k =
    ap (has_text closing_tag) (lower-append t (c ∷ u))
    ∙ has_text-apart closing_tag (lower t) (lower u) (lower_char c) a refl
    ∙ neither h k

starts_with-take :
    (p t : Text) (n : ℕ) → starts_with p (lower (take n t)) ≡ true → starts_with p (lower t) ≡ true
unfolding starts_with lower
starts_with-take [] t n h = refl
starts_with-take (x ∷ p) [] zero h = h
starts_with-take (x ∷ p) [] (suc n) h = h
starts_with-take (x ∷ p) (c ∷ t) zero h = ground arith
starts_with-take (x ∷ p) (c ∷ t) (suc n) h = ground (arith, starts_with-take p t n)

has_text-take :
    (p t : Text) (n : ℕ) → has_text p (lower (take n t)) ≡ true → has_text p (lower t) ≡ true
unfolding has_text lower
has_text-take [] t n h = nil_everywhere t
  where
    nil_everywhere : (t : Text) → has_text [] (lower t) ≡ true
    nil_everywhere [] = refl
    nil_everywhere (c ∷ t) = refl
has_text-take (x ∷ p) [] zero h = h
has_text-take (x ∷ p) [] (suc n) h = h
has_text-take (x ∷ p) (c ∷ t) zero h = ground arith
has_text-take (x ∷ p) (c ∷ t) (suc n) h =
    ground (arith, starts_with-take (x ∷ p) (c ∷ t) (suc n), has_text-take (x ∷ p) t n)

IsTagFree-take : (n : ℕ) (t : Text) → IsTagFree t → IsTagFree (take n t)
IsTagFree-take n t h = ground (arith, has_text-take closing_tag t n)

IsTagFree-cut_body : (body : Text) → IsTagFree body → IsTagFree (cut_body body)
unfolding has_text contains lower
IsTagFree-cut_body body h = elim (Bool-cases (ltb max_pr_body_chars (length body))) [
  | inl over ↦ rw over (
      IsTagFree-apart (take max_pr_body_chars body) (codes "..(truncated)") b'.' refl
        (IsTagFree-take max_pr_body_chars body h) refl)
  | inr whole ↦ rw whole h
]

IsTagFree-neutralize : (t : Text) → IsTagFree (neutralize_closing_tag t)
unfolding neutralize_closing_tag
IsTagFree-neutralize t = neutralize_loop-IsTagFree 0 t

unlines : List Text → Text
unlines [] = []
unlines (l ∷ ls) = l ++ (10 ∷ unlines ls)

join-unlines :
    (ls : List Text) (last : Text) → join newline (ls ++ (last ∷ [])) ≡ unlines ls ++ last
unfolding join unlines
join-unlines [] last = refl
join-unlines (l ∷ []) last = sym (append_assoc l newline last)
join-unlines (l ∷ k ∷ ls) last =
    ap (λ u. l ++ (10 ∷ u)) (join-unlines (k ∷ ls) last)
    ∙ sym (append_assoc l (10 ∷ unlines (k ∷ ls)) last)

IsTagFree-unlines : (ls : List Text) → All IsTagFree ls → IsTagFree (unlines ls)
unfolding unlines has_text contains lower
IsTagFree-unlines [] h = refl
IsTagFree-unlines (l ∷ ls) h = IsTagFree-apart l (unlines ls) 10 refl h.0 (IsTagFree-unlines ls h.1)

All-line_unless_empty :
    (label text : Text) → IsTagFree (label ++ text) → All IsTagFree (line_unless_empty label text)
All-line_unless_empty label [] h = tt
All-line_unless_empty label (c ∷ t) h = (h, tt)

IsTagFree-title : (title : Text) → IsTagFree title → IsTagFree (codes "Title: " ++ title)
unfolding has_text contains lower
IsTagFree-title title h = IsTagFree-apart (codes "Title:") title b' ' refl refl h

-- The lines of the description in front of the closing tag.
abbrev inner_lines : Text → Text → List Text
inner_lines title body =
    codes "## PR Description"
    ∷ codes "<pr_description>"
    ∷ (line_unless_empty (codes "Title: ") title ++ line_unless_empty [] (cut_body body))

inner_lines-IsTagFree :
    (title body : Text) → IsTagFree title → IsTagFree body → All IsTagFree (inner_lines title body)
unfolding has_text lower
inner_lines-IsTagFree title body h k = (
  refl,
  (
    refl,
    All-append IsTagFree _ _
        (All-line_unless_empty (codes "Title: ") title (IsTagFree-title title h))
        (All-line_unless_empty [] (cut_body body) (IsTagFree-cut_body body k)),
  ),
)

-- The section on a pull request is empty, or it is a text without a closing tag, in any case of its
-- letters, then the closing tag and a blank line, whatever the title and the body of the request.
pub build_pr_description_section-IsEnclosed :
    (event : ReviewRequestedEvent)
    → (build_pr_description_section event ≡ [])
      ⊎ ((inner : Text) × (build_pr_description_section event
            ≡ inner ++ (closing_tag ++ blank_line))
          × IsTagFree inner)
unfolding build_pr_description_section
build_pr_description_section-IsEnclosed event =
    let title = neutralize_closing_tag (strip event.pr_title) in
    let body = neutralize_closing_tag (strip event.pr_body) in
    elim (Bool-cases (is_nil title && is_nil body)) [
      | inl blank ↦ inl (rw blank refl)
      | inr written ↦ inr (
        unlines (inner_lines title body),
        rw
            (
              written,
              sym (
                  append_assoc (line_unless_empty (codes "Title: ") title)
                    (line_unless_empty [] (cut_body body)) (closing_tag ∷ [])),
            )
            (ap (λ t. t ++ blank_line) (join-unlines (inner_lines title body) closing_tag)
              ∙ append_assoc (unlines (inner_lines title body)) closing_tag blank_line),
        IsTagFree-unlines (inner_lines title body) (
            inner_lines-IsTagFree title body (IsTagFree-neutralize (strip event.pr_title))
              (IsTagFree-neutralize (strip event.pr_body))),
      )
    ]
