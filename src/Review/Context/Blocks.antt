-- ===== src/Review/Context/Blocks.antt =====
-- The blocks of `build_context`.
use mathlib.Core.Path.{subst}
use dovi_ai_server.Base.{
  ℕ, ◌+◌, ◌-◌, ◌≤◌, min, ◌≡◌, refl, ◌⊎◌, inl, inr, true, false, Option, none, some, List, [], ◌∷◌,
  ◌++◌, arith, ltb, leb, ltb→ge, leb→gt, Bool-cases, Option-cases, nat_eq, list_eq, triple_eq,
  length, take, length-append, length-take, keep, All, keep-All, All-sort, Ordered, sort-Ordered,
  Text,
}
use dovi_ai_server.Review.Schema.{ContextFile}
use dovi_ai_server.Review.Budget.{trunc_msg}
use dovi_ai_server.Review.Context.{
  file_header, fit_content, context_blocks, usable_files, is_usable, by_priority,
}

-- The content as it is, or its beginning and the mark of a cut.
abbrev pub IsShown : Text → Text → Type 0
IsShown content shown = (shown ≡ content) ⊎ ((n : ℕ) × (shown ≡ take n content ++ trunc_msg))

abbrev Fitted : ℕ → Text → Option Text → Type 0
Fitted limit content none = Unit
Fitted limit content (some shown) = (length shown ≤ limit) × IsShown content shown

fit_content-Fitted : (limit : ℕ) (content : Text) → Fitted limit content (fit_content limit content)
unfolding fit_content
fit_content-Fitted limit content = elim (Bool-cases (ltb limit (length content))) [
  | inr whole ↦ rw whole (ltb→ge limit (length content) whole, inl refl)
  | inl over ↦ elim (Bool-cases (ltb limit (length trunc_msg))) [
    | inl short ↦ rw (over, short) tt
    | inr long ↦
        rw (over, long)
          (
            omega (
              arith,
              length-append (take (limit - length trunc_msg) content) trunc_msg,
              length-take (limit - length trunc_msg) content,
              ltb→ge limit (length trunc_msg) long,
            ),
            inr (limit - length trunc_msg, refl),
          )
  ]
]

-- The blocks are, one for one, of the first of the files: the header of the file and its content,
-- which may be cut, of at most `max_file` characters.
pub data Blocks (max_file : ℕ) : List ContextFile → List Text → Type 0 where
  ended : (fs : List ContextFile) → Blocks max_file fs []
  shown :
      (f : ContextFile) (fs : List ContextFile) (content : Text) (blocks : List Text)
      → length content ≤ max_file
      → IsShown f.content content
      → Blocks max_file fs blocks
      → Blocks max_file (f ∷ fs) ((file_header f ++ content) ∷ blocks)

abbrev pub total_length : List Text → ℕ
total_length [] = 0
total_length (b ∷ bs) = length b + total_length bs

module _ (max_file max_total : ℕ) where
  fitted_of :
      (limit : ℕ) (content text : Text)
      → fit_content limit content ≡ some text
      → (length text ≤ limit) × IsShown content text
  fitted_of limit content text e = subst (Fitted limit content) e (fit_content-Fitted limit content)

  context_blocks-Blocks :
      (total : ℕ) (fs : List ContextFile)
      → total ≤ max_total
      → Blocks max_file fs (context_blocks max_file max_total total fs)
        × (total + total_length (context_blocks max_file max_total total fs) ≤ max_total)
  unfolding context_blocks
  context_blocks-Blocks total [] h = (ended [], omega arith)
  context_blocks-Blocks total (f ∷ fs) h =
      let remaining = max_total - total - length (file_header f) in
      elim (Option-cases (fit_content (min max_file remaining) f.content)) [
        | inl cut_off ↦ rw (cut_off, context_blocks) (ended _, omega arith)
        | inr (content, fits) ↦ elim (Bool-cases (leb remaining 0)) [
          | inl over ↦ rw (fits, over, context_blocks) (ended _, omega arith)
          | inr left ↦
              let fitted = fitted_of (min max_file remaining) f.content content fits in
              let bound : total + length (file_header f ++ content) ≤ max_total =
                omega (
                  arith,
                  fitted.0,
                  leb→gt remaining 0 left,
                  length-append (file_header f) content,
                ) in
              let rest =
                context_blocks-Blocks (total + length (file_header f ++ content)) fs bound in
              rw (fits, left, context_blocks)
                (
                  shown f fs content _ (omega (arith, fitted.0)) fitted.1 rest.0,
                  omega (arith, rest.1),
                )
        ]
      ]

  by_priority_trans :
      (f g h : ContextFile)
      → by_priority f g ≡ true
      → by_priority g h ≡ true
      → by_priority f h ≡ true
  by_priority_trans f g h a b = ground arith

  by_priority_total : (f g : ContextFile) → by_priority f g ≡ false → by_priority g f ≡ true
  by_priority_total f g a = ground arith

  -- The blocks of the project context, before they are joined, have at most `max_total` characters
  -- in all; they are, one for one, of the first of the usable files, each the header of its file
  -- and its content, which may be cut, of at most `max_file` characters; and the usable files are
  -- neither secret nor excluded and are ordered by priority.
  pub build_context-Blocks :
      (context_files : List ContextFile)
      → let usable = usable_files context_files in
        let blocks = context_blocks max_file max_total 0 usable in
        (total_length blocks ≤ max_total)
        × Blocks max_file usable blocks
        × All (λ f. is_usable f ≡ true) usable
        × Ordered by_priority usable
  unfolding usable_files
  build_context-Blocks context_files =
      let found = context_blocks-Blocks 0 (usable_files context_files) (omega arith) in
      (
        omega (arith, found.1),
        found.0,
        All-sort by_priority _ _ (keep-All is_usable context_files),
        sort-Ordered by_priority by_priority_trans by_priority_total (keep is_usable context_files),
      )
