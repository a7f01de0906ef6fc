-- ===== src/Review/Hunk/Sizes.antt =====
-- The sizes of the pieces of `split_hunk`.
use dovi_ai_server.Base.{
  ℕ, ◌+◌, ◌≤◌, ◌≡◌, refl, ◌⊎◌, inl, inr, true, false, List, [], ◌∷◌, ◌++◌, arith, if◌then◌else◌,
  Bool-cases, nat_eq, list_eq, triple_eq, length, is_nil, All, Text,
}
use dovi_ai_server.Review.Hunk.{SplitState, flush, is_marker, push, must_flush, split_loop}

-- The lines that are no `\ No newline` markers, and their lengths with a newline each.
abbrev pub code_size : List Text → ℕ
code_size [] = 0
code_size (l ∷ ls) = (if is_marker l then 0 else length l + 1) + code_size ls

abbrev pub code_lines : List Text → ℕ
code_lines [] = 0
code_lines (l ∷ ls) = (if is_marker l then 0 else 1) + code_lines ls

code_size-snoc :
    (xs : List Text) (l : Text)
    → code_size (xs ++ (l ∷ [])) ≡ code_size xs + (if is_marker l then 0 else length l + 1)
code_size-snoc [] l = omega arith
code_size-snoc (x ∷ xs) l = omega (arith, code_size-snoc xs l)

code_lines-snoc :
    (xs : List Text) (l : Text)
    → code_lines (xs ++ (l ∷ [])) ≡ code_lines xs + (if is_marker l then 0 else 1)
code_lines-snoc [] l = omega arith
code_lines-snoc (x ∷ xs) l = omega (arith, code_lines-snoc xs l)

-- A body within the limit, or with no more than one line of code.
abbrev pub Fits : ℕ → List Text → Type 0
Fits limit body = (code_size body ≤ limit) ⊎ (code_lines body ≤ 1)

module _ (limit : ℕ) where
  record IsFitting (s : SplitState) : Type 0 where
    fits : Fits limit s.current
    counted : code_size s.current ≤ s.current_len
    nothing : is_nil s.current ≡ true → code_lines s.current ≡ 0

  is_nil-snoc : (xs : List Text) (l : Text) → is_nil (xs ++ (l ∷ [])) ≡ false
  is_nil-snoc [] l = refl
  is_nil-snoc (x ∷ xs) l = refl

  none_in_nil : (xs : List Text) → is_nil xs ≡ true → code_lines xs ≡ 0
  none_in_nil [] h = refl
  none_in_nil (x ∷ xs) h = cc

  push-IsFitting :
      {s : SplitState} (line : Text)
      → must_flush limit s line ≡ false
      → IsFitting s
      → IsFitting (push s line)
  unfolding push
  push-IsFitting {s} line stay f = record {
    fits = ground (
      arith,
      code_size-snoc s.current line,
      code_lines-snoc s.current line,
      none_in_nil s.current,
      f.fits,
      f.counted,
    );
    counted = ground (arith, code_size-snoc s.current line, f.counted);
    nothing = λ e. cc (e, is_nil-snoc s.current line);
  }

  flush-IsFitting : (s : SplitState) → IsFitting (flush s)
  flush-IsFitting s = record {
    fits = inr (omega arith);
    counted = omega arith;
    nothing = λ e. refl;
  }

  split_loop-Fits_from :
      (s : SplitState) (lines : List Text)
      → IsFitting s
      → All (λ p. Fits limit p.body) (split_loop limit s lines)
  unfolding split_loop push
  split_loop-Fits_from s [] f = elim (Bool-cases (is_nil s.current)) [
    | inl e ↦ rw e tt
    | inr e ↦ rw e (f.fits, tt)
  ]
  split_loop-Fits_from s (line ∷ lines) f = elim (Bool-cases (must_flush limit s line)) [
    | inl cut ↦ rw cut (
      f.fits,
      split_loop-Fits_from (push (flush s) line) lines
          (push-IsFitting line refl (flush-IsFitting s)),
    )
    | inr stay ↦ rw stay (split_loop-Fits_from (push s line) lines (push-IsFitting line stay f))
  ]

  -- From a state that holds no line, every piece of `split_hunk`'s loop has a body whose lines,
  -- with a newline each and the markers of a missing newline left out, keep within the limit, or
  -- a body of one such line at most.
  pub split_loop-Fits :
      (s : SplitState) (lines : List Text)
      → s.current ≡ []
      → All (λ p. Fits limit p.body) (split_loop limit s lines)
  split_loop-Fits s lines e = split_loop-Fits_from s lines (record {
    fits = rw e (inr (omega arith));
    counted = rw e (omega arith);
    nothing = λ h. rw e refl;
  })
