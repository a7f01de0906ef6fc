-- ===== src/Llm/Partial/Scan.antt =====
-- Whole objects of JSON, as a grammar of braces, brackets and strings, and what a count of the depth
-- finds in them.
use mathlib.Core.List.{append_assoc}
use mathlib.Core.Path.{subst}
use dovi_ai_server.Base.{
  ℕ, zero, suc, ◌≡◌, refl, sym, ◌∙◌, inl, inr, false, Option, none, some, [], ◌∷◌, ◌++◌,
  if◌then◌else◌, Bool-cases, ◌==◌, nat_eq, list_eq, triple_eq, Text,
}
use dovi_ai_server.Llm.Partial.{
  Mode, outside, inside, escaped, quote, is_open, is_close, string_step,
}

-- What stands behind the opening quote of a string, its closing quote last: a backslash takes the
-- character behind it along, and no other quote stands in it.
pub data InString : Text → Type 0 where
  string_end : InString (b'"' ∷ [])
  string_char :
      (c : ℕ) (t : Text)
      → (c == b'"') ≡ false
      → (c == b'\\') ≡ false
      → InString t
      → InString (c ∷ t)
  string_escape : (c : ℕ) (t : Text) → InString t → InString (b'\\' ∷ c ∷ t)

-- Characters, strings, and objects and arrays whose braces and brackets match.
pub data Balanced : Text → Type 0 where
  nothing : Balanced []
  plain :
      (c : ℕ) (t : Text)
      → (c == b'"') ≡ false
      → (c == b'{') ≡ false
      → (c == b'[') ≡ false
      → (c == b'}') ≡ false
      → (c == b']') ≡ false
      → Balanced t
      → Balanced (c ∷ t)
  string : (s t : Text) → InString s → Balanced t → Balanced (b'"' ∷ (s ++ t))
  object : (body t : Text) → Balanced body → Balanced t → Balanced (b'{' ∷ (body ++ (b'}' ∷ t)))
  array : (body t : Text) → Balanced body → Balanced t → Balanced (b'[' ∷ (body ++ (b']' ∷ t)))

-- A whole object.
abbrev pub IsObject : Text → Type 0
IsObject text = (body : Text) × (text ≡ b'{' ∷ (body ++ (b'}' ∷ []))) × Balanced body

-- Nothing, or the beginning of an object whose end is missing.
abbrev pub IsBegun : Text → Type 0
IsBegun [] = Unit
IsBegun (c ∷ t) = (d : ℕ) × (u : Text) × IsObject ((c ∷ t) ++ (d ∷ u))

-- The depth and the mode behind a text that does not bring the depth to 0, if it does not.
unfoldable pub scan : Mode → ℕ → Text → Option (Mode × ℕ)
unfolding string_step
scan mode depth [] = some (mode, depth)
scan outside zero (c ∷ t) = none
scan outside (suc depth) (c ∷ t) =
    let string = scan inside (suc depth) t in
    let deeper = scan outside (suc (suc depth)) t in
    let closed = scan outside depth t in
    let next = scan outside (suc depth) t in
    if c == quote then string else if is_open c then deeper else if is_close c then closed else next
scan inside depth (c ∷ t) = scan (string_step inside c) depth t
scan escaped depth (c ∷ t) = scan (string_step escaped c) depth t

-- An object that is whole: it opens with a brace, and its depth comes to 0 at its end only.
abbrev pub IsWhole : Text → Type 0
IsWhole [] = ⊥
IsWhole (c ∷ t) = (c ≡ b'{') × (scan outside 1 t ≡ some (outside, 0))

-- A text in which the depth never comes to 0.
abbrev pub IsCutOff : Text → Type 0
IsCutOff [] = Unit
IsCutOff (c ∷ t) = (c ≡ b'{') × (m : Mode) × (d : ℕ) × (scan outside 1 t ≡ some (m, suc d))

scan-InString :
    (s t : Text) (d : ℕ) → InString s → scan inside (suc d) (s ++ t) ≡ scan outside (suc d) t
unfolding scan string_step
scan-InString s t d string_end = refl
scan-InString s t d (string_char c r q b h) = rw (b, q, scan, string_step) (scan-InString r t d h)
scan-InString s t d (string_escape c r h) = scan-InString r t d h

scan-Balanced :
    (b t : Text) (d : ℕ) → Balanced b → scan outside (suc d) (b ++ t) ≡ scan outside (suc d) t
unfolding scan
scan-Balanced b t d nothing = refl
scan-Balanced b t d (plain c r q o a p e h) = rw (q, o, a, p, e) (scan-Balanced r t d h)
scan-Balanced b t d (string s r k h) =
    rw (append_assoc s r t) (scan-InString s (r ++ t) d k ∙ scan-Balanced r t d h)
scan-Balanced b t d (object body r k h) =
    rw (append_assoc body (b'}' ∷ r) t)
      (scan-Balanced body (b'}' ∷ (r ++ t)) (suc d) k ∙ scan-Balanced r t d h)
scan-Balanced b t d (array body r k h) =
    rw (append_assoc body (b']' ∷ r) t)
      (scan-Balanced body (b']' ∷ (r ++ t)) (suc d) k ∙ scan-Balanced r t d h)

pub IsObject-IsWhole : (text : Text) → IsObject text → IsWhole text
unfolding scan
IsObject-IsWhole text (body, e, h) =
    subst IsWhole (sym e) (refl, scan-Balanced body (b'}' ∷ []) 0 h)

-- In front of the end of what comes to depth 0 at its end, the depth is not 0.
scan-before :
    (mode : Mode) (depth : ℕ) (t : Text) (c : ℕ) (u : Text)
    → scan mode (suc depth) (t ++ (c ∷ u)) ≡ some (outside, 0)
    → (m : Mode) × (d : ℕ) × (scan mode (suc depth) t ≡ some (m, suc d))
unfolding scan
scan-before mode depth [] c u h = (mode, depth, refl)
scan-before inside depth (b ∷ t) c u h = scan-before (string_step inside b) depth t c u h
scan-before escaped depth (b ∷ t) c u h = scan-before (string_step escaped b) depth t c u h
scan-before outside zero (b ∷ t) c u h = elim (Bool-cases (b == quote)) [
  | inl q ↦ rw q (scan-before inside zero t c u (rw (q, scan) at h))
  | inr q ↦ elim (Bool-cases (is_open b)) [
    | inl o ↦ rw (q, o) (scan-before outside (suc zero) t c u (rw (q, o, scan) at h))
    | inr o ↦ elim (Bool-cases (is_close b)) [
      | inl k ↦ absurd (ended t (rw (q, o, k, scan) at h))
      | inr k ↦ rw (q, o, k) (scan-before outside zero t c u (rw (q, o, k, scan) at h))
    ]
  ]
]
  where
    ended : (t : Text) → scan outside 0 (t ++ (c ∷ u)) ≡ some (outside, 0) → ⊥
    ended [] e = cc
    ended (b ∷ t) e = cc
scan-before outside (suc depth) (b ∷ t) c u h = elim (Bool-cases (b == quote)) [
  | inl q ↦ rw q (scan-before inside (suc depth) t c u (rw (q, scan) at h))
  | inr q ↦ elim (Bool-cases (is_open b)) [
    | inl o ↦ rw (q, o) (scan-before outside (suc (suc depth)) t c u (rw (q, o, scan) at h))
    | inr o ↦ elim (Bool-cases (is_close b)) [
      | inl k ↦ rw (q, o, k) (scan-before outside depth t c u (rw (q, o, k, scan) at h))
      | inr k ↦ rw (q, o, k) (scan-before outside (suc depth) t c u (rw (q, o, k, scan) at h))
    ]
  ]
]

pub IsBegun-IsCutOff : (t : Text) → IsBegun t → IsCutOff t
IsBegun-IsCutOff [] h = tt
IsBegun-IsCutOff (c ∷ t) (d, u, whole) =
    let (brace, counted) = IsObject-IsWhole ((c ∷ t) ++ (d ∷ u)) whole in
    let (m, n, before) = scan-before outside 0 t d u counted in (brace, m, n, before)
