-- ===== src/Llm/Partial/Items.antt =====
-- The items of an array that `_extract_array_item_strings` takes.
use mathlib.Core.List.{append_assoc}
use dovi_ai_server.Base.{
  ℕ, zero, suc, ◌≡◌, refl, ap, ◌∙◌, inl, inr, false, some, List, [], ◌∷◌, ◌++◌, map, arith,
  Bool-cases, ◌==◌, nat_eq, list_eq, triple_eq, All, Text,
}
use dovi_ai_server.Llm.Partial.Scan.{
  scan, IsObject, IsBegun, IsWhole, IsCutOff, IsObject-IsWhole, IsBegun-IsCutOff,
}
use dovi_ai_server.Llm.Partial.{
  Mode, outside, inside, escaped, quote, is_open, is_close, string_step, item_loop,
  extract_array_item_strings,
}

-- Inside an item, the loop gathers the characters until the depth is 0.
gather :
    (mode : Mode) (depth : ℕ) (item body rest : Text)
    → scan mode (suc depth) body ≡ some (outside, 0)
    → item_loop mode (suc depth) item (body ++ rest)
      ≡ (item ++ body) ∷ item_loop outside 0 (item ++ body) rest
unfolding scan item_loop
gather outside depth item [] rest h = absurd (ground arith)
gather inside depth item [] rest h = absurd (ground arith)
gather escaped depth item [] rest h = absurd (ground arith)
gather inside depth item (c ∷ body) rest h =
    rw (← append_assoc item (c ∷ []) body)
      (gather (string_step inside c) depth (item ++ (c ∷ [])) body rest h)
gather escaped depth item (c ∷ body) rest h =
    rw (← append_assoc item (c ∷ []) body)
      (gather (string_step escaped c) depth (item ++ (c ∷ [])) body rest h)
gather outside zero item (c ∷ body) rest h = elim (Bool-cases (c == quote)) [
  | inl q ↦
      rw (q, ← append_assoc item (c ∷ []) body)
        (gather inside zero (item ++ (c ∷ [])) body rest (rw (q, scan) at h))
  | inr q ↦ elim (Bool-cases (is_open c)) [
    | inl o ↦
        rw (q, o, ← append_assoc item (c ∷ []) body)
          (gather outside 1 (item ++ (c ∷ [])) body rest (rw (q, o, scan) at h))
    | inr o ↦ elim (Bool-cases (is_close c)) [
      | inl k ↦ rw (q, o, k) (finished body (rw (q, o, k, scan) at h))
      | inr k ↦
          rw (q, o, k, ← append_assoc item (c ∷ []) body)
            (gather outside zero (item ++ (c ∷ [])) body rest (rw (q, o, k, scan) at h))
    ]
  ]
]
  where
    finished :
        (body : Text)
        → scan outside 0 body ≡ some (outside, 0)
        → ◌≡◌ {A = List Text}
            ((item ++ (c ∷ [])) ∷ item_loop outside 0 (item ++ (c ∷ [])) (body ++ rest))
            ((item ++ (c ∷ body)) ∷ item_loop outside 0 (item ++ (c ∷ body)) rest)
    finished [] e = refl
    finished (d ∷ body) e = cc
gather outside (suc depth) item (c ∷ body) rest h = elim (Bool-cases (c == quote)) [
  | inl q ↦
      rw (q, ← append_assoc item (c ∷ []) body)
        (gather inside (suc depth) (item ++ (c ∷ [])) body rest (rw (q, scan) at h))
  | inr q ↦ elim (Bool-cases (is_open c)) [
    | inl o ↦
        rw (q, o, ← append_assoc item (c ∷ []) body)
          (gather outside (suc (suc depth)) (item ++ (c ∷ [])) body rest (rw (q, o, scan) at h))
    | inr o ↦ elim (Bool-cases (is_close c)) [
      | inl k ↦
          let z : (suc depth == 0) ≡ false = ground arith in
          rw (q, o, k, z, ← append_assoc item (c ∷ []) body)
            (gather outside depth (item ++ (c ∷ [])) body rest (rw (q, o, k, scan) at h))
      | inr k ↦
          rw (q, o, k, ← append_assoc item (c ∷ []) body)
            (gather outside (suc depth) (item ++ (c ∷ [])) body rest (rw (q, o, k, scan) at h))
    ]
  ]
]

-- Inside an item that is cut off, nothing is found.
lost :
    (mode : Mode) (depth : ℕ) (item body : Text) (m : Mode) (d : ℕ)
    → scan mode (suc depth) body ≡ some (m, suc d)
    → item_loop mode (suc depth) item body ≡ []
unfolding scan item_loop
lost mode depth item [] m d h = refl
lost inside depth item (c ∷ body) m d h =
    lost (string_step inside c) depth (item ++ (c ∷ [])) body m d h
lost escaped depth item (c ∷ body) m d h =
    lost (string_step escaped c) depth (item ++ (c ∷ [])) body m d h
lost outside zero item (c ∷ body) m d h = elim (Bool-cases (c == quote)) [
  | inl q ↦ rw q (lost inside zero (item ++ (c ∷ [])) body m d (rw (q, scan) at h))
  | inr q ↦ elim (Bool-cases (is_open c)) [
    | inl o ↦ rw (q, o) (lost outside 1 (item ++ (c ∷ [])) body m d (rw (q, o, scan) at h))
    | inr o ↦ elim (Bool-cases (is_close c)) [
      | inl k ↦ absurd (ended body (rw (q, o, k, scan) at h))
      | inr k ↦
          rw (q, o, k) (lost outside zero (item ++ (c ∷ [])) body m d (rw (q, o, k, scan) at h))
    ]
  ]
]
  where
    ended : (body : Text) → scan outside 0 body ≡ some (m, suc d) → ⊥
    ended [] e = ground arith
    ended (b ∷ body) e = cc
lost outside (suc depth) item (c ∷ body) m d h = elim (Bool-cases (c == quote)) [
  | inl q ↦ rw q (lost inside (suc depth) (item ++ (c ∷ [])) body m d (rw (q, scan) at h))
  | inr q ↦ elim (Bool-cases (is_open c)) [
    | inl o ↦
        rw (q, o)
          (lost outside (suc (suc depth)) (item ++ (c ∷ [])) body m d (rw (q, o, scan) at h))
    | inr o ↦ elim (Bool-cases (is_close c)) [
      | inl k ↦
          let z : (suc depth == 0) ≡ false = ground arith in
          rw (q, o, k, z) (lost outside depth (item ++ (c ∷ [])) body m d (rw (q, o, k, scan) at h))
      | inr k ↦
          rw (q, o, k)
            (lost outside (suc depth) (item ++ (c ∷ [])) body m d (rw (q, o, k, scan) at h))
    ]
  ]
]

-- Between the items stand commas and spaces: nothing that opens a string or an object, or closes
-- the array.
abbrev pub IsSeparator : Text → Type 0
IsSeparator = All (λ c. ((c == b'"') ≡ false) × ((c == b'{') ≡ false) × ((c == b']') ≡ false))

skip_separator :
    (sep item rest : Text)
    → IsSeparator sep
    → item_loop outside 0 item (sep ++ rest) ≡ item_loop outside 0 item rest
unfolding item_loop
skip_separator [] item rest h = refl
skip_separator (c ∷ sep) item rest ((q, o, k), h) = rw (q, o, k) (skip_separator sep item rest h)

-- The text of an array: separators and items in turn.
unfoldable pub array_text : List (Text × Text) → Text → Text
array_text [] tail = tail
array_text ((sep, item) ∷ rest) tail = sep ++ (item ++ array_text rest tail)

abbrev pub IsArray : List (Text × Text) → Type 0
IsArray = All (λ (sep, item). IsSeparator sep × IsObject item)

whole_item :
    (old item rest : Text)
    → IsWhole item
    → item_loop outside 0 old (item ++ rest) ≡ item ∷ item_loop outside 0 item rest
unfolding item_loop
whole_item old [] rest h = absurd h
whole_item old (c ∷ t) rest (e, h) = rw e (gather outside 0 (b'{' ∷ []) t rest h)

cut_off_item : (old item : Text) → IsCutOff item → item_loop outside 0 old item ≡ []
unfolding item_loop
cut_off_item old [] h = refl
cut_off_item old (c ∷ t) (e, m, d, h) = rw e (lost outside 0 (b'{' ∷ []) t m d h)

extract_from :
    (old : Text) (items : List (Text × Text)) (sep tail : Text)
    → IsArray items
    → IsSeparator sep
    → IsBegun tail
    → item_loop outside 0 old (array_text items (sep ++ tail)) ≡ map (λ (sep, item). item) items
unfolding array_text
extract_from old [] sep tail h k c =
    skip_separator sep old tail k ∙ cut_off_item old tail (IsBegun-IsCutOff tail c)
extract_from old ((s, item) ∷ items) sep tail (h, hs) k c =
    skip_separator s old _ h.0
    ∙ whole_item old item _ (IsObject-IsWhole item h.1)
    ∙ ap (λ l. item ∷ l) (extract_from item items sep tail hs k c)

-- From the text of an array that breaks off, `_extract_array_item_strings` returns exactly the
-- objects that are whole, in order: where between separators (no quote, opening brace or closing
-- bracket) stand whole objects of JSON, which are braces, brackets that match, strings with escaped
-- characters, and other characters between them, and at the end nothing or the beginning of such
-- an object.
pub extract_array_item_strings_exact :
    (items : List (Text × Text)) (sep tail : Text)
    → IsArray items
    → IsSeparator sep
    → IsBegun tail
    → extract_array_item_strings (array_text items (sep ++ tail)) ≡ map (λ (sep, item). item) items
unfolding extract_array_item_strings
extract_array_item_strings_exact items sep tail h k c = extract_from [] items sep tail h k c
