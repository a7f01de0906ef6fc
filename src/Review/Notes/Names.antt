-- ===== src/Review/Notes/Names.antt =====
-- The short names of `_short_names`.
use mathlib.Core.Path.{subst, subst⁻¹}
use dovi_ai_server.Base.{
  ℕ, zero, suc, ◌+◌, ◌-◌, ◌≤◌, ◌<◌, ◌≡◌, refl, sym, ap, ap₂, ◌∙◌, inl, inr, true, false, List, [],
  ◌∷◌, map, arith, ltb, if◌then◌else◌, Bool-cases, ◌==◌, nat_eq, list_eq, triple_eq, ==_refl,
  ==_sound, ==_complete, length, drop, is_nil, any, All, contains, count, Distinct, Text, codes,
  cons_head, split_on, join,
}
use dovi_ai_server.Review.Notes.{
  Entry, name_of, names_of, can_grow, grow, short_loop, start_entries, count_parts, short_names,
}

-- How far the depths are from the numbers of parts.
room : List Entry → ℕ
room [] = 0
room (e ∷ es) = (length e.parts - e.depth) + room es

room-grow :
    (names : List Text) (es : List Entry)
    → room (map (grow names) es) + (if any (can_grow names) es then 1 else 0) ≤ room es
unfolding room any grow can_grow
room-grow names [] = omega arith
room-grow names (e ∷ es) = elim (Bool-cases (can_grow names e)) [
  | inl grows ↦
      let deeper : e.depth < length e.parts = ground arith in
      rw grows (ground (arith, room-grow names es))
  | inr stays ↦ rw stays (omega (arith, room-grow names es))
]

-- No name that stands twice can be made longer.
abbrev pub IsSettled : List Entry → Type 0
IsSettled es = any (can_grow (names_of es)) es ≡ false

room_shrinks :
    (es : List Entry)
    → any (can_grow (names_of es)) es ≡ true
    → room (map (grow (names_of es)) es) < room es
room_shrinks es grows =
    let step : room (map (grow (names_of es)) es) + 1 ≤ room es =
      subst (λ b. room (map (grow (names_of es)) es) + (if b then 1 else 0) ≤ room es) grows
        (room-grow (names_of es) es) in
    omega arith

short_loop-IsSettled :
    (fuel : ℕ) (es : List Entry) → room es ≤ fuel → IsSettled (short_loop fuel es)
unfolding short_loop
short_loop-IsSettled zero es h = elim (Bool-cases (any (can_grow (names_of es)) es)) [
  | inl grows ↦ absurd (omega (arith, room_shrinks es grows))
  | inr settled ↦ settled
]
short_loop-IsSettled (suc fuel) es h = elim (Bool-cases (any (can_grow (names_of es)) es)) [
  | inl grows ↦ rw grows (
      short_loop-IsSettled fuel (map (grow (names_of es)) es)
        (omega (arith, room_shrinks es grows)))
  | inr settled ↦ rw settled settled
]

room_start : (paths : List Text) → room (start_entries paths) ≤ count_parts (start_entries paths)
unfolding room
room_start [] = omega arith
room_start (path ∷ paths) = omega (arith, room_start paths)

-- The rounds that `_short_names` makes are enough for any paths: at the end no name that stands
-- twice can be made longer, which is where the loop of the code ends.
pub short_names-IsSettled :
    (paths : List Text)
    → IsSettled (short_loop (count_parts (start_entries paths)) (start_entries paths))
short_names-IsSettled paths =
    short_loop-IsSettled (count_parts (start_entries paths)) (start_entries paths)
      (room_start paths)

whole_name : Entry → Text
whole_name e = join (codes "/") e.parts

grow-whole : (names : List Text) (e : Entry) → whole_name (grow names e) ≡ whole_name e
unfolding grow whole_name
grow-whole names e = elim (Bool-cases (can_grow names e)) [
  | inl grows ↦ rw grows refl
  | inr stays ↦ rw stays refl
]

short_loop-whole :
    (fuel : ℕ) (es : List Entry) → map whole_name (short_loop fuel es) ≡ map whole_name es
unfolding short_loop
short_loop-whole zero es = refl
short_loop-whole (suc fuel) es = elim (Bool-cases (any (can_grow (names_of es)) es)) [
  | inl grows ↦
      rw grows (short_loop-whole fuel (map (grow (names_of es)) es) ∙ whole_all (names_of es) es)
  | inr settled ↦ rw settled refl
]
  where
    whole_all :
        (names : List Text) (es : List Entry)
        → map whole_name (map (grow names) es) ≡ map whole_name es
    whole_all names [] = refl
    whole_all names (e ∷ es) = ap₂ ◌∷◌ (grow-whole names e) (whole_all names es)

join-cons_head :
    (c : ℕ) (ls : List Text)
    → is_nil ls ≡ false
    → join (b'/' ∷ []) (cons_head c ls) ≡ c ∷ join (b'/' ∷ []) ls
unfolding join
join-cons_head c [] h = ground arith
join-cons_head c (l ∷ []) h = refl
join-cons_head c (l ∷ k ∷ ls) h = refl

is_nil-split_on : (t : Text) → is_nil (split_on b'/' t) ≡ false
unfolding split_on
is_nil-split_on [] = refl
is_nil-split_on (c ∷ t) = elim (Bool-cases (c == b'/')) [
  | inl slash ↦ rw slash refl
  | inr other ↦ rw other (is_nil-cons_head c (split_on b'/' t))
]
  where
    is_nil-cons_head : (c : ℕ) (ls : List Text) → is_nil (cons_head c ls) ≡ false
    is_nil-cons_head c [] = refl
    is_nil-cons_head c (l ∷ ls) = refl

join-slash :
    (ls : List Text) → is_nil ls ≡ false → join (b'/' ∷ []) ([] ∷ ls) ≡ b'/' ∷ join (b'/' ∷ []) ls
unfolding join
join-slash [] h = ground arith
join-slash (l ∷ ls) h = refl

join-split_on : (t : Text) → join (b'/' ∷ []) (split_on b'/' t) ≡ t
unfolding join split_on
join-split_on [] = refl
join-split_on (c ∷ t) = elim (Bool-cases (c == b'/')) [
  | inl slash ↦ rw slash (
      join-slash (split_on b'/' t) (is_nil-split_on t)
      ∙ ap₂ ◌∷◌ (sym (==_sound c b'/' slash)) (join-split_on t))
  | inr other ↦
      rw other
        (join-cons_head c (split_on b'/' t) (is_nil-split_on t) ∙ ap (λ u. c ∷ u) (join-split_on t))
]

whole_start : (paths : List Text) → map whole_name (start_entries paths) ≡ paths
unfolding whole_name
whole_start [] = refl
whole_start (path ∷ paths) = ap₂ ◌∷◌ (join-split_on path) (whole_start paths)

-- Where a short name stands twice, it is the whole path.
abbrev IsWholeIfTwice : List Text → Entry → Type 0
IsWholeIfTwice names e = ltb 1 (count (name_of e) names) ≡ true → name_of e ≡ whole_name e

settled-whole : (names : List Text) (e : Entry) → can_grow names e ≡ false → IsWholeIfTwice names e
unfolding can_grow name_of whole_name
settled-whole names e h twice =
    let deep : length e.parts - e.depth ≡ 0 = ground arith in
    ap (λ n. join (codes "/") (drop n e.parts)) deep

All-settled :
    (names : List Text) (es : List Entry)
    → any (can_grow names) es ≡ false
    → All (IsWholeIfTwice names) es
unfolding any
All-settled names [] h = tt
All-settled names (e ∷ es) h =
    (settled-whole names e (ground arith), All-settled names es (ground arith))

contains-count : (t : Text) (ts : List Text) → contains ts t ≡ true → 1 ≤ count t ts
unfolding contains count
contains-count t [] h = ground arith
contains-count t (u ∷ ts) h = ground (arith, contains-count t ts)

-- A name that stands twice in all, and among some entries, is the path of one of these.
contains-whole :
    (names : List Text) (t : Text) (es : List Entry)
    → All (IsWholeIfTwice names) es
    → ltb 1 (count t names) ≡ true
    → contains (names_of es) t ≡ true
    → contains (map whole_name es) t ≡ true
unfolding contains
contains-whole names t [] h twice k = k
contains-whole names t (e ∷ es) h twice k = elim (Bool-cases (name_of e == t)) [
  | inl here ↦
      let name : name_of e ≡ t = ==_sound (name_of e) t here in
      let whole : whole_name e ≡ t =
        sym (h.0 (subst⁻¹ (λ n. ltb 1 (count n names) ≡ true) name twice)) ∙ name in
      ground (arith, ==_complete (whole_name e) t whole)
  | inr later ↦ ground (arith, contains-whole names t es h.1 twice)
]

names-Distinct :
    (names : List Text) (es : List Entry)
    → All (IsWholeIfTwice names) es
    → ((t : Text) → count t (names_of es) ≤ count t names)
    → Distinct (map whole_name es)
    → Distinct (names_of es)
unfolding count
names-Distinct names [] h few d = tt
names-Distinct names (e ∷ es) h few d = (
  elim (Bool-cases (contains (names_of es) (name_of e))) [
    | inr fresh ↦ fresh
    | inl again ↦
        let twice = twice_of again in
        let shared : contains (map whole_name es) (whole_name e) ≡ true =
          subst (λ n. contains (map whole_name es) n ≡ true) (h.0 twice)
            (contains-whole names (name_of e) es h.1 twice again) in
        absurd (ground (arith, shared, d.0))
  ],
  names-Distinct names es h.1 (λ t. omega (arith, few t)) d.1,
)
  where
    twice_of : contains (names_of es) (name_of e) ≡ true → ltb 1 (count (name_of e) names) ≡ true
    twice_of again =
        let one : ◌≡◌ {A = ℕ} (if name_of e == name_of e then 1 else 0) 1 =
          ap (λ b. if b then 1 else 0) (==_refl (name_of e)) in
        ground (arith, few (name_of e), one, contains-count (name_of e) (names_of es) again)

-- Distinct paths get distinct short names.
pub short_names-Distinct : (paths : List Text) → Distinct paths → Distinct (short_names paths)
unfolding short_names
short_names-Distinct paths d =
    let es = short_loop (count_parts (start_entries paths)) (start_entries paths) in
    names-Distinct (names_of es) es (All-settled (names_of es) es (short_names-IsSettled paths))
      (λ t. omega arith)
      (subst⁻¹ Distinct
        (short_loop-whole (count_parts (start_entries paths)) (start_entries paths)
          ∙ whole_start paths)
        d)
