-- ===== src/Review/Chunks/Merged.antt =====
-- `merge_small_chunks` in app/review/chunking.py: small neighbouring chunks become one.
use mathlib.Core.List.{flat_map, flatten, append_assoc, Perm}
use dovi_ai_server.Base.{
  ℕ, ◌+◌, ◌≤◌, ◌<◌, max, ◌≡◌, refl, ap, ◌∙◌, inl, inr, Bool, true, false, not, ◌&&◌, Option, none,
  some, List, [], ◌∷◌, ◌++◌, map, arith, leb, if◌then◌else◌, leb→gt, Bool-cases, nat_eq, list_eq,
  triple_eq, length, is_nil, All, All-append, All-map_of, sort, sort-perm, codes, join,
}
use dovi_ai_server.Review.Budget.{blank_line}
use dovi_ai_server.Review.Chunks.{AstChunk}

-- The buffer of `merge_small_chunks`, with its size and its last line; `-1` is no line.
pub record Buffer : Type 0 where
  pub chunks : List AstChunk
  pub end_line : Option ℕ
  pub size : ℕ

abbrev pub empty_buffer : Buffer
empty_buffer = record { chunks = []; end_line = none; size = 0 }

abbrev pub last_line : List AstChunk → ℕ
last_line [] = 0
last_line (c ∷ []) = c.end_line
last_line (c ∷ d ∷ cs) = last_line (d ∷ cs)

-- What `flush` appends to `merged`.
abbrev pub merged_chunk : List AstChunk → List AstChunk
merged_chunk [] = []
merged_chunk (c ∷ []) = c ∷ []
merged_chunk (c ∷ d ∷ cs) =
    record {
      node_type = codes "merged";
      name = none;
      start_line = c.start_line;
      end_line = last_line (c ∷ d ∷ cs);
      source = join blank_line (map (λ x. x.source) (c ∷ d ∷ cs));
    }
    ∷ []

abbrev pub overlaps_buffer : AstChunk → Buffer → Bool
overlaps_buffer chunk b = elim b.end_line [
  | none ↦ false
  | some end_line ↦ not (is_nil b.chunks) && leb chunk.start_line end_line
]

abbrev pub max_line : Option ℕ → ℕ → ℕ
max_line none n = n
max_line (some m) n = max m n

abbrev pub append_chunk : AstChunk → Buffer → Buffer
append_chunk chunk b = record {
  chunks = b.chunks ++ (chunk ∷ []);
  end_line = some (max_line b.end_line chunk.end_line);
  size = b.size + length chunk.source;
}

abbrev pub starts_before : AstChunk → AstChunk → Bool
starts_before c d = leb c.start_line d.start_line

module _ (min_chars : ℕ) where
  -- The loop, with the chunks that are flushed each time.
  unfoldable pub group_loop : Buffer → List AstChunk → List (List AstChunk)
  group_loop b [] = if is_nil b.chunks then [] else b.chunks ∷ []
  group_loop b (chunk ∷ rest) =
      let overlaps = overlaps_buffer chunk b in
      let next = append_chunk chunk (if overlaps then empty_buffer else b) in
      let is_full = leb min_chars next.size in
      let later = group_loop (if is_full then empty_buffer else next) rest in
      let flushed = if is_full then next.chunks ∷ later else later in
      if overlaps then b.chunks ∷ flushed else flushed

  unfoldable pub merge_small_chunks : List AstChunk → List AstChunk
  unfolding group_loop sort flat_map join
  merge_small_chunks chunks =
      flat_map merged_chunk (group_loop empty_buffer (sort starts_before chunks))

-- What the loop does behind a chunk that has been appended.
abbrev flush_if_full : ℕ → Buffer → List AstChunk → List (List AstChunk)
flush_if_full min_chars next rest =
    let is_full = leb min_chars next.size in
    let later = group_loop min_chars (if is_full then empty_buffer else next) rest in
    if is_full then next.chunks ∷ later else later

-- Each chunk ends before all behind it start.
abbrev pub IsChain : List AstChunk → Type 0
IsChain [] = Unit
IsChain (c ∷ cs) = All (λ d. c.end_line < d.start_line) cs × IsChain cs

abbrev pub IsGroup : List AstChunk → Type 0
IsGroup group = (is_nil group ≡ false) × IsChain group

-- The last line of the buffer is not before the end of a chunk in it.
abbrev IsUpTo : Option ℕ → List AstChunk → Type 0
IsUpTo none chunks = is_nil chunks ≡ true
IsUpTo (some n) chunks = All (λ c. c.end_line ≤ n) chunks

abbrev IsOpen : Buffer → Type 0
IsOpen b = IsChain b.chunks × IsUpTo b.end_line b.chunks

IsChain-snoc :
    (cs : List AstChunk) (d : AstChunk)
    → IsChain cs
    → All (λ c. c.end_line < d.start_line) cs
    → IsChain (cs ++ (d ∷ []))
IsChain-snoc [] d h k = (tt, tt)
IsChain-snoc (c ∷ cs) d h k = (All-append _ cs (d ∷ []) h.0 (k.0, tt), IsChain-snoc cs d h.1 k.1)

is_nil-snoc : (cs : List AstChunk) (d : AstChunk) → is_nil (cs ++ (d ∷ [])) ≡ false
is_nil-snoc [] d = refl
is_nil-snoc (c ∷ cs) d = refl

IsOpen-append :
    (d : AstChunk) (b : Buffer) → IsOpen b → overlaps_buffer d b ≡ false → IsOpen (append_chunk d b)
IsOpen-append d b h o = up_to b.chunks b.end_line h.0 h.1 o
  where
    up_to :
        (cs : List AstChunk) (e : Option ℕ)
        → IsChain cs
        → IsUpTo e cs
        → overlaps_buffer d (record b { chunks = cs; end_line = e }) ≡ false
        → IsChain (cs ++ (d ∷ [])) × IsUpTo (some (max_line e d.end_line)) (cs ++ (d ∷ []))
    up_to [] none chain up o = ((tt, tt), (omega arith, tt))
    up_to (c ∷ cs) none chain up o = ground arith
    up_to [] (some n) chain up o = ((tt, tt), (omega arith, tt))
    up_to (c ∷ cs) (some n) chain up o =
        let gap : n < d.start_line = leb→gt d.start_line n o in
        (
          IsChain-snoc (c ∷ cs) d chain
              (All-map_of (λ x. x.end_line ≤ n) _ (λ x g. omega (arith, g, gap)) (c ∷ cs) up),
          All-append _ (c ∷ cs) (d ∷ [])
              (All-map_of (λ x. x.end_line ≤ n) _ (λ x g. omega (arith, g)) (c ∷ cs) up)
              (omega arith, tt),
        )

flatten-flush_if_full :
    (min_chars : ℕ) (next : Buffer) (rest : List AstChunk)
    → flatten (group_loop min_chars empty_buffer rest) ≡ rest
    → flatten (group_loop min_chars next rest) ≡ next.chunks ++ rest
    → flatten (flush_if_full min_chars next rest) ≡ next.chunks ++ rest
unfolding flatten
flatten-flush_if_full min_chars next rest h k = elim (Bool-cases (leb min_chars next.size)) [
  | inl full ↦ rw full (ap (λ l. next.chunks ++ l) h)
  | inr small ↦ rw small k
]

flatten-group_loop :
    (min_chars : ℕ) (b : Buffer) (chunks : List AstChunk)
    → flatten (group_loop min_chars b chunks) ≡ b.chunks ++ chunks
unfolding group_loop flatten
flatten-group_loop min_chars b [] = last b.chunks
  where
    last : (cs : List AstChunk) → flatten (if is_nil cs then [] else cs ∷ []) ≡ cs ++ []
    last [] = refl
    last (c ∷ cs) = refl
flatten-group_loop min_chars b (chunk ∷ rest) =
    let alone = append_chunk chunk empty_buffer in
    let joined = append_chunk chunk b in
    let none_before = flatten-group_loop min_chars empty_buffer rest in
    elim (Bool-cases (overlaps_buffer chunk b)) [
      | inl overlaps ↦ rw overlaps (
          ap (λ l. b.chunks ++ l)
            (flatten-flush_if_full min_chars alone rest none_before
              (flatten-group_loop min_chars alone rest)))
      | inr follows ↦ rw follows (
          flatten-flush_if_full min_chars joined rest none_before
            (flatten-group_loop min_chars joined rest)
          ∙ append_assoc b.chunks (chunk ∷ []) rest)
    ]

some_chunk : (b : Buffer) (d : AstChunk) → overlaps_buffer d b ≡ true → is_nil b.chunks ≡ false
some_chunk b d o = of_end b.end_line o
  where
    of_end :
        (e : Option ℕ)
        → overlaps_buffer d (record b { end_line = e }) ≡ true
        → is_nil b.chunks ≡ false
    of_end none o = ground arith
    of_end (some n) o = ground arith

flush_if_full-IsGroup :
    (min_chars : ℕ) (next : Buffer) (rest : List AstChunk)
    → IsGroup next.chunks
    → All IsGroup (group_loop min_chars empty_buffer rest)
    → All IsGroup (group_loop min_chars next rest)
    → All IsGroup (flush_if_full min_chars next rest)
flush_if_full-IsGroup min_chars next rest g h k = elim (Bool-cases (leb min_chars next.size)) [
  | inl full ↦ rw full (g, h)
  | inr small ↦ rw small k
]

group_loop-IsGroup :
    (min_chars : ℕ) (b : Buffer) (chunks : List AstChunk)
    → IsOpen b
    → All IsGroup (group_loop min_chars b chunks)
unfolding group_loop
group_loop-IsGroup min_chars b [] h = last b.chunks h.0
  where
    last : (cs : List AstChunk) → IsChain cs → All IsGroup (if is_nil cs then [] else cs ∷ [])
    last [] h = tt
    last (c ∷ cs) h = ((refl, h), tt)
group_loop-IsGroup min_chars b (chunk ∷ rest) h =
    let alone = append_chunk chunk empty_buffer in
    let joined = append_chunk chunk b in
    let none_before = group_loop-IsGroup min_chars empty_buffer rest (tt, refl) in
    elim (Bool-cases (overlaps_buffer chunk b)) [
      | inl overlaps ↦
          let opened : IsOpen alone = IsOpen-append chunk empty_buffer (tt, refl) refl in
          rw overlaps (
            (some_chunk b chunk overlaps, h.0),
            flush_if_full-IsGroup min_chars alone rest (refl, opened.0) none_before
                (group_loop-IsGroup min_chars alone rest opened),
          )
      | inr follows ↦
          let opened : IsOpen joined = IsOpen-append chunk b h follows in
          rw follows (
            flush_if_full-IsGroup min_chars joined rest (is_nil-snoc b.chunks chunk, opened.0)
              none_before (group_loop-IsGroup min_chars joined rest opened))
    ]

-- `merge_small_chunks` cuts the chunks, sorted by their first lines, into groups, each chunk into
-- one and in order, and makes one chunk of each group; no group is empty; and in a group each chunk
-- ends before the next ones start, so that no source stands in the merged chunk twice by an
-- overlap. The sorted chunks are the given ones, rearranged.
pub merge_small_chunks-groups :
    (min_chars : ℕ) (chunks : List AstChunk)
    → (groups : List (List AstChunk)) × (merge_small_chunks min_chars chunks
        ≡ flat_map merged_chunk groups)
      × (flatten groups ≡ sort starts_before chunks)
      × Perm (flatten groups) chunks
      × All IsGroup groups
unfolding merge_small_chunks
merge_small_chunks-groups min_chars chunks =
    let ordered = sort starts_before chunks in
    let whole = flatten-group_loop min_chars empty_buffer ordered in
    (
      group_loop min_chars empty_buffer ordered,
      refl,
      whole,
      rw whole (sort-perm starts_before chunks),
      group_loop-IsGroup min_chars empty_buffer ordered (tt, refl),
    )
