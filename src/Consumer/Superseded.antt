-- ===== src/Consumer/Superseded.antt =====
-- app/review/superseded.py: the order in which the heads of a pull request arrived, and whether a
-- newer one than that of a request is known. The expiry of keys is not modelled, nor is a
-- failure between the two calls of Redis with which a head is recorded: they are one step.
use mathlib.Core.List.{List, [], ◌∷◌, ◌++◌}
use dovi_ai_server.Base.{
  ℕ, ◌+◌, ◌≤◌, ◌≡◌, refl, sym, ◌∙◌, inl, inr, Bool, true, false, not, Option, none, some, arith,
  ltb, if◌then◌else◌, Bool-cases, ◌==◌, nat_eq, list_eq, triple_eq, ==_refl, ==_sound, any, All,
  All-map_of, Text, codes, show,
}
use dovi_ai_server.Review.Schema.{ReviewRequestedEvent}

-- The counter and the hashes that `PrHeadTracker` keeps in Redis.
pub record Heads : Type 0 where
  pub seq : ℕ
  pub hashes : Text → List (Text × ℕ)

unfoldable pub pr_key : ReviewRequestedEvent → Text
unfolding show
pr_key event = show event.repository_id ++ codes ":" ++ show event.pr_number

unfoldable pub is_head_request : ReviewRequestedEvent → Bool
unfolding pr_key
is_head_request event = event.review_job_id == (pr_key event ++ codes ":" ++ event.head_sha)

unfoldable pub lookup : List (Text × ℕ) → Text → Option ℕ
lookup [] sha = none
lookup ((k, n) ∷ entries) sha = if k == sha then some n else lookup entries sha

-- `HSETNX`.
unfoldable pub hsetnx : Text → ℕ → List (Text × ℕ) → List (Text × ℕ)
unfolding lookup
hsetnx sha n entries = elim (lookup entries sha) [ some old ↦ entries | none ↦ (sha, n) ∷ entries ]

unfoldable pub record_head : ReviewRequestedEvent → Heads → Heads
unfolding is_head_request hsetnx pr_key
record_head event t =
    if is_head_request event
    then record {
      seq = t.seq + 1;
      hashes = λ key.
          if key == pr_key event
          then hsetnx event.head_sha (t.seq + 1) (t.hashes key)
          else t.hashes key;
    }
    else t

abbrev pub newer_than : Option ℕ → List (Text × ℕ) → Bool
newer_than none heads = false
newer_than (some own) heads = any (λ h. ltb own h.1) heads

-- `none` stands for a lookup that raises.
unfoldable pub is_superseded : ReviewRequestedEvent → Option (List (Text × ℕ)) → Bool
unfolding is_head_request lookup any
is_superseded event found =
    if not (is_head_request event)
    then false
    else elim found [ none ↦ false | some heads ↦ newer_than (lookup heads event.head_sha) heads ]

-- No number is above the counter.
abbrev pub IsCounted : Heads → Type 0
IsCounted t = (key : Text) → All (λ h. h.1 ≤ t.seq) (t.hashes key)

abbrev pub asked : ReviewRequestedEvent → Heads → Bool
asked event t = is_superseded event (some (t.hashes (pr_key event)))

any-none :
    (own : ℕ) (entries : List (Text × ℕ))
    → All (λ h. h.1 ≤ own) entries
    → any (λ h. ltb own h.1) entries ≡ false
unfolding any
any-none own [] h = refl
any-none own ((k, n) ∷ entries) h = ground (arith, h.0, any-none own entries h.1)

All-raised :
    (n : ℕ) (entries : List (Text × ℕ))
    → All (λ h. h.1 ≤ n) entries
    → All (λ h. h.1 ≤ n + 1) entries
All-raised n entries h =
    All-map_of (λ e. e.1 ≤ n) (λ e. e.1 ≤ n + 1) (λ e k. omega (arith, k)) entries h

lookup-All :
    (n own : ℕ) (sha : Text) (entries : List (Text × ℕ))
    → All (λ h. h.1 ≤ n) entries
    → lookup entries sha ≡ some own
    → own ≤ n
unfolding lookup
lookup-All n own sha [] h e = absurd (clash e)
  where
    clash : ◌≡◌ {A = Option ℕ} none (some own) → ⊥
    clash p = cc
lookup-All n own sha ((k, x) ∷ entries) h e = elim (Bool-cases (k == sha)) [
  | inl same ↦ omega (arith, h.0, number (rw same at e))
  | inr other ↦ lookup-All n own sha entries h.1 (rw other at e)
]
  where
    number : some x ≡ some own → x ≡ own
    number p = cc

none-some : {n : ℕ} → ◌≡◌ {A = Option ℕ} none (some n) → ⊥
none-some p = cc

newer-old :
    (n own : ℕ) (old new : Text) (entries : List (Text × ℕ))
    → All (λ h. h.1 ≤ n) entries
    → lookup entries old ≡ some own
    → lookup entries new ≡ none
    → let entries' = (new, n + 1) ∷ entries in newer_than (lookup entries' old) entries' ≡ true
unfolding lookup any
newer-old n own old new entries h seen fresh = elim (Bool-cases (new == old)) [
  | inl same ↦ absurd (none-some (sym (rw (← ==_sound new old same) fresh) ∙ seen))
  | inr other ↦ rw (other, seen) (ground (arith, lookup-All n own old entries h seen))
]

newer-new :
    (n : ℕ) (new : Text) (entries : List (Text × ℕ))
    → All (λ h. h.1 ≤ n) entries
    → let entries' = (new, n + 1) ∷ entries in newer_than (lookup entries' new) entries' ≡ false
unfolding lookup
newer-new n new entries h =
    rw (==_refl new)
      (any-none (n + 1) ((new, n + 1) ∷ entries) (omega arith, All-raised n entries h))

hsetnx-All :
    (n : ℕ) (sha : Text) (entries : List (Text × ℕ))
    → All (λ h. h.1 ≤ n) entries
    → All (λ h. h.1 ≤ n + 1) (hsetnx sha (n + 1) entries)
unfolding hsetnx
hsetnx-All n sha entries h = by_found (lookup entries sha)
  where
    by_found :
        (found : Option ℕ)
        → All
            (λ h. h.1 ≤ n + 1)
            (elim found as (λ x. List (Text × ℕ)) [
              | some old ↦ entries
              | none ↦ (sha, n + 1) ∷ entries
            ])
    by_found (some old) = All-raised n entries h
    by_found none = (omega arith, All-raised n entries h)

stored :
    (t : Heads) (new : ReviewRequestedEvent)
    → is_head_request new ≡ true
    → lookup (t.hashes (pr_key new)) new.head_sha ≡ none
    → (record_head new t).hashes (pr_key new) ≡ (new.head_sha, t.seq + 1) ∷ t.hashes (pr_key new)
unfolding record_head hsetnx
stored t new hn fresh = rw (hn, ==_refl (pr_key new)) (set (t.hashes (pr_key new)) fresh)
  where
    set :
        (entries : List (Text × ℕ))
        → lookup entries new.head_sha ≡ none
        → hsetnx new.head_sha (t.seq + 1) entries ≡ (new.head_sha, t.seq + 1) ∷ entries
    set entries e = rw (e, hsetnx) refl

record_head-IsCounted :
    (t : Heads) (event : ReviewRequestedEvent) → IsCounted t → IsCounted (record_head event t)
unfolding record_head
record_head-IsCounted t event c = elim (Bool-cases (is_head_request event)) [
  | inl h ↦ rw h (λ key. elim (Bool-cases (key == pr_key event)) [
    | inl e ↦ rw e (hsetnx-All t.seq event.head_sha (t.hashes key) (c key))
    | inr e ↦ rw e (All-raised t.seq (t.hashes key) (c key))
  ])
  | inr h ↦ rw h c
]

-- A head that is recorded for the first time, while no number is above the counter, supersedes
-- every request of the same pull request whose head was recorded before, and is not superseded
-- itself; and no number is above the counter afterwards.
pub record_head-newest :
    (t : Heads) (old new : ReviewRequestedEvent) (own : ℕ)
    → IsCounted t
    → is_head_request old ≡ true
    → is_head_request new ≡ true
    → pr_key old ≡ pr_key new
    → lookup (t.hashes (pr_key old)) old.head_sha ≡ some own
    → lookup (t.hashes (pr_key new)) new.head_sha ≡ none
    → let t' = record_head new t in (asked old t' ≡ true) × (asked new t' ≡ false) × IsCounted t'
unfolding is_superseded
record_head-newest t old new own c ho hn same seen fresh = (
  rw (ho, same, stored t new hn fresh)
      (newer-old t.seq own old.head_sha new.head_sha (t.hashes (pr_key new)) (c (pr_key new))
        (rw same at seen) fresh),
  rw (hn, stored t new hn fresh)
      (newer-new t.seq new.head_sha (t.hashes (pr_key new)) (c (pr_key new))),
  record_head-IsCounted t new c,
)
