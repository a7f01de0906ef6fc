-- ===== src/Sandbox/Event.antt =====
-- app/sandbox_probe/schema.py, `keep_tail` and `cap_completed_event`: a result that is sent is made
-- small enough. The size of its JSON, which pydantic writes, is a parameter.
use mathlib.Core.List.{List, [], ◌∷◌, ◌++◌}
use dovi_ai_server.Base.{
  ℕ, zero, suc, ◌+◌, ◌-◌, ◌≤◌, ◌≡◌, refl, ◌⊎◌, inl, inr, true, map, arith, ltb, leb, if◌then◌else◌,
  ltb→ge, leb→le, Bool-cases, nat_eq, list_eq, triple_eq, length, take, is_nil, length-take, All,
  All-take, Text, codes,
}
use dovi_ai_server.Sandbox.{Finding, SandboxProbeCompletedEvent}

abbrev pub max_evidence_bytes : ℕ
max_evidence_bytes = 8192

abbrev pub max_finding_evidence_bytes : ℕ
max_finding_evidence_bytes = 4096

abbrev pub max_findings : ℕ
max_findings = 10

abbrev pub max_event_bytes : ℕ
max_event_bytes = 524288

abbrev pub truncation_marker : Text
truncation_marker = codes "...(앞부분 생략)" ++ (10 ∷ [])

-- The bytes of a character in UTF-8.
abbrev pub char_bytes : ℕ → ℕ
char_bytes c = if ltb c 128 then 1 else if ltb c 2048 then 2 else if ltb c 65536 then 3 else 4

unfoldable pub byte_count : Text → ℕ
byte_count [] = 0
byte_count (c ∷ t) = char_bytes c + byte_count t

-- `raw[-n:].decode(errors="ignore")`: the longest end of the text that has `n` bytes at most.
unfoldable pub tail_of_bytes : ℕ → Text → Text
unfolding byte_count
tail_of_bytes n [] = []
tail_of_bytes n (c ∷ t) =
    let rest = tail_of_bytes n t in if leb (byte_count (c ∷ t)) n then c ∷ t else rest

-- The bytes that `raw[-budget:]` keeps: for a budget that is not positive, all behind the first
-- `-budget`.
unfoldable pub kept_bytes : ℕ → ℕ → ℕ
unfolding byte_count
kept_bytes max_bytes size =
    let marker = byte_count truncation_marker in
    if ltb marker max_bytes then max_bytes - marker else size - (marker - max_bytes)

unfoldable pub keep_tail : Text → ℕ → Text
unfolding kept_bytes tail_of_bytes
keep_tail text max_bytes =
    if leb (byte_count text) max_bytes
    then text
    else truncation_marker ++ tail_of_bytes (kept_bytes max_bytes (byte_count text)) text

module _ (serialized_size : SandboxProbeCompletedEvent → ℕ) where
  -- The `while` loop, with the number of findings.
  unfoldable pub cap_loop : ℕ → SandboxProbeCompletedEvent → SandboxProbeCompletedEvent
  cap_loop zero capped = capped
  cap_loop (suc n) capped =
      let rest = cap_loop n (record capped { findings = take n capped.findings }) in
      if ltb max_event_bytes (serialized_size capped) then rest else capped

  abbrev pub capped_finding : Finding → Finding
  capped_finding f = record f { evidence = keep_tail f.evidence max_finding_evidence_bytes }

  unfoldable pub cap_completed_event : SandboxProbeCompletedEvent → SandboxProbeCompletedEvent
  unfolding cap_loop keep_tail
  cap_completed_event event =
      let findings = map capped_finding (take max_findings event.findings) in
      cap_loop (length findings) (record event {
        evidence = keep_tail event.evidence max_evidence_bytes;
        findings = findings;
      })

byte_count-append : (t u : Text) → byte_count (t ++ u) ≡ byte_count t + byte_count u
unfolding byte_count
byte_count-append [] u = omega arith
byte_count-append (c ∷ t) u = omega (arith, byte_count-append t u)

byte_count-tail_of_bytes : (n : ℕ) (t : Text) → byte_count (tail_of_bytes n t) ≤ n
unfolding tail_of_bytes
byte_count-tail_of_bytes n [] = unfold byte_count in omega arith
byte_count-tail_of_bytes n (c ∷ t) = elim (Bool-cases (leb (byte_count (c ∷ t)) n)) [
  | inl fits ↦ rw fits (leb→le _ _ fits)
  | inr long ↦ rw long (byte_count-tail_of_bytes n t)
]

-- Within a limit above the marker's size, 24 bytes or less.
byte_count-keep_tail : (t : Text) (n : ℕ) → 24 ≤ n → byte_count (keep_tail t n) ≤ n
unfolding keep_tail
byte_count-keep_tail t n h = elim (Bool-cases (leb (byte_count t) n)) [
  | inl fits ↦ rw fits (leb→le _ _ fits)
  | inr long ↦
      rw (long, byte_count-append truncation_marker)
        (omega (
          arith,
          byte_count-tail_of_bytes (kept_bytes n (byte_count t)) t,
          kept n (byte_count t) h,
        ))
]
  where
    kept : (n size : ℕ) → 24 ≤ n → byte_count truncation_marker + kept_bytes n size ≤ n
    kept n size h = ground (arith, h)

-- A result that is small enough to send: ten findings at most, evidence of limited size, and a
-- JSON of limited size or no finding left.
pub record IsSmall (serialized_size : SandboxProbeCompletedEvent → ℕ)
    (event : SandboxProbeCompletedEvent) : Type 0 where
  pub few : length event.findings ≤ max_findings
  pub short : byte_count event.evidence ≤ max_evidence_bytes
  pub each : All (λ f. byte_count f.evidence ≤ max_finding_evidence_bytes) event.findings
  pub sent : (serialized_size event ≤ max_event_bytes) ⊎ (is_nil event.findings ≡ true)

module _ (serialized_size : SandboxProbeCompletedEvent → ℕ) where
  each_capped :
      (fs : List Finding)
      → All
          (λ f. byte_count f.evidence ≤ max_finding_evidence_bytes)
          (map (capped_finding serialized_size) fs)
  each_capped [] = tt
  each_capped (f ∷ fs) =
      (byte_count-keep_tail f.evidence max_finding_evidence_bytes (omega arith), each_capped fs)

  length-capped : (fs : List Finding) → length (map (capped_finding serialized_size) fs) ≡ length fs
  length-capped [] = refl
  length-capped (f ∷ fs) = omega (arith, length-capped fs)

  cap_loop-IsSmall :
      (n : ℕ) (event : SandboxProbeCompletedEvent)
      → length event.findings ≡ n
      → n ≤ max_findings
      → byte_count event.evidence ≤ max_evidence_bytes
      → All (λ f. byte_count f.evidence ≤ max_finding_evidence_bytes) event.findings
      → IsSmall serialized_size (cap_loop serialized_size n event)
  unfolding cap_loop
  cap_loop-IsSmall zero event e few short each = record {
    few = omega (arith, e);
    short = short;
    each = each;
    sent = inr (no_length event.findings e);
  }
    where
      no_length : (fs : List Finding) → length fs ≡ 0 → is_nil fs ≡ true
      no_length [] e = refl
      no_length (f ∷ fs) e = absurd (omega (arith, e))
  cap_loop-IsSmall (suc n) event e few short each =
      elim (Bool-cases (ltb max_event_bytes (serialized_size event))) [
        | inl big ↦ rw big (
            cap_loop-IsSmall n (record event { findings = take n event.findings })
              (omega (arith, e, length-take n event.findings)) (omega (arith, few)) short
              (All-take _ n event.findings each))
        | inr fits ↦ rw fits (record {
          few = omega (arith, e, few);
          short = short;
          each = each;
          sent = inl (ltb→ge _ _ fits);
        })
      ]

  -- `cap_completed_event` returns a result with at most ten findings, whose evidence has at most
  -- 8192 bytes in UTF-8 and that of each finding at most 4096, and whose JSON has at most 524288
  -- bytes unless no finding is left.
  pub cap_completed_event-IsSmall :
      (event : SandboxProbeCompletedEvent)
      → IsSmall serialized_size (cap_completed_event serialized_size event)
  unfolding cap_completed_event
  cap_completed_event-IsSmall event =
      cap_loop-IsSmall _ _ refl
        (omega (
          arith,
          length-capped (take max_findings event.findings),
          length-take max_findings event.findings,
        ))
        (byte_count-keep_tail event.evidence max_evidence_bytes (omega arith))
        (each_capped (take max_findings event.findings))
