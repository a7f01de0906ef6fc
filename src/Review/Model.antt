-- ===== src/Review/Model.antt =====
-- What `ReviewPipeline` (app/review/pipeline.py) asks of a language model, its settings, and how it
-- counts tokens (app/llm/tokens.py). The model server is not code of this repository: its answers
-- are a parameter, a function of its own state, and so are Python's float quotients.
use mathlib.Core.List.{List}
use dovi_ai_server.Base.{
  ℕ, ◌+◌, ◌-◌, ◌≤◌, min, Bool, ◌&&◌, ◌||◌, Option, none, some, arith, leb, if◌then◌else◌, nat_eq,
  list_eq, triple_eq, length, is_nil, keep, Text,
}
use dovi_ai_server.Review.Schema.{ReviewModelOutput, ReviewVerdict}

-- The system and the user message of a request.
pub record Messages : Type 0 where
  pub system : Text
  pub user : Text

-- How `generate` ends: with an output, `TimeoutError`, `LLMOutputTruncatedError`, `ValueError` or
-- `ValidationError`, or another exception.
pub data Answer : Type 0 where
  answered : ReviewModelOutput → Answer
  timed_out : Answer
  truncated : Text → Answer
  invalid : Answer
  crashed : Answer

-- The model client; `none` stands for a raised exception, and in `get_context_window` for the
-- unknown size too.
pub record Model : Type 1 where
  pub State : Type 0
  pub get_context_window : State → Option ℕ × State
  pub ask_tokens : Text → State → Option ℕ × State
  pub generate : Messages → Option ℕ → State → Answer × State
  pub verify_findings : Messages → State → Option (List ReviewVerdict) × State
  -- `math.ceil(n / 0.7)` and `math.ceil(n / 2.5)`
  pub ceil_hangul : ℕ → ℕ
  pub ceil_other : ℕ → ℕ

pub record Settings : Type 0 where
  pub llm_max_context : ℕ
  pub max_tokens : ℕ
  pub verify_max_tokens : ℕ
  pub truncation_retry_max_findings : ℕ
  pub max_review_batches : ℕ

abbrev pub safety_margin_tokens : ℕ
safety_margin_tokens = 200

-- `[가-힣ㄱ-ㆎ]`.
abbrev pub is_hangul : ℕ → Bool
is_hangul c = (leb 44032 c && leb c 55203) || (leb 12593 c && leb c 12686)

module _ (m : Model) where
  unfoldable pub estimate_tokens : Text → ℕ
  unfolding keep
  estimate_tokens text =
      let hangul_chars = length (keep is_hangul text) in
      let other_chars = length text - hangul_chars in
      if is_nil text then 0 else m.ceil_hangul hangul_chars + m.ceil_other other_chars

  -- The state of the client, and `_effective_max_context`.
  abbrev pub Session : Type 0
  Session = m.State × Option ℕ

  unfoldable pub count_tokens : Text → Session → ℕ × Session
  unfolding estimate_tokens
  count_tokens text (st, cached) =
      let (asked, st') = m.ask_tokens text st in
      (elim asked [ some n ↦ n | none ↦ estimate_tokens text ], (st', cached))

  module _ (o : Settings) where
    abbrev pub resolved : Option ℕ × m.State → ℕ × Session
    resolved (some actual, st) =
        (min o.llm_max_context actual, (st, some (min o.llm_max_context actual)))
    resolved (none, st) = (o.llm_max_context, (st, none))

    unfoldable pub resolve_max_context : Session → ℕ × Session
    resolve_max_context (st, some n) = (n, (st, some n))
    resolve_max_context (st, none) = resolved (m.get_context_window st)

    -- The cached size, if there is one, is at most the configured size.
    abbrev pub IsCapped : Session → Type 0
    IsCapped (st, some n) = n ≤ o.llm_max_context
    IsCapped (st, none) = Unit

    resolved-IsCapped :
        (r : Option ℕ × m.State) → (resolved r).0 ≤ o.llm_max_context × IsCapped (resolved r).1
    resolved-IsCapped (some actual, st) = (omega arith, omega arith)
    resolved-IsCapped (none, st) = (omega arith, tt)

    -- From a session whose cached size is at most the configured one, `resolve_max_context` gives
    -- a size that is at most the configured one and leaves such a session.
    pub resolve_max_context-IsCapped :
        (s : Session)
        → IsCapped s
        → (resolve_max_context s).0 ≤ o.llm_max_context × IsCapped (resolve_max_context s).1
    unfolding resolve_max_context
    resolve_max_context-IsCapped (st, some n) h = (h, h)
    resolve_max_context-IsCapped (st, none) h = resolved-IsCapped (m.get_context_window st)
