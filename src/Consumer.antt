-- ===== src/Consumer.antt =====
-- The Kafka consumers (app/kafka, app/comment_answer/consumer.py, app/sandbox_probe/consumer.py) and
-- the Redis store that keeps a job from being done twice (app/review/dedup.py).
--
-- A method is a function of a `World`: the keys of Redis, what is published and saved, and a queue
-- of outcomes, one for each call that is awaited. A call may be done, be lost (it raises), or be
-- stopped (`asyncio.CancelledError`), and a lost or stopped call may have taken effect all the same.
-- The expiry of keys is not modelled.
pub mod Review
pub mod Comment
pub mod Probe
pub mod Superseded
use mathlib.Core.List.{List, [], ◌∷◌, ◌++◌}
use dovi_ai_server.Base.{
  ℕ, suc, ◌+◌, Bool, true, false, Option, none, some, Text, list_eq, nat_eq, ◌==◌, if◌then◌else◌,
}

pub data Status : Type 0 where
  in_progress completed : Status

pub data Outcome : Type 0 where
  done lost lost_applied stopped stopped_applied : Outcome

pub data Ending (A : Type 0) : Type 0 where
  returned : A → Ending A
  raised : Ending A
  cancelled : Ending A

pub record World (R : Type 0) : Type 0 where
  pub redis : Text → Option Status
  pub attempts : Text → ℕ
  pub published : List R
  pub saved : List R
  pub committed : ℕ
  pub outcomes : List Outcome

abbrev pub Run : Type 0 → Type 0 → Type 0
Run R A = World R → Ending A × World R

module _ {R A : Type 0} where
  abbrev pub pure : A → Run R A
  pure a w = (returned a, w)

  abbrev pub after_outcome : Outcome → (World R → A × World R) → Run R A
  after_outcome done effect w = let (a, w') = effect w in (returned a, w')
  after_outcome lost effect w = (raised, w)
  after_outcome lost_applied effect w = (raised, (effect w).1)
  after_outcome stopped effect w = (cancelled, w)
  after_outcome stopped_applied effect w = (cancelled, (effect w).1)

  abbrev pub perform_next : List Outcome → (World R → A × World R) → Run R A
  perform_next [] effect w = after_outcome done effect w
  perform_next (x ∷ xs) effect w = after_outcome x effect (record w { outcomes = xs })

  -- An awaited call; with no outcome left in the queue it is done.
  unfoldable pub perform : (World R → A × World R) → Run R A
  perform effect w = perform_next w.outcomes effect w

module _ {R A B : Type 0} where
  abbrev pub continue : Ending A → (A → Run R B) → Run R B
  continue (returned a) f w = f a w
  continue raised f w = (raised, w)
  continue cancelled f w = (cancelled, w)

  infixl 10 ◌>>=◌ ◌>>◌
  abbrev pub ◌>>=◌ : Run R A → (A → Run R B) → Run R B
  ◌>>=◌ m f w = let (r, w') = m w in continue r f w'

  abbrev pub ◌>>◌ : Run R A → Run R B → Run R B
  m >> n = m >>= λ _. n

abbrev pub put : {A : Type 0} → Text → A → (Text → A) → Text → A
put key value f k = if k == key then value else f k

module _ {R : Type 0} where
  -- `RedisDedupStore.try_start`: `SET key in_progress NX`.
  abbrev pub claim : Text → Option Status → World R → Bool × World R
  claim key none w = (true, record w { redis = put key (some in_progress) w.redis })
  claim key (some status) w = (false, w)

  unfoldable pub try_start : Text → Run R Bool
  unfolding perform
  try_start key = perform (λ w. claim key (w.redis key) w)

  unfoldable pub mark_completed : Text → Run R Unit
  unfolding perform
  mark_completed key = perform (λ w. (tt, record w { redis = put key (some completed) w.redis }))

  unfoldable pub mark_failed : Text → Run R Unit
  unfolding perform
  mark_failed key = perform (λ w. (tt, record w { redis = put key none w.redis }))

  -- The producers' `_send`.
  unfoldable pub publish : R → Run R Unit
  unfolding perform
  publish result = perform (λ w. (tt, record w { published = result ∷ w.published }))

  abbrev pub reraise : Ending Unit → Run R Unit
  reraise (returned a) w = (cancelled, w)
  reraise raised w = (raised, w)
  reraise cancelled w = (cancelled, w)

  -- `except asyncio.CancelledError: await cleanup; raise`.
  abbrev pub on_cancel : Run R Unit → Ending Unit × World R → Ending Unit × World R
  on_cancel cleanup (returned a, w) = (returned a, w)
  on_cancel cleanup (raised, w) = (raised, w)
  on_cancel cleanup (cancelled, w) = let (r, w') = cleanup w in reraise r w'

  -- The loop of `run`: each message is handled, then committed; `shutdown` is read behind each
  -- commit. What a method raises ends the loop.
  module _ (handle : Text → Run R Unit) where
    unfoldable pub commit : Run R Unit
    unfolding perform
    commit = perform (λ w. (tt, record w { committed = suc w.committed }))

    unfoldable pub run : List (Text × Bool) → Run R Unit
    unfolding commit
    run [] = pure tt
    run ((raw, shutdown) ∷ messages) =
        handle raw >> commit >> (if shutdown then pure tt else run messages)
