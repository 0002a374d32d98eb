-- ===== src/Router/Middleware/Retry.antt =====
-- `retry` of packages/natricine/src/natricine/router/middleware.py.
pub mod Runs
pub mod Bound
use natricine.Prelude.{
  ℕ, zero, suc, ◌+◌, Bool, true, false, not, ◌||◌, Option, none, some, leb, if◌then◌else◌, List,
}
use natricine.Prelude.Int.{ℤ, pos, negsuc}
use natricine.Runtime.{Exn, error, Result, ok, err, cancelled, Exec, pure, raise, ◌>>=◌, ◌>>◌}
use natricine.Pubsub.Message.{Message}
use natricine.Pubsub.World.{World, on_env}
use natricine.Router.Types.{HandlerFunc, Middleware, External, is_permanent, unwrap}

abbrev pub retry_failed : Exn
retry_failed = error "RuntimeError" "Retry failed unexpectedly"

-- len(range(max_retries + 1)), and attempt >= max_retries
abbrev pub rounds : ℤ → ℕ
rounds (pos n) = suc n
rounds (negsuc n) = zero

abbrev pub reached : ℕ → ℤ → Bool
reached attempt (pos n) = leb n attempt
reached attempt (negsuc n) = true

-- The arguments of `retry`. `retry_on` is the test `isinstance(exc, retry_on)`.
pub record RetryConfig {B : Type 0} (ext : External B) : Type 0 where
  pub max_retries : ℤ
  pub delay : ext.Float
  pub backoff : ext.Float
  pub jitter : ext.Float
  pub retry_on : Option (Exn → Bool)
  pub on_retry : Option (ℕ → Exn → ℕ → Exec (World B) (Unit {0}))

module _ {B : Type 0} (ext : External B) (config : RetryConfig ext) where
  open ext use {Float, le_zero, neg, add, mul, uniform, sleep}
  open config use {max_retries, delay, backoff, jitter, retry_on, on_retry}

  unfoldable pub should_retry : Exn → Bool
  should_retry e =
      if is_permanent e then false else elim retry_on [ none ↦ true | some matches ↦ matches e ]

  -- The delay, and the state of the generator after it.
  unfoldable pub add_jitter : Float → B → Float × B
  add_jitter base env =
      if le_zero jitter
      then (base, env)
      else (let range = mul base jitter in
          let (drift, env') = uniform (neg range) range env in (add base drift, env'))

  call_on_retry :
      Option (ℕ → Exn → ℕ → Exec (World B) (Unit {0})) → ℕ → Exn → ℕ → Exec (World B) (Unit {0})
  call_on_retry none attempt e msg w = (ok tt, w)
  call_on_retry (some f) attempt e msg w = f attempt e msg w

  -- The callback and the sleep between two attempts.
  unfoldable pub pause : ℕ → Exn → ℕ → Float → Exec (World B) (Unit {0})
  unfolding call_on_retry add_jitter
  pause attempt e msg current = do
    call_on_retry on_retry attempt e msg
    on_env (λ env. let (d, env') = add_jitter current env in sleep d env')

  -- What follows the loop; an exception object counts as true.
  unfoldable pub give_up : Option Exn → Exec (World B) (Option (List (Message B)))
  give_up (some e) = raise e
  give_up none = raise retry_failed

  module _ (next_handler : HandlerFunc B) (msg : ℕ) where
    -- One attempt's outcome; `again` goes on with the loop.
    after :
        ℕ
        → Float
        → Result (Option (List (Message B)))
        → (Exn → Exec (World B) (Option (List (Message B))))
        → Exec (World B) (Option (List (Message B)))
    after attempt current (ok out) again w = (ok out, w)
    after attempt current cancelled again w = (cancelled, w)
    after attempt current (err e) again w =
        if not (should_retry e) || reached attempt max_retries
        then give_up (some (unwrap e)) w
        else (do pause (attempt + 1) (unwrap e) msg current; again (unwrap e)) w

    -- `for attempt in range(max_retries + 1)`, by the rounds that are left
    unfoldable pub loop : ℕ → ℕ → Option Exn → Float → Exec (World B) (Option (List (Message B)))
    unfolding after
    loop zero attempt last current w = give_up last w
    loop (suc left) attempt last current w =
        let (r, w') = next_handler msg w in
        after attempt current r (λ e. loop left (attempt + 1) (some e) (mul current backoff)) w'

  unfoldable pub retry : Middleware B
  retry next_handler msg = loop next_handler msg (rounds max_retries) 0 none delay
