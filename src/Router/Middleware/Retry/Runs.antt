-- ===== src/Router/Middleware/Retry/Runs.antt =====
-- The runs of `retry`: how many attempts it makes, and how it ends.
use natricine.Prelude.{
  ℕ, zero, suc, ◌+◌, ◌-◌, ◌≤◌, ◌<◌, ◌≡◌, true, false, Option, none, some, List, arith, ◌∙◌, ap, ◌⊎◌,
}
use native.Mathlib.Numerals.{add-one}
use natricine.Prelude.Int.{pos}
use natricine.Runtime.{Exn, Result, ok, err, cancelled}
use natricine.Pubsub.Message.{Message}
use natricine.Pubsub.World.{World}
use natricine.Router.Types.{HandlerFunc, External, unwrap}
use natricine.Router.Middleware.Retry.{
  RetryConfig, should_retry, pause, give_up, loop, retry, rounds,
}

module _ {B : Type 0} (ext : External B) (config : RetryConfig ext) (next_handler : HandlerFunc B)
    (msg : ℕ) where
  open ext use {Float, mul}
  open config use {max_retries, delay, backoff}

  -- `Fails w k d v`: from the world `w` the handler failed `k` times with an exception that may be
  -- retried, each time followed by the callback and the sleep; `d` is the delay now, and `v` the world.
  pub data Fails (w : World B) : ℕ → Float → World B → Type 0 where
    none_yet : Fails w zero delay w
    again :
        {k : ℕ} {d : Float} {v v1 v2 : World B} (e : Exn)
        → Fails w k d v
        → next_handler msg v ≡ (err e, v1)
        → should_retry ext config e ≡ true
        → pause ext config (k + 1) (unwrap e) msg d v1 ≡ (ok tt, v2)
        → Fails w (suc k) (mul d backoff) v2

  -- The attempt after `k` failures ends the call if it returns, is cancelled, raises what is not
  -- retried, or was the last of `n` retries.
  abbrev pub IsFinal : ℕ → ℕ → Result (Option (List (Message B))) → Type 0
  IsFinal n k (ok out) = Unit
  IsFinal n k cancelled = Unit
  IsFinal n k (err e) = (should_retry ext config e ≡ false) ⊎ (k ≡ n)

  -- The exception that the caller sees.
  abbrev pub seen : Result (Option (List (Message B))) → Result (Option (List (Message B)))
  seen (err e) = err (unwrap e)
  seen r = r

  -- One failed attempt takes the loop one round on.
  loop_again :
      (left k n : ℕ) (last : Option Exn) (d : Float) (v v1 v2 : World B) (e : Exn)
      → max_retries ≡ pos n
      → k < n
      → next_handler msg v ≡ (err e, v1)
      → should_retry ext config e ≡ true
      → pause ext config (k + 1) (unwrap e) msg d v1 ≡ (ok tt, v2)
      → loop ext config next_handler msg (suc left) k last d v
        ≡ loop ext config next_handler msg left (suc k) (some (unwrap e)) (mul d backoff) v2
  unfolding loop
  loop_again left k n last d v v1 v2 e bound more failed retried paused = ground (arith, add-one k)

  Fails-loop :
      {w v : World B} {k : ℕ} {d : Float} (n left : ℕ)
      → max_retries ≡ pos n
      → Fails w k d v
      → left + k ≡ n
      → (last : Option Exn) × (loop ext config next_handler msg (suc n) 0 none delay w
          ≡ loop ext config next_handler msg (suc left) k last d v)
  Fails-loop {w} n left bound none_yet e =
      (none, ap (λ t. loop ext config next_handler msg (suc t) 0 none delay w) (omega arith))
  Fails-loop n left bound (again {k} {d} {v} {v1} {v2} x fails failed retried paused) e =
      let (last, before) = Fails-loop n (suc left) bound fails (omega arith) in
      (
        some (unwrap x),
        before
            ∙ loop_again (suc left) k n last d v v1 v2 x bound (omega arith) failed retried paused,
      )

  final_attempt :
      (left k n : ℕ) (last : Option Exn) (d : Float) (v v' : World B)
      (r : Result (Option (List (Message B))))
      → max_retries ≡ pos n
      → next_handler msg v ≡ (r, v')
      → IsFinal n k r
      → loop ext config next_handler msg (suc left) k last d v ≡ (seen r, v')
  unfolding loop give_up
  final_attempt left k n last d v v' (ok out) bound ran final = ground arith
  final_attempt left k n last d v v' cancelled bound ran final = ground arith
  final_attempt left k n last d v v' (err e) bound ran final = ground arith

  -- With `max_retries` n ≥ 0: after at most n failed attempts, the first attempt that returns, is
  -- cancelled, raises what is not retried or is the last one ends the call, with its result (the
  -- cause, if it raised PermanentError) and its world.
  pub retry_ends :
      {w v : World B} {k : ℕ} {d : Float} (n : ℕ) (r : Result (Option (List (Message B))))
      (v' : World B)
      → max_retries ≡ pos n
      → Fails w k d v
      → k ≤ n
      → next_handler msg v ≡ (r, v')
      → IsFinal n k r
      → retry ext config next_handler msg w ≡ (seen r, v')
  unfolding retry
  retry_ends {w} {v} {k} {d} n r v' bound fails le ran final =
      let (last, before) = Fails-loop n (n - k) bound fails (omega arith) in
      ap (λ t. loop ext config next_handler msg (rounds t) 0 none delay w) bound
      ∙ before
      ∙ final_attempt (n - k) k n last d v v' r bound ran final
