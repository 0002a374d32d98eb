-- ===== src/Router/Middleware/Poison/Burial.antt =====
-- What `poison_queue` and `dead_letter_queue` do with a failing message, alone and around `retry`.
use natricine.Prelude.{ℕ, ◌≡◌, refl, true, false, Option, none, List, [], ◌∷◌, arith, inr}
use natricine.Prelude.Int.{pos}
use natricine.Runtime.{Exn, Result, ok, err, cancelled}
use natricine.Pubsub.Message.{Message, fresh}
use natricine.Pubsub.World.{World}
use natricine.Router.Types.{HandlerFunc, External, unwrap}
use natricine.Router.Middleware.Poison.{
  PoisonConfig, poison_metadata, publish_new, bury, poison_queue,
}
use natricine.Router.Middleware.Retry.{RetryConfig, retry}
use natricine.Router.Middleware.Retry.Runs.{Fails, retry_ends}

module _ {B : Type 0} (ext : External B) (config : PoisonConfig B) where
  open ext use {uuid4, format_exc}

  -- The message that goes to the poison queue when the handler left the world `v` with `e`.
  abbrev pub buried : ℕ → Exn → World B → Message B
  buried msg e v =
      fresh (v.heap msg).payload
        (poison_metadata config.handler_name config.subscriber_name config.include_traceback e
          (format_exc e v.env) (v.heap msg).metadata)
        (uuid4 v.env).0

  abbrev pub publish_buried : ℕ → Exn → World B → Result (Unit {0}) × B
  publish_buried msg e v =
      config.publisher.publish config.topic (buried msg e v ∷ []) (uuid4 v.env).1

  -- What `poison_queue` returns for each way in which the handler ends, if there is no callback: an
  -- exception that is caught becomes a plain return once its message is in the poison queue, and the
  -- publisher's exception if that fails; nothing else is touched.
  abbrev pub Poisoned :
      ℕ
      → Result (Option (List (Message B)))
      → World B
      → Result (Option (List (Message B))) × World B
      → Type 0
  Poisoned msg (ok out) v end = end ≡ (ok out, v)
  Poisoned msg cancelled v end = end ≡ (cancelled, v)
  Poisoned msg (err e) v end =
      (config.catch e ≡ false → end ≡ (err e, v))
      × ((env : B)
          → config.catch e ≡ true
          → publish_buried msg e v ≡ (ok tt, env)
          → end ≡ (ok none, record v { env = env }))
      × ((env : B) (x : Exn)
          → config.catch e ≡ true
          → publish_buried msg e v ≡ (err x, env)
          → end ≡ (err x, record v { env = env }))

  -- `poison_queue` without a callback, on every way in which the handler may end.
  pub poison_queue_lem :
      (next_handler : HandlerFunc B) (msg : ℕ) (w v : World B)
      (r : Result (Option (List (Message B))))
      → config.on_poison ≡ none
      → next_handler msg w ≡ (r, v)
      → Poisoned msg r v (poison_queue ext config next_handler msg w)
  unfolding poison_queue bury publish_new
  poison_queue_lem next_handler msg w v (ok out) quiet ran = ground arith
  poison_queue_lem next_handler msg w v cancelled quiet ran = ground arith
  poison_queue_lem next_handler msg w v (err e) quiet ran =
      ((λ pass. ground arith), (λ env caught sent. ground arith), λ env x caught sent. ground arith)

  -- `poison_queue` without a callback around `retry` with n ≥ 0 retries: if the handler fails n times
  -- with what may be retried, each pause returns, and it fails once more, with an exception whose
  -- cause is caught, and the publisher then returns, the call returns as if it had succeeded, after
  -- publishing one message to the poison queue, which carries the payload and the metadata of the
  -- failed one and the reason, and does nothing else.
  pub poison_after_retries :
      (retries : RetryConfig ext) (next_handler : HandlerFunc B) (msg n : ℕ) {w v v' : World B}
      {d : ext.Float} (e : Exn) (env : B)
      → config.on_poison ≡ none
      → retries.max_retries ≡ pos n
      → Fails ext retries next_handler msg w n d v
      → next_handler msg v ≡ (err e, v')
      → config.catch (unwrap e) ≡ true
      → publish_buried msg (unwrap e) v' ≡ (ok tt, env)
      → poison_queue ext config (retry ext retries next_handler) msg w
        ≡ (ok none, record v' { env = env })
  poison_after_retries retries next_handler msg n {w} {v'} e env quiet bound fails ran caught sent =
      let last =
        retry_ends ext retries next_handler msg n (err e) v' bound fails (omega arith) ran
          (inr refl) in
      (poison_queue_lem (retry ext retries next_handler) msg w v' (err (unwrap e)) quiet last).1 env
        caught sent
