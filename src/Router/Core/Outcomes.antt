-- ===== src/Router/Core/Outcomes.antt =====
-- How a handler's task deals with a message, by what the handler does.
use natricine.Prelude.{
  ℕ, ◌≡◌, Bool, true, false, Option, some, List, ◌∷◌, arith, String, ◌==◌, string_eq,
}
use natricine.Runtime.{Exn, Result, ok, err, cancelled}
use natricine.Pubsub.Message.{Message, nack_after_ack}
use natricine.Pubsub.World.{World, Publisher, ack_at, nack_at}
use natricine.Pubsub.World.Settled.{
  IsFreshAt, ack_at_fresh, nack_at_fresh, nack_at_acked, ack_at_acked,
}
use natricine.Router.Types.{HandlerFunc, Handler}
use natricine.Router.Core.{Run, publish_output, attempt, guarded, handle_message}
use natricine.Router.Core.Settling.{heap-publish_output}

module _ {S B : Type 0} (handler : Handler S B) (wrapped : HandlerFunc B) (msg : ℕ) where
  -- The flags that the message ends with, and what the task returns or raises where what it calls
  -- afterwards returns.
  abbrev pub Settlement :
      Result (Option (List (Message B))) → World B → Result Bool → World B → Type 0
  Settlement (ok out) v r w =
      ((w.heap msg).acked ≡ true)
      × ((w.heap msg).nacked ≡ false)
      × ((ack_at msg v).0 ≡ ok tt
          → (publish_output handler.publisher handler.publish_topic out (ack_at msg v).1).0 ≡ ok tt
          → r ≡ ok true)
  Settlement (err e) v r w =
      ((w.heap msg).acked ≡ false)
      × ((w.heap msg).nacked ≡ true)
      × ((nack_at msg v).0 ≡ ok tt → r ≡ err e)
  Settlement cancelled v r w = (w ≡ v) × (r ≡ cancelled)

  guarded_returned :
      (w v : World B) (out : Option (List (Message B)))
      → wrapped msg w ≡ (ok out, v)
      → IsFreshAt msg v
      → (((guarded handler wrapped msg w).1.heap msg).acked ≡ true)
        × (((guarded handler wrapped msg w).1.heap msg).nacked ≡ false)
  unfolding guarded attempt
  guarded_returned w v out ran fresh =
      let (_, a) = ack_at msg v in
      let (_, b) = publish_output handler.publisher handler.publish_topic out a in
      ground (
        arith,
        ack_at_fresh msg v,
        heap-publish_output handler.publisher handler.publish_topic out a,
        nack_at_acked msg a,
        nack_at_acked msg b,
      )

  -- For a message that the handler left unsettled, while the router is not closing: if the handler
  -- returned, the message is acked and not nacked, whether or not its output can be published, and the
  -- task goes on with its loop where the ack and the publishing return; if it raised, the message is
  -- nacked and not acked, and the exception goes on where the nack returns; if it was cancelled, nothing
  -- more is done and the task is cancelled.
  pub settlement :
      (s : Run B) (r : Result (Option (List (Message B)))) (v : World B)
      → s.flags.closing ≡ false
      → wrapped msg s.world ≡ (r, v)
      → IsFreshAt msg v
      → Settlement r v
          (handle_message handler wrapped msg s).0
          (handle_message handler wrapped msg s).1.world
  unfolding handle_message guarded attempt
  settlement s (ok out) v open_ ran fresh = ground (arith, guarded_returned s.world v out)
  settlement s (err e) v open_ ran fresh = ground (arith, nack_at_fresh msg v)
  settlement s cancelled v open_ ran fresh = ground arith

  -- If the handler returned and its message was acked, but the publisher then raises, the task raises
  -- the ValueError of the refused nack in place of the publisher's exception, and the message stays
  -- acked: its output is lost and is not redelivered.
  pub publish_failure_masked :
      (s : Run B) (v : World B) (p : Publisher B) (topic : String) (m : Message B)
      (ms : List (Message B)) (e : Exn)
      → s.flags.closing ≡ false
      → handler.publisher ≡ some p
      → handler.publish_topic ≡ some topic
      → (topic == "") ≡ false
      → wrapped msg s.world ≡ (ok (some (m ∷ ms)), v)
      → IsFreshAt msg v
      → (ack_at msg v).0 ≡ ok tt
      → (p.publish topic (m ∷ ms) (ack_at msg v).1.env).0 ≡ err e
      → ((handle_message handler wrapped msg s).0 ≡ err nack_after_ack)
        × (((handle_message handler wrapped msg s).1.world.heap msg).acked ≡ true)
  unfolding handle_message guarded attempt publish_output
  publish_failure_masked s v p topic m ms e open_ pub_ top full ran fresh acked failed =
      let (_, a) = ack_at msg v in
      let (_, b) = p.publish topic (m ∷ ms) a.env in
      ground (arith, ack_at_fresh msg v, nack_at_acked msg (record a { env = b }))

  -- If the handler acks its message itself and returns, as docs/concepts/router.md has it, then the ack of the
  -- router raises, its nack raises too, and the task raises that ValueError, so that its loop ends: the message
  -- stays acked, and nothing is published.
  pub own_ack_raises :
      (s : Run B) (v : World B) (out : Option (List (Message B)))
      → s.flags.closing ≡ false
      → wrapped msg s.world ≡ (ok out, v)
      → (v.heap msg).acked ≡ true
      → (v.heap msg).nacked ≡ false
      → ((handle_message handler wrapped msg s).0 ≡ err nack_after_ack)
        × ((handle_message handler wrapped msg s).1.world.heap msg ≡ v.heap msg)
        × ((handle_message handler wrapped msg s).1.world.env ≡ v.env)
  unfolding handle_message guarded attempt
  own_ack_raises s v out open_ ran acked nacked =
      let (_, a) = ack_at msg v in ground (arith, ack_at_acked msg v acked, nack_at_acked msg a)
