-- ===== src/Pubsub/Memory/Lifecycle.antt =====
-- The life of a subscription and of the pub/sub: what `subscribe` and `close` lead to.
use natricine.Prelude.{
  ℕ, ◌≡◌, refl, true, false, List, [], ◌∷◌, ◌++◌, ap, arith, nat_eq, string_eq, eq_iff, eq_refl,
  map, String,
}
use natricine.Prelude.Dict.{get-put_self}
use natricine.Runtime.{Result, ok, err, cancelled, continue}
use natricine.Pubsub.Message.{Message, copy}
use natricine.Pubsub.Memory.{PubSub, Iter, close, contains, is_closed, listed, publish, subscribe}
use natricine.Pubsub.Memory.Anyio.{Streams, StreamLaws}
use natricine.Pubsub.Memory.Delivery.{copies, deliveries, publish_delivers}

module _ {B : Type 0} where
  -- A stream that is listed once, at the end, gets each message once.
  copies_joined :
      (h : ℕ) (xs : List ℕ) (m : Message B)
      → contains h xs ≡ false
      → copies h (xs ++ h ∷ []) m ≡ copy m ∷ []
  unfolding copies contains
  copies_joined h [] m new = ground (arith, eq_refl h)
  copies_joined h (x ∷ xs) m new = ground (arith, copies_joined h xs m, eq_iff h x, eq_iff x h)

  deliveries_joined :
      (h : ℕ) (xs : List ℕ) (ms : List (Message B))
      → contains h xs ≡ false
      → deliveries h (xs ++ h ∷ []) ms ≡ map copy ms
  unfolding deliveries
  deliveries_joined h xs [] new = refl
  deliveries_joined h xs (m ∷ ms) new =
      rw (copies_joined h xs m new) (ap (λ l. copy m ∷ l) (deliveries_joined h xs ms new))

module _ {B : Type 0} (streams : Streams (Message B)) where
  open streams use {Env}

  -- On a closed pub/sub `publish` and `subscribe` raise RuntimeError and change nothing.
  closed_refuses :
      (topic : String) (ms : List (Message B)) (s : PubSub Env)
      → s.closed ≡ true
      → (publish streams topic ms s ≡ (err is_closed, s))
        × (subscribe streams topic s ≡ (err is_closed, s))
  unfolding publish subscribe
  closed_refuses topic ms s h = ground arith

  continue-closed :
      (r : Result (Unit {0})) (s : PubSub Env)
      → s.closed ≡ true
      → (continue r (λ _. λ s'. (ok tt, record s' { topics = [] })) s).1.closed ≡ true
  continue-closed (ok u) s h = h
  continue-closed (err e) s h = h
  continue-closed cancelled s h = h

  -- After `close`, also one that raised or was cancelled half-way, `publish` and `subscribe` raise
  -- RuntimeError and change nothing.
  pub close_refuses :
      (topic : String) (ms : List (Message B)) (s : PubSub Env)
      → (publish streams topic ms (close streams s).1 ≡ (err is_closed, (close streams s).1))
        × (subscribe streams topic (close streams s).1 ≡ (err is_closed, (close streams s).1))
  close_refuses topic ms s =
      closed_refuses topic ms (close streams s).1 (unfold close in continue-closed _ _ refl)

module _ {B : Type 0} {streams : Streams (Message B)} (laws : StreamLaws streams) where
  open streams use {Env}
  open laws use {sent, exists_in, sent-create, create_new}

  -- Every stream that is listed under the topic has been made.
  abbrev pub AllMade : String → PubSub Env → Type 0
  AllMade topic s = (h : ℕ) → contains h (listed topic s) ≡ true → exists_in h s.env ≡ true

  new-contains :
      (topic : String) (s : PubSub Env)
      → AllMade topic s
      → contains (streams.create s.buffer_size s.env).0 (listed topic s) ≡ false
  new-contains topic s made =
      ground (arith, made (streams.create s.buffer_size s.env).0, create_new s.buffer_size s.env)

  subscribe_lem :
      (topic : String) (s : PubSub Env) (it : Iter)
      → (subscribe streams topic s).0 ≡ ok it
      → (it.send_stream ≡ (streams.create s.buffer_size s.env).0)
        × (listed topic (subscribe streams topic s).1
            ≡ listed topic s ++ (streams.create s.buffer_size s.env).0 ∷ [])
        × ((subscribe streams topic s).1.env ≡ (streams.create s.buffer_size s.env).2)
  unfolding subscribe
  subscribe_lem topic s it sub = ground (
    arith,
    get-put_self topic
        (record { subscribers = listed topic s ++ (streams.create s.buffer_size s.env).0 ∷ [] })
        s.topics,
  )

  -- A new subscription to an open pub/sub gets a copy of every message that is then published to its
  -- topic, each once and in order, provided that the listed streams have all been made and that the
  -- publish returns.
  pub subscribe_delivers :
      (topic : String) (ms : List (Message B)) (s : PubSub Env) (it : Iter)
      → AllMade topic s
      → (subscribe streams topic s).0 ≡ ok it
      → (publish streams topic ms (subscribe streams topic s).1).0 ≡ ok tt
      → sent it.send_stream (publish streams topic ms (subscribe streams topic s).1).1.env
        ≡ map copy ms
  subscribe_delivers topic ms s it made sub ran =
      let (sender, joined, same) = subscribe_lem topic s it sub in
      let s1 = (subscribe streams topic s).1 in
      cc (
        sender,
        (publish_delivers laws topic ms s1 ran).0 it.send_stream,
        sent-create s.buffer_size s.env,
        joined,
        same,
        deliveries_joined (streams.create s.buffer_size s.env).0 (listed topic s) ms
            (new-contains topic s made),
      )
