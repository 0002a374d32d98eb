-- ===== src/Conformance/Memory/Reading.antt =====
-- What subscribers of InMemoryPubSub read of what is published in the meantime.
use natricine.Prelude.{
  ℕ, suc, ◌≡◌, ◌≢◌, ◌≤◌, refl, ap, sym, ◌∙◌, false, some, List, [], ◌∷◌, ◌++◌, arith, nat_eq,
  string_eq, length, map, String, Listed, inl, inr,
}
use natricine.Prelude.Dict.{get}
use natricine.Runtime.{ok, Exec}
use natricine.Pubsub.Message.{Message, copy}
use natricine.Pubsub.Memory.{Iter, init, subscribe}
use natricine.Pubsub.Memory
use natricine.Pubsub.Memory.Anyio.{Streams}
use natricine.Pubsub.Memory.Channels.{
  grow, grow-nil, grow-grow, if_same_refl, if_same_ne, ChannelLaws,
}
use natricine.Pubsub.Memory.Buffered.{AllRoom, put_on, room_for, Grows, publish_one, next_one}
use natricine.Conformance.{publish_each, read}
use natricine.Conformance.Memory.{World, memory}

module _ {B : Type 0} {streams : Streams (Message B)} (laws : ChannelLaws streams) where
  open streams use {Env}
  open laws use {of_send, of_receive, channel}

  abbrev all_put : ℕ → List ℕ → List (Message B) → List (Message B)
  all_put j hs [] = []
  all_put j hs (m ∷ ms) = put_on laws j hs m ++ all_put j hs ms

  -- The streams that are listed get all the messages.
  pub publish_each_lem :
      (topic : String) (hs : List ℕ) (ms : List (Message B)) (s : Memory.PubSub Env) (b : B)
      → s.closed ≡ false
      → get topic s.topics ≡ some (record { subscribers = hs })
      → AllRoom laws (room_for laws ms hs) hs s.env
      → (env : Env) × (publish_each (memory streams) topic ms (s, b)
          ≡ (ok tt, (record s { env = env }, b)))
        × Grows laws (λ j. all_put j hs ms) s.env env
  unfolding publish_each
  publish_each_lem topic hs [] s b going here room =
      (s.env, refl, λ j. sym (grow-nil (channel j s.env)))
  publish_each_lem topic hs (m ∷ ms) s b going here room =
      let (env, ran, left, grown) =
        publish_one laws topic m hs (room_for laws ms hs) s going here room in
      let (env', rest, grown') =
        publish_each_lem topic hs ms (record s { env = env }) b going here left in
      (
        env',
        rw (ran, rest),
        λ j.
            grown' j
            ∙ ap (grow (all_put j hs ms)) (grown j)
            ∙ grow-grow (put_on laws j hs m) (all_put j hs ms) (channel j s.env),
      )

  module _ (f : Message B → Message B) (body : Message B → Exec (World streams) (Message B)) where
    -- What waits is read, and no other channel is touched.
    pub read_lem :
        (ms : List (Message B)) (it : Iter) (size : ℕ) (s : Memory.PubSub Env) (b : B)
        → ((m : Message B) (w : World streams) → body (copy m) w ≡ (ok (f m), w))
        → channel (of_receive it.receive_stream) s.env
          ≡ some (record { items = map copy ms; size = size })
        → (env : Env) × (read (memory streams) (length ms) body it (s, b)
            ≡ (ok (map f ms), (record s { env = env }, b)))
          × ((j : ℕ) → of_receive it.receive_stream ≢ j → channel j env ≡ channel j s.env)
    unfolding read
    read_lem [] it size s b does waits = (s.env, refl, λ j ne. refl)
    read_lem (m ∷ ms) it size s b does waits =
        let env' = (streams.receive it.receive_stream s.env).1 in
        let got = next_one laws it (copy m) (map copy ms) size s waits in
        let kept = λ (j : ℕ).
          laws.channel-receive it.receive_stream j (copy m) (map copy ms) size s.env waits in
        let (env, ran, others) =
          read_lem ms it size (record s { env = env' }) b does
            (rw (
              kept (of_receive it.receive_stream),
              if_same_refl (of_receive it.receive_stream) _ _,
            )) in
        (
          env,
          rw (got, does m (record s { env = env' }, b), ran),
          λ j ne. others j ne ∙ kept j ∙ if_same_ne _ j _ _ ne,
        )

  pub room_for-one : (h : ℕ) (ms : List (Message B)) → room_for laws ms (h ∷ []) ≡ length ms
  room_for-one h [] = refl
  room_for-one h (m ∷ ms) = ap suc (room_for-one h ms)

  -- A channel that gets each message once gets them all, in order.
  all_put_once :
      (j : ℕ) (hs : List ℕ) (ms : List (Message B))
      → ((m : Message B) → put_on laws j hs m ≡ copy m ∷ [])
      → all_put j hs ms ≡ map copy ms
  all_put_once j hs [] once = refl
  all_put_once j hs (m ∷ ms) once = rw (once m) (ap (λ l. copy m ∷ l) (all_put_once j hs ms once))

  pub put_on-one : (h : ℕ) (m : Message B) → put_on laws (of_send h) (h ∷ []) m ≡ copy m ∷ []
  unfolding put_on
  put_on-one h m = rw (if_same_refl (of_send h) (copy m ∷ []) [])

  abbrev pub IsNew : ℕ → ℕ → Env → Type 0
  IsNew size h env = channel (of_send h) env ≡ some (record { items = []; size = size })

  pub AllRoom-new :
      (hs : List ℕ) (k size : ℕ) (env : Env)
      → ((h : ℕ) → Listed h hs → IsNew size h env)
      → k ≤ size
      → AllRoom laws k hs env
  AllRoom-new hs k size env new_ fits h in_ =
      (record { items = []; size = size }, new_ h in_, omega (arith, fits))

  pub of_one : (h a size : ℕ) (env : Env) → Listed h (a ∷ []) → IsNew size a env → IsNew size h env
  of_one h a size env (inl e) new_ = rw (e) new_
  of_one h a size env (inr none_) new_ = elim none_ [ ]

  pub of_two :
      (h a b size : ℕ) (env : Env)
      → Listed h (a ∷ b ∷ [])
      → IsNew size a env
      → IsNew size b env
      → IsNew size h env
  of_two h a b size env (inl e) new_a new_b = rw (e) new_a
  of_two h a b size env (inr in_) new_a new_b = of_one h b size env in_ new_b

  -- What waits on a stream that was empty.
  pub waiting :
      (hs : List ℕ) (ms : List (Message B)) (h size : ℕ) (env env' : Env)
      → channel (of_send h) env ≡ some (record { items = []; size = size })
      → ((m : Message B) → put_on laws (of_send h) hs m ≡ copy m ∷ [])
      → Grows laws (λ j. all_put j hs ms) env env'
      → channel (of_send h) env' ≡ some (record { items = map copy ms; size = size })
  waiting hs ms h size env env' new_ once grown =
      grown (of_send h)
      ∙ ap (grow (all_put (of_send h) hs ms)) new_
      ∙ ap (λ l. some (record { items = l; size = size })) (all_put_once (of_send h) hs ms once)
