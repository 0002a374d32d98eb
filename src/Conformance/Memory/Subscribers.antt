-- ===== src/Conformance/Memory/Subscribers.antt =====
-- Subscribers of a new InMemoryPubSub.
use natricine.Prelude.{
  ℕ, ◌+◌, ◌≡◌, ◌≢◌, ◌≤◌, refl, sym, ◌∙◌, false, some, List, [], ◌∷◌, arith, nat_eq, string_eq,
  eq_refl, length, map, String,
}
use natricine.Prelude.Dict.{get, put}
use natricine.Runtime.{ok, Exec}
use natricine.Pubsub.Message.{Message, copy}
use natricine.Pubsub.Memory.{Iter, init, subscribe}
use natricine.Pubsub.Memory
use natricine.Pubsub.Memory.Anyio.{Streams}
use natricine.Pubsub.Memory.Channels.{if_same_refl, if_same_ne, ChannelLaws}
use natricine.Pubsub.Memory.Buffered.{AllRoom, put_on, room_for}
use natricine.Conformance.{one_subscriber, two_subscribers}
use natricine.Conformance.Memory.{World, memory}
use natricine.Conformance.Memory.Reading.{
  publish_each_lem, read_lem, room_for-one, put_on-one, IsNew, AllRoom-new, of_one, of_two, waiting,
}

module _ {B : Type 0} {streams : Streams (Message B)} (laws : ChannelLaws streams) where
  open streams use {Env}
  open laws use {of_send, of_receive, channel}

  -- A new InMemoryPubSub, a subscriber, and messages that are then published one by one, no more than the buffer
  -- holds: no publish and no read waits, and what the subscriber reads is a copy of every message, once and
  -- in order, as the body of its loop leaves it. The body may do what it likes with a copy but must return and
  -- leave the pub/sub as it is.
  pub one_subscriber_lem :
      (f : Message B → Message B) (body : Message B → Exec (World streams) (Message B))
      (topic : String) (ms : List (Message B)) (size : ℕ) (env : Env) (b : B)
      → ((m : Message B) (w : World streams) → body (copy m) w ≡ (ok (f m), w))
      → length ms ≤ size
      → (one_subscriber (memory streams) topic ms (length ms) body (init size env, b)).0
        ≡ ok (map f ms)
  unfolding one_subscriber subscribe get put
  one_subscriber_lem f body topic ms size env b does fits =
      let (sender, receiver, env1) = streams.create size env in
      let new_ : channel (of_send sender) env1 ≡ some (record { items = []; size = size }) =
        laws.channel-create size (of_send sender) env ∙ if_same_refl (of_send sender) _ _ in
      let it : Iter = record { receive_stream = receiver; topic = topic; send_stream = sender } in
      let s1 : Memory.PubSub Env = record {
        buffer_size = size;
        topics = put topic (record { subscribers = sender ∷ [] }) [];
        closed = false;
        env = env1;
      } in
      let room : AllRoom laws (room_for laws ms (sender ∷ [])) (sender ∷ []) env1 =
        AllRoom-new laws (sender ∷ []) (room_for laws ms (sender ∷ [])) size env1
          (λ h in_. of_one laws h sender size env1 in_ new_)
          (rw (room_for-one laws sender ms) fits) in
      let (env2, ran, grown) =
        publish_each_lem laws topic (sender ∷ []) ms s1 b refl (rw (eq_refl topic)) room in
      let (env3, got, _) =
        read_lem laws f body ms it size (record s1 { env = env2 }) b does
          (rw (laws.new_ends size env) (
            waiting laws (sender ∷ []) ms sender size env1 env2 new_ (put_on-one laws sender)
              grown)) in
      rw (ran, got)

  room_for-two :
      (a b : ℕ) (ms : List (Message B)) → room_for laws ms (a ∷ b ∷ []) ≡ length ms + length ms
  room_for-two a b [] = refl
  room_for-two a b (m ∷ ms) = omega (arith, room_for-two a b ms)

  put_on-first :
      (a b : ℕ) (m : Message B)
      → of_send a ≢ of_send b
      → put_on laws (of_send a) (a ∷ b ∷ []) m ≡ copy m ∷ []
  unfolding put_on
  put_on-first a b m ne = rw (
    if_same_refl (of_send a) (copy m ∷ []) [],
    if_same_ne (of_send b) (of_send a) (copy m ∷ []) [] (λ e. ne (sym e)),
  )

  put_on-second :
      (a b : ℕ) (m : Message B)
      → of_send a ≢ of_send b
      → put_on laws (of_send b) (a ∷ b ∷ []) m ≡ copy m ∷ []
  unfolding put_on
  put_on-second a b m ne = rw (
    if_same_refl (of_send b) (copy m ∷ []) [],
    if_same_ne (of_send a) (of_send b) (copy m ∷ []) [] ne,
  )

  -- A stream that is there is another one than the next that is made.
  new_differs :
      (a size : ℕ) (env : Env)
      → IsNew laws size a env
      → of_send a ≢ of_send (streams.create size env).0
  new_differs a size env here e = cc (here, laws.not_made size env, e)

  -- Two subscribers of a new InMemoryPubSub are independent: where the buffer holds twice the messages, both read a
  -- copy of every message, once and in order, each as the body of its own loop leaves it.
  pub two_subscribers_lem :
      (f : Message B → Message B) (body : Message B → Exec (World streams) (Message B))
      (topic : String) (ms : List (Message B)) (size : ℕ) (env : Env) (b : B)
      → ((m : Message B) (w : World streams) → body (copy m) w ≡ (ok (f m), w))
      → length ms + length ms ≤ size
      → (two_subscribers (memory streams) topic ms (length ms) body (init size env, b)).0
        ≡ ok (map f ms, map f ms)
  unfolding two_subscribers subscribe get put
  two_subscribers_lem f body topic ms size env b does fits =
      let (a, r, env1) = streams.create size env in
      let (a', r', env2) = streams.create size env1 in
      let new_ : IsNew laws size a env1 =
        laws.channel-create size (of_send a) env ∙ if_same_refl (of_send a) _ _ in
      let ne = new_differs a size env1 new_ in
      let kept : IsNew laws size a env2 =
        laws.channel-create size (of_send a) env1
        ∙ if_same_ne (of_send a') (of_send a) _ _ (λ e. ne (sym e))
        ∙ new_ in
      let new' : IsNew laws size a' env2 =
        laws.channel-create size (of_send a') env1 ∙ if_same_refl (of_send a') _ _ in
      let it : Iter = record { receive_stream = r; topic = topic; send_stream = a } in
      let it' : Iter = record { receive_stream = r'; topic = topic; send_stream = a' } in
      let hs = a ∷ a' ∷ [] in
      let s2 : Memory.PubSub Env = record {
        buffer_size = size;
        topics = put topic (record { subscribers = hs }) [];
        closed = false;
        env = env2;
      } in
      let room =
        AllRoom-new laws hs (room_for laws ms hs) size env2
          (λ h in_. of_two laws h a a' size env2 in_ kept new') (rw (room_for-two a a' ms) fits) in
      let (env3, ran, grown) =
        publish_each_lem laws topic hs ms s2 b refl (rw (eq_refl topic)) room in
      let (env4, got, others) =
        read_lem laws f body ms it size (record s2 { env = env3 }) b does
          (rw (laws.new_ends size env)
            (waiting laws hs ms a size env2 env3 kept (λ m. put_on-first a a' m ne) grown)) in
      let (env5, got', _) =
        read_lem laws f body ms it' size (record s2 { env = env4 }) b does
          (rw (laws.new_ends size env1) (
            others (of_send a') (rw (laws.new_ends size env) ne)
            ∙ waiting laws hs ms a' size env2 env3 new' (λ m. put_on-second a a' m ne) grown)) in
      rw (eq_refl topic, ran, got, got')
