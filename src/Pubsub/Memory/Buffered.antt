-- ===== src/Pubsub/Memory/Buffered.antt =====
-- Publishing to streams that have room, and reading what waits: neither blocks.
use natricine.Prelude.{
  ℕ, suc, ◌+◌, ◌≡◌, ◌≤◌, ◌<◌, refl, ap, sym, ◌∙◌, false, some, List, [], ◌∷◌, ◌++◌, arith, ◌==◌,
  nat_eq, string_eq, if_elim, length, length-append, Listed, inl, inr, String,
}
use natricine.Prelude.Dict.{get}
use natricine.Runtime.{ok}
use natricine.Pubsub.Message.{Message, copy}
use natricine.Pubsub.Memory.{PubSub, Iter, send_each, send_all, publish_to, publish, next_message}
use natricine.Pubsub.Memory.Anyio.{Streams}
use natricine.Pubsub.Memory.Channels.{Channel, grow, grow-nil, grow-grow, if_same, ChannelLaws}

module _ {B : Type 0} {streams : Streams (Message B)} (laws : ChannelLaws streams) where
  open streams use {Env, send}
  open laws use {of_send, of_receive, channel, send_returns, channel-send}

  -- The stream is open and has room for so many items more.
  abbrev HasRoom : ℕ → ℕ → Env → Type 0
  HasRoom k h env =
      (c : Channel (Message B)) × (channel (of_send h) env ≡ some c) × (length c.items + k ≤ c.size)

  abbrev pub AllRoom : ℕ → List ℕ → Env → Type 0
  AllRoom k hs env = (h : ℕ) → Listed h hs → HasRoom k h env

  -- What a channel gets of a message.
  unfoldable pub put_on : ℕ → List ℕ → Message B → List (Message B)
  put_on j [] m = []
  put_on j (h ∷ hs) m = if_same (of_send h) j (copy m ∷ []) [] ++ put_on j hs m

  length-grown :
      (a b k n : ℕ) (xs : List (Message B)) (m : Message B)
      → length xs + suc k ≤ n
      → length (xs ++ if_same a b (m ∷ []) []) + k ≤ n
  length-grown a b k n xs m fits =
      if_elim (λ ys. length (xs ++ ys) + k ≤ n) (a == b)
        (λ _. omega (arith, length-append xs (m ∷ []))) (λ _. omega (arith, length-append xs []))

  send-HasRoom :
      (k x h : ℕ) (m : Message B) (env : Env)
      → HasRoom (suc k) x env
      → HasRoom (suc k) h env
      → ((send x m env).0 ≡ ok tt) × HasRoom k h (send x m env).1
  send-HasRoom k x h m env (c, at_x, fits) (d, at_h, fits') =
      let has_room : length c.items < c.size = omega (arith, fits) in
      (
        send_returns x m env c at_x has_room,
        (
          record d { items = d.items ++ if_same (of_send x) (of_send h) (m ∷ []) [] },
          channel-send x (of_send h) m env c at_x has_room
              ∙ ap (grow (if_same (of_send x) (of_send h) (m ∷ []) [])) at_h,
          length-grown (of_send x) (of_send h) k d.size d.items m fits',
        ),
      )

  -- The room that a message needs on top of `k`, and the room of several.
  abbrev pub more : List ℕ → ℕ → ℕ
  more [] k = k
  more (h ∷ hs) k = suc (more hs k)

  abbrev pub room_for : List (Message B) → List ℕ → ℕ
  room_for [] hs = 0
  room_for (m ∷ ms) hs = more hs (room_for ms hs)

  abbrev pub Grows : (ℕ → List (Message B)) → Env → Env → Type 0
  Grows new env env' = (j : ℕ) → channel j env' ≡ grow (new j) (channel j env)

  -- The inner loop: the streams `hs` are among those that have room.
  send_each_lem :
      (k : ℕ) (m : Message B) (hs all_ : List ℕ) (env : Env)
      → ((h : ℕ) → Listed h hs → Listed h all_)
      → AllRoom (more hs k) all_ env
      → ((send_each streams m hs env).0 ≡ ok tt)
        × AllRoom k all_ (send_each streams m hs env).1
        × Grows (λ j. put_on j hs m) env (send_each streams m hs env).1
  unfolding send_each put_on
  send_each_lem k m [] all_ env sub room = (refl, room, λ j. sym (grow-nil (channel j env)))
  send_each_lem k m (x ∷ hs) all_ env sub room =
      let (c, at_x, fits) = room x (sub x (inl refl)) in
      let has_room : length c.items < c.size = omega (arith, fits) in
      let env' = (send x (copy m) env).1 in
      let room' : AllRoom (more hs k) all_ env' =
        λ h in_. (send-HasRoom (more hs k) x h (copy m) env (c, at_x, fits) (room h in_)).1 in
      let (rest, left, grown) = send_each_lem k m hs all_ env' (λ h in_. sub h (inr in_)) room' in
      rw (send_returns x (copy m) env c at_x has_room) (
        rest,
        left,
        λ j.
            grown j
            ∙ ap (grow (put_on j hs m)) (channel-send x j (copy m) env c at_x has_room)
            ∙ grow-grow (if_same (of_send x) j (copy m ∷ []) []) (put_on j hs m) (channel j env),
      )

  -- A publish to streams that have room for the message returns.
  pub publish_one :
      (topic : String) (m : Message B) (hs : List ℕ) (k : ℕ) (s : PubSub Env)
      → s.closed ≡ false
      → get topic s.topics ≡ some (record { subscribers = hs })
      → AllRoom (more hs k) hs s.env
      → (env : Env) × (publish streams topic (m ∷ []) s ≡ (ok tt, record s { env = env }))
        × AllRoom k hs env
        × Grows (λ j. put_on j hs m) s.env env
  unfolding publish publish_to send_all
  publish_one topic m hs k s going here room =
      let (ran, left, grown) = send_each_lem k m hs hs s.env (λ h in_. in_) room in
      ((send_each streams m hs s.env).1, rw (going, here, ran), left, grown)

  -- A message that waits is what the next round of the loop yields.
  pub next_one :
      (it : Iter) (m : Message B) (rest : List (Message B)) (size : ℕ) (s : PubSub Env)
      → channel (of_receive it.receive_stream) s.env
        ≡ some (record { items = m ∷ rest; size = size })
      → next_message streams it s
        ≡ (ok (some m), record s { env = (streams.receive it.receive_stream s.env).1 })
  unfolding next_message
  next_one it m rest size s waits =
      rw (laws.receive_returns it.receive_stream m rest size s.env waits)
