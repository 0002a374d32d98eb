-- ===== src/Pubsub/Memory/Delivery.antt =====
-- What `publish` delivers, and what `subscribe`, `clean_up` and `close` do to the topics.
use natricine.Prelude.{
  ℕ, ◌≡◌, refl, Option, none, some, List, [], ◌∷◌, ◌++◌, ap, sym, ◌∙◌, arith, if◌then◌else◌, ◌==◌,
  nat_eq, string_eq, String,
}
use mathlib.Core.List.{append-nil, append_assoc}
use natricine.Prelude.Dict.{get}
use natricine.Runtime.{ok}
use natricine.Runtime.Laws.{>>=-eq-ok}
use natricine.Pubsub.Message.{Message, copy}
use natricine.Pubsub.Memory.{
  TopicState, PubSub, listed, or_new, send_each, send_all, publish_to, publish,
}
use natricine.Pubsub.Memory.Anyio.{Streams, StreamLaws}

module _ {B : Type 0} where
  -- What the stream `h` should get of one message, and of several: a copy of each for every time
  -- that `h` is listed.
  unfoldable pub copies : ℕ → List ℕ → Message B → List (Message B)
  copies h [] m = []
  copies h (x ∷ xs) m = if x == h then copy m ∷ copies h xs m else copies h xs m

  unfoldable pub deliveries : ℕ → List ℕ → List (Message B) → List (Message B)
  deliveries h xs [] = []
  deliveries h xs (m ∷ ms) = copies h xs m ++ deliveries h xs ms

module _ {B : Type 0} {streams : Streams (Message B)} (laws : StreamLaws streams) where
  open streams use {Env, send}
  open laws use {sent, sent-send_self, sent-send_ne}

  sent-send_copy :
      (h x : ℕ) (xs : List ℕ) (m : Message B) (env : Env)
      → (send x (copy m) env).0 ≡ ok tt
      → sent h (send x (copy m) env).1 ++ copies h xs m ≡ sent h env ++ copies h (x ∷ xs) m
  unfolding copies
  sent-send_copy h x xs m env ran = ground (
    arith,
    sent-send_self x (copy m) env,
    sent-send_ne x h (copy m) env,
    append_assoc (sent h env) (copy m ∷ []) (copies h xs m),
  )

  sent-send_each :
      (h : ℕ) (m : Message B) (xs : List ℕ) (env : Env)
      → (send_each streams m xs env).0 ≡ ok tt
      → sent h (send_each streams m xs env).1 ≡ sent h env ++ copies h xs m
  unfolding send_each copies
  sent-send_each h m [] env ran = sym (append-nil _)
  sent-send_each h m (x ∷ xs) env ran =
      let (u, first, rest) = >>=-eq-ok (send x (copy m)) (λ _. send_each streams m xs) env ran in
      let (_, env') = send x (copy m) env in
      ap (λ r. sent h r.1) rest
      ∙ sent-send_each h m xs env' (ap (λ r. r.0) (sym rest) ∙ ran)
      ∙ sent-send_copy h x xs m env first

  sent-send_all :
      (h : ℕ) (ms : List (Message B)) (xs : List ℕ) (env : Env)
      → (send_all streams ms xs env).0 ≡ ok tt
      → sent h (send_all streams ms xs env).1 ≡ sent h env ++ deliveries h xs ms
  unfolding send_all deliveries
  sent-send_all h [] xs env ran = sym (append-nil _)
  sent-send_all h (m ∷ ms) xs env ran =
      let (u, first, rest) =
        >>=-eq-ok (send_each streams m xs) (λ _. send_all streams ms xs) env ran in
      let (_, env') = send_each streams m xs env in
      ap (λ r. sent h r.1) rest
      ∙ sent-send_all h ms xs env' (ap (λ r. r.0) (sym rest) ∙ ran)
      ∙ ap (λ l. l ++ deliveries h xs ms) (sent-send_each h m xs env first)
      ∙ append_assoc (sent h env) (copies h xs m) (deliveries h xs ms)

  deliveries-nil : (h : ℕ) (ms : List (Message B)) → deliveries h [] ms ≡ []
  unfolding deliveries copies
  deliveries-nil h [] = refl
  deliveries-nil h (m ∷ ms) = deliveries-nil h ms

  publish_to_delivers :
      (o : Option TopicState) (ms : List (Message B)) (s : PubSub Env)
      → (publish_to streams o ms s).0 ≡ ok tt
      → ((h : ℕ)
          → sent h (publish_to streams o ms s).1.env
            ≡ sent h s.env ++ deliveries h (or_new o).subscribers ms)
        × ((publish_to streams o ms s).1.topics ≡ s.topics)
  unfolding publish_to
  publish_to_delivers none ms s ran =
      (λ h. sym (ap (λ l. sent h s.env ++ l) (deliveries-nil h ms) ∙ append-nil _), refl)
  publish_to_delivers (some state) ms s ran =
      (λ h. sent-send_all h ms state.subscribers s.env ran, refl)

  -- A publish that returns has put, on every stream, a copy of each message for every time that the
  -- stream is listed under the topic, in the order of the messages, and nothing on the other streams;
  -- with no topic state nothing is put anywhere. The topics stay as they are.
  pub publish_delivers :
      (topic : String) (ms : List (Message B)) (s : PubSub Env)
      → (publish streams topic ms s).0 ≡ ok tt
      → ((h : ℕ)
          → sent h (publish streams topic ms s).1.env
            ≡ sent h s.env ++ deliveries h (listed topic s) ms)
        × ((publish streams topic ms s).1.topics ≡ s.topics)
  unfolding publish
  publish_delivers topic ms s ran =
      let on_topic = publish_to streams (get topic s.topics) ms s in
      let to_topic : publish streams topic ms s ≡ on_topic = ground arith in
      simp to_topic (publish_to_delivers (get topic s.topics) ms s (simp to_topic at ran))
