-- ===== src/Conformance/Memory/Passing.antt =====
-- InMemoryPubSub passes the suite.
use natricine.Prelude.{
  ℕ, zero, suc, ◌≡◌, ◌≤◌, refl, ap, true, List, [], ◌∷◌, arith, nat_eq, string_eq, eq_refl, length,
  map, String,
}
use natricine.Prelude.Dict.{get}
use natricine.Runtime.{ok}
use natricine.Pubsub.Message.{Message, ack, nack, copy, fresh}
use natricine.Pubsub.Memory.{init, publish}
use natricine.Pubsub.Memory.Anyio.{Streams}
use natricine.Pubsub.Memory.Channels.{ChannelLaws}
use natricine.Conformance.{on_message, one_subscriber, two_subscribers}
use natricine.Conformance.Core.{
  acks, same_bytes, test_publish_single_message, test_publish_multiple_messages,
  test_subscribe_receives_message, test_message_payload_preserved, test_message_metadata_preserved,
  test_message_uuid_preserved,
}
use natricine.Conformance.FanOut.{test_multiple_subscribers_receive_message}
use natricine.Conformance.Acknowledgment.{
  then_check, test_ack_succeeds, test_nack_succeeds, test_double_ack_raises,
}
use natricine.Conformance.Robustness.{
  numbered, padded, range, same_payloads, test_concurrent_publishers, test_high_message_volume,
  test_messages_received_in_order,
}
use natricine.Conformance.Memory.{World, memory, memory_features}
use natricine.Conformance.Memory.Subscribers.{one_subscriber_lem, two_subscribers_lem}

module _ {B : Type 0} {streams : Streams (Message B)} (laws : ChannelLaws streams)
    (uuid : ℕ → ℕ) where
  open streams use {Env}

  -- What an ack and a nack make of a message that is delivered.
  abbrev acked_copy : Message B → Message B
  acked_copy m = record (copy m) { acked = true }

  abbrev nacked_copy : Message B → Message B
  nacked_copy m = record (copy m) { nacked = true }

  acks-copy :
      (m : Message B) (w : World streams)
      → acks (memory streams) (copy m) w ≡ (ok (acked_copy m), w)
  unfolding on_message ack copy
  acks-copy m w = refl

  then_check-ack :
      (m : Message B) (w : World streams)
      → then_check (memory streams) ack (λ n. n.acked) (copy m) w ≡ (ok (acked_copy m), w)
  unfolding on_message ack copy
  then_check-ack m w = refl

  then_check-nack :
      (m : Message B) (w : World streams)
      → then_check (memory streams) nack (λ n. n.nacked) (copy m) w ≡ (ok (nacked_copy m), w)
  unfolding on_message nack copy
  then_check-nack m w = refl

  -- What is published, and what is received of it.
  abbrev made : (ℕ → List ℕ) → List ℕ → List (Message B)
  made g numbers = map (λ i. fresh (g i) [] (uuid i)) numbers

  length-made : (g : ℕ → List ℕ) (i n : ℕ) → length (made g (range i n)) ≡ n
  unfolding range
  length-made g i zero = refl
  length-made g i (suc n) = ap suc (length-made g (suc i) n)

  length-received : (g : ℕ → List ℕ) (i n : ℕ) → length (map acked_copy (made g (range i n))) ≡ n
  unfolding range
  length-received g i zero = refl
  length-received g i (suc n) = ap suc (length-received g (suc i) n)

  same_bytes_refl : (bytes : List ℕ) → same_bytes bytes bytes ≡ true
  same_bytes_refl [] = refl
  same_bytes_refl (a ∷ bytes) = rw (eq_refl a, same_bytes_refl bytes)

  same_payloads-received :
      (g : ℕ → List ℕ) (numbers : List ℕ)
      → same_payloads (map (λ m. m.payload) (map acked_copy (made g numbers))) (map g numbers)
        ≡ true
  unfolding copy
  same_payloads-received g [] = refl
  same_payloads-received g (i ∷ numbers) =
      rw (same_bytes_refl (g i), same_payloads-received g numbers)

  module _ (size : ℕ) (env : Env) (b : B) where
    abbrev start : World streams
    start = (init size env, b)

    read_acked :
        (topic : String) (ms : List (Message B))
        → length ms ≤ size
        → (one_subscriber (memory streams) topic ms (length ms) (acks (memory streams)) start).0
          ≡ ok (map acked_copy ms)
    read_acked topic ms fits =
        one_subscriber_lem laws acked_copy (acks (memory streams)) topic ms size env b acks-copy
          fits

    read_range :
        (topic : String) (g : ℕ → List ℕ) (n : ℕ)
        → n ≤ size
        → (one_subscriber
            (memory streams)
            topic
            (made g (range 0 n))
            n
            (acks (memory streams))
            start).0
          ≡ ok (map acked_copy (made g (range 0 n)))
    read_range topic g n fits =
        rw (length-made g 0 n) at
          (read_acked topic (made g (range 0 n)) (rw (length-made g 0 n) fits))

    read_one :
        (topic : String) (m : Message B)
        → 1 ≤ size
        → (one_subscriber (memory streams) topic (m ∷ []) 1 (acks (memory streams)) start).0
          ≡ ok (acked_copy m ∷ [])
    read_one topic m fits = read_acked topic (m ∷ []) fits

    both_read :
        (topic : String) (m : Message B)
        → 2 ≤ size
        → (two_subscribers (memory streams) topic (m ∷ []) 1 (acks (memory streams)) start).0
          ≡ ok (acked_copy m ∷ [], acked_copy m ∷ [])
    both_read topic m fits =
        two_subscribers_lem laws acked_copy (acks (memory streams)) topic (m ∷ []) size env b
          acks-copy fits

    pub passes_core :
        1 ≤ size
        → ((test_publish_single_message (memory streams) uuid start).0 ≡ ok tt)
          × ((test_publish_multiple_messages (memory streams) uuid start).0 ≡ ok tt)
          × ((test_subscribe_receives_message (memory streams) uuid start).0 ≡ ok tt)
          × ((test_message_payload_preserved (memory streams) uuid start).0 ≡ ok tt)
          × ((test_message_metadata_preserved (memory streams) uuid start).0 ≡ ok tt)
          × ((test_message_uuid_preserved (memory streams) uuid start).0 ≡ ok tt)
    unfolding test_publish_single_message test_publish_multiple_messages
        test_subscribe_receives_message test_message_payload_preserved
        test_message_metadata_preserved test_message_uuid_preserved publish get copy
    passes_core fits = (
      refl,
      refl,
      rw (λ (m : Message B). read_one "conformance.core.receive" m fits),
      rw (λ (m : Message B). read_one "conformance.core.payload" m fits),
      rw (λ (m : Message B). read_one "conformance.core.metadata" m fits),
      rw (λ (m : Message B). read_one "conformance.core.uuid" m fits, eq_refl (uuid 0)),
    )

    pub passes_fan_out :
        2 ≤ size
        → (test_multiple_subscribers_receive_message (memory streams) uuid memory_features start).0
          ≡ ok tt
    unfolding test_multiple_subscribers_receive_message copy
    passes_fan_out fits = rw (λ (m : Message B). both_read "conformance.fanout.multi" m fits)

    pub passes_acknowledgment :
        1 ≤ size
        → ((test_ack_succeeds (memory streams) uuid start).0 ≡ ok tt)
          × ((test_nack_succeeds (memory streams) uuid start).0 ≡ ok tt)
          × ((test_double_ack_raises (memory streams) uuid start).0 ≡ ok tt)
    unfolding test_ack_succeeds test_nack_succeeds test_double_ack_raises on_message ack copy
    passes_acknowledgment fits = (
      rw (λ (m : Message B).
          one_subscriber_lem laws acked_copy (then_check (memory streams) ack (λ n. n.acked))
            "conformance.ack.success" (m ∷ []) size env b then_check-ack fits),
      rw (λ (m : Message B).
          one_subscriber_lem laws nacked_copy (then_check (memory streams) nack (λ n. n.nacked))
            "conformance.ack.nack" (m ∷ []) size env b then_check-nack fits),
      rw (λ (m : Message B). read_one "conformance.ack.double" m fits),
    )

    pub passes_robustness :
        50 ≤ size
        → ((test_concurrent_publishers (memory streams) uuid start).0 ≡ ok tt)
          × ((test_high_message_volume (memory streams) uuid start).0 ≡ ok tt)
          × ((test_messages_received_in_order (memory streams) uuid memory_features start).0
              ≡ ok tt)
    unfolding test_concurrent_publishers test_high_message_volume test_messages_received_in_order
    passes_robustness fits = (
      rw (
        read_range "conformance.robust.concurrent_pub" numbered 5 (omega (arith, fits)),
        length-received numbered 0 5,
      ),
      rw (read_range "conformance.robust.volume" numbered 50 fits, length-received numbered 0 50),
      rw (
        read_range "conformance.ordering.sequence" padded 20 (omega (arith, fits)),
        same_payloads-received padded (range 0 20),
      ),
    )
