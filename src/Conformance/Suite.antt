-- ===== src/Conformance/Suite.antt =====
-- The tests of `PubSubConformance` that do not depend on how the tasks of the backend interleave.
use natricine.Prelude.{ℕ, List, [], ◌∷◌}
use natricine.Runtime.{Exec, pure, ◌>>◌}
use natricine.Conformance.{PubSub, PubSubFeatures}
use natricine.Conformance.Core.{
  test_publish_single_message, test_publish_multiple_messages, test_subscribe_receives_message,
  test_message_payload_preserved, test_message_metadata_preserved, test_message_uuid_preserved,
}
use natricine.Conformance.FanOut.{test_multiple_subscribers_receive_message}
use natricine.Conformance.Acknowledgment.{
  test_ack_succeeds, test_nack_succeeds, test_double_ack_raises,
}
use natricine.Conformance.Robustness.{
  test_concurrent_publishers, test_high_message_volume, test_messages_received_in_order,
}

module _ {W I B : Type 0} (ps : PubSub W I B) where
  -- `Lifecycle`: what `subscribe` returns is an iterator by its type.
  unfoldable pub test_subscribe_returns_async_iterator : Exec W (Unit {0})
  test_subscribe_returns_async_iterator = do ps.subscribe "conformance.lifecycle.iterator"; pure tt

  abbrev pub suite : (ℕ → ℕ) → PubSubFeatures → List (Exec W (Unit {0}))
  suite uuid features =
      test_publish_single_message ps uuid
      ∷ test_publish_multiple_messages ps uuid
      ∷ test_subscribe_receives_message ps uuid
      ∷ test_message_payload_preserved ps uuid
      ∷ test_message_metadata_preserved ps uuid
      ∷ test_message_uuid_preserved ps uuid
      ∷ test_multiple_subscribers_receive_message ps uuid features
      ∷ test_ack_succeeds ps uuid
      ∷ test_nack_succeeds ps uuid
      ∷ test_double_ack_raises ps uuid
      ∷ test_subscribe_returns_async_iterator
      ∷ test_concurrent_publishers ps uuid
      ∷ test_high_message_volume ps uuid
      ∷ test_messages_received_in_order ps uuid features
      ∷ []
