-- ===== src/Conformance/FanOut.antt =====
-- `PubSubConformance.FanOut`: every subscriber gets every message, where the backend broadcasts.
use natricine.Prelude.{ℕ, [], ◌∷◌, ◌==◌, nat_eq, length}
use natricine.Runtime.{Exec, ◌>>=◌, ◌>>◌}
use natricine.Pubsub.Message.{fresh}
use natricine.Conformance.{PubSub, PubSubFeatures, check, requires, two_subscribers}
use natricine.Conformance.Core.{acks, first_of, same_bytes}

module _ {W I B : Type 0} (ps : PubSub W I B) (uuid : ℕ → ℕ) (features : PubSubFeatures) where
  unfoldable pub test_multiple_subscribers_receive_message : Exec W (Unit {0})
  test_multiple_subscribers_receive_message = requires features.broadcast (do
    let payload = 98 ∷ 114 ∷ 111 ∷ 97 ∷ 100 ∷ 99 ∷ 97 ∷ 115 ∷ 116 ∷ []
    received ←
        two_subscribers ps "conformance.fanout.multi" (fresh payload [] (uuid 0) ∷ []) 1 (acks ps)
    check (length received.0 == 1)
    check (length received.1 == 1)
    m1 ← first_of received.0
    check (same_bytes m1.payload payload)
    m2 ← first_of received.1
    check (same_bytes m2.payload payload))
