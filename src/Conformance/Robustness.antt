-- ===== src/Conformance/Robustness.antt =====
-- `PubSubConformance.Robustness` and `Ordering`: many publishers and many messages.
use natricine.Prelude.{
  ℕ, zero, suc, Bool, true, false, List, [], ◌∷◌, ◌+◌, ◌&&◌, ◌==◌, nat_eq, length, map, ltb,
  if◌then◌else◌,
}
use Prim.Native.Nat.{◌/◌, ◌%◌}
use natricine.Runtime.{Exec, ◌>>=◌}
use natricine.Pubsub.Message.{fresh}
use natricine.Conformance.{PubSub, PubSubFeatures, check, requires, one_subscriber}
use natricine.Conformance.Core.{acks, same_bytes}

-- str(i).encode(), for a number below 100
abbrev decimal : ℕ → List ℕ
decimal i = if ltb i 10 then (48 + i) ∷ [] else (48 + i / 10) ∷ (48 + i % 10) ∷ []

-- f"msg{i}".encode()
unfoldable pub numbered : ℕ → List ℕ
numbered i = 109 ∷ 115 ∷ 103 ∷ decimal i

-- f"msg{i:03d}".encode(), for a number below 100
unfoldable pub padded : ℕ → List ℕ
padded i = 109 ∷ 115 ∷ 103 ∷ 48 ∷ (48 + i / 10) ∷ (48 + i % 10) ∷ []

-- range(i, i + n)
unfoldable pub range : ℕ → ℕ → List ℕ
range i zero = []
range i (suc n) = i ∷ range (suc i) n

-- `==` on lists of bytes
abbrev pub same_payloads : List (List ℕ) → List (List ℕ) → Bool
same_payloads [] [] = true
same_payloads (a ∷ as_) (b ∷ bs) = same_bytes a b && same_payloads as_ bs
same_payloads as_ bs = false

module _ {W I B : Type 0} (ps : PubSub W I B) (uuid : ℕ → ℕ) where
  -- The publishers of `test_concurrent_publishers` run in the order in which they are started.
  unfoldable pub test_concurrent_publishers : Exec W (Unit {0})
  test_concurrent_publishers = do
    received ←
        one_subscriber ps "conformance.robust.concurrent_pub"
          (map (λ i. fresh (numbered i) [] (uuid i)) (range 0 5)) 5 (acks ps)
    check (length received == 5)

  unfoldable pub test_high_message_volume : Exec W (Unit {0})
  test_high_message_volume = do
    received ←
        one_subscriber ps "conformance.robust.volume"
          (map (λ i. fresh (numbered i) [] (uuid i)) (range 0 50)) 50 (acks ps)
    check (length received == 50)

  unfoldable pub test_messages_received_in_order : PubSubFeatures → Exec W (Unit {0})
  test_messages_received_in_order features = requires features.guaranteed_order (do
    received ←
        one_subscriber ps "conformance.ordering.sequence"
          (map (λ i. fresh (padded i) [] (uuid i)) (range 0 20)) 20 (acks ps)
    check (same_payloads (map (λ m. m.payload) received) (map padded (range 0 20))))
