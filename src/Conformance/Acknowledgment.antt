-- ===== src/Conformance/Acknowledgment.antt =====
-- `PubSubConformance.Acknowledgment`: acks and nacks of what is received.
use natricine.Prelude.{ℕ, Bool, [], ◌∷◌, ◌==◌, nat_eq, string_eq, ◌||◌, length}
use natricine.Runtime.{Exn, error, permanent, Result, ok, err, cancelled, Exec, pure, ◌>>=◌, ◌>>◌}
use natricine.Pubsub.Message.{Message, Cell, fresh, ack, nack}
use natricine.Conformance.{PubSub, check, on_message, one_subscriber}
use natricine.Conformance.Core.{acks, first_of}

-- pytest.raises((ValueError, RuntimeError)): pytest's `Failed` where nothing is raised
abbrev expected : Exn → Bool
expected (error kind text) = kind == "ValueError" || kind == "RuntimeError"
expected (permanent e) = expected e

abbrev pub failed : Exn
failed = error "Failed" "DID NOT RAISE"

module _ {W A : Type 0} where
  abbrev pub outcome : Result A → Exec W (Unit {0})
  outcome (ok a) w = (err failed, w)
  outcome (err e) w = check (expected e) w
  outcome cancelled w = (cancelled, w)

  abbrev pub raises : Exec W A → Exec W (Unit {0})
  raises act w = let (r, w') = act w in outcome r w'

-- The body of a subscriber that asserts what the message is after the method.
abbrev pub then_check :
    {W I B : Type 0}
    → PubSub W I B
    → Exec (Cell B) (Unit {0})
    → (Message B → Bool)
    → Message B
    → Exec W (Message B)
then_check ps act flag m = do m' ← on_message ps act m; check (flag m'); pure m'

module _ {W I B : Type 0} (ps : PubSub W I B) (uuid : ℕ → ℕ) where
  unfoldable pub test_ack_succeeds : Exec W (Unit {0})
  test_ack_succeeds = do
    one_subscriber ps "conformance.ack.success"
        (fresh (97 ∷ 99 ∷ 107 ∷ 32 ∷ 109 ∷ 101 ∷ []) [] (uuid 0) ∷ []) 1
        (then_check ps ack (λ m. m.acked))
    pure tt

  unfoldable pub test_nack_succeeds : Exec W (Unit {0})
  test_nack_succeeds = do
    one_subscriber ps "conformance.ack.nack"
        (fresh (110 ∷ 97 ∷ 99 ∷ 107 ∷ 32 ∷ 109 ∷ 101 ∷ []) [] (uuid 0) ∷ []) 1
        (then_check ps nack (λ m. m.nacked))
    pure tt

  unfoldable pub test_double_ack_raises : Exec W (Unit {0})
  test_double_ack_raises = do
    received ←
        one_subscriber ps "conformance.ack.double"
          (fresh (100 ∷ 111 ∷ 117 ∷ 98 ∷ 108 ∷ 101 ∷ 32 ∷ 97 ∷ 99 ∷ 107 ∷ []) [] (uuid 0) ∷ []) 1
          (acks ps)
    check (length received == 1)
    m ← first_of received
    raises (on_message ps ack m)
