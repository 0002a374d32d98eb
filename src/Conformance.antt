-- ===== src/Conformance.antt =====
-- packages/natricine-conformance/src/natricine_conformance/pubsub.py: the suite that every backend has to pass. A test is an
-- action that returns, or raises where an `assert` fails. Its tasks run one after the other, as its sleeps
-- order them: the subscribers subscribe, then the publishers publish, then the subscribers read.
pub mod Core
pub mod FanOut
pub mod Acknowledgment
pub mod Robustness
pub mod Suite
pub mod Memory
mod Examples
use natricine.Prelude.{
  ℕ, zero, suc, String, Bool, true, false, Option, none, some, List, [], ◌∷◌, if◌then◌else◌,
}
use natricine.Runtime.{Exn, error, Result, ok, err, Exec, pure, raise, lift, ◌>>=◌, ◌>>◌}
use natricine.Pubsub.Message.{Message, Cell}

pub record PubSubFeatures : Type 0 where
  pub broadcast : Bool
  pub persistent : Bool
  pub redelivery_on_nack : Bool
  pub guaranteed_order : Bool
  pub exactly_once : Bool
  pub redelivery_timeout_s : ℕ

-- Publisher and Subscriber: `next_message` is a round of `async for`, and `none` its end. `backend` is what
-- the callbacks of messages act on.
pub record PubSub (W I B : Type 0) : Type 0 where
  pub publish : String → List (Message B) → Exec W (Unit {0})
  pub subscribe : String → Exec W I
  pub next_message : I → Exec W (Option (Message B))
  pub close : Exec W (Unit {0})
  pub backend : W → B
  pub set_backend : B → W → W

abbrev assertion_error : Exn
assertion_error = error "AssertionError" ""

abbrev pub skipped : Exn
skipped = error "Skipped" ""

module _ {W : Type 0} where
  -- assert b
  abbrev pub check : Bool → Exec W (Unit {0})
  check true = pure tt
  check false = raise assertion_error

  -- The fixtures that skip the tests of a feature that a backend has not.
  abbrev pub requires : Bool → Exec W (Unit {0}) → Exec W (Unit {0})
  requires true test = test
  requires false test = raise skipped

module _ {W I B : Type 0} (ps : PubSub W I B) where
  -- A method of a message, which is returned as it is afterwards.
  unfoldable pub on_message : Exec (Cell B) (Unit {0}) → Message B → Exec W (Message B)
  on_message act m w =
      let (r, c) = act (record { self = m; env = ps.backend w }) in
      (do lift r; pure c.self) (ps.set_backend c.env w)

  -- The first rounds of `async for`, which ends with a `break`; the messages as the body left them.
  unfoldable pub read : ℕ → (Message B → Exec W (Message B)) → I → Exec W (List (Message B))
  read zero body it = pure []
  read (suc n) body it = ps.next_message it >>= λ o. elim o [
    | none ↦ pure []
    | some m ↦ do m' ← body m; rest ← read n body it; pure (m' ∷ rest)
  ]

  -- The tasks that publish, each a message.
  unfoldable pub publish_each : String → List (Message B) → Exec W (Unit {0})
  publish_each topic [] = pure tt
  publish_each topic (m ∷ ms) = do ps.publish topic (m ∷ []); publish_each topic ms

  -- A subscriber that reads some messages, and what is published.
  unfoldable pub one_subscriber :
      String → List (Message B) → ℕ → (Message B → Exec W (Message B)) → Exec W (List (Message B))
  one_subscriber topic ms n body = do it ← ps.subscribe topic; publish_each topic ms; read n body it

  -- Two of them.
  unfoldable pub two_subscribers :
      String
      → List (Message B)
      → ℕ
      → (Message B → Exec W (Message B))
      → Exec W (List (Message B) × List (Message B))
  two_subscribers topic ms n body = do
    first ← ps.subscribe topic
    second ← ps.subscribe topic
    publish_each topic ms
    received1 ← read n body first
    received2 ← read n body second
    pure (received1, received2)
