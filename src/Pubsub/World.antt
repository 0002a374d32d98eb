-- ===== src/Pubsub/World.antt =====
-- Where messages live while they are handled: `Message` is a mutable object, which the router, the
-- middlewares and the handler share. `B` is all else: the backends, the publishers, the clock.
pub mod Settled
use natricine.Prelude.{ℕ, String, Bool, List, Option, if◌then◌else◌, ◌==◌, nat_eq}
use natricine.Runtime.{Exec}
use natricine.Pubsub.Message.{Message, Cell, ack, nack}

-- `heap r` is the message object `r`.
pub record World (B : Type 0) : Type 0 where
  pub heap : ℕ → Message B
  pub env : B

-- pubsub/publisher.py
pub record Publisher (B : Type 0) : Type 0 where
  pub publish : String → List (Message B) → Exec B (Unit {0})
  pub close : Exec B (Unit {0})

module _ {B : Type 0} where
  abbrev pub store : (ℕ → Message B) → ℕ → Message B → ℕ → Message B
  store heap r m j = if r == j then m else heap j

  abbrev pub cell_at : ℕ → World B → Cell B
  cell_at r w = record { self = w.heap r; env = w.env }

  -- A method of the message object `r`, on the shared store.
  abbrev pub on_message : {A : Type 0} → Exec (Cell B) A → ℕ → Exec (World B) A
  on_message act r w =
      let (result, c) = act (cell_at r w) in
      (result, record { heap = store w.heap r c.self; env = c.env })

  -- An action of a backend or of a publisher.
  abbrev pub on_env : {A : Type 0} → Exec B A → Exec (World B) A
  on_env act w = let (result, env) = act w.env in (result, record w { env = env })

  unfoldable pub ack_at : ℕ → Exec (World B) (Unit {0})
  ack_at = on_message ack

  unfoldable pub nack_at : ℕ → Exec (World B) (Unit {0})
  nack_at = on_message nack
