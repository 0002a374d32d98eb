-- ===== src/Conformance/Memory.antt =====
-- InMemoryPubSub (packages/natricine/src/natricine/pubsub/memory.py) as the suite sees it
-- (packages/natricine-conformance/tests/test_inmemory_conformance.py).
pub mod Reading
pub mod Subscribers
pub mod Passing
pub mod Conforming
use natricine.Prelude.{
  ℕ, ◌≡◌, ◌<◌, true, false, Option, none, some, List, [], ◌∷◌, ◌++◌, ◌==◌, nat_eq, if◌then◌else◌,
  length,
}
use natricine.Runtime.{ok, Exec}
use natricine.Pubsub.Message.{Message}
use natricine.Pubsub.Memory
use natricine.Pubsub.Memory.Anyio.{Streams}
use natricine.Conformance.{PubSub, PubSubFeatures}

abbrev pub memory_features : PubSubFeatures
memory_features = record {
  broadcast = true;
  persistent = false;
  redelivery_on_nack = false;
  guaranteed_order = true;
  exactly_once = true;
  redelivery_timeout_s = 5;
}

module _ {B : Type 0} (streams : Streams (Message B)) where
  open streams use {Env}

  abbrev pub World : Type 0
  World = Memory.PubSub Env × B

  abbrev on_pubsub : {A : Type 0} → Exec (Memory.PubSub Env) A → Exec World A
  on_pubsub act (s, b) = let (r, s') = act s in (r, (s', b))

  abbrev pub memory : PubSub World Memory.Iter B
  memory = record {
    publish = λ topic ms. on_pubsub (Memory.publish streams topic ms);
    subscribe = λ topic. on_pubsub (Memory.subscribe streams topic);
    next_message = λ it. on_pubsub (Memory.next_message streams it);
    close = on_pubsub (Memory.close streams);
    backend = λ (s, b). b;
    set_backend = λ b (s, old). (s, b);
  }
