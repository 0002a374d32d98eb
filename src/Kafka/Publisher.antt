-- ===== src/Kafka/Publisher.antt =====
-- packages/natricine-kafka/src/natricine_kafka/publisher.py, over a producer of aiokafka, which is a
-- parameter. What the constructors of aiokafka take from the configuration does not show in the model.
pub mod Start
use natricine.Prelude.{ℕ, String, Bool, true, false, if◌then◌else◌, List, [], ◌∷◌}
use natricine.Runtime.{Exn, error, Result, ok, Exec, pure, raise, ◌>>=◌, ◌>>◌}
use natricine.Pubsub.Message.{Message}
use natricine.Kafka.Marshaling.{Texts, Headers, to_kafka_headers}

pub record Producer (B : Type 0) : Type 0 where
  pub start : Exec B (Unit {0})
  pub send_and_wait : String → List ℕ → Headers → Exec B (Unit {0})
  pub stop : Exec B (Unit {0})

-- `_producer` is there or not; the object itself is the parameter.
pub record KafkaPublisher (B : Type 0) : Type 0 where
  pub has_producer : Bool
  pub closed : Bool
  pub env : B

abbrev pub publisher_closed : Exn
publisher_closed = error "RuntimeError" "Publisher is closed"

module _ {B : Type 0} (producer : Producer B) where
  abbrev pub on_producer : {A : Type 0} → Exec B A → Exec (KafkaPublisher B) A
  on_producer act s = let (r, env) = act s.env in (r, record s { env = env })

  -- The producer is kept before it is started.
  unfoldable pub get_producer : Exec (KafkaPublisher B) (Unit {0})
  get_producer s =
      if s.has_producer
      then (ok tt, s)
      else on_producer producer.start (record s { has_producer = true })

  module _ (texts : Texts) (uuid_header : String) where
    unfoldable pub send_each : String → List (Message B) → Exec B (Unit {0})
    send_each topic [] = pure tt
    send_each topic (m ∷ ms) = do
      producer.send_and_wait topic m.payload (to_kafka_headers texts m uuid_header)
      send_each topic ms

    unfoldable pub publish : String → List (Message B) → Exec (KafkaPublisher B) (Unit {0})
    publish topic ms s =
        if s.closed
        then raise publisher_closed s
        else (do get_producer; on_producer (send_each topic ms)) s

  unfoldable pub close : KafkaPublisher B → KafkaPublisher B
  close s = record s { closed = true }

  -- `__aexit__`
  unfoldable pub leave : Exec (KafkaPublisher B) (Unit {0})
  leave s =
      let t = record s { closed = true } in
      if t.has_producer
      then (do on_producer producer.stop; λ u. (ok tt, record u { has_producer = false })) t
      else (ok tt, t)
