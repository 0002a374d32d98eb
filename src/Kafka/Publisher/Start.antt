-- ===== src/Kafka/Publisher/Start.antt =====
-- When the producer is started.
use natricine.Prelude.{String, ◌≡◌, refl, false, List}
use natricine.Runtime.{Exn, err}
use natricine.Pubsub.Message.{Message}
use natricine.Kafka.Marshaling.{Texts}
use natricine.Kafka.Publisher.{Producer, KafkaPublisher, get_producer, send_each, publish}

module _ {B : Type 0} (producer : Producer B) (texts : Texts) (uuid_header : String) where
  -- The first publish of an open publisher, if its producer does not start, raises what `start` raised
  -- and does no more than `start` did; the producer is kept all the same, so what the next publish
  -- does is to send through it, and not to start it.
  pub failed_start_kept :
      (topic : String) (ms : List (Message B)) (env : B) (e : Exn)
      → (producer.start env).0 ≡ err e
      → let new : KafkaPublisher B = record { has_producer = false; closed = false; env = env } in
        let (r, s) = publish producer texts uuid_header topic ms new in
        (r ≡ err e)
        × (s.env ≡ (producer.start env).1)
        × ((later : String) (ns : List (Message B))
            → (publish producer texts uuid_header later ns s).1.env
              ≡ (send_each producer texts uuid_header later ns s.env).1)
  unfolding publish get_producer
  failed_start_kept topic ms env e h = rw h (refl, refl, λ later ns. refl)
