-- ===== src/Kafka/Subscriber/Delivery.antt =====
-- A message through Kafka: from the headers of its publisher to the subscriber's reader.
use natricine.Prelude.{string_eq, ℕ, ◌≡◌, refl, String, none, []}
use natricine.Prelude.Dict.{get}
use natricine.Runtime.{ok}
use natricine.Pubsub.Message.{Message}
use natricine.Kafka.Marshaling.{Texts, TextsLaws, to_kafka_headers}
use natricine.Kafka.Marshaling.RoundTrip.{HasNewKeys, from_kafka_headers-to_kafka_headers}
use natricine.Kafka.Subscriber.{Consumer, ConsumerRecord, message_of, to_message}

-- A record that was sent for a message is delivered with the message's payload, metadata and uuid, and
-- with the callbacks of its own offset, if Python reads back the texts that it wrote and the metadata
-- has no key twice and not the key of the uuid.
pub to_message-to_kafka_headers :
    {B : Type 0} (consumer : Consumer B) (texts : Texts) (uuid_header : String) (tp offset : ℕ)
    (m : Message B) (env : B)
    → TextsLaws texts m.metadata m.uuid
    → HasNewKeys [] m.metadata
    → get uuid_header m.metadata ≡ none
    → let r : ConsumerRecord = record {
      offset = offset;
      value = m.payload;
      headers = to_kafka_headers texts m uuid_header;
    } in
      to_message consumer texts uuid_header tp r env
      ≡ (ok (message_of consumer tp r m.metadata m.uuid), env)
unfolding to_message
to_message-to_kafka_headers consumer texts uuid_header tp offset m env laws new free =
    rw (from_kafka_headers-to_kafka_headers texts m uuid_header laws new free) refl
