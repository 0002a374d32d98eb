-- ===== src/Kafka/Examples.antt =====
-- Tests of natricine-kafka, and its theorems at concrete inputs.
use natricine.Prelude.{
  ℕ, ◌≡◌, refl, String, Bool, true, false, List, [], ◌∷◌, if◌then◌else◌, ◌==◌, string_eq, ◌+◌,
}
use natricine.Prelude.Dict.{get}
use natricine.Runtime.{Result, ok, err, error, Exec}
use natricine.Pubsub.Message.{Message, fresh, ack, nack}
use natricine.Kafka.Marshaling.{Texts, to_kafka_headers}
use natricine.Kafka.Publisher.{Producer}
use natricine.Kafka.Subscriber.{
  Consumer, ConsumerRecord, KafkaSubscriber, message_of, to_message, subscribe,
}
use natricine.Kafka.Subscriber.Lifecycle.{subscribe_forgets}
use natricine.Pubsub.Memory.{contains}
use natricine.Kafka.Subscriber.Offsets.{ConsumerLaws, Settled, settle_all, settle_all_lem}
use natricine.Kafka.Subscriber.Delivery.{to_message-to_kafka_headers}

-- Enough for the texts "7" and "order".
abbrev decode : List ℕ → Result String
decode [] = ok "7"
decode (b ∷ rest) = ok "order"

abbrev texts : Texts
texts = record {
  encode = λ s. if s == "7" then [] else 1 ∷ [];
  decode = decode;
  uuid_str = λ u. "7";
  parse_uuid = λ s. ok 7;
}

-- A partition as its consumer sees it: the offset to fetch, and the committed one.
record Offsets : Type 0 where
  next : ℕ
  group : ℕ

abbrev consumer : Consumer Offsets
consumer = record {
  start = λ e. (ok tt, e);
  stop = λ e. (ok tt, e);
  getmany = λ e. (ok [], e);
  commit = λ tp o e. (ok tt, record e { group = o });
  seek = λ tp o e. (ok tt, record e { next = o });
  uuid4 = λ e. (9, e);
}

abbrev consumer_laws : ConsumerLaws consumer
consumer_laws = record {
  position = λ tp e. e.next;
  committed = λ tp e. e.group;
  committed-commit = λ tp o e h. refl;
  position-commit = λ tp o e. refl;
  position-seek = λ tp o e h. refl;
  committed-seek = λ tp o e. refl;
}

abbrev order : Message Offsets
order = fresh (1 ∷ 2 ∷ []) (("kind", "order") ∷ []) 7

abbrev at_rest : Offsets
at_rest = record { next = 12; group = 10 }

abbrev order_record : ConsumerRecord
order_record = record {
  offset = 10;
  value = 1 ∷ 2 ∷ [];
  headers = to_kafka_headers texts order "uuid";
}

to_message-to_kafka_headers_example :
    to_message consumer texts "uuid" 0 order_record at_rest
    ≡ (ok (message_of consumer 0 order_record (("kind", "order") ∷ []) 7), at_rest)
unfolding get
to_message-to_kafka_headers_example =
    to_message-to_kafka_headers consumer texts "uuid" 0 10 order at_rest
      (record { values = (refl, tt); uuid_text = refl; parse_uuid-uuid_str = refl }) (refl, tt) refl

abbrev settled : Bool → ℕ → Settled
settled acks offset = record {
  acks = acks;
  from_record = record order_record { offset = offset };
  metadata = [];
  uuid = 7;
}

-- Of two nacks in one batch the second alone is fetched again, and the ack after it commits past both.
settle_all_lem_example :
    let after =
      (settle_all consumer 0
        (settled false 10 ∷ settled false 11 ∷ settled true 11 ∷ [])
        at_rest).1 in
    (after.next ≡ 11) × (after.group ≡ 12)
unfolding ack nack
settle_all_lem_example =
    settle_all_lem consumer 0 consumer_laws
      (settled false 10 ∷ settled false 11 ∷ settled true 11 ∷ []) at_rest refl

-- A producer whose broker is down at the first start; it counts what is sent.
abbrev producer : Producer ℕ
producer = record {
  start = λ n. (err (error "KafkaConnectionError" ""), n);
  send_and_wait = λ topic value headers n. (ok tt, n + 1);
  stop = λ n. (ok tt, n);
}

abbrev ignores : Message Offsets → Exec (KafkaSubscriber Offsets) (Unit {0})
ignores m s = (ok tt, s)

abbrev subscribed : KafkaSubscriber Offsets
subscribed = record { closed = false; consumers = 1 ∷ []; env = at_rest }

subscribe_forgets_example :
    (subscribe consumer texts "uuid" ignores 3 2 subscribed).1.consumers ≡ 1 ∷ []
unfolding contains
subscribe_forgets_example =
    subscribe_forgets consumer texts "uuid" ignores (λ m s. refl) 3 2 subscribed refl (λ e. refl)
