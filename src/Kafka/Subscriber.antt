-- ===== src/Kafka/Subscriber.antt =====
-- packages/natricine-kafka/src/natricine_kafka/subscriber.py, over a consumer of aiokafka, which is a
-- parameter.
pub mod Offsets
pub mod Delivery
pub mod Lifecycle
use natricine.Prelude.{
  ℕ, zero, suc, ◌+◌, String, Bool, true, false, if◌then◌else◌, Option, none, some, List, [], ◌∷◌,
  ◌++◌,
}
use natricine.Prelude.Dict.{Dict}
use natricine.Runtime.{Exn, error, Result, ok, err, cancelled, Exec, pure, raise, lift, ◌>>=◌, ◌>>◌}
use natricine.Pubsub.Message.{Message, fresh}
use natricine.Pubsub.Memory.{contains, remove}
use natricine.Kafka.Marshaling.{Texts, Headers, from_kafka_headers}

-- A record of a partition; partitions are numbered. `headers` is `record.headers or []`.
pub record ConsumerRecord : Type 0 where
  pub offset : ℕ
  pub value : List ℕ
  pub headers : Headers

pub record Consumer (B : Type 0) : Type 0 where
  pub start : Exec B (Unit {0})
  pub stop : Exec B (Unit {0})
  -- one poll: the records of each partition
  pub getmany : Exec B (List (ℕ × List ConsumerRecord))
  pub commit : ℕ → ℕ → Exec B (Unit {0})
  pub seek : ℕ → ℕ → Exec B (Unit {0})
  pub uuid4 : B → ℕ × B

-- `consumers` are the consumers of the subscriptions that run, by the identity of the object.
pub record KafkaSubscriber (B : Type 0) : Type 0 where
  pub closed : Bool
  pub consumers : List ℕ
  pub env : B

abbrev pub subscriber_closed : Exn
subscriber_closed = error "RuntimeError" "Subscriber is closed"

unfoldable pub close : {B : Type 0} → KafkaSubscriber B → KafkaSubscriber B
close s = record s { closed = true }

module _ {B : Type 0} (consumer : Consumer B) where
  abbrev pub on_consumer : {A : Type 0} → Exec B A → Exec (KafkaSubscriber B) A
  on_consumer act s = let (r, env) = act s.env in (r, record s { env = env })

  -- `uuid_value or uuid4()`
  abbrev pub uuid_or_new : Option ℕ → Exec B ℕ
  uuid_or_new (some u) env = (ok u, env)
  uuid_or_new none env = let (u, env') = consumer.uuid4 env in (ok u, env')

  abbrev pub message_of : ℕ → ConsumerRecord → Dict String String → ℕ → Message B
  message_of tp r metadata uuid = record (fresh r.value metadata uuid) {
    ack_func = some (consumer.commit tp (r.offset + 1));
    nack_func = some (consumer.seek tp r.offset);
  }

  module _ (texts : Texts) (uuid_header : String) where
    unfoldable pub to_message : ℕ → ConsumerRecord → Exec B (Message B)
    to_message tp r = do
      found ← lift (from_kafka_headers texts r.headers uuid_header)
      uuid ← uuid_or_new found.uuid_value
      pure (message_of tp r found.metadata uuid)

    -- `body` is what the reader of the iterator does with a message before it asks for the next one.
    module _ (body : Message B → Exec (KafkaSubscriber B) (Unit {0})) where
      unfoldable pub deliver_records : ℕ → List ConsumerRecord → Exec (KafkaSubscriber B) (Unit {0})
      deliver_records tp [] = pure tt
      deliver_records tp (r ∷ rs) = do
        m ← on_consumer (to_message tp r)
        body m
        deliver_records tp rs

      unfoldable pub deliver_batch :
          List (ℕ × List ConsumerRecord) → Exec (KafkaSubscriber B) (Unit {0})
      deliver_batch [] = pure tt
      deliver_batch ((tp, rs) ∷ records) = do deliver_records tp rs; deliver_batch records

      -- `while not self._closed`, for a number of rounds after which the reader asks no more.
      unfoldable pub polls : ℕ → Exec (KafkaSubscriber B) (Unit {0})
      polls zero s = (ok tt, s)
      polls (suc rounds) s =
          let next =
            (do records ← on_consumer consumer.getmany; deliver_batch records; polls rounds) s in
          if s.closed then (ok tt, s) else next

      -- The `finally` block of the consumer `id`: an exception of `stop` takes the place of what came
      -- before.
      abbrev pub finish : ℕ → Result (Unit {0}) → Exec (KafkaSubscriber B) (Unit {0})
      finish id r = do
        on_consumer consumer.stop
        λ s. (
          r,
          record s {
            consumers = if contains id s.consumers then remove id s.consumers else s.consumers;
          },
        )

      -- `subscribe`, and the iterator that it returns, whose consumer is a new object.
      unfoldable pub subscribe : ℕ → ℕ → Exec (KafkaSubscriber B) (Unit {0})
      subscribe id rounds s =
          if s.closed
          then raise subscriber_closed s
          else (let (r, t) =
                (do on_consumer consumer.start; polls rounds)
                  (record s { consumers = s.consumers ++ id ∷ [] }) in
              finish id r t)
