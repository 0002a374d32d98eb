-- ===== src/Kafka/Subscriber/Lifecycle.antt =====
-- The consumers that a subscriber keeps while its subscriptions run.
use natricine.Prelude.{
  ℕ, zero, suc, String, ◌≡◌, refl, true, false, List, [], ◌∷◌, ◌++◌, arith, nat_eq, eq_refl,
  if_elim,
}
use natricine.Runtime.{Result, ok, Exec, ◌>>=◌, ◌>>◌}
use natricine.Runtime.Laws.{Keeps, >>=-Keeps}
use natricine.Pubsub.Message.{Message}
use natricine.Pubsub.Memory.{contains, remove}
use natricine.Kafka.Marshaling.{Texts}
use natricine.Kafka.Subscriber.{
  Consumer, ConsumerRecord, KafkaSubscriber, on_consumer, to_message, deliver_records,
  deliver_batch, polls, finish, subscribe,
}

contains-last : (id : ℕ) (ids : List ℕ) → contains id (ids ++ id ∷ []) ≡ true
unfolding contains
contains-last id [] = ground (arith, eq_refl id)
contains-last id (i ∷ ids) = ground (arith, contains-last id ids)

remove-last : (id : ℕ) (ids : List ℕ) → contains id ids ≡ false → remove id (ids ++ id ∷ []) ≡ ids
unfolding contains remove
remove-last id [] new_ = ground (arith, eq_refl id)
remove-last id (i ∷ ids) new_ = ground (arith, remove-last id ids)

module _ {B : Type 0} (consumer : Consumer B) (texts : Texts) (uuid_header : String)
    (body : Message B → Exec (KafkaSubscriber B) (Unit {0})) where
  abbrev kept : KafkaSubscriber B → List ℕ
  kept s = s.consumers

  module _ (keeps : (m : Message B) → Keeps kept (body m)) where
    deliver_records-Keeps :
        (tp : ℕ) (rs : List ConsumerRecord)
        → Keeps kept (deliver_records consumer texts uuid_header body tp rs)
    unfolding deliver_records
    deliver_records-Keeps tp [] s = refl
    deliver_records-Keeps tp (r ∷ rs) s =
        >>=-Keeps kept (on_consumer consumer (to_message consumer texts uuid_header tp r))
          (λ m. body m >> deliver_records consumer texts uuid_header body tp rs) (λ s. refl)
          (λ m.
            >>=-Keeps kept (body m) (λ _. deliver_records consumer texts uuid_header body tp rs)
              (keeps m) (λ _. deliver_records-Keeps tp rs))
          s

    deliver_batch-Keeps :
        (records : List (ℕ × List ConsumerRecord))
        → Keeps kept (deliver_batch consumer texts uuid_header body records)
    unfolding deliver_batch
    deliver_batch-Keeps [] s = refl
    deliver_batch-Keeps ((tp, rs) ∷ records) s =
        >>=-Keeps kept (deliver_records consumer texts uuid_header body tp rs)
          (λ _. deliver_batch consumer texts uuid_header body records) (deliver_records-Keeps tp rs)
          (λ _. deliver_batch-Keeps records) s

    polls-Keeps : (rounds : ℕ) → Keeps kept (polls consumer texts uuid_header body rounds)
    unfolding polls
    polls-Keeps zero s = refl
    polls-Keeps (suc rounds) s =
        if_elim (λ (r : Result (Unit {0}) × KafkaSubscriber B). kept r.1 ≡ kept s) s.closed
          (λ _. refl)
          (λ _.
            >>=-Keeps kept (on_consumer consumer consumer.getmany)
              (λ records.
                deliver_batch consumer texts uuid_header body records
                >> polls consumer texts uuid_header body rounds)
              (λ t. refl)
              (λ records.
                >>=-Keeps kept (deliver_batch consumer texts uuid_header body records)
                  (λ _. polls consumer texts uuid_header body rounds) (deliver_batch-Keeps records)
                  (λ _. polls-Keeps rounds))
              s)

    finish_forgets :
        (id : ℕ) (ids : List ℕ) (r : Result (Unit {0})) (t : KafkaSubscriber B)
        → contains id ids ≡ false
        → ((env : B) → (consumer.stop env).0 ≡ ok tt)
        → kept t ≡ ids ++ id ∷ []
        → kept (finish consumer texts uuid_header body id r t).1 ≡ ids
    finish_forgets id ids r t new_ stops here =
        rw (stops t.env, here, contains-last id ids, remove-last id ids new_)

    -- However a subscription ends, by itself, by an exception of the consumer, of a header or of the reader, or
    -- cancelled: the subscriber keeps the consumers that it kept before. The consumer is a new object, the reader does not
    -- touch the list, and stopping the consumer does not fail.
    pub subscribe_forgets :
        (id rounds : ℕ) (s : KafkaSubscriber B)
        → contains id s.consumers ≡ false
        → ((env : B) → (consumer.stop env).0 ≡ ok tt)
        → (subscribe consumer texts uuid_header body id rounds s).1.consumers ≡ s.consumers
    unfolding subscribe
    subscribe_forgets id rounds s new_ stops =
        if_elim (λ (r : Result (Unit {0}) × KafkaSubscriber B). kept r.1 ≡ kept s) s.closed
          (λ _. refl)
          (λ _.
            let s' = record s { consumers = s.consumers ++ id ∷ [] } in
            let (r, t) =
              (on_consumer consumer consumer.start >>= λ _.
              polls consumer texts uuid_header body rounds)
                s' in
            finish_forgets id s.consumers r t new_ stops (
              >>=-Keeps kept (on_consumer consumer consumer.start)
                (λ _. polls consumer texts uuid_header body rounds) (λ _. refl)
                (λ _. polls-Keeps rounds) s'))
