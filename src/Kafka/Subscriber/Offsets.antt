-- ===== src/Kafka/Subscriber/Offsets.antt =====
-- What settling messages does to the offsets of their partition.
use natricine.Prelude.{
  ℕ, ◌+◌, String, ◌≡◌, refl, sym, ap, ◌∙◌, Bool, true, false, List, [], ◌∷◌, if◌then◌else◌,
}
use natricine.Prelude.Dict.{Dict}
use natricine.Pubsub.Message.{Cell, ack, nack}
use natricine.Runtime.{ok, Exec, pure, ◌>>◌}
use natricine.Runtime.Laws.{>>=-eq-ok}
use natricine.Kafka.Subscriber.{Consumer, ConsumerRecord, message_of}

-- What Kafka documents of a consumer: for each partition, the offset that is fetched next, and the one
-- from which the group goes on after a restart.
pub record ConsumerLaws {B : Type 0} (consumer : Consumer B) : Type 0 where
  pub position : ℕ → B → ℕ
  pub committed : ℕ → B → ℕ
  pub committed-commit :
      (tp o : ℕ) (env : B)
      → (consumer.commit tp o env).0 ≡ ok tt
      → committed tp (consumer.commit tp o env).1 ≡ o
  pub position-commit :
      (tp o : ℕ) (env : B) → position tp (consumer.commit tp o env).1 ≡ position tp env
  pub position-seek :
      (tp o : ℕ) (env : B)
      → (consumer.seek tp o env).0 ≡ ok tt
      → position tp (consumer.seek tp o env).1 ≡ o
  pub committed-seek :
      (tp o : ℕ) (env : B) → committed tp (consumer.seek tp o env).1 ≡ committed tp env

-- A message of the partition that its reader acks or nacks.
pub record Settled : Type 0 where
  pub acks : Bool
  pub from_record : ConsumerRecord
  pub metadata : Dict String String
  pub uuid : ℕ

-- The offset of the last nack, and the one after the last ack.
abbrev pub last_nacked : ℕ → List Settled → ℕ
last_nacked o [] = o
last_nacked o (x ∷ xs) = last_nacked (if x.acks then o else x.from_record.offset) xs

abbrev pub after_last_acked : ℕ → List Settled → ℕ
after_last_acked o [] = o
after_last_acked o (x ∷ xs) = after_last_acked (if x.acks then x.from_record.offset + 1 else o) xs

module _ {B : Type 0} (consumer : Consumer B) (tp : ℕ) where
  -- `ack` or `nack` of message.py on the message of the record.
  abbrev pub settle_by : Bool → ConsumerRecord → Dict String String → ℕ → Exec B (Unit {0})
  settle_by acks r metadata uuid env =
      let c : Cell B = record { self = message_of consumer tp r metadata uuid; env = env } in
      let (result, d) = if acks then ack c else nack c in (result, d.env)

  abbrev pub settle_all : List Settled → Exec B (Unit {0})
  settle_all [] = pure tt
  settle_all (x ∷ xs) = do settle_by x.acks x.from_record x.metadata x.uuid; settle_all xs

  module _ (laws : ConsumerLaws consumer) where
    settle_by_lem :
        (acks : Bool) (r : ConsumerRecord) (metadata : Dict String String) (uuid : ℕ) (env : B)
        → (settle_by acks r metadata uuid env).0 ≡ ok tt
        → let after = (settle_by acks r metadata uuid env).1 in
          (laws.position tp after ≡ (if acks then laws.position tp env else r.offset))
          × (laws.committed tp after ≡ (if acks then r.offset + 1 else laws.committed tp env))
    unfolding ack nack
    settle_by_lem true r metadata uuid env h =
        (laws.position-commit tp (r.offset + 1) env, laws.committed-commit tp (r.offset + 1) env h)
    settle_by_lem false r metadata uuid env h =
        (laws.position-seek tp r.offset env h, laws.committed-seek tp r.offset env)

    -- If messages of one partition are acked and nacked in any order and every call returns, the
    -- consumer goes on at the offset of the last nack, or where it was if there is none, and the group is
    -- committed to the offset after the last ack, or to what it was if there is none.
    pub settle_all_lem :
        (xs : List Settled) (env : B)
        → (settle_all xs env).0 ≡ ok tt
        → let after = (settle_all xs env).1 in
          (laws.position tp after ≡ last_nacked (laws.position tp env) xs)
          × (laws.committed tp after ≡ after_last_acked (laws.committed tp env) xs)
    settle_all_lem [] env h = (refl, refl)
    settle_all_lem (x ∷ xs) env h =
        let one : Exec B (Unit {0}) = settle_by x.acks x.from_record x.metadata x.uuid in
        let (u, done, then_) = >>=-eq-ok one (λ _. settle_all xs) env h in
        let (at, upto) = settle_by_lem x.acks x.from_record x.metadata x.uuid env done in
        let (position, committed) = settle_all_lem xs (one env).1 (ap (λ r. r.0) (sym then_) ∙ h) in
        (
          ap (λ r. laws.position tp r.1) then_ ∙ position ∙ ap (λ o. last_nacked o xs) at,
          ap (λ r. laws.committed tp r.1) then_ ∙ committed ∙ ap (λ o. after_last_acked o xs) upto,
        )
