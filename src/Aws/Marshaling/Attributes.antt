-- ===== src/Aws/Marshaling/Attributes.antt =====
-- A message through SQS: its attributes and its body, written by the publisher and read back.
use natricine.Prelude.{
  ℕ, Bool, if_elim, String, ◌≡◌, refl, sym, ap, ◌∙◌, false, Bool-cases, inl, inr, Option, none,
  some, List, [], ◌∷◌, ◌++◌, ◌||◌, ◌==◌, string_eq, eq_iff, eq_refl, if◌then◌else◌, arith,
}
use mathlib.Core.List.{append-nil, append_assoc}
use natricine.Prelude.Dict.{
  Dict, get, put, contains, HasKeysOnce, Apart, put_new, Apart-snoc, head-Apart, tail-Apart,
}
use natricine.Runtime.{ok}
use natricine.Pubsub.Message.{Message, AckFunc, fresh}
use natricine.Aws.Marshaling.{
  Attribute, Python, deduplication_key, group_key, Converted, text_attribute, add_entry,
  add_entries, put_value, collect, SqsMessage, encode_message_body, decode_message_body,
  to_message_attributes, uuid_from, from_sqs_message,
}

abbrev pub is_fifo : String → Bool
is_fifo key = key == deduplication_key || key == group_key

-- The metadata without the two keys that FIFO queues use.
abbrev pub without_fifo : Dict String String → Dict String String
without_fifo [] = []
without_fifo ((key, value) ∷ d) =
    if is_fifo key then without_fifo d else (key, value) ∷ without_fifo d

abbrev as_attributes : Dict String String → Dict String Attribute
as_attributes [] = []
as_attributes ((key, value) ∷ d) = (key, text_attribute value) ∷ as_attributes d

contains-without_fifo :
    (k : String) (d : Dict String String)
    → contains k d ≡ false
    → contains k (without_fifo d) ≡ false
unfolding get
contains-without_fifo k [] h = refl
contains-without_fifo k ((key, value) ∷ d) h = ground (arith, contains-without_fifo k d)

HasKeysOnce-without_fifo : (d : Dict String String) → HasKeysOnce d → HasKeysOnce (without_fifo d)
HasKeysOnce-without_fifo [] h = tt
HasKeysOnce-without_fifo ((key, value) ∷ d) (new, once) =
    let rest = HasKeysOnce-without_fifo d once in
    if_elim HasKeysOnce (is_fifo key) {x = without_fifo d} {y = (key, value) ∷ without_fifo d}
      (λ _. rest) (λ _. (contains-without_fifo key d new, rest))

attrs-add_entry :
    (key value : String) (a : Converted)
    → (add_entry key value a).attrs
      ≡ (if is_fifo key then a.attrs else put key (text_attribute value) a.attrs)
attrs-add_entry key value a = ground arith

attrs-add_entries :
    (d : Dict String String) (a : Converted)
    → HasKeysOnce d
    → Apart a.attrs d
    → (add_entries d a).attrs ≡ a.attrs ++ as_attributes (without_fifo d)
unfolding add_entries
attrs-add_entries [] a once apart = sym (append-nil a.attrs)
attrs-add_entries ((key, value) ∷ d) a (new, once) apart =
    let b = add_entry key value a in
    let one = attrs-add_entry key value a in
    elim (Bool-cases (is_fifo key)) [
      | inl fifo ↦
          let same : b.attrs ≡ a.attrs = rw fifo at one in
          let rest = attrs-add_entries d b once (rw same (tail-Apart key value a.attrs d apart)) in
          rw fifo (rest ∙ ap (λ x. x ++ as_attributes (without_fifo d)) same)
      | inr plain ↦
          let entry = text_attribute value in
          let free = head-Apart key value a.attrs d apart in
          let grown : b.attrs ≡ a.attrs ++ (key, entry) ∷ [] =
            (rw plain at one) ∙ put_new key entry a.attrs free in
          let rest =
            attrs-add_entries d b once
              (rw grown (Apart-snoc key entry value a.attrs d new apart)) in
          rw plain (
            rest
            ∙ ap (λ x. x ++ as_attributes (without_fifo d)) grown
            ∙ append_assoc a.attrs ((key, entry) ∷ []) (as_attributes (without_fifo d)))
    ]

not_there :
    (key k value : String) (d : Dict String String)
    → contains k ((key, value) ∷ d) ≡ false
    → ((key == k) ≡ false) × (contains k d ≡ false)
unfolding get
not_there key k value d h = (ground (arith, h), ground (arith, h))

collect-eq-append :
    (uuid_attr : String) (d taken : Dict String String)
    → HasKeysOnce d
    → Apart taken d
    → contains uuid_attr d ≡ false
    → collect uuid_attr (as_attributes d) taken ≡ taken ++ d
unfolding collect put_value get
collect-eq-append uuid_attr [] taken once apart free = sym (append-nil taken)
collect-eq-append uuid_attr ((key, value) ∷ d) taken (new, once) apart free =
    let (other, later) = not_there key uuid_attr value d free in
    let one = put_new key value taken (head-Apart key value taken d apart) in
    let rest =
      collect-eq-append uuid_attr d (taken ++ (key, value) ∷ []) once
        (Apart-snoc key value value taken d new apart) later in
    let step : (if key == uuid_attr then taken else put key value taken)
        ≡ taken ++ (key, value) ∷ [] =
      rw other one in
    ap (collect uuid_attr (as_attributes d)) step ∙ rest ∙ append_assoc taken ((key, value) ∷ []) d

collect_own :
    (uuid_attr value : String) (attrs : Dict String Attribute)
    → collect uuid_attr ((uuid_attr, text_attribute value) ∷ attrs) [] ≡ collect uuid_attr attrs []
unfolding collect put_value
collect_own uuid_attr value attrs =
    let skipped : (if uuid_attr == uuid_attr then [] else put uuid_attr value []) ≡ [] =
      rw (eq_refl uuid_attr) refl in
    ap (collect uuid_attr attrs) skipped

Apart-uuid :
    (uuid_attr : String) (a : Attribute) (d : Dict String String)
    → contains uuid_attr d ≡ false
    → Apart ((uuid_attr, a) ∷ []) d
unfolding get
Apart-uuid uuid_attr a d free k here = elim (Bool-cases (uuid_attr == k)) [
  | inl same ↦ cc (ap (λ j. contains j d) ((eq_iff uuid_attr k).0 same), free, here)
  | inr other ↦ rw other refl
]

module _ {B : Type 0} (python : Python B) (uuid_attr : String) (m : Message B) where
  attrs-to_message_attributes :
      HasKeysOnce m.metadata
      → contains uuid_attr m.metadata ≡ false
      → (to_message_attributes python m uuid_attr).attrs
        ≡ (uuid_attr, text_attribute (python.uuid_str m.uuid))
          ∷ as_attributes (without_fifo m.metadata)
  unfolding to_message_attributes
  attrs-to_message_attributes once free =
      attrs-add_entries m.metadata _ once (Apart-uuid uuid_attr _ m.metadata free)

  collect_written :
      HasKeysOnce m.metadata
      → contains uuid_attr m.metadata ≡ false
      → collect uuid_attr
          ((uuid_attr, text_attribute (python.uuid_str m.uuid))
            ∷ as_attributes (without_fifo m.metadata))
          []
        ≡ without_fifo m.metadata
  unfolding collect get
  collect_written once free =
      collect_own uuid_attr (python.uuid_str m.uuid) (as_attributes (without_fifo m.metadata))
      ∙ collect-eq-append uuid_attr (without_fifo m.metadata) []
          (HasKeysOnce-without_fifo m.metadata once) (λ k here. refl)
          (contains-without_fifo uuid_attr m.metadata free)

  uuid_read :
      (env : B)
      → python.parse_uuid (python.uuid_str m.uuid) ≡ ok m.uuid
      → (python.uuid_str m.uuid == "") ≡ false
      → uuid_from python (some (python.uuid_str m.uuid)) env ≡ (ok m.uuid, env)
  uuid_read env parsed full = rw (full, parsed) refl

-- A message that SQS carries with the attributes and the body that `to_message_attributes` and
-- `encode_message_body` wrote for it is delivered with its uuid, with its metadata without the two FIFO
-- keys, in order, and with the payload that its body decodes to, if the text of its uuid is read back
-- and is not empty and its metadata has no key twice and not the key of the uuid.
pub from_sqs_message-to_message_attributes :
    {B : Type 0} (python : Python B) (uuid_attr : String) (m : Message B) (payload : List ℕ)
    (ack_func nack_func : Option (AckFunc B)) (env : B)
    → python.parse_uuid (python.uuid_str m.uuid) ≡ ok m.uuid
    → (python.uuid_str m.uuid == "") ≡ false
    → HasKeysOnce m.metadata
    → contains uuid_attr m.metadata ≡ false
    → decode_message_body python (encode_message_body python m.payload) false ≡ ok payload
    → let carried : SqsMessage = record {
      body = some (encode_message_body python m.payload);
      message_attributes = some (to_message_attributes python m uuid_attr).attrs;
      receipt_handle = none;
    } in
      from_sqs_message python carried ack_func nack_func uuid_attr env ≡ (
        ok (record (fresh payload (without_fifo m.metadata) m.uuid) {
          ack_func = ack_func;
          nack_func = nack_func;
        }),
        env,
      )
unfolding from_sqs_message get
from_sqs_message-to_message_attributes python uuid_attr m payload ack_func nack_func env parsed full
      once free body =
    rw
      (
        attrs-to_message_attributes python uuid_attr m once free,
        eq_refl uuid_attr,
        uuid_read python uuid_attr m env parsed full,
        body,
        collect_written python uuid_attr m once free,
      )
      refl
