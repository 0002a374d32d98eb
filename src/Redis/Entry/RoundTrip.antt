-- ===== src/Redis/Entry/RoundTrip.antt =====
-- An entry that was added for a message, as it is parsed.
use natricine.Prelude.{
  ℕ, String, ◌≡◌, ◌≢◌, refl, sym, ◌∙◌, false, ◌==◌, string_eq, some, [], ◌∷◌, ◌++◌,
}
use mathlib.Core.List.{append-nil, append_assoc}
use natricine.Prelude.Dict.{Dict, get, put, HasKeysOnce, Apart, put_new, Apart-snoc, head-Apart}
use natricine.Runtime.{ok, pure}
use natricine.Pubsub.Message.{Message, AckFunc, fresh}
use natricine.Redis.Entry.Written.{
  AreDistinct, two, three, put-two, put-three, get_uuid, get_payload, get_metadata_missing,
  get_metadata,
}
use natricine.Redis.Entry.{
  Bytes, Fields, Value, text, bytes, Python, Keys, with_metadata, fields_of, decode_keys, put_items,
  read_metadata, parse_message,
}

put_items-append :
    (d taken : Dict String String) → HasKeysOnce d → Apart taken d → put_items d taken ≡ taken ++ d
unfolding put_items
put_items-append [] taken once apart = sym (append-nil taken)
put_items-append ((key, value) ∷ d) taken (new, once) apart =
    let one = put_new key value taken (head-Apart key value taken d apart) in
    rw one (
      put_items-append d (taken ++ (key, value) ∷ []) once
        (Apart-snoc key value value taken d new apart)
      ∙ append_assoc taken ((key, value) ∷ []) d)

abbrev pub wire_value : (String → Bytes) → Value → Bytes
wire_value encode (text s) = encode s
wire_value encode (bytes b) = b

-- The fields as the client sends them.
abbrev pub wire : (String → Bytes) → Dict String Value → Fields
wire encode [] = []
wire encode ((key, value) ∷ fields) = (encode key, wire_value encode value) ∷ wire encode fields

-- The texts of an entry are UTF-8 for what they were.
pub record AreRead (python : Python) (keys : Keys) (encode : String → Bytes) (uuid : ℕ)
    : Type 0 where
  pub uuid_key_read : python.decode (encode keys.uuid_key) ≡ ok keys.uuid_key
  pub payload_key_read : python.decode (encode keys.payload_key) ≡ ok keys.payload_key
  pub metadata_key_read : python.decode (encode keys.metadata_key) ≡ ok keys.metadata_key
  pub uuid_read : python.decode (encode (python.uuid_str uuid)) ≡ ok (python.uuid_str uuid)

-- What Python and msgpack promise for one message: texts and metadata are read back, and metadata is not
-- packed to nothing.
pub record EntryLaws {B : Type 0} (python : Python) (keys : Keys) (encode : String → Bytes)
    (m : Message B) : Type 0 where
  pub read_back : AreRead python keys encode m.uuid
  pub parse_uuid-uuid_str : python.parse_uuid (python.uuid_str m.uuid) ≡ ok m.uuid
  pub uuid_str_full : (python.uuid_str m.uuid == "") ≡ false
  pub unpackb-packb : python.unpackb (python.packb m.metadata) ≡ ok (some m.metadata)
  pub packb_full : python.packb m.metadata ≢ []
  pub once : HasKeysOnce m.metadata

module _ {B : Type 0} (python : Python) (keys : Keys) (encode : String → Bytes)
    (distinct : AreDistinct keys) where
  read_metadata_lem :
      (b : Bytes) (d : Dict String String) (env : B)
      → b ≢ []
      → python.unpackb b ≡ ok (some d)
      → HasKeysOnce d
      → read_metadata python keys (some b) env ≡ (ok d, env)
  unfolding get
  read_metadata_lem [] d env full unpack once = elim (full refl) [ ]
  read_metadata_lem (b ∷ bs) d env full unpack once =
      rw (unpack, put_items-append d [] once (λ k here. refl)) refl

  module _ (uuid : ℕ) (read_back : AreRead python keys encode uuid) where
    decode_two :
        (u p : Value) (env : B)
        → decode_keys python keys (wire encode (two keys u p)) [] env
          ≡ (ok (two keys (wire_value encode u) (wire_value encode p)), env)
    unfolding decode_keys
    decode_two u p env =
        rw
          (
            read_back.uuid_key_read,
            read_back.payload_key_read,
            put-two keys distinct (wire_value encode u) (wire_value encode p),
          )
          refl

    decode_three :
        (u p d : Value) (env : B)
        → decode_keys python keys (wire encode (three keys u p d)) [] env
          ≡ (ok (three keys (wire_value encode u) (wire_value encode p) (wire_value encode d)), env)
    unfolding decode_keys
    decode_three u p d env =
        rw
          (
            read_back.uuid_key_read,
            read_back.payload_key_read,
            read_back.metadata_key_read,
            put-two keys distinct (wire_value encode u) (wire_value encode p),
            put-three keys distinct (wire_value encode u) (wire_value encode p)
                (wire_value encode d),
          )
          refl

  module _ (xack : String → AckFunc B) (id : Bytes) (mid : String)
      (id_read : python.decode id ≡ ok mid) where
    abbrev parsed : Bytes → Dict String String → ℕ → Message B
    parsed payload metadata uuid = record (fresh payload metadata uuid) {
      ack_func = some (xack mid);
      nack_func = some (pure tt);
    }

    parse_message-eq-parsed :
        (fields : Fields) (decoded : Dict String Bytes) (payload : Bytes) (d : Dict String String)
        (uuid : ℕ) (env : B)
        → decode_keys python keys fields [] env ≡ (ok decoded, env)
        → get keys.uuid_key decoded ≡ some (encode (python.uuid_str uuid))
        → get keys.payload_key decoded ≡ some payload
        → read_metadata python keys (get keys.metadata_key decoded) env ≡ (ok d, env)
        → python.decode (encode (python.uuid_str uuid)) ≡ ok (python.uuid_str uuid)
        → python.parse_uuid (python.uuid_str uuid) ≡ ok uuid
        → (python.uuid_str uuid == "") ≡ false
        → parse_message python keys xack (record { id = id; fields = fields }) env
          ≡ (ok (parsed payload d uuid), env)
    unfolding parse_message
    parse_message-eq-parsed fields decoded payload d uuid env keys_read u p md read_back parse
          full =
        rw (keys_read, u, p, read_back, md, id_read, full, parse) refl

    parse_written :
        (payload : Bytes) (d : Dict String String) (uuid : ℕ) (env : B)
        → AreRead python keys encode uuid
        → python.parse_uuid (python.uuid_str uuid) ≡ ok uuid
        → (python.uuid_str uuid == "") ≡ false
        → python.unpackb (python.packb d) ≡ ok (some d)
        → python.packb d ≢ []
        → HasKeysOnce d
        → let fields = with_metadata python keys d (
            put keys.payload_key
              (bytes payload)
              (put keys.uuid_key (text (python.uuid_str uuid)) [])) in
          parse_message python keys xack (record { id = id; fields = wire encode fields }) env
          ≡ (ok (parsed payload d uuid), env)
    parse_written payload [] uuid env read_back parse full unpack packed once =
        let u = text (python.uuid_str uuid) in
        let p = bytes payload in
        let u' = wire_value encode u in
        rw (put-two keys distinct u p) (
          parse_message-eq-parsed (wire encode (two keys u p)) (two keys u' payload) payload [] uuid
            env (decode_two uuid read_back u p env) (get_uuid keys distinct u' _)
            (get_payload keys distinct u' payload _)
            (rw (get_metadata_missing keys distinct u' payload) refl) read_back.uuid_read parse
            full)
    parse_written payload (x ∷ xs) uuid env read_back parse full unpack packed once =
        let u = text (python.uuid_str uuid) in
        let p = bytes payload in
        let u' = wire_value encode u in
        let b = python.packb (x ∷ xs) in
        rw (put-two keys distinct u p, put-three keys distinct u p (bytes b))
          (parse_message-eq-parsed (wire encode (three keys u p (bytes b)))
            (three keys u' payload b) payload (x ∷ xs) uuid env
            (decode_three uuid read_back u p (bytes b) env) (get_uuid keys distinct u' _)
            (get_payload keys distinct u' payload _)
            (rw (get_metadata keys distinct u' payload b)
              (read_metadata_lem b (x ∷ xs) env packed unpack once))
            read_back.uuid_read parse full)

    -- A message that is added to a stream and read back from there is parsed to its payload, metadata and uuid, with
    -- an ack of its id and a nack that does nothing, if the three keys differ and its texts and its metadata
    -- are read back.
    pub parse_message-fields_of :
        (m : Message B) (env : B)
        → EntryLaws python keys encode m
        → parse_message python keys xack
            (record { id = id; fields = wire encode (fields_of python keys m) })
            env
          ≡ (
            ok (record (fresh m.payload m.metadata m.uuid) {
              ack_func = some (xack mid);
              nack_func = some (pure tt);
            }),
            env,
          )
    unfolding fields_of
    parse_message-fields_of m env laws =
        parse_written m.payload m.metadata m.uuid env laws.read_back laws.parse_uuid-uuid_str
          laws.uuid_str_full laws.unpackb-packb laws.packb_full laws.once
