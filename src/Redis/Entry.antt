-- ===== src/Redis/Entry.antt =====
-- The entries of a stream: what packages/natricine-redisstream/src/natricine_redis/publisher.py writes, and
-- `_parse_message` of subscriber.py.
pub mod Written
pub mod RoundTrip
use natricine.Prelude.{
  ℕ, String, Bool, ◌==◌, string_eq, if◌then◌else◌, Option, none, some, List, [], ◌∷◌, or_default,
}
use natricine.Prelude.Dict.{Dict, get, put}
use natricine.Runtime.{Exn, Result, ok, err, cancelled, Exec, pure, lift, ◌>>=◌, ◌>>◌}
use natricine.Pubsub.Message.{Message, AckFunc, fresh}

abbrev pub Bytes : Type 0
Bytes = List ℕ

-- The fields of an entry as they are read: the client gives bytes.
abbrev pub Fields : Type 0
Fields = List (Bytes × Bytes)

pub record Entry : Type 0 where
  pub id : Bytes
  pub fields : Fields

-- A field as it is written.
pub data Value : Type 0 where
  text : String → Value
  bytes : Bytes → Value

-- What Python and msgpack give. `unpackb` is `none` on a value that is no dictionary, and the items of a
-- dictionary by their `str` otherwise. `no_uuid` stands for the `None` that is given for a number of a UUID.
pub record Python : Type 0 where
  pub decode : Bytes → Result String
  pub uuid_str : ℕ → String
  pub parse_uuid : String → Result ℕ
  pub no_uuid : ℕ
  pub packb : Dict String String → Bytes
  pub unpackb : Bytes → Result (Option (List (String × String)))

pub record Keys : Type 0 where
  pub uuid_key : String
  pub payload_key : String
  pub metadata_key : String

unfoldable pub put_items : List (String × String) → Dict String String → Dict String String
put_items [] metadata = metadata
put_items ((key, value) ∷ items) metadata = put_items items (put key value metadata)

abbrev pub items_of : Option (List (String × String)) → Dict String String
items_of none = []
items_of (some items) = put_items items []

module _ (python : Python) (keys : Keys) where
  abbrev pub with_metadata : Dict String String → Dict String Value → Dict String Value
  with_metadata [] fields = fields
  with_metadata (d ∷ ds) fields = put keys.metadata_key (bytes (python.packb (d ∷ ds))) fields

  unfoldable pub fields_of : {B : Type 0} → Message B → Dict String Value
  fields_of m = with_metadata m.metadata (
      put keys.payload_key (bytes m.payload) (put keys.uuid_key (text (python.uuid_str m.uuid)) []))

module _ (python : Python) (keys : Keys) {B : Type 0} where
  unfoldable pub decode_keys : Fields → Dict String Bytes → Exec B (Dict String Bytes)
  decode_keys [] decoded = pure decoded
  decode_keys ((k, v) ∷ fields) decoded = do
    key ← lift (python.decode k)
    decode_keys fields (put key v decoded)

  abbrev pub unpacked : Result (Option (List (String × String))) → Exec B (Dict String String)
  unpacked r = do o ← lift r; pure (items_of o)

  -- A missing field and an empty one give no metadata.
  abbrev pub read_metadata : Option Bytes → Exec B (Dict String String)
  read_metadata none = pure []
  read_metadata (some []) = pure []
  read_metadata (some (b ∷ bs)) = unpacked (python.unpackb (b ∷ bs))

  -- `UUID(uuid_str) if uuid_str else None`
  abbrev pub uuid_or_none : String → Exec B ℕ
  uuid_or_none s = if s == "" then pure python.no_uuid else lift (python.parse_uuid s)

  -- `xack` is that of the topic and the group, by the id of an entry. A nack does nothing.
  module _ (xack : String → AckFunc B) where
    unfoldable pub parse_message : Entry → Exec B (Message B)
    parse_message e = do
      decoded ← decode_keys e.fields []
      uuid_text ← lift (python.decode (or_default [] (get keys.uuid_key decoded)))
      metadata ← read_metadata (get keys.metadata_key decoded)
      mid ← lift (python.decode e.id)
      uuid ← uuid_or_none uuid_text
      pure (record (fresh (or_default [] (get keys.payload_key decoded)) metadata uuid) {
        ack_func = some (xack mid);
        nack_func = some (pure tt);
      })
