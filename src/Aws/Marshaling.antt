-- ===== src/Aws/Marshaling.antt =====
-- packages/natricine-aws/src/natricine_aws/marshaling.py.
pub mod Body
pub mod Attributes
pub mod Callbacks
use natricine.Prelude.{
  or_default, or_default, ℕ, String, Bool, true, false, if◌then◌else◌, ◌==◌, string_eq, Option,
  none, some, List, [], ◌∷◌,
}
use natricine.Prelude.Dict.{Dict, get, put}
use natricine.Runtime.{Exn, error, Result, ok, err, cancelled, Exec, pure, lift, ◌>>=◌, ◌>>◌}
use natricine.Pubsub.Message.{Message, AckFunc, fresh}

-- The attribute of a message: `DataType` and `StringValue`.
pub record Attribute : Type 0 where
  pub data_type : String
  pub string_value : Option String

-- What an SNS envelope holds, its attributes by their `Value`.
pub record Envelope : Type 0 where
  pub type : Option String
  pub message : Option String
  pub attributes : Option (Dict String (Option String))

-- A JSON text is an object or another value, which has no `get`.
pub data Json : Type 0 where
  object : Envelope → Json
  scalar : Json

-- What Python gives: UTF-8, `base64`, `json` and the texts of a UUID. A `loads` that fails raises
-- JSONDecodeError.
pub record Python (B : Type 0) : Type 0 where
  pub decode : List ℕ → Result String
  pub encode : String → List ℕ
  pub b64encode : List ℕ → String
  -- b64decode(body), and b64decode(body, validate=True)
  pub b64decode : String → Result (List ℕ)
  pub b64decode_strict : String → Result (List ℕ)
  pub loads : String → Result Json
  pub uuid_str : ℕ → String
  pub parse_uuid : String → Result ℕ
  pub uuid4 : B → ℕ × B

abbrev pub deduplication_key : String
deduplication_key = "MessageDeduplicationId"

abbrev pub group_key : String
group_key = "MessageGroupId"

-- The three values that `to_message_attributes` returns.
pub record Converted : Type 0 where
  pub attrs : Dict String Attribute
  pub deduplication_id : Option String
  pub group_id : Option String

abbrev pub text_attribute : String → Attribute
text_attribute value = record { data_type = "String"; string_value = some value }

-- The body of the loop over the metadata.
abbrev pub add_entry : String → String → Converted → Converted
add_entry key value a =
    if key == deduplication_key
    then record a { deduplication_id = some value }
    else if key == group_key
    then record a { group_id = some value }
    else record a { attrs = put key (text_attribute value) a.attrs }

add_entries : Dict String String → Converted → Converted
add_entries [] a = a
add_entries ((key, value) ∷ metadata) a = add_entries metadata (add_entry key value a)

-- `x.get("StringValue")` of `attrs.get(key, {})`
abbrev pub value_of : Option Attribute → Option String
value_of none = none
value_of (some a) = a.string_value

-- The body of the loop over the other attributes: one without a value is left out.
unfoldable pub put_value : String → Option String → Dict String String → Dict String String
put_value key none metadata = metadata
put_value key (some str_value) metadata = put key str_value metadata

unfoldable pub collect : String → Dict String Attribute → Dict String String → Dict String String
unfolding put_value
collect uuid_attr [] metadata = metadata
collect uuid_attr ((key, value) ∷ attrs) metadata =
    collect uuid_attr attrs
      (if key == uuid_attr then metadata else put_value key value.string_value metadata)

-- The loop of `from_sns_sqs_message` over the attributes of an envelope, which is written out again there.
unfoldable pub put_sns_value : String → Option String → Dict String String → Dict String String
put_sns_value key none metadata = metadata
put_sns_value key (some str_value) metadata = put key str_value metadata

unfoldable pub collect_sns :
    String → Dict String (Option String) → Dict String String → Dict String String
unfolding put_sns_value
collect_sns uuid_attr [] metadata = metadata
collect_sns uuid_attr ((key, value) ∷ sns_attrs) metadata =
    collect_sns uuid_attr sns_attrs
      (if key == uuid_attr then metadata else put_sns_value key value metadata)

-- An SQS message, by the keys of its dictionary.
pub record SqsMessage : Type 0 where
  pub body : Option String
  pub message_attributes : Option (Dict String Attribute)
  pub receipt_handle : Option String

-- `envelope.get` of a JSON value that is no object
abbrev pub no_get : Exn
no_get = error "AttributeError" "object has no attribute 'get'"

-- `d.get(key, {}).get("Value")`
abbrev pub found : Option (Option String) → Option String
found none = none
found (some value) = value

abbrev pub Unwrapped : Type 0
Unwrapped = String × Dict String (Option String)

module _ {B : Type 0} (python : Python B) where
  abbrev pub text_or_base64 : List ℕ → Result String → String
  text_or_base64 payload (ok text) = text
  text_or_base64 payload r = python.b64encode payload

  unfoldable pub encode_message_body : List ℕ → String
  encode_message_body payload = text_or_base64 payload (python.decode payload)

  -- The check that the text is what base64 gives for the decoded bytes.
  abbrev pub detect : String → Result (List ℕ) → List ℕ
  detect body (ok decoded) =
      if python.b64encode decoded == body then decoded else python.encode body
  detect body r = python.encode body

  unfoldable pub decode_message_body : String → Bool → Result (List ℕ)
  decode_message_body body is_base64 =
      if is_base64 then python.b64decode body else ok (detect body (python.b64decode_strict body))

  unfoldable pub to_message_attributes : Message B → String → Converted
  unfolding add_entries
  to_message_attributes m uuid_attr = add_entries m.metadata (record {
    attrs = (uuid_attr, text_attribute (python.uuid_str m.uuid)) ∷ [];
    deduplication_id = none;
    group_id = none;
  })

  -- `UUID(uuid_str) if uuid_str else uuid4()`
  abbrev pub uuid_from : Option String → Exec B ℕ
  uuid_from none env = let (u, env') = python.uuid4 env in (ok u, env')
  uuid_from (some text) env =
      if text == ""
      then (let (u, env') = python.uuid4 env in (ok u, env'))
      else (python.parse_uuid text, env)

  unfoldable pub from_sqs_message :
      SqsMessage → Option (AckFunc B) → Option (AckFunc B) → String → Exec B (Message B)
  unfolding collect
  from_sqs_message msg ack_func nack_func uuid_attr = do
    let body = or_default "" msg.body
    let attrs = or_default [] msg.message_attributes
    u ← uuid_from (value_of (get uuid_attr attrs))
    payload ← lift (decode_message_body body false)
    pure (record (fresh payload (collect uuid_attr attrs []) u) {
      ack_func = ack_func;
      nack_func = nack_func;
    })

  abbrev pub notification : String → Envelope → Option String → Unwrapped
  notification body e none = (body, [])
  notification body e (some type) =
      if type == "Notification"
      then (or_default "" e.message, or_default [] e.attributes)
      else (body, [])

  abbrev pub unwrap_json : String → Result Json → Result Unwrapped
  unwrap_json body (ok (object e)) = ok (notification body e e.type)
  unwrap_json body (ok scalar) = err no_get
  unwrap_json body r = ok (body, [])

  unfoldable pub unwrap_sns_envelope : String → Result Unwrapped
  unwrap_sns_envelope body = unwrap_json body (python.loads body)

  unfoldable pub from_sns_sqs_message :
      SqsMessage → Option (AckFunc B) → Option (AckFunc B) → String → Exec B (Message B)
  unfolding collect_sns
  from_sns_sqs_message msg ack_func nack_func uuid_attr = do
    unwrapped ← lift (unwrap_sns_envelope (or_default "" msg.body))
    let (inner_body, sns_attrs) = unwrapped
    u ← uuid_from (found (get uuid_attr sns_attrs))
    payload ← lift (decode_message_body inner_body false)
    pure (record (fresh payload (collect_sns uuid_attr sns_attrs []) u) {
      ack_func = ack_func;
      nack_func = nack_func;
    })
