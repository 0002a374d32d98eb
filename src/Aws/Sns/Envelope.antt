-- ===== src/Aws/Sns/Envelope.antt =====
-- What the envelope of SNS changes: nothing, once it is unwrapped.
use natricine.Prelude.{
  or_default, String, ◌≡◌, refl, Option, none, some, List, [], ◌∷◌, string_eq, arith,
}
use natricine.Prelude.Dict.{Dict, get}
use natricine.Runtime.{ok}
use natricine.Pubsub.Message.{Message, AckFunc}
use natricine.Pubsub.Message.Settle.{Call, calls}
use natricine.Pubsub.Message.Callbacks.{settled_env, calls-HasFuncs}
use natricine.Aws.Marshaling.{
  Attribute, object, Python, SqsMessage, value_of, found, put_value, collect, put_sns_value,
  collect_sns, unwrap_sns_envelope, from_sqs_message, from_sns_sqs_message,
}
use natricine.Aws.Marshaling.Callbacks.{from_sns_sqs_message-HasFuncs}
use natricine.Aws.Sqs.{SqsClient}
use natricine.Aws.Sns.{SnsClient, QueueAttributes, SnsConfig}
use natricine.Aws.Sns.Subscriber.{deliver}

-- The attributes of an envelope for those of a message: each by its value.
unfoldable pub string_values : Dict String Attribute → Dict String (Option String)
string_values [] = []
string_values ((key, a) ∷ attrs) = (key, a.string_value) ∷ string_values attrs

found-string_values :
    (key : String) (attrs : Dict String Attribute)
    → found (get key (string_values attrs)) ≡ value_of (get key attrs)
unfolding string_values get
found-string_values key [] = refl
found-string_values key ((k, a) ∷ attrs) = ground (arith, found-string_values key attrs)

put_sns_value-eq-put_value :
    (key : String) (value : Option String) (metadata : Dict String String)
    → put_sns_value key value metadata ≡ put_value key value metadata
unfolding put_sns_value put_value
put_sns_value-eq-put_value key none metadata = refl
put_sns_value-eq-put_value key (some value) metadata = refl

collect_sns-string_values :
    (uuid_attr : String) (attrs : Dict String Attribute) (metadata : Dict String String)
    → collect_sns uuid_attr (string_values attrs) metadata ≡ collect uuid_attr attrs metadata
unfolding collect_sns collect string_values
collect_sns-string_values uuid_attr [] metadata = refl
collect_sns-string_values uuid_attr ((key, a) ∷ attrs) metadata =
    rw (put_sns_value-eq-put_value key a.string_value metadata)
      (collect_sns-string_values uuid_attr attrs _)

-- The envelope that SNS puts round a message: its text is read as a notification with the body and the values
-- of the attributes.
abbrev pub Wraps : {B : Type 0} → Python B → String → String → Dict String Attribute → Type 0
Wraps python text body attrs =
    python.loads text
    ≡ ok (
        object (record {
          type = some "Notification";
          message = some body;
          attributes = some (string_values attrs);
        }))

-- A message that arrives in an envelope is read as the same message would be if SQS delivered its body and its
-- attributes without one, so that what is proved of SQS messages holds of the messages of a topic.
pub from_sns_sqs_message-eq-from_sqs_message :
    {B : Type 0} (python : Python B) (text body : String) (attrs : Dict String Attribute)
    (handle : Option String) (ack_func nack_func : Option (AckFunc B)) (uuid_attr : String)
    (env : B)
    → Wraps python text body attrs
    → let wrapped : SqsMessage = record {
      body = some text;
      message_attributes = none;
      receipt_handle = handle;
    } in
      let plain : SqsMessage = record {
        body = some body;
        message_attributes = some attrs;
        receipt_handle = handle;
      } in
      from_sns_sqs_message python wrapped ack_func nack_func uuid_attr env
      ≡ from_sqs_message python plain ack_func nack_func uuid_attr env
unfolding from_sns_sqs_message from_sqs_message unwrap_sns_envelope
from_sns_sqs_message-eq-from_sqs_message python text body attrs handle ack_func nack_func uuid_attr
      env wraps =
    rw (wraps, found-string_values uuid_attr attrs, collect_sns-string_values uuid_attr attrs [])
      refl

-- Of any calls of `ack` and `nack` on a message of a topic the first alone reaches the queue.
pub calls-deliver :
    {B : Type 0} (sns : SnsClient B) (sqs : SqsClient B) (attributes : QueueAttributes B)
    (config : SnsConfig) (python : Python B) (url : String) (msg : SqsMessage) (env now : B)
    (m : Message B) (os : List Call)
    → (deliver sns sqs attributes config python url msg env).0 ≡ ok m
    → let handle = or_default "" msg.receipt_handle in
      (calls os (record { self = m; env = now })).env
      ≡ settled_env
          (sqs.delete_message url handle)
          (sqs.change_message_visibility url handle 0)
          os
          now
unfolding deliver
calls-deliver sns sqs attributes config python url msg env now m os h =
    calls-HasFuncs m _ _ os now
      (from_sns_sqs_message-HasFuncs python _ _ msg config.uuid_attr env m h)
