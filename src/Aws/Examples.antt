-- ===== src/Aws/Examples.antt =====
-- Tests of natricine-aws, and its theorems at concrete inputs.
use natricine.Prelude.{
  ℕ, ◌≡◌, refl, String, true, false, none, some, List, [], ◌∷◌, ◌++◌, if◌then◌else◌, ◌==◌,
  string_eq,
}
use natricine.Prelude.Dict.{get}
use natricine.Runtime.{error, ok, err}
use natricine.Pubsub.Message.{Message, fresh}
use natricine.Aws.Marshaling.{
  Python, SqsMessage, object, encode_message_body, decode_message_body, to_message_attributes,
  text_attribute, from_sqs_message, from_sns_sqs_message,
}
use natricine.Aws.Marshaling.Body.{BodyLaws, decode-encode_message_body}
use natricine.Aws.Marshaling.Attributes.{from_sqs_message-to_message_attributes}
use natricine.Aws.Sqs.{SqsClient, Sqs, SqsConfig, SendArgs, publish}
use natricine.Aws.Sqs.Sending.{SendLaws}
use natricine.Aws.Sns.{SnsClient, QueueAttributes, SnsConfig, SnsSubscriber, ends_with, find_topic}
use natricine.Aws.Sns.Envelope.{string_values, from_sns_sqs_message-eq-from_sqs_message}
use natricine.Aws.Sns.Subscriber.{get_sns_client, get_sqs_client, setup_subscription}
use natricine.Aws.Sns.Subscriber.Setup.{setup_subscription_lem}

-- One text for one list of bytes: "abcd" is the base64 of 105, 183, 29. The environment is what was sent.
abbrev Sent : Type 0
Sent = List SendArgs

abbrev text : List ℕ
text = 97 ∷ 98 ∷ 99 ∷ 100 ∷ []

abbrev written : List ℕ → String
written (a ∷ b ∷ c ∷ d ∷ bytes) = "YWJjZA=="
written bytes = "abcd"

abbrev read : String → List ℕ
read s = if s == "abcd" then 105 ∷ 183 ∷ 29 ∷ [] else text

abbrev python : Python Sent
python = record {
  decode = λ bytes. ok "abcd";
  encode = λ s. text;
  b64encode = written;
  b64decode = λ s. ok (read s);
  b64decode_strict = λ s. ok (read s);
  loads = λ s. ok (
      object (record {
        type = some "Notification";
        message = some "abcd";
        attributes = some (("uuid", some "7") ∷ []);
      }));
  uuid_str = λ u. "7";
  parse_uuid = λ s. ok 7;
  uuid4 = λ sent. (9, sent);
}

abbrev client : SqsClient Sent
client = record {
  enter = λ sent. (ok tt, sent);
  exit = λ sent. (ok tt, sent);
  get_queue_url = λ name sent. (err (error "QueueDoesNotExist" name), sent);
  create_queue = λ name sent. (ok "https://sqs/orders", sent);
  does_not_exist = λ e. true;
  send_message = λ args sent. (ok tt, sent ++ args ∷ []);
  receive_message = λ url n wait visibility sent. (ok none, sent);
  delete_message = λ url handle sent. (ok tt, sent);
  change_message_visibility = λ url handle seconds sent. (ok tt, sent);
}

abbrev config : SqsConfig
config = record {
  wait_time_s = 20;
  visibility_timeout_s = 30;
  max_messages = 10;
  create_queue_if_missing = true;
  uuid_attr = "uuid";
}

abbrev new_sqs : Sqs Sent
new_sqs = record { queue_urls = []; has_client = false; closed = false; env = [] }

abbrev order : Message Sent
order = fresh text (("kind", "order") ∷ ("MessageGroupId", "g") ∷ []) 7

-- The four bytes of the text "abcd" come back as three others.
lost_payload :
    decode_message_body python (encode_message_body python text) false ≡ ok (105 ∷ 183 ∷ 29 ∷ [])
unfolding decode_message_body encode_message_body
lost_payload = refl

group_attribute : (to_message_attributes python order "uuid").group_id ≡ some "g"
unfolding to_message_attributes
group_attribute = refl

send_laws : SendLaws client
send_laws = record {
  sent = λ sent. sent;
  sent-send_message = λ args sent e. refl;
  sent-enter = λ sent. refl;
  sent-get_queue_url = λ name sent. refl;
  sent-create_queue = λ name sent. refl;
}

find_topic_suffix :
    find_topic "orders" ("arn:aws:sns:eu:1:old-orders" ∷ "arn:aws:sns:eu:1:orders" ∷ [])
    ≡ some "arn:aws:sns:eu:1:orders"
unfolding find_topic ends_with
find_topic_suffix = refl

body_laws : BodyLaws python text
body_laws = record { encode-decode = λ s e. refl; b64decode-b64encode = refl }

-- The payload that is lost: its text is written for three bytes.
decode-encode_message_body_example :
    decode_message_body python (encode_message_body python text) false ≡ ok (105 ∷ 183 ∷ 29 ∷ [])
decode-encode_message_body_example =
    (decode-encode_message_body python text body_laws).2 "abcd" (105 ∷ 183 ∷ 29 ∷ []) refl
      (refl, refl)

from_sqs_message-to_message_attributes_example :
    let carried : SqsMessage = record {
      body = some (encode_message_body python text);
      message_attributes = some (to_message_attributes python order "uuid").attrs;
      receipt_handle = none;
    } in
    from_sqs_message python carried none none "uuid" []
    ≡ (ok (fresh (105 ∷ 183 ∷ 29 ∷ []) (("kind", "order") ∷ []) 7), [])
unfolding decode_message_body encode_message_body get
from_sqs_message-to_message_attributes_example =
    from_sqs_message-to_message_attributes python "uuid" order (105 ∷ 183 ∷ 29 ∷ []) none none []
      refl refl (refl, (refl, tt)) refl refl

abbrev received : SqsMessage
received = record { body = some "abcd"; message_attributes = none; receipt_handle = some "h" }

from_sns_sqs_message-eq-from_sqs_message_example :
    from_sns_sqs_message python received none none "uuid" []
    ≡ from_sqs_message python
        (record {
          body = some "abcd";
          message_attributes = some (("uuid", text_attribute "7") ∷ []);
          receipt_handle = some "h";
        })
        none
        none
        "uuid"
        []
unfolding string_values
from_sns_sqs_message-eq-from_sqs_message_example =
    from_sns_sqs_message-eq-from_sqs_message python "abcd" "abcd"
      (("uuid", text_attribute "7") ∷ []) (some "h") none none "uuid" [] refl

abbrev sns : SnsClient Sent
sns = record {
  enter = λ sent. (ok tt, sent);
  exit = λ sent. (ok tt, sent);
  create_topic = λ topic sent. (ok "arn:orders", sent);
  list_topics = [];
  publish = λ args sent. (ok tt, sent);
  subscribe = λ topic_arn queue_arn sent. (ok tt, sent);
}

abbrev attributes : QueueAttributes Sent
attributes = record {
  get_queue_arn = λ url sent. (ok "arn:queue", sent);
  set_policy = λ url arn topic_arn sent. (ok tt, sent);
}

abbrev sns_config : SnsConfig
sns_config = record {
  consumer_group = "billing";
  create_resources = true;
  sqs_config = config;
  uuid_attr = "uuid";
}

abbrev new_subscriber : SnsSubscriber Sent
new_subscriber = record {
  setup_complete = [];
  has_sns_client = false;
  has_sqs_client = false;
  closed = false;
  env = [];
}

setup_subscription_lem_example :
    let s' = (setup_subscription sns client attributes sns_config none "orders" new_subscriber).1 in
    setup_subscription sns client attributes sns_config none "orders" s'
    ≡ (ok ("https://sqs/orders", "arn:queue"), s')
unfolding setup_subscription get_sns_client get_sqs_client get
setup_subscription_lem_example =
    (setup_subscription_lem "orders" sns client attributes sns_config none new_subscriber).0
      ("https://sqs/orders", "arn:queue") refl
