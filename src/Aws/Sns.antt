-- ===== src/Aws/Sns.antt =====
-- packages/natricine-aws/src/natricine_aws/sns.py, over the clients of aioboto3, which are parameters: topics
-- of SNS, and the queue of SQS through which a subscriber gets what is published to a topic.
pub mod Subscriber
pub mod Envelope
use natricine.Prelude.{
  or_default, ℕ, zero, suc, String, Bool, true, false, if◌then◌else◌, ◌==◌, ◌||◌, string_eq, Option,
  none, some, List, [], ◌∷◌,
}
use Prim.Native.String
use natricine.Prelude.Dict.{Dict, get, put}
use natricine.Runtime.{Exn, error, Result, ok, err, cancelled, Exec, pure, raise, ◌>>=◌, ◌>>◌}
use natricine.Pubsub.Message.{Message, AckFunc}
use natricine.Aws.Marshaling.{
  Python, Attribute, SqsMessage, encode_message_body, to_message_attributes, from_sns_sqs_message,
}
use natricine.Aws.Sqs.{SqsClient, SqsConfig, publisher_closed, subscriber_closed, unless_empty}

-- The arguments of `publish`.
pub record PublishArgs : Type 0 where
  pub target_arn : String
  pub message : String
  pub message_attributes : Dict String Attribute
  pub message_deduplication_id : Option String
  pub message_group_id : Option String

pub record SnsClient (B : Type 0) : Type 0 where
  pub enter : Exec B (Unit {0})
  pub exit : Exec B (Unit {0})
  pub create_topic : String → Exec B String
  -- the pages of `list_topics`, each asked for when it is reached, as lists of ARNs
  pub list_topics : List (Exec B (List String))
  pub publish : PublishArgs → Exec B (Unit {0})
  -- by the ARNs of the topic and of the queue
  pub subscribe : String → String → Exec B (Unit {0})

-- The rest of what the subscriber asks of SQS: the ARN of a queue by its URL, and its policy, by the URL, the
-- ARN of the queue and the ARN of the topic that may send.
pub record QueueAttributes (B : Type 0) : Type 0 where
  pub get_queue_arn : String → Exec B String
  pub set_policy : String → String → String → Exec B (Unit {0})

-- config.py
pub record SnsConfig : Type 0 where
  pub consumer_group : String
  pub create_resources : Bool
  pub sqs_config : SqsConfig
  pub uuid_attr : String

pub record SnsPublisher (B : Type 0) : Type 0 where
  pub topic_arns : Dict String String
  pub has_client : Bool
  pub closed : Bool
  pub env : B

-- `setup_complete` has the URL and the ARN of a topic's queue.
pub record SnsSubscriber (B : Type 0) : Type 0 where
  pub setup_complete : Dict String (String × String)
  pub has_sns_client : Bool
  pub has_sqs_client : Bool
  pub closed : Bool
  pub env : B

abbrev pub not_found : String → Exn
not_found topic = error "ValueError" (String.◌++◌ (String.◌++◌ "Topic " topic) " not found")

-- s.endswith(t)
unfoldable pub ends_with : String → String → Bool
ends_with String.[] t = t == ""
ends_with (String.◌∷◌ c s) t = String.◌∷◌ c s == t || ends_with s t

-- The first ARN of a page that ends with `:topic`.
unfoldable pub find_topic : String → List String → Option String
find_topic topic [] = none
find_topic topic (arn ∷ arns) =
    if ends_with arn (String.◌++◌ ":" topic) then some arn else find_topic topic arns

module _ {B : Type 0} where
  abbrev pub found_or : Option String → Exec B String → Exec B String
  found_or (some arn) rest = pure arn
  found_or none rest = rest

  -- The search through the pages stops at the first match.
  unfoldable pub search_pages : String → List (Exec B (List String)) → Exec B String
  search_pages topic [] = raise (not_found topic)
  search_pages topic (page ∷ pages) =
      page >>= λ arns. found_or (find_topic topic arns) (search_pages topic pages)

  module _ (sns : SnsClient B) where
    -- `create_topic`, or the search
    abbrev pub look_up : Bool → String → Exec B String
    look_up create topic =
        if create then sns.create_topic topic else search_pages topic sns.list_topics

    -- SNSPublisher
    abbrev pub on_sns : {A : Type 0} → Exec B A → Exec (SnsPublisher B) A
    on_sns act s = let (r, env) = act s.env in (r, record s { env = env })

    unfoldable pub get_client : Exec (SnsPublisher B) (Unit {0})
    get_client s =
        if s.has_client
        then (ok tt, s)
        else (do on_sns sns.enter; λ t. (ok tt, record t { has_client = true })) s

    abbrev pub remember : String → String → Exec (SnsPublisher B) String
    remember topic arn s = (ok arn, record s { topic_arns = put topic arn s.topic_arns })

    abbrev pub resolve : Bool → String → Option (String → String) → Exec (SnsPublisher B) String
    resolve create topic (some arn_of) = remember topic (arn_of topic)
    resolve create topic none = do
      get_client
      arn ← on_sns (look_up create topic)
      remember topic arn

    abbrev pub cached_or :
        Bool → Option (String → String) → String → Option String → Exec (SnsPublisher B) String
    cached_or create resolver topic (some arn) = pure arn
    cached_or create resolver topic none = resolve create topic resolver

    -- `_get_topic_arn` of the publisher
    unfoldable pub topic_arn_of :
        Bool → Option (String → String) → String → Exec (SnsPublisher B) String
    topic_arn_of create resolver topic s =
        cached_or create resolver topic (get topic s.topic_arns) s

    module _ (python : Python B) (uuid_attr : String) where
      -- The attributes are copied one by one, which gives the same dictionary.
      abbrev pub args_of : String → Message B → PublishArgs
      args_of arn m =
          let a = to_message_attributes python m uuid_attr in
          record {
            target_arn = arn;
            message = encode_message_body python m.payload;
            message_attributes = a.attrs;
            message_deduplication_id = unless_empty a.deduplication_id;
            message_group_id = unless_empty a.group_id;
          }

      unfoldable pub publish_each : String → List (Message B) → Exec B (Unit {0})
      publish_each arn [] = pure tt
      publish_each arn (m ∷ ms) = do sns.publish (args_of arn m); publish_each arn ms

      unfoldable pub publish :
          Bool
          → Option (String → String)
          → String
          → List (Message B)
          → Exec (SnsPublisher B) (Unit {0})
      publish create resolver topic ms s =
          if s.closed
          then raise publisher_closed s
          else (do
            get_client
            arn ← topic_arn_of create resolver topic
            on_sns (publish_each arn ms))
              s

    unfoldable pub close_publisher : Exec (SnsPublisher B) (Unit {0})
    close_publisher s =
        let t = record s { closed = true } in
        if t.has_client
        then (do on_sns sns.exit; λ u. (ok tt, record u { has_client = false })) t
        else (ok tt, t)
