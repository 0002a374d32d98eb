-- ===== src/Aws/Sns/Subscriber.antt =====
-- `SNSSubscriber` of packages/natricine-aws/src/natricine_aws/sns.py.
pub mod Setup
use natricine.Prelude.{
  or_default, ℕ, zero, suc, String, Bool, true, false, if◌then◌else◌, string_eq, Option, none, some,
  List, [], ◌∷◌,
}
use Prim.Native.String.{◌++◌}
use natricine.Prelude.Dict.{Dict, get, put}
use natricine.Runtime.{Exn, error, Result, ok, err, cancelled, Exec, pure, raise, ◌>>=◌, ◌>>◌}
use natricine.Pubsub.Message.{Message, AckFunc}
use natricine.Aws.Marshaling.{Python, SqsMessage, from_sns_sqs_message}
use natricine.Aws.Sqs.{SqsClient, subscriber_closed, make_ack, make_nack}
use natricine.Aws.Sns.{SnsClient, QueueAttributes, SnsConfig, SnsSubscriber, look_up}

module _ {B : Type 0} (sns : SnsClient B) (sqs : SqsClient B) (attributes : QueueAttributes B) where
  abbrev pub on_clients : {A : Type 0} → Exec B A → Exec (SnsSubscriber B) A
  on_clients act s = let (r, env) = act s.env in (r, record s { env = env })

  unfoldable pub get_sns_client : Exec (SnsSubscriber B) (Unit {0})
  get_sns_client s =
      if s.has_sns_client
      then (ok tt, s)
      else (do on_clients sns.enter; λ t. (ok tt, record t { has_sns_client = true })) s

  unfoldable pub get_sqs_client : Exec (SnsSubscriber B) (Unit {0})
  get_sqs_client s =
      if s.has_sqs_client
      then (ok tt, s)
      else (do on_clients sqs.enter; λ t. (ok tt, record t { has_sqs_client = true })) s

  module _ (config : SnsConfig) where
    -- `_get_topic_arn` of the subscriber, which keeps nothing
    abbrev pub get_topic_arn : String → Option (String → String) → Exec (SnsSubscriber B) String
    get_topic_arn topic (some arn_of) = pure (arn_of topic)
    get_topic_arn topic none = do
      get_sns_client
      on_clients (look_up sns config.create_resources topic)

    abbrev pub queue_name : String → String
    queue_name topic = topic ++ "-" ++ config.consumer_group

    abbrev pub complete : String → String → String → Exec (SnsSubscriber B) (String × String)
    complete topic url arn s =
        (ok (url, arn), record s { setup_complete = put topic (url, arn) s.setup_complete })

    -- The queue, its ARN, its policy and its subscription, by the ARN of the topic.
    abbrev pub create_queue : String → String → Exec B (String × String)
    create_queue topic topic_arn = do
      url ← sqs.create_queue (queue_name topic)
      arn ← attributes.get_queue_arn url
      attributes.set_policy url arn topic_arn
      sns.subscribe topic_arn arn
      pure (url, arn)

    abbrev pub set_up :
        Option (String → String)
        → String
        → Option (String × String)
        → Exec (SnsSubscriber B) (String × String)
    set_up resolver topic (some queue) = pure queue
    set_up resolver topic none = do
      get_sns_client
      get_sqs_client
      topic_arn ← get_topic_arn topic resolver
      queue ← on_clients (create_queue topic topic_arn)
      complete topic queue.0 queue.1

    unfoldable pub setup_subscription :
        Option (String → String) → String → Exec (SnsSubscriber B) (String × String)
    setup_subscription resolver topic s = set_up resolver topic (get topic s.setup_complete) s

    module _ (python : Python B) where
      unfoldable pub deliver : String → SqsMessage → Exec B (Message B)
      deliver url msg =
          let handle = or_default "" msg.receipt_handle in
          from_sns_sqs_message python msg (some (make_ack sqs python config.sqs_config url handle))
            (some (make_nack sqs python config.sqs_config url handle)) config.uuid_attr

      -- `body` is what the reader of the iterator does with a message before it asks for the next one.
      module _ (body : Message B → Exec (SnsSubscriber B) (Unit {0})) where
        unfoldable pub deliver_each : String → List SqsMessage → Exec (SnsSubscriber B) (Unit {0})
        deliver_each url [] = pure tt
        deliver_each url (msg ∷ msgs) = do
          m ← on_clients (deliver url msg)
          body m
          deliver_each url msgs

        -- `while not self._closed`, for a number of rounds after which the reader asks no more.
        unfoldable pub polls : ℕ → String → Exec (SnsSubscriber B) (Unit {0})
        polls zero url s = (ok tt, s)
        polls (suc rounds) url s =
            let next =
              (do
                response ← on_clients (
                    sqs.receive_message url config.sqs_config.max_messages
                      config.sqs_config.wait_time_s config.sqs_config.visibility_timeout_s)
                deliver_each url (or_default [] response)
                polls rounds url)
                s in
            if s.closed then (ok tt, s) else next

        unfoldable pub subscribe :
            Option (String → String) → ℕ → String → Exec (SnsSubscriber B) (Unit {0})
        subscribe resolver rounds topic s =
            if s.closed
            then raise subscriber_closed s
            else (do
              get_sqs_client
              queue ← setup_subscription resolver topic
              polls rounds queue.0)
                s

  -- `close`: the client of SQS stays as it is if that of SNS raises.
  abbrev pub leave_sns : Exec (SnsSubscriber B) (Unit {0})
  leave_sns s =
      if s.has_sns_client
      then (do on_clients sns.exit; λ t. (ok tt, record t { has_sns_client = false })) s
      else (ok tt, s)

  abbrev pub leave_sqs : Exec (SnsSubscriber B) (Unit {0})
  leave_sqs s =
      if s.has_sqs_client
      then (do on_clients sqs.exit; λ t. (ok tt, record t { has_sqs_client = false })) s
      else (ok tt, s)

  unfoldable pub close : Exec (SnsSubscriber B) (Unit {0})
  close s = (do leave_sns; leave_sqs) (record s { closed = true })
