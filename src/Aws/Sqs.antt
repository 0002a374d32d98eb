-- ===== src/Aws/Sqs.antt =====
-- packages/natricine-aws/src/natricine_aws/sqs.py, over the client of aioboto3, which is a parameter. The
-- publisher and the subscriber have the same way to the URL of a queue, and the same state.
pub mod Queue
pub mod Sending
pub mod Settling
use natricine.Prelude.{
  or_default, ℕ, zero, suc, String, Bool, true, false, if◌then◌else◌, ◌==◌, string_eq, Option, none,
  some, List, [], ◌∷◌, is_some,
}
use natricine.Prelude.Dict.{Dict, get, put}
use natricine.Runtime.{
  Exn, error, Result, ok, err, cancelled, Exec, pure, raise, ◌>>=◌, ◌>>◌, try_except,
}
use natricine.Pubsub.Message.{Message, AckFunc}
use natricine.Aws.Marshaling.{
  Python, Attribute, SqsMessage, encode_message_body, to_message_attributes, from_sqs_message,
}

-- The arguments of `send_message`.
pub record SendArgs : Type 0 where
  pub queue_url : String
  pub message_body : String
  pub message_attributes : Dict String Attribute
  pub message_deduplication_id : Option String
  pub message_group_id : Option String

-- config.py
pub record SqsConfig : Type 0 where
  pub wait_time_s : ℕ
  pub visibility_timeout_s : ℕ
  pub max_messages : ℕ
  pub create_queue_if_missing : Bool
  pub uuid_attr : String

-- The client: its methods, and how it is made and left.
pub record SqsClient (B : Type 0) : Type 0 where
  pub enter : Exec B (Unit {0})
  pub exit : Exec B (Unit {0})
  pub get_queue_url : String → Exec B String
  pub create_queue : String → Exec B String
  -- an exception of `get_queue_url` is QueueDoesNotExist
  pub does_not_exist : Exn → Bool
  pub send_message : SendArgs → Exec B (Unit {0})
  -- by the URL, the number of messages, the wait and the visibility timeout
  pub receive_message : String → ℕ → ℕ → ℕ → Exec B (Option (List SqsMessage))
  pub delete_message : String → String → Exec B (Unit {0})
  pub change_message_visibility : String → String → ℕ → Exec B (Unit {0})

-- The attributes of a publisher and of a subscriber.
pub record Sqs (B : Type 0) : Type 0 where
  pub queue_urls : Dict String String
  pub has_client : Bool
  pub closed : Bool
  pub env : B

abbrev pub publisher_closed : Exn
publisher_closed = error "RuntimeError" "Publisher is closed"

abbrev pub subscriber_closed : Exn
subscriber_closed = error "RuntimeError" "Subscriber is closed"

-- `if value: kwargs[…] = value`
abbrev pub unless_empty : Option String → Option String
unless_empty none = none
unless_empty (some s) = if s == "" then none else some s

module _ {B : Type 0} (client : SqsClient B) where
  abbrev pub on_client : {A : Type 0} → Exec B A → Exec (Sqs B) A
  on_client act s = let (r, env) = act s.env in (r, record s { env = env })

  -- The client is kept once it is entered.
  unfoldable pub get_client : Exec (Sqs B) (Unit {0})
  get_client s =
      if s.has_client
      then (ok tt, s)
      else (do on_client client.enter; λ t. (ok tt, record t { has_client = true })) s

  abbrev pub remember : String → String → Exec (Sqs B) String
  remember topic url s = (ok url, record s { queue_urls = put topic url s.queue_urls })

  module _ (config : SqsConfig) where
    -- `get_queue_url` of the client, and `create_queue` where there is no such queue
    abbrev pub create_missing : String → Exn → Exec B String
    create_missing topic e =
        if client.does_not_exist e
        then (if config.create_queue_if_missing then client.create_queue topic else raise e)
        else raise e

    abbrev pub resolve : String → Option (String → String) → Exec (Sqs B) String
    resolve topic (some url_of) = remember topic (url_of topic)
    resolve topic none = do
      get_client
      url ← on_client (try_except (client.get_queue_url topic) (create_missing topic))
      remember topic url

    abbrev pub cached_or : Option (String → String) → String → Option String → Exec (Sqs B) String
    cached_or resolver topic (some url) = pure url
    cached_or resolver topic none = resolve topic resolver

    -- `_get_queue_url`
    unfoldable pub queue_url_of : Option (String → String) → String → Exec (Sqs B) String
    queue_url_of resolver topic s = cached_or resolver topic (get topic s.queue_urls) s

  unfoldable pub close : Exec (Sqs B) (Unit {0})
  close s =
      let t = record s { closed = true } in
      if t.has_client
      then (do on_client client.exit; λ u. (ok tt, record u { has_client = false })) t
      else (ok tt, t)

  module _ (python : Python B) (config : SqsConfig) where
    abbrev pub args_of : String → Message B → SendArgs
    args_of url m =
        let a = to_message_attributes python m config.uuid_attr in
        record {
          queue_url = url;
          message_body = encode_message_body python m.payload;
          message_attributes = a.attrs;
          message_deduplication_id = unless_empty a.deduplication_id;
          message_group_id = unless_empty a.group_id;
        }

    unfoldable pub send_each : String → List (Message B) → Exec B (Unit {0})
    send_each url [] = pure tt
    send_each url (m ∷ ms) = do client.send_message (args_of url m); send_each url ms

    -- `make_ack` and `make_nack`
    abbrev pub make_ack : String → String → AckFunc B
    make_ack url handle = client.delete_message url handle

    abbrev pub make_nack : String → String → AckFunc B
    make_nack url handle = client.change_message_visibility url handle 0

    unfoldable pub deliver : String → SqsMessage → Exec B (Message B)
    deliver url msg =
        let handle = or_default "" msg.receipt_handle in
        from_sqs_message python msg (some (make_ack url handle)) (some (make_nack url handle))
          config.uuid_attr

    module _ (resolver : Option (String → String)) where
      -- SQSPublisher.publish
      unfoldable pub publish : String → List (Message B) → Exec (Sqs B) (Unit {0})
      publish topic ms s =
          if s.closed
          then raise publisher_closed s
          else (do
            get_client
            url ← queue_url_of config resolver topic
            on_client (send_each url ms))
              s

      -- `body` is what the reader of the iterator does with a message before it asks for the next one.
      module _ (body : Message B → Exec (Sqs B) (Unit {0})) where
        unfoldable pub deliver_each : String → List SqsMessage → Exec (Sqs B) (Unit {0})
        deliver_each url [] = pure tt
        deliver_each url (msg ∷ msgs) = do
          m ← on_client (deliver url msg)
          body m
          deliver_each url msgs

        -- `while not self._closed`, for a number of rounds after which the reader asks no more.
        unfoldable pub polls : ℕ → String → Exec (Sqs B) (Unit {0})
        polls zero url s = (ok tt, s)
        polls (suc rounds) url s =
            let next =
              (do
                response ← on_client (
                    client.receive_message url config.max_messages config.wait_time_s
                      config.visibility_timeout_s)
                deliver_each url (or_default [] response)
                polls rounds url)
                s in
            if s.closed then (ok tt, s) else next

        -- SQSSubscriber.subscribe, and the iterator that it returns
        unfoldable pub subscribe : ℕ → String → Exec (Sqs B) (Unit {0})
        subscribe rounds topic s =
            if s.closed
            then raise subscriber_closed s
            else (do get_client; url ← queue_url_of config resolver topic; polls rounds url) s
