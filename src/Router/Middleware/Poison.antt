-- ===== src/Router/Middleware/Poison.antt =====
-- `poison_queue`, `dead_letter_queue`, `recoverer` and `timeout` of
-- packages/natricine/src/natricine/router/middleware.py.
pub mod Metadata
pub mod Burial
use natricine.Prelude.{
  ℕ, String, Bool, true, false, Option, none, some, List, [], ◌∷◌, if◌then◌else◌, ◌==◌, string_eq,
}
use natricine.Prelude.Dict.{Dict, get, put}
use natricine.Runtime.{Exn, Result, ok, err, cancelled, Exec, pure, raise, recover, ◌>>=◌, ◌>>◌}
use natricine.Pubsub.Message.{Message, fresh}
use natricine.Pubsub.World.{World, Publisher, on_env}
use natricine.Router.Types.{HandlerFunc, Middleware, External, str, type_name}

-- `d[k] = v` under `if v:`, for a text
abbrev pub put_unless_empty : String → String → Dict String String → Dict String String
put_unless_empty k v d = if v == "" then d else put k v d

abbrev pub put_topic : Option String → Dict String String → Dict String String
put_topic none d = d
put_topic (some topic) d = put_unless_empty "topic_poisoned" topic d

abbrev pub put_traceback : String → Bool → String → Dict String String → Dict String String
put_traceback k true text d = put k text d
put_traceback k false text d = d

-- The arguments of `poison_queue`. `catch` is the test of `except catch`.
pub record PoisonConfig (B : Type 0) : Type 0 where
  pub publisher : Publisher B
  pub topic : String
  pub handler_name : String
  pub subscriber_name : String
  pub catch : Exn → Bool
  pub include_traceback : Bool
  pub on_poison : Option (ℕ → Exn → Exec (World B) (Unit {0}))

-- Those of `dead_letter_queue`.
pub record DlqConfig (B : Type 0) : Type 0 where
  pub publisher : Publisher B
  pub topic : String
  pub catch : Exn → Bool
  pub include_traceback : Bool
  pub on_dlq : Option (ℕ → Exn → Exec (World B) (Unit {0}))

unfoldable pub poison_metadata :
    String → String → Bool → Exn → String → Dict String String → Dict String String
poison_metadata handler subscriber with_traceback e traceback metadata =
    put_traceback "traceback" with_traceback traceback (
      put_topic (get "_topic" metadata) (
        put_unless_empty "subscriber_poisoned" subscriber
          (put_unless_empty "handler_poisoned" handler (put "reason_poisoned" (str e) metadata))))

-- `show_uuid` is `str` on a UUID.
unfoldable pub dlq_metadata :
    (ℕ → String) → Bool → Exn → String → ℕ → Dict String String → Dict String String
dlq_metadata show_uuid with_traceback e traceback uuid metadata =
    put_traceback "dlq.traceback" with_traceback traceback (
      put "dlq.original_uuid" (show_uuid uuid)
        (put "dlq.error_type" (type_name e) (put "dlq.error" (str e) metadata)))

module _ {B : Type 0} (ext : External B) where
  open ext use {uuid4, format_exc, log_exception, fail_after}

  -- `publisher.publish(topic, Message(payload=…, metadata=…))`, with a new uuid
  unfoldable pub publish_new :
      Publisher B → String → List ℕ → Dict String String → Exec (World B) (Unit {0})
  publish_new publisher topic payload metadata = on_env λ env.
      let (uuid, env') = uuid4 env in
      publisher.publish topic (fresh payload metadata uuid ∷ []) env'

  -- The optional callback on the message and the exception.
  abbrev pub notify :
      Option (ℕ → Exn → Exec (World B) (Unit {0})) → ℕ → Exn → Exec (World B) (Unit {0})
  notify none msg e w = (ok tt, w)
  notify (some f) msg e w = f msg e w

  unfoldable pub bury : PoisonConfig B → ℕ → Exn → Exec (World B) (Option (List (Message B)))
  bury config msg e w =
      let m = w.heap msg in
      let metadata =
        poison_metadata config.handler_name config.subscriber_name config.include_traceback e
          (format_exc e w.env) m.metadata in
      (do
        publish_new config.publisher config.topic m.payload metadata
        notify config.on_poison msg e
        pure none)
        w

  unfoldable pub poison_queue : PoisonConfig B → Middleware B
  poison_queue config next_handler msg w =
      let (r, w') = next_handler msg w in
      recover r (λ e. if config.catch e then bury config msg e else raise e) w'

  module _ (show_uuid : ℕ → String) where
    unfoldable pub bury_dlq : DlqConfig B → ℕ → Exn → Exec (World B) (Option (List (Message B)))
    bury_dlq config msg e w =
        let m = w.heap msg in
        let metadata =
          dlq_metadata show_uuid config.include_traceback e (format_exc e w.env) m.uuid
            m.metadata in
        (do
          publish_new config.publisher config.topic m.payload metadata
          notify config.on_dlq msg e
          pure none)
          w

    unfoldable pub dead_letter_queue : DlqConfig B → Middleware B
    dead_letter_queue config next_handler msg w =
        let (r, w') = next_handler msg w in
        recover r (λ e. if config.catch e then bury_dlq config msg e else raise e) w'

  -- `except Exception: log.exception(…); raise`
  unfoldable pub recoverer : Middleware B
  recoverer next_handler msg w =
      let (r, w') = next_handler msg w in
      recover r (λ e v. (err e, record v { env = log_exception (v.heap msg).uuid v.env })) w'

  unfoldable pub timeout : ext.Float → Middleware B
  timeout seconds next_handler msg = fail_after seconds (next_handler msg)
