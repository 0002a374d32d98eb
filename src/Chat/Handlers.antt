-- ===== src/Chat/Handlers.antt =====
-- examples/chat/src/chat_example/handlers.py and dependencies.py: the buses of the application, and what it does
-- with its commands and events. Pydantic, the clock, the uuids and the pub/sub object are parameters.
pub mod Saying
pub mod Changes
use natricine.Prelude.{ℕ, String, true, false, Option, none, some, List, [], ◌∷◌, string_eq}
use natricine.Prelude.Dict.{Dict, get}
use natricine.Runtime.{Exn, error, Result, ok, err, Exec, pure, raise, ◌>>=◌, ◌>>◌}
use natricine.Pubsub.World.{World, Publisher, on_env}
use natricine.Cqrs.Types.{
  PyType, Func, func, Params, nil, param, absent, depends, Marshaler, Pydantic, pydantic_marshaler,
}
use natricine.Cqrs.Handling.{Config}
use natricine.Cqrs.CommandBus
use natricine.Cqrs.EventBus
use natricine.Chat.Models.{
  Value, send_message, join_room, leave_room, message_sent, user_joined, user_left, chat_store,
  nothing, SendMessage, JoinRoom, LeaveRoom, MessageSent, UserJoined, UserLeft, type_of,
  send_message_type, join_room_type, leave_room_type, message_sent_type, user_joined_type,
  user_left_type, chat_store_type, none_type,
}
use natricine.Chat.Store.{ChatStore, add_member, remove_member, add_message}

-- The application's objects: its store, and what the pub/sub object and the clock keep.
pub record ChatEnv (E : Type 0) : Type 0 where
  pub store : ChatStore
  pub rest : E

-- What the application takes from others: a log record is not kept.
pub record Outside (E S : Type 0) : Type 0 where
  pub pubsub : Publisher (ChatEnv E)
  pub subscriber : S
  pub pydantic : Pydantic Value
  pub uuid4 : E → ℕ × E
  pub now : E → ℕ × E

abbrev pub W : Type 0 → Type 0
W E = World (ChatEnv E)

abbrev bad_argument : Exn
bad_argument = error "AttributeError" ""

module _ {E : Type 0} where
  abbrev on_store : (ChatStore → ChatStore) → Exec (ChatEnv E) (Unit {0})
  on_store change env = (ok tt, record env { store = change env.store })

  -- A number that the outside gives: a uuid, or the time.
  abbrev pub given : (E → ℕ × E) → ChatEnv E → ℕ × ChatEnv E
  given source env = let (n, rest) = source env.rest in (n, record env { rest = rest })

  -- def get_chat_store
  abbrev get_chat_store : Func Value (W E)
  get_chat_store = func "get_chat_store" false (ok []) nil (λ args. pure chat_store)

  -- The handlers of events only log.
  abbrev logs : String → PyType → Func Value (W E)
  logs name t =
      func name true (ok (("event", t) ∷ [])) (param "event" absent absent nil)
        (λ args. pure nothing)

  abbrev log_message_sent : Func Value (W E)
  log_message_sent = logs "log_message_sent" message_sent_type

  abbrev log_user_joined : Func Value (W E)
  log_user_joined = logs "log_user_joined" user_joined_type

  abbrev log_user_left : Func Value (W E)
  log_user_left = logs "log_user_left" user_left_type

  -- The decorators of the events, on the new bus.
  abbrev no_events : EventBus.Registry Value (ChatEnv E)
  no_events = record { handlers = []; prefixes = [] }

  unfoldable pub event_bus : EventBus.Registry Value (ChatEnv E)
  event_bus =
      ((do
        EventBus.handler log_message_sent
        EventBus.handler log_user_joined
        EventBus.handler log_user_left)
        no_events).1

  module _ {S : Type 0} (out : Outside E S) where
    -- CommandBus(_pubsub, _pubsub, _marshaler) and EventBus(_pubsub, _pubsub, _marshaler)
    abbrev bus_config : String → Config Value S (ChatEnv E)
    bus_config prefix = record {
      publisher = out.pubsub;
      subscriber = some out.subscriber;
      subscriber_factory = none;
      marshaler = pydantic_marshaler out.pydantic;
      generate_topic = none;
      topic_prefix = prefix;
    }

    abbrev pub command_config : Config Value S (ChatEnv E)
    command_config = bus_config "command."

    abbrev pub event_config : Config Value S (ChatEnv E)
    event_config = bus_config "event."

    -- await event_bus.publish(event)
    unfoldable pub publish : Value → Exec (ChatEnv E) (Unit {0})
    publish = EventBus.publish event_config type_of (given out.uuid4) event_bus

    -- handle_send_message
    unfoldable pub handle_send_message : SendMessage → Exec (ChatEnv E) Value
    handle_send_message cmd env =
        let (timestamp, env') = given out.now env in
        let event : MessageSent = record {
          room_id = cmd.room_id;
          user_id = cmd.user_id;
          content = cmd.content;
          timestamp = timestamp;
        } in
        (do on_store (add_message event); publish (message_sent event); pure nothing) env'

    -- handle_join_room
    unfoldable pub handle_join_room : JoinRoom → Exec (ChatEnv E) Value
    handle_join_room cmd env =
        let (timestamp, env') =
          given out.now
            (record env { store = add_member cmd.room_id cmd.user_id cmd.username env.store }) in
        let event : UserJoined = record {
          room_id = cmd.room_id;
          user_id = cmd.user_id;
          username = cmd.username;
          timestamp = timestamp;
        } in
        (do publish (user_joined event); pure nothing) env'

    -- handle_leave_room
    unfoldable pub handle_leave_room : LeaveRoom → Exec (ChatEnv E) Value
    handle_leave_room cmd env =
        let (timestamp, env') =
          given out.now (record env { store = remove_member cmd.room_id cmd.user_id env.store }) in
        let event : UserLeft = record {
          room_id = cmd.room_id;
          user_id = cmd.user_id;
          timestamp = timestamp;
        } in
        (do publish (user_left event); pure nothing) env'

    -- A handler with its parameters `cmd` and `store`; the object that is injected is the store that the
    -- handler acts on. What is not a command of its type lacks the fields that it reads.
    abbrev pub takes :
        String → PyType → (Option Value → Option Value → Exec (ChatEnv E) Value) → Func Value (W E)
    takes name t body =
        func name true (ok (("cmd", t) ∷ ("store", chat_store_type) ∷ ("return", none_type) ∷ []))
          (param "cmd" absent absent (param "store" (depends get_chat_store) absent nil))
          (λ args. on_env (body (get "cmd" args) (get "store" args)))

    abbrev on_send_message : Option Value → Option Value → Exec (ChatEnv E) Value
    on_send_message (some (send_message cmd)) (some chat_store) = handle_send_message cmd
    on_send_message cmd store = raise bad_argument

    abbrev on_join_room : Option Value → Option Value → Exec (ChatEnv E) Value
    on_join_room (some (join_room cmd)) (some chat_store) = handle_join_room cmd
    on_join_room cmd store = raise bad_argument

    abbrev on_leave_room : Option Value → Option Value → Exec (ChatEnv E) Value
    on_leave_room (some (leave_room cmd)) (some chat_store) = handle_leave_room cmd
    on_leave_room cmd store = raise bad_argument

    abbrev pub send_message_handler : Func Value (W E)
    send_message_handler = takes "handle_send_message" send_message_type on_send_message

    abbrev join_room_handler : Func Value (W E)
    join_room_handler = takes "handle_join_room" join_room_type on_join_room

    abbrev leave_room_handler : Func Value (W E)
    leave_room_handler = takes "handle_leave_room" leave_room_type on_leave_room

    abbrev no_commands : CommandBus.Registry Value (ChatEnv E)
    no_commands = record { handlers = []; prefixes = [] }

    -- The decorators of the commands, on the new bus.
    unfoldable pub command_bus : CommandBus.Registry Value (ChatEnv E)
    command_bus =
        ((do
          CommandBus.handler send_message_handler
          CommandBus.handler join_room_handler
          CommandBus.handler leave_room_handler)
          no_commands).1
