-- ===== src/Chat/App/Posting.antt =====
-- From the endpoint to the room: what is posted, and what its processing says.
use natricine.Prelude.{ℕ, String, ◌≡◌, refl, some, List, [], ◌∷◌, Listed, string_eq}
use natricine.Prelude.Dict.{get, put}
use natricine.Runtime.{ok, Exec, pure, ◌>>=◌}
use natricine.Pubsub.Message.{fresh}
use natricine.Pubsub.World.{on_env}
use natricine.Pubsub.World.Settled.{IsFreshAt, HasNoFuncs}
use natricine.Router.Core.{Run}
use natricine.Cqrs.Types.{type_eq, handled_type}
use natricine.Cqrs.CommandBus.{tasks, handler, process_message}
use natricine.Cqrs.CommandBus.Dispatch.{send_reaches_handler, Processed}
use natricine.Chat.Models.{Value, SendMessage, send_message, send_message_type, chat_store, type_of}
use natricine.Chat.Store.Rooms.{view, says, means}
use natricine.Chat.Handlers.{
  W, ChatEnv, Outside, given, handle_send_message, send_message_handler, command_config,
  command_bus,
}
use natricine.Chat.Handlers.Saying.{KeepsStore, event_of, process_message-said}
use natricine.Chat.App.{post_message}
use natricine.Chat.App

module _ {E S : Type 0} (out : Outside E S) where
  abbrev pub command_of : String → String → String → SendMessage
  command_of room_id user_id content = record {
    room_id = room_id;
    user_id = user_id;
    content = content;
  }

  handler_found : get send_message_type (command_bus out).handlers ≡ some (send_message_handler out)
  unfolding command_bus handler handled_type get put
  handler_found = refl

  post_message_lem :
      (room_id user_id content : String) (payload : List ℕ) (env : ChatEnv E)
      → (command_config out).marshaler.marshal (send_message (command_of room_id user_id content))
        ≡ ok payload
      → (topic : String) × Listed
          (topic, send_message_type, send_message_handler out)
          (tasks (command_config out) (command_bus out) (command_bus out).handlers)
        × (post_message out room_id user_id content env
            ≡ (out.pubsub.publish topic (fresh payload [] (given out.uuid4 env).0 ∷ []) >>= λ _.
                  pure "sent")
                (given out.uuid4 env).1)
  unfolding post_message App.send
  post_message_lem room_id user_id content payload env dumped =
      let (topic, there, sent) =
        send_reaches_handler (command_config out) type_of (given out.uuid4) (command_bus out)
          (send_message (command_of room_id user_id content)) (send_message_handler out) payload env
          handler_found dumped in
      (topic, there, rw sent)

  module _ (run_sync : Exec (W E) Value → Exec (W E) Value) where
    -- Pydantic reads back what it has written, and nothing else changes the store while a message is
    -- published. Posting a message to a room publishes one message to a topic on which the bus starts a
    -- task for just that command and its handler; and when that task has processed a fresh message with
    -- that payload and without callbacks, and the thread of `get_chat_store` returned, then what was
    -- posted stands once, by its user and at its time, at the end of what is said in that room, no other
    -- room has changed, and the message is acked, nacked or left as it is by how the handler ended.
    pub post_message-said :
        (room_id user_id content : String) (payload : List ℕ) (env : ChatEnv E) (msg : ℕ)
        (s : Run (ChatEnv E)) (v : W E)
        → KeepsStore out
        → (command_config out).marshaler.marshal (send_message (command_of room_id user_id content))
          ≡ ok payload
        → (command_config out).marshaler.unmarshal payload send_message_type
          ≡ ok (send_message (command_of room_id user_id content))
        → (s.world.heap msg).payload ≡ payload
        → run_sync (pure chat_store) s.world ≡ (ok chat_store, v)
        → IsFreshAt msg v
        → HasNoFuncs msg v
        → let (r, w) = on_env (handle_send_message out (command_of room_id user_id content)) v in
          let task =
            process_message
              (command_config out)
              run_sync
              msg
              send_message_type
              (send_message_handler out)
              s in
          ((topic : String) × Listed
              (topic, send_message_type, send_message_handler out)
              (tasks (command_config out) (command_bus out) (command_bus out).handlers)
            × (post_message out room_id user_id content env
                ≡ (out.pubsub.publish topic (fresh payload [] (given out.uuid4 env).0 ∷ []) >>= λ _.
                      pure "sent")
                    (given out.uuid4 env).1))
          × (view task.1.world.env.store
              ≡ means
                  (says (event_of out (command_of room_id user_id content) v.env))
                  (view v.env.store))
          × Processed
              (command_config out)
              run_sync
              msg
              send_message_type
              (send_message_handler out)
              r
              w
              task.0
              task.1.world
    post_message-said room_id user_id content payload env msg s v kept dumped loaded same injected
          new_ plain =
        let (said, settled) =
          process_message-said out run_sync msg (command_of room_id user_id content) s v kept
            (rw same loaded) injected new_ plain in
        (post_message_lem room_id user_id content payload env dumped, said, settled)
