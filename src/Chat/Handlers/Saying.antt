-- ===== src/Chat/Handlers/Saying.antt =====
-- A command on its way through the bus, its dependency, the store and the event.
use natricine.Cqrs.EventBus
use natricine.Prelude.{ℕ, String, ◌≡◌, refl, ap, ◌∙◌, List, [], ◌∷◌, string_eq}
use natricine.Prelude.Dict.{get, put}
use natricine.Runtime.{ok, Exec, pure, lift, ◌>>=◌}
use natricine.Runtime.Laws.{Keeps, >>=-Keeps}
use natricine.Pubsub.Message.{Message, fresh}
use natricine.Pubsub.World.{on_env}
use natricine.Pubsub.World.Settled.{IsFreshAt, HasNoFuncs}
use natricine.Router.Core.{Run}
use natricine.Cqrs.Types.{first_param_name}
use natricine.Cqrs.Depends.{resolve, call, call_with_deps}
use natricine.Cqrs.CommandBus.{invoke, process_message}
use natricine.Cqrs.CommandBus.Dispatch.{processed, Processed, env-process_message}
use natricine.Chat.Models.{
  Value, SendMessage, MessageSent, type_of, send_message, send_message_type, message_sent,
  chat_store, nothing,
}
use natricine.Chat.Store.{ChatStore, add_message}
use natricine.Chat.Store.Rooms.{view, says, means, view-run}
use natricine.Chat.Handlers.{
  W, ChatEnv, Outside, given, publish, handle_send_message, send_message_handler, command_config,
  event_config, event_bus,
}

module _ {E S : Type 0} (out : Outside E S) where
  abbrev store_of : ChatEnv E → ChatStore
  store_of env = env.store

  -- What is said, at the time that the clock tells.
  abbrev pub event_of : SendMessage → ChatEnv E → MessageSent
  event_of cmd env = record {
    room_id = cmd.room_id;
    user_id = cmd.user_id;
    content = cmd.content;
    timestamp = (given out.now env).0;
  }

  -- Nothing else changes the store while a message is published.
  abbrev pub KeepsStore : Type 0
  KeepsStore =
      (topic : String) (ms : List (Message (ChatEnv E)))
      → Keeps store_of (out.pubsub.publish topic ms)

  abbrev topic_of : Value → String
  topic_of event = EventBus.topic_for_type (event_config out) event_bus (type_of event)

  publish-Keeps : (event : Value) → KeepsStore → Keeps store_of (publish out event)
  unfolding publish EventBus.publish
  publish-Keeps event kept =
      >>=-Keeps store_of (lift ((event_config out).marshaler.marshal event))
        (λ payload env.
          out.pubsub.publish (topic_of event) (fresh payload [] (given out.uuid4 env).0 ∷ [])
            (given out.uuid4 env).1)
        (λ env. refl)
        (λ payload env.
          kept (topic_of event) (fresh payload [] (given out.uuid4 env).0 ∷ [])
            (given out.uuid4 env).1)

  -- Publishing an event at the end of a handler leaves what the handler has done.
  pub then_published :
      (event : Value) (env : ChatEnv E)
      → KeepsStore
      → ((publish out event >>= λ _. pure nothing) env).1.store ≡ env.store
  then_published event env kept =
      >>=-Keeps store_of (publish out event) (λ _. pure nothing) (publish-Keeps event kept)
        (λ _ e. refl) env

  pub handle_send_message_lem :
      (cmd : SendMessage) (env : ChatEnv E)
      → KeepsStore
      → view (handle_send_message out cmd env).1.store
        ≡ means (says (event_of cmd env)) (view env.store)
  unfolding handle_send_message
  handle_send_message_lem cmd env kept =
      let event = event_of cmd env in
      let env' = record (given out.now env).1 { store = add_message event env.store } in
      ap view (then_published (message_sent event) env' kept) ∙ view-run (says event) env.store

  module _ (run_sync : Exec (W E) Value → Exec (W E) Value) where
    -- Reading the command and injecting the store, by what the thread of `get_chat_store` returns.
    invoke-handle_send_message :
        (msg : ℕ) (cmd : SendMessage) (w v : W E)
        → (command_config out).marshaler.unmarshal (w.heap msg).payload send_message_type
          ≡ ok (send_message cmd)
        → run_sync (pure chat_store) w ≡ (ok chat_store, v)
        → invoke (command_config out) run_sync msg send_message_type (send_message_handler out) w
          ≡ on_env (handle_send_message out cmd) v
    unfolding invoke call_with_deps resolve call get put first_param_name
    invoke-handle_send_message msg cmd w v loaded injected = rw (loaded, injected)

    -- A message without callbacks whose payload is read as a SendMessage is processed, the thread of
    -- `get_chat_store` returns, and nothing else changes the store while the event is published. Then,
    -- when its task ends, what was said stands at the end of what is said in its room, once, and nothing else
    -- of the rooms has changed: also where the publishing of the event raises or is cancelled. By how the
    -- handler ended, the message is acked, or nacked and the exception goes on, or left as it is.
    pub process_message-said :
        (msg : ℕ) (cmd : SendMessage) (s : Run (ChatEnv E)) (v : W E)
        → KeepsStore
        → (command_config out).marshaler.unmarshal (s.world.heap msg).payload send_message_type
          ≡ ok (send_message cmd)
        → run_sync (pure chat_store) s.world ≡ (ok chat_store, v)
        → IsFreshAt msg v
        → HasNoFuncs msg v
        → let (r, w) = on_env (handle_send_message out cmd) v in
          let task =
            process_message
              (command_config out)
              run_sync
              msg
              send_message_type
              (send_message_handler out)
              s in
          (view task.1.world.env.store ≡ means (says (event_of cmd v.env)) (view v.env.store))
          × Processed
              (command_config out)
              run_sync
              msg
              send_message_type
              (send_message_handler out)
              r
              w
              task.0
              task.1.world
    process_message-said msg cmd s v kept loaded injected new_ plain =
        let (r, w) = on_env (handle_send_message out cmd) v in
        let ran = invoke-handle_send_message msg cmd s.world v loaded injected in
        (
          ap (λ env. view (store_of env))
                (env-process_message (command_config out) run_sync msg send_message_type
                  (send_message_handler out) s r w ran new_ plain)
              ∙ handle_send_message_lem cmd v.env kept,
          processed (command_config out) run_sync msg send_message_type (send_message_handler out) s
              r w ran new_,
        )
