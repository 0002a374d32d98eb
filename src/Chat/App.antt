-- ===== src/Chat/App.antt =====
-- examples/chat/src/chat_example/app.py: the endpoints, which FastAPI calls with what it has read from a request.
-- The start and the stop of the application are those of the buses.
pub mod Posting
use natricine.Prelude.{ℕ, String, ◌∷◌, [], List, leb, ◌&&◌, if◌then◌else◌}
use natricine.Runtime.{Exn, error, Exec, pure, raise, ◌>>=◌, ◌>>◌, ok}
use natricine.Cqrs.CommandBus
use natricine.Chat.Models.{
  Value, send_message, join_room, leave_room, MessageSent, UserJoined, type_of,
}
use natricine.Chat.Store
use natricine.Chat.Handlers.{ChatEnv, Outside, given, command_config, command_bus}

-- RequestValidationError
abbrev pub invalid : Exn
invalid = error "RequestValidationError" ""

module _ {E S : Type 0} (out : Outside E S) where
  -- await command_bus.send(command)
  unfoldable pub send : Value → Exec (ChatEnv E) (Unit {0})
  send = CommandBus.send (command_config out) type_of (given out.uuid4) (command_bus out)

  unfoldable pub post_message : String → String → String → Exec (ChatEnv E) String
  post_message room_id user_id content = do
    send (send_message (record { room_id = room_id; user_id = user_id; content = content }))
    pure "sent"

  unfoldable post_join : String → String → String → Exec (ChatEnv E) String
  post_join room_id user_id username = do
    send (join_room (record { room_id = room_id; user_id = user_id; username = username }))
    pure "joined"

  unfoldable post_leave : String → String → Exec (ChatEnv E) String
  post_leave room_id user_id = do
    send (leave_room (record { room_id = room_id; user_id = user_id }))
    pure "left"

  -- The limit is a query parameter with ge=1 and le=100.
  unfoldable pub list_messages : String → ℕ → Exec (ChatEnv E) (List MessageSent)
  list_messages room_id limit env =
      if leb 1 limit && leb limit 100
      then (let (messages, store) = Store.get_messages room_id limit env.store in
          (ok messages, record env { store = store }))
      else raise invalid env

  unfoldable list_members : String → Exec (ChatEnv E) (List UserJoined)
  list_members room_id env =
      let (members, store, rest) = Store.get_members out.now room_id env.store env.rest in
      (ok members, record { store = store; rest = rest })
