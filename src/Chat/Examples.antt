-- ===== src/Chat/Examples.antt =====
-- Tests of the chat application, and its theorems at concrete inputs.
use natricine.Prelude.{ℕ, suc, ◌≡◌, ◌≤◌, refl, true, List, [], ◌∷◌, string_eq, arith, length}
use natricine.Runtime.{error, ok, err}
use natricine.Pubsub.Message.{fresh}
use natricine.Router.Core.{Run, stopped}
use natricine.Cqrs.Types.{pydantic_marshal, pydantic_unmarshal}
use natricine.Cqrs.CommandBus.{process_message}
use natricine.Chat.Models.{
  JoinRoom, LeaveRoom, MessageSent, send_message, send_message_type, type_of,
}
use natricine.Chat.Store.{ChatStore, new_store, pop, get_messages}
use natricine.Chat.Store.Rooms.{
  Call, joins, leaves, says, asks_messages, view, runs, meanings, means, view-runs,
  get_messages_lem,
}
use natricine.Chat.Handlers.{
  ChatEnv, Outside, handle_join_room, command_config, send_message_handler,
}
use natricine.Chat.Handlers.Changes.{handlers_change}
use natricine.Chat.Handlers.Saying.{event_of}
use natricine.Chat.App.{list_messages, invalid}
use natricine.Chat.App.Posting.{post_message-said, command_of}

abbrev hello : MessageSent
hello = record { room_id = "den"; user_id = "u1"; content = "hello"; timestamp = 5 }

abbrev busy : List Call
busy =
    joins "den" "u1" "Ann"
    ∷ says hello
    ∷ joins "hall" "u1" "Ann"
    ∷ leaves "den" "u1"
    ∷ asks_messages "loft" 3
    ∷ []

popped : pop "u1" (("u1", "Ann") ∷ ("u2", "Bob") ∷ []) ≡ ("u2", "Bob") ∷ []
unfolding pop
popped = refl

view-runs_example : view (runs busy new_store) ≡ meanings busy (view new_store)
view-runs_example = view-runs busy new_store

abbrev talk : ChatStore
talk = record {
  rooms = ("den", record { members = []; messages = hello ∷ hello ∷ hello ∷ [] }) ∷ [];
}

get_messages_lem_example : length (get_messages "den" 2 talk).0 ≤ 2
get_messages_lem_example = (get_messages_lem "den" 2 talk (omega arith)).0

-- A clock that counts, and a pub/sub object that refuses what it is given.
abbrev outside : Outside ℕ ℕ
outside = record {
  pubsub = record {
    publish = λ topic ms env. (err (error "RuntimeError" "MemoryPubSub is closed"), env);
    close = λ env. (ok tt, env);
  };
  subscriber = 0;
  pydantic = record {
    type_of = type_of;
    is_model = λ t. true;
    dump = λ v. ok (7 ∷ []);
    validate = λ t payload.
        ok (send_message (record { room_id = "den"; user_id = "u1"; content = "hello" }));
  };
  uuid4 = λ n. (n, suc n);
  now = λ n. (n, suc n);
}

abbrev env : ChatEnv ℕ
env = record { store = talk; rest = 40 }

abbrev going : Run (ChatEnv ℕ)
going = record {
  flags = record stopped { running = true };
  world = record { heap = λ _. fresh (7 ∷ []) [] 1; env = env };
}

-- The event is not published, and still it is said.
post_message-said_example :
    view
      (process_message
        (command_config outside)
        (λ act. act)
        0
        send_message_type
        (send_message_handler outside)
        going).1.world.env.store
    ≡ means (says (event_of outside (command_of outside "den" "u1" "hello") env)) (view talk)
unfolding pydantic_marshal pydantic_unmarshal
post_message-said_example =
    (post_message-said outside (λ act. act) "den" "u1" "hello" (7 ∷ []) env 0 going going.world
      (λ topic ms e. refl) refl refl refl refl (refl, refl) (refl, refl)).1

no_limit : (list_messages outside "den" 0 env).0 ≡ err invalid
unfolding list_messages
no_limit = refl

abbrev ann : JoinRoom
ann = record { room_id = "den"; user_id = "u1"; username = "Ann" }

abbrev gone : LeaveRoom
gone = record { room_id = "den"; user_id = "u1" }

handlers_change_example :
    view (handle_join_room outside ann env).1.store ≡ means (joins "den" "u1" "Ann") (view talk)
handlers_change_example =
    (handlers_change outside (command_of outside "den" "u1" "hello") ann gone env
      (λ topic ms e. refl)).1
