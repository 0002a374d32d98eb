-- ===== src/Chat/Store.antt =====
-- examples/chat/src/chat_example/store.py.
pub mod Rooms
use natricine.Prelude.{
  ℕ, ◌-◌, String, Option, none, some, List, [], ◌∷◌, ◌++◌, ◌==◌, nat_eq, string_eq, if◌then◌else◌,
  length, drop,
}
use natricine.Prelude.Dict.{Dict, get, put}
use natricine.Chat.Models.{MessageSent, UserJoined}

pub record RoomState : Type 0 where
  pub members : Dict String String
  pub messages : List MessageSent

pub record ChatStore : Type 0 where
  pub rooms : Dict String RoomState

abbrev pub new_room : RoomState
new_room = record { members = []; messages = [] }

abbrev pub new_store : ChatStore
new_store = record { rooms = [] }

-- d.pop(key, None), for a dictionary, where no key stands twice
unfoldable pub pop : String → Dict String String → Dict String String
pop key [] = []
pop key ((k, v) ∷ d) = let rest = pop key d in if k == key then rest else (k, v) ∷ rest

abbrev pub enter_room : String → Option RoomState → ChatStore → RoomState × ChatStore
enter_room room_id (some room) s = (room, s)
enter_room room_id none s = (new_room, record { rooms = put room_id new_room s.rooms })

-- The room, which is made if there is none: an object in the store, so that a change of it is an assignment here.
unfoldable pub get_or_create_room : String → ChatStore → RoomState × ChatStore
get_or_create_room room_id s = enter_room room_id (get room_id s.rooms) s

abbrev pub change_room : String → (RoomState → RoomState) → ChatStore → ChatStore
change_room room_id change s =
    let (room, s') = get_or_create_room room_id s in
    record { rooms = put room_id (change room) s'.rooms }

unfoldable pub add_member : String → String → String → ChatStore → ChatStore
add_member room_id user_id username =
    change_room room_id (λ room. record room { members = put user_id username room.members })

unfoldable pub remove_member : String → String → ChatStore → ChatStore
remove_member room_id user_id =
    change_room room_id (λ room. record room { members = pop user_id room.members })

unfoldable pub add_message : MessageSent → ChatStore → ChatStore
add_message event =
    change_room event.room_id (λ room. record room { messages = room.messages ++ event ∷ [] })

-- xs[-n:], which is the whole list where n is 0
unfoldable pub last_of : ℕ → List MessageSent → List MessageSent
last_of n xs = if n == 0 then xs else drop (length xs - n) xs

unfoldable pub get_messages : String → ℕ → ChatStore → List MessageSent × ChatStore
get_messages room_id limit s =
    let (room, s') = get_or_create_room room_id s in (last_of limit room.messages, s')

module _ {E : Type 0} (now : E → ℕ × E) where
  -- A model that is made has the time of its making.
  abbrev pub joined : String → Dict String String → E → List UserJoined × E
  joined room_id [] env = ([], env)
  joined room_id ((uid, name) ∷ members) env =
      let (timestamp, env') = now env in
      let (rest, env'') = joined room_id members env' in
      (
        record { room_id = room_id; user_id = uid; username = name; timestamp = timestamp } ∷ rest,
        env'',
      )

  unfoldable pub get_members : String → ChatStore → E → List UserJoined × ChatStore × E
  get_members room_id s env =
      let (room, s') = get_or_create_room room_id s in
      let (found, env') = joined room_id room.members env in (found, s', env')
