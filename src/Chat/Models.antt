-- ===== src/Chat/Models.antt =====
-- examples/chat/src/chat_example/models.py, and the values that pass through the buses. Times are numbers.
use natricine.Prelude.{ℕ, String}
use natricine.Cqrs.Types.{PyType}

pub record SendMessage : Type 0 where
  pub room_id : String
  pub user_id : String
  pub content : String

pub record JoinRoom : Type 0 where
  pub room_id : String
  pub user_id : String
  pub username : String

pub record LeaveRoom : Type 0 where
  pub room_id : String
  pub user_id : String

pub record MessageSent : Type 0 where
  pub room_id : String
  pub user_id : String
  pub content : String
  pub timestamp : ℕ

pub record UserJoined : Type 0 where
  pub room_id : String
  pub user_id : String
  pub username : String
  pub timestamp : ℕ

pub record UserLeft : Type 0 where
  pub room_id : String
  pub user_id : String
  pub timestamp : ℕ

-- The commands, the events, the one ChatStore object, and None.
pub data Value : Type 0 where
  send_message : SendMessage → Value
  join_room : JoinRoom → Value
  leave_room : LeaveRoom → Value
  message_sent : MessageSent → Value
  user_joined : UserJoined → Value
  user_left : UserLeft → Value
  chat_store : Value
  nothing : Value

abbrev pub none_type : PyType
none_type = record { id = 0; name = "NoneType" }

abbrev pub send_message_type : PyType
send_message_type = record { id = 1; name = "SendMessage" }

abbrev pub join_room_type : PyType
join_room_type = record { id = 2; name = "JoinRoom" }

abbrev pub leave_room_type : PyType
leave_room_type = record { id = 3; name = "LeaveRoom" }

abbrev pub message_sent_type : PyType
message_sent_type = record { id = 4; name = "MessageSent" }

abbrev pub user_joined_type : PyType
user_joined_type = record { id = 5; name = "UserJoined" }

abbrev pub user_left_type : PyType
user_left_type = record { id = 6; name = "UserLeft" }

abbrev pub chat_store_type : PyType
chat_store_type = record { id = 7; name = "ChatStore" }

-- type(value)
abbrev pub type_of : Value → PyType
type_of (send_message c) = send_message_type
type_of (join_room c) = join_room_type
type_of (leave_room c) = leave_room_type
type_of (message_sent e) = message_sent_type
type_of (user_joined e) = user_joined_type
type_of (user_left e) = user_left_type
type_of chat_store = chat_store_type
type_of nothing = none_type
