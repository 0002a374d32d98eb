-- ===== src/Chat/Handlers/Changes.antt =====
-- What each handler of a command does to the rooms.
use natricine.Prelude.{◌≡◌, ap, ◌∙◌}
use natricine.Chat.Models.{SendMessage, JoinRoom, LeaveRoom, user_joined, user_left}
use natricine.Chat.Store.{add_member, remove_member}
use natricine.Chat.Store.Rooms.{view, says, joins, leaves, means, view-run}
use natricine.Chat.Handlers.{
  ChatEnv, Outside, given, handle_send_message, handle_join_room, handle_leave_room,
}
use natricine.Chat.Handlers.Saying.{event_of, KeepsStore, then_published, handle_send_message_lem}

module _ {E S : Type 0} (out : Outside E S) where
  handle_join_room_lem :
      (cmd : JoinRoom) (env : ChatEnv E)
      → KeepsStore out
      → view (handle_join_room out cmd env).1.store
        ≡ means (joins cmd.room_id cmd.user_id cmd.username) (view env.store)
  unfolding handle_join_room
  handle_join_room_lem cmd env kept =
      let (timestamp, env') =
        given out.now
          (record env { store = add_member cmd.room_id cmd.user_id cmd.username env.store }) in
      ap view (
        then_published out
          (user_joined (record {
            room_id = cmd.room_id;
            user_id = cmd.user_id;
            username = cmd.username;
            timestamp = timestamp;
          }))
          env' kept)
      ∙ view-run (joins cmd.room_id cmd.user_id cmd.username) env.store

  handle_leave_room_lem :
      (cmd : LeaveRoom) (env : ChatEnv E)
      → KeepsStore out
      → view (handle_leave_room out cmd env).1.store
        ≡ means (leaves cmd.room_id cmd.user_id) (view env.store)
  unfolding handle_leave_room
  handle_leave_room_lem cmd env kept =
      let (timestamp, env') =
        given out.now (record env { store = remove_member cmd.room_id cmd.user_id env.store }) in
      ap view (
        then_published out
          (user_left
            (record { room_id = cmd.room_id; user_id = cmd.user_id; timestamp = timestamp }))
          env' kept)
      ∙ view-run (leaves cmd.room_id cmd.user_id) env.store

  -- As long as nothing else changes the store while an event is published, each handler changes of the rooms just
  -- what its command asks for, also where the publishing of the event raises or is cancelled: a message
  -- is said last in its room, a member joins by the name given, a member leaves.
  pub handlers_change :
      (say : SendMessage) (join : JoinRoom) (leave : LeaveRoom) (env : ChatEnv E)
      → KeepsStore out
      → (view (handle_send_message out say env).1.store
          ≡ means (says (event_of out say env)) (view env.store))
        × (view (handle_join_room out join env).1.store
            ≡ means (joins join.room_id join.user_id join.username) (view env.store))
        × (view (handle_leave_room out leave env).1.store
            ≡ means (leaves leave.room_id leave.user_id) (view env.store))
  handlers_change say join leave env kept = (
    handle_send_message_lem out say env kept,
    handle_join_room_lem join env kept,
    handle_leave_room_lem leave env kept,
  )
