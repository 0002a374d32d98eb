-- ===== src/Chat/Store/Rooms.antt =====
-- The store as what is seen of its rooms: who is in a room, and what was said there. A room that was not made
-- is one that is empty.
use natricine.Prelude.{
  ℕ, ◌-◌, ◌≤◌, String, ◌≡◌, refl, sym, ap, ◌∙◌, fun_ext, Bool-cases, inl, inr, Option, none, some,
  List, [], ◌∷◌, ◌++◌, ◌==◌, nat_eq, string_eq, eq_iff, if◌then◌else◌, length, take, drop,
  append-take-drop, length-drop, arith,
}
use natricine.Prelude.Dict.{Dict, get, put, get-put}
use natricine.Chat.Models.{MessageSent}
use natricine.Chat.Store.{
  RoomState, ChatStore, new_room, pop, enter_room, get_or_create_room, change_room, add_member,
  remove_member, add_message, last_of, get_messages, get_members,
}

pub record Room : Type 0 where
  pub name_of : String → Option String
  pub said : List MessageSent

abbrev pub Rooms : Type 0
Rooms = String → Room

abbrev room_or_new : Option RoomState → RoomState
room_or_new none = new_room
room_or_new (some room) = room

abbrev pub seen : RoomState → Room
seen room = record { name_of = λ user. get user room.members; said = room.messages }

abbrev pub view : ChatStore → Rooms
view s room_id = seen (room_or_new (get room_id s.rooms))

-- The calls that change the store or look at it.
pub data Call : Type 0 where
  joins : String → String → String → Call
  leaves : String → String → Call
  says : MessageSent → Call
  asks_messages : String → ℕ → Call
  asks_members : (ℕ → ℕ × ℕ) → String → ℕ → Call

abbrev pub run : Call → ChatStore → ChatStore
run (joins room_id user_id username) s = add_member room_id user_id username s
run (leaves room_id user_id) s = remove_member room_id user_id s
run (says event) s = add_message event s
run (asks_messages room_id limit) s = (get_messages room_id limit s).1
run (asks_members now room_id clock) s = (get_members now room_id s clock).1

abbrev pub runs : List Call → ChatStore → ChatStore
runs [] s = s
runs (c ∷ cs) s = runs cs (run c s)

abbrev rename : String → Option String → Room → Room
rename user_id name room = record room {
  name_of = λ user. if user_id == user then name else room.name_of user;
}

abbrev change_at : String → (Room → Room) → Rooms → Rooms
change_at room_id change rooms id = if room_id == id then change (rooms id) else rooms id

-- What the calls mean for the rooms.
abbrev pub means : Call → Rooms → Rooms
means (joins room_id user_id username) rooms =
    change_at room_id (rename user_id (some username)) rooms
means (leaves room_id user_id) rooms = change_at room_id (rename user_id none) rooms
means (says event) rooms =
    change_at event.room_id (λ room. record room { said = room.said ++ event ∷ [] }) rooms
means (asks_messages room_id limit) rooms = rooms
means (asks_members now room_id clock) rooms = rooms

abbrev pub meanings : List Call → Rooms → Rooms
meanings [] rooms = rooms
meanings (c ∷ cs) rooms = meanings cs (means c rooms)

get-pop :
    (k j : String) (d : Dict String String) → get j (pop k d) ≡ (if k == j then none else get j d)
unfolding get pop
get-pop k j [] = ground arith
get-pop k j ((i, v) ∷ d) = ground (arith, eq_iff k j, eq_iff i k, eq_iff i j, get-pop k j d)

entered :
    (room_id : String) (o : Option RoomState) (s : ChatStore)
    → (enter_room room_id o s).0 ≡ room_or_new o
entered room_id none s = refl
entered room_id (some room) s = refl

-- A room that is made is a new one, and the others stay what they were.
others_kept :
    (room_id id : String) (o : Option RoomState) (s : ChatStore)
    → get room_id s.rooms ≡ o
    → room_or_new (get id (enter_room room_id o s).1.rooms) ≡ room_or_new (get id s.rooms)
others_kept room_id id (some room) s h = refl
others_kept room_id id none s h = elim (Bool-cases (room_id == id)) [
  | inl e ↦ rw (get-put, e, sym ((eq_iff room_id id).0 e), h)
  | inr e ↦ rw (get-put, e)
]

-- The room in the store is the changed one afterwards, and every other one is what it was.
room-change_room :
    (room_id id : String) (change : RoomState → RoomState) (s : ChatStore)
    → room_or_new (get id (change_room room_id change s).rooms) ≡ (
        if room_id == id
        then change (room_or_new (get room_id s.rooms))
        else room_or_new (get id s.rooms))
unfolding get_or_create_room
room-change_room room_id id change s = elim (Bool-cases (room_id == id)) [
  | inl e ↦ rw (get-put, e, entered room_id (get room_id s.rooms) s)
  | inr e ↦ rw (get-put, e, others_kept room_id id (get room_id s.rooms) s refl)
]

view-change_room :
    (room_id : String) (change : RoomState → RoomState) (means_it : Room → Room) (s : ChatStore)
    → ((room : RoomState) → seen (change room) ≡ means_it (seen room))
    → view (change_room room_id change s) ≡ change_at room_id means_it (view s)
view-change_room room_id change means_it s h = fun_ext (λ id. elim (Bool-cases (room_id == id)) [
  | inl e ↦
      rw (ap seen (room-change_room room_id id change s), e, sym ((eq_iff room_id id).0 e))
        (h (room_or_new (get room_id s.rooms)))
  | inr e ↦ rw (ap seen (room-change_room room_id id change s), e)
])

pub view-run : (c : Call) (s : ChatStore) → view (run c s) ≡ means c (view s)
unfolding add_member remove_member add_message get_messages get_members get_or_create_room
view-run (joins room_id user_id username) s =
    view-change_room room_id (λ room. record room { members = put user_id username room.members })
      (rename user_id (some username)) s
      (λ room.
        ap (λ f. record (seen room) { name_of = f })
          (fun_ext (λ user. get-put user_id user username room.members)))
view-run (leaves room_id user_id) s =
    view-change_room room_id (λ room. record room { members = pop user_id room.members })
      (rename user_id none) s
      (λ room.
        ap (λ f. record (seen room) { name_of = f })
          (fun_ext (λ user. get-pop user_id user room.members)))
view-run (says event) s =
    view-change_room event.room_id (λ room. record room { messages = room.messages ++ event ∷ [] })
      (λ room. record room { said = room.said ++ event ∷ [] }) s (λ room. refl)
view-run (asks_messages room_id limit) s =
    fun_ext (λ id. ap seen (others_kept room_id id (get room_id s.rooms) s refl))
view-run (asks_members now room_id clock) s =
    fun_ext (λ id. ap seen (others_kept room_id id (get room_id s.rooms) s refl))

-- Whatever is called on the store and in whatever order, what is seen of its rooms afterwards is what the calls
-- mean for the rooms, one after the other: a member who joins has the name given, one who leaves has
-- none, what is said comes after what was said before, in its room and in no other, and looking at a
-- room, which makes it if there is none, changes nothing.
pub view-runs : (cs : List Call) (s : ChatStore) → view (runs cs s) ≡ meanings cs (view s)
view-runs [] s = refl
view-runs (c ∷ cs) s = view-runs cs (run c s) ∙ ap (meanings cs) (view-run c s)

drop_short : (n : ℕ) (xs : List MessageSent) → length xs ≤ n → drop (length xs - n) xs ≡ xs
drop_short n xs h = let none_left : length xs - n ≡ 0 = omega arith in rw none_left

last_of_lem :
    (n : ℕ) (xs : List MessageSent)
    → 1 ≤ n
    → (length (last_of n xs) ≤ n)
      × ((before : List MessageSent) × (before ++ last_of n xs ≡ xs))
      × (length xs ≤ n → last_of n xs ≡ xs)
unfolding last_of
last_of_lem n xs h = elim (Bool-cases (n == 0)) [
  | inl e ↦ absurd (ground (arith, h, (eq_iff n 0).0 e))
  | inr e ↦ rw (e) (
    omega (arith, length-drop (length xs - n) xs),
    (take (length xs - n) xs, append-take-drop (length xs - n) xs),
    drop_short n xs,
  )
]

-- Where the limit is not 0, no more messages than the limit are returned; they are the last ones of the
-- room, in the order in which they were said, and all of them if they are no more than the limit.
pub get_messages_lem :
    (room_id : String) (limit : ℕ) (s : ChatStore)
    → 1 ≤ limit
    → (length (get_messages room_id limit s).0 ≤ limit)
      × ((before : List MessageSent) × (before ++ (get_messages room_id limit s).0
            ≡ (view s room_id).said))
      × (length (view s room_id).said ≤ limit
          → (get_messages room_id limit s).0 ≡ (view s room_id).said)
unfolding get_messages get_or_create_room
get_messages_lem room_id limit s h =
    rw (entered room_id (get room_id s.rooms) s) (last_of_lem limit (view s room_id).said h)
