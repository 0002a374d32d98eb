-- ===== src/Redis/Examples.antt =====
-- Tests of natricine-redisstream, and its theorems at concrete inputs.
use natricine.Prelude.{
  arith, ℕ, zero, suc, ◌≡◌, refl, ap, String, Bool, true, false, Bool-cases, inl, inr, Option, some,
  List, [], ◌∷◌, ◌++◌, map, take, drop, if◌then◌else◌, ◌==◌, string_eq, nat_eq,
}
use natricine.Prelude.Dict.{get, put}
use natricine.Runtime.{error, Result, ok, err, pure, raise, Exec}
use natricine.Pubsub.Message.{Message, fresh}
use natricine.Pubsub.Message.Settle.{acks, nacks}
use natricine.Redis.Entry.{Bytes, Entry, Python, Keys, decode_keys, fields_of, parse_message}
use natricine.Redis.Entry.Written.{AreDistinct}
use natricine.Redis.Entry.RoundTrip.{EntryLaws, wire, parse_message-fields_of}
use natricine.Redis.Group.{Group, remove, rounds}
use natricine.Redis.Subscriber.{
  RedisClient, RedisConfig, RedisStreamSubscriber, ack_of, polls, begins, is_in, ensure_group,
}
use natricine.Redis.Subscriber.Refinement.{
  Readable, GroupLaws, entry_of, id_of, reader, accepted, polls-rounds,
}
use natricine.Redis.Subscriber.Outcomes.{polls_drain, polls_stuck}

-- A stream of entries with a uuid alone, by numbers; the environment is what the group holds.
abbrev name : ℕ → String
name zero = "1-0"
name (suc n) = "2-0"

abbrev read_text : Bytes → String
read_text [] = "uuid"
read_text (n ∷ bytes) = name n

abbrev python : Python
python = record {
  decode = λ bytes. ok (read_text bytes);
  uuid_str = λ u. "7";
  parse_uuid = λ s. ok (if s == "1-0" then 0 else 7);
  no_uuid = 0;
  packb = λ d. 1 ∷ [];
  unpackb = λ bytes. ok (some (("kind", "order") ∷ []));
}

abbrev keys : Keys
keys = record { uuid_key = "uuid"; payload_key = "payload"; metadata_key = "metadata" }

abbrev config : RedisConfig
config = record { group_name = "g"; consumer_name = "c"; block_ms = 5000; count = 1; keys = keys }

abbrev bare : ℕ → Entry
bare n = record { id = n ∷ []; fields = ([], n ∷ []) ∷ [] }

abbrev read_at : Bool → ℕ → Group ℕ → Result (Option (List (String × List Entry))) × Group ℕ
read_at true n g = (ok (some (("orders", map bare (take n g.pending)) ∷ [])), g)
read_at false n g = (
  ok (some (("orders", map bare (take n g.unread)) ∷ [])),
  record { pending = g.pending ++ take n g.unread; unread = drop n g.unread },
)

abbrev client : RedisClient (Group ℕ)
client = record {
  xgroup_create = λ topic group g. (err (error "ResponseError" "BUSYGROUP exists"), g);
  is_response_error = λ e. true;
  str = λ e. "BUSYGROUP exists";
  xreadgroup = λ group consumer topic id n block g. read_at (id == "0") n g;
  xack = λ topic group k g. (ok tt, record g { pending = remove name k g.pending });
}

group_exists :
    (ensure_group client config "orders" (record { pending = []; unread = [] })).0 ≡ ok tt
unfolding ensure_group is_in begins
group_exists = refl

another_error : is_in "BUSYGROUP" "NOGROUP" ≡ false
unfolding is_in begins
another_error = refl

abbrev message_of : ℕ → Message (Group ℕ)
message_of n = record (fresh [] [] (if name n == "1-0" then 0 else 7)) {
  ack_func = some (ack_of client config "orders" (name n));
  nack_func = some (pure tt);
}

read_entry :
    (n : ℕ) (g : Group ℕ)
    → parse_message python keys (ack_of client config "orders") (bare n) g ≡ (ok (message_of n), g)
unfolding parse_message decode_keys get put
read_entry zero g = refl
read_entry (suc n) g = refl

readable : ℕ → Readable client config python "orders"
readable n = record {
  entry = bare n;
  message = message_of n;
  mid = name n;
  parses = read_entry n;
  has_funcs = record { acks_by = refl; nacks_by = refl; not_acked = refl; not_nacked = refl };
}

view : Group ℕ → Group (Readable client config python "orders")
view g = record { pending = map readable g.pending; unread = map readable g.unread }

entries-take :
    (n : ℕ) (l : List ℕ)
    → map bare (take n l) ++ []
      ≡ map (entry_of client config python "orders") (take n (map readable l))
unfolding readable
entries-take zero l = refl
entries-take (suc n) [] = refl
entries-take (suc n) (x ∷ l) = ap (λ es. bare x ∷ es) (entries-take n l)

take-map : (n : ℕ) (l : List ℕ) → map readable (take n l) ≡ take n (map readable l)
take-map zero l = refl
take-map (suc n) [] = refl
take-map (suc n) (x ∷ l) = ap (λ es. readable x ∷ es) (take-map n l)

drop-map : (n : ℕ) (l : List ℕ) → map readable (drop n l) ≡ drop n (map readable l)
drop-map zero l = refl
drop-map (suc n) [] = refl
drop-map (suc n) (x ∷ l) = drop-map n l

map-append_lem : (xs ys : List ℕ) → map readable (xs ++ ys) ≡ map readable xs ++ map readable ys
map-append_lem [] ys = refl
map-append_lem (x ∷ xs) ys = ap (λ es. readable x ∷ es) (map-append_lem xs ys)

remove-map :
    (k : String) (l : List ℕ)
    → map readable (remove name k l)
      ≡ remove (id_of client config python "orders") k (map readable l)
unfolding remove readable
remove-map k [] = refl
remove-map k (x ∷ l) = elim (Bool-cases (name x == k)) [
  | inl same ↦ rw same (remove-map k l)
  | inr other ↦ rw other (ap (λ es. readable x ∷ es) (remove-map k l))
]

laws : GroupLaws client config python "orders"
unfolding view
laws = record {
  view = view;
  read_pending =
      λ g. (some (("orders", map bare (take 1 g.pending)) ∷ []), refl, entries-take 1 g.pending);
  read_new = λ g. (
    some (("orders", map bare (take 1 g.unread)) ∷ []),
    record { pending = g.pending ++ take 1 g.unread; unread = drop 1 g.unread },
    refl,
    entries-take 1 g.unread,
    rw (map-append_lem g.pending (take 1 g.unread), take-map 1 g.unread, drop-map 1 g.unread) refl,
  );
  view-xack = λ k g. rw (remove-map k g.pending) refl;
}

-- One entry is pending and another is unread.
abbrev subscribed : RedisStreamSubscriber (Group ℕ)
subscribed = record { closed = false; env = record { pending = 0 ∷ []; unread = 1 ∷ [] } }

polls-rounds_example :
    let (r, s') =
      polls client config python
        (reader client config python "orders" (λ m. nacks))
        "orders"
        2
        subscribed in
    (r ≡ ok tt)
    × (view s'.env
        ≡ rounds
            (id_of client config python "orders")
            (accepted client config python "orders" (λ m. nacks))
            1
            2
            (view subscribed.env))
unfolding laws
polls-rounds_example =
    polls-rounds client config python "orders" laws (λ m. nacks) 2 subscribed refl

polls_drain_example :
    let (r, s') =
      polls client config python
        (reader client config python "orders" (λ m. acks))
        "orders"
        1
        subscribed in
    (r ≡ ok tt) × (view s'.env ≡ record { pending = []; unread = [] })
unfolding laws view
polls_drain_example =
    polls_drain client config python "orders" laws 1 subscribed refl (omega arith) (omega arith)
      (omega arith)

-- Two entries are pending, and the reader raises for any but the first.
abbrev behind : RedisStreamSubscriber (Group ℕ)
behind = record { closed = false; env = record { pending = 0 ∷ 1 ∷ []; unread = [] } }

abbrev first_only : Message (Group ℕ) → Exec (RedisStreamSubscriber (Group ℕ)) (Unit {0})
first_only m =
    if m.uuid == 0
    then reader client config python "orders" (λ m. nacks) m
    else raise (error "AssertionError" "delivered")

second_raises :
    first_only (readable 1).message behind ≡ (err (error "AssertionError" "delivered"), behind)
unfolding readable
second_raises = refl

polls_stuck_example :
    let (r, s') = polls client config python first_only "orders" 3 behind in
    (r ≡ ok tt) × (view s'.env ≡ view behind.env)
unfolding laws view readable
polls_stuck_example =
    polls_stuck client config python "orders" laws first_only (readable 0 ∷ readable 1 ∷ []) 3
      behind refl refl (refl, tt)

-- The texts of one entry.
abbrev codes : String → Bytes
codes s =
    if s == "uuid"
    then 1 ∷ []
    else if s == "payload"
    then 2 ∷ []
    else if s == "metadata"
    then 3 ∷ []
    else 4 ∷ []

abbrev texts : Bytes → String
texts (suc zero ∷ bytes) = "uuid"
texts (suc (suc zero) ∷ bytes) = "payload"
texts (suc (suc (suc zero)) ∷ bytes) = "metadata"
texts bytes = "7"

abbrev coded : Python
coded = record python { decode = λ bytes. ok (texts bytes) }

abbrev order : Message (Group ℕ)
order = fresh (5 ∷ []) (("kind", "order") ∷ []) 7

order_laws : EntryLaws coded keys codes order
unfolding get
order_laws = record {
  read_back = record {
    uuid_key_read = refl;
    payload_key_read = refl;
    metadata_key_read = refl;
    uuid_read = refl;
  };
  parse_uuid-uuid_str = refl;
  uuid_str_full = refl;
  unpackb-packb = refl;
  packb_full = λ e. cc e;
  once = (refl, tt);
}

distinct : AreDistinct keys
distinct = record { uuid_payload = refl; uuid_metadata = refl; payload_metadata = refl }

parse_message-fields_of_example :
    parse_message coded keys
      (ack_of client config "orders")
      (record { id = 4 ∷ []; fields = wire codes (fields_of coded keys order) })
      subscribed.env
    ≡ (
      ok (record order {
        ack_func = some (ack_of client config "orders" "7");
        nack_func = some (pure tt);
      }),
      subscribed.env,
    )
parse_message-fields_of_example =
    parse_message-fields_of coded keys codes distinct (ack_of client config "orders") (4 ∷ []) "7"
      refl order subscribed.env order_laws
