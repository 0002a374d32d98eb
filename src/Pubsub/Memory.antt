-- ===== src/Pubsub/Memory.antt =====
-- packages/natricine/src/natricine/pubsub/memory.py: `InMemoryPubSub`. The object streams of anyio
-- are a parameter. A method runs alone here: no other task changes `_topics` while it awaits.
pub mod Anyio
pub mod Delivery
pub mod Lifecycle
pub mod Channels
pub mod Buffered
use natricine.Prelude.{
  ℕ, String, Bool, true, false, Option, none, some, List, [], ◌∷◌, ◌++◌, if◌then◌else◌, is_some,
  ◌==◌, nat_eq, string_eq,
}
use natricine.Prelude.Dict.{Dict, get, put}
use natricine.Runtime.{Exn, error, Result, ok, err, cancelled, Exec, pure, raise, ◌>>=◌, ◌>>◌}
use natricine.Pubsub.Message.{Message, copy}
use Anyio.{Streams}

-- `_TopicState`: the send streams of a topic's subscribers.
pub record TopicState : Type 0 where
  pub subscribers : List ℕ

pub record PubSub (Env : Type 0) : Type 0 where
  pub buffer_size : ℕ
  pub topics : Dict String TopicState
  pub closed : Bool
  pub env : Env

-- What `_subscribe_iter` holds while it runs.
pub record Iter : Type 0 where
  pub receive_stream : ℕ
  pub topic : String
  pub send_stream : ℕ

abbrev pub is_closed : Exn
is_closed = error "RuntimeError" "MemoryPubSub is closed"

abbrev pub no_subscribers : TopicState
no_subscribers = record { subscribers = [] }

abbrev pub or_new : Option TopicState → TopicState
or_new none = no_subscribers
or_new (some state) = state

-- The send streams that are listed under a topic.
abbrev pub listed : {Env : Type 0} → String → PubSub Env → List ℕ
listed topic s = (or_new (get topic s.topics)).subscribers

abbrev pub init : {Env : Type 0} → ℕ → Env → PubSub Env
init size env = record { buffer_size = size; topics = []; closed = false; env = env }

-- `x in xs`, and `xs.remove(x)`, which takes the first occurrence away.
unfoldable pub contains : ℕ → List ℕ → Bool
contains x [] = false
contains x (y ∷ ys) = if x == y then true else contains x ys

unfoldable pub remove : ℕ → List ℕ → List ℕ
remove x [] = []
remove x (y ∷ ys) = if x == y then ys else y ∷ remove x ys

module _ {B : Type 0} (streams : Streams (Message B)) where
  open streams use {Env, create, send, receive, close_send, close_receive}

  -- the inner loop of `publish`
  send_each : Message B → List ℕ → Exec Env (Unit {0})
  send_each m [] = pure tt
  send_each m (h ∷ hs) = do send h (copy m); send_each m hs

  -- the outer loop of `publish`
  send_all : List (Message B) → List ℕ → Exec Env (Unit {0})
  send_all [] hs = pure tt
  send_all (m ∷ ms) hs = do send_each m hs; send_all ms hs

  -- An action of the streams, as a step of a method.
  abbrev on_env : {A : Type 0} → Exec Env A → Exec (PubSub Env) A
  on_env act s = let (r, env) = act s.env in (r, record s { env = env })

  publish_to : Option TopicState → List (Message B) → Exec (PubSub Env) (Unit {0})
  publish_to none ms s = (ok tt, s)
  publish_to (some state) ms s = on_env (send_all ms state.subscribers) s

  unfoldable pub publish : String → List (Message B) → Exec (PubSub Env) (Unit {0})
  unfolding publish_to send_all send_each
  publish topic ms s = if s.closed then raise is_closed s else publish_to (get topic s.topics) ms s

  -- `subscribe` returns the iterator; the stream is registered at once.
  unfoldable pub subscribe : String → Exec (PubSub Env) Iter
  subscribe topic s =
      if s.closed
      then raise is_closed s
      else let (sender, receiver, env) = create s.buffer_size s.env in
        let state = or_new (get topic s.topics) in
        let joined : TopicState = record { subscribers = state.subscribers ++ sender ∷ [] } in
        (
          ok (record { receive_stream = receiver; topic = topic; send_stream = sender }),
          record s { topics = put topic joined s.topics; env = env },
        )

  leave : Iter → Option TopicState → Dict String TopicState → Dict String TopicState
  leave it none topics = topics
  leave it (some state) topics =
      if contains it.send_stream state.subscribers
      then put it.topic (record { subscribers = remove it.send_stream state.subscribers }) topics
      else topics

  -- the `finally` block of `_subscribe_iter`
  unfoldable pub clean_up : Iter → Exec (PubSub Env) (Unit {0})
  unfolding leave
  clean_up it s =
      (do on_env (close_send it.send_stream); on_env (close_receive it.receive_stream))
        (record s { topics = leave it (get it.topic s.topics) s.topics })

  -- One round of `async for`: `some m` is yielded; at the end of the stream, and when the wait
  -- raises or is cancelled, the `finally` block runs, and its own exception goes before.
  abbrev finish : Iter → Result (Option (Message B)) → Exec (PubSub Env) (Option (Message B))
  finish it (ok (some m)) s = (ok (some m), s)
  finish it r s = (clean_up it >>= λ _. λ s'. (r, s')) s

  unfoldable pub next_message : Iter → Exec (PubSub Env) (Option (Message B))
  next_message it s = let (r, s') = on_env (receive it.receive_stream) s in finish it r s'

  close_each : List ℕ → Exec Env (Unit {0})
  close_each [] = pure tt
  close_each (h ∷ hs) = do close_send h; close_each hs

  close_topics : Dict String TopicState → Exec Env (Unit {0})
  close_topics [] = pure tt
  close_topics ((topic, state) ∷ d) = do close_each state.subscribers; close_topics d

  -- `close`: the flag is set first, and the topics go only if every stream closed.
  unfoldable pub close : Exec (PubSub Env) (Unit {0})
  unfolding close_topics close_each
  close s =
      (on_env (close_topics s.topics) >>= λ _. λ s'. (ok tt, record s' { topics = [] }))
        (record s { closed = true })
