-- ===== src/Http/Queues.antt =====
-- The requests and the readers of packages/natricine-http/src/natricine_http/subscriber.py in any order. A step is
-- what a request or a reader does up to its next wait.
pub mod Answers
use natricine.Prelude.{
  ℕ, suc, ◌≡◌, String, Bool, true, false, ◌==◌, nat_eq, string_eq, if◌then◌else◌, Option, none,
  some, List, [], ◌∷◌, ◌++◌, Listed, or_default,
}
use natricine.Prelude.Dict.{Dict, get, put}
use natricine.Http.Subscriber.{PendingMessage, waiting, response}

-- HTTPSubscriber: `queues` are the queues by topic, of the numbers of the requests; `pendings` are their
-- `_PendingMessage` objects; `getting` has a topic for each reader that waits in `queue.get()`.
pub record Server : Type 0 where
  pub queues : Dict String (List ℕ)
  pub pendings : ℕ → PendingMessage
  pub issued : ℕ
  pub getting : List String
  pub delivered : List ℕ
  pub responses : List (ℕ × ℕ)
  pub closed : Bool

-- `_get_queue`, which makes the queue of a new topic
abbrev pub queue_at : String → Server → List ℕ
queue_at topic s = or_default [] (get topic s.queues)

abbrev pub set_pending : ℕ → PendingMessage → (ℕ → PendingMessage) → ℕ → PendingMessage
set_pending n p pendings j = if n == j then p else pendings j

-- `_handle_request` up to its wait: it does not ask whether the subscriber is closed.
unfoldable pub enqueue : String → Server → Server
enqueue topic s = record s {
  queues = put topic (queue_at topic s ++ s.issued ∷ []) s.queues;
  pendings = set_pending s.issued waiting s.pendings;
  issued = suc s.issued;
}

-- The reader of a topic gets a request, by the rest of its queue.
unfoldable pub deliver : String → ℕ → List ℕ → List String → Server → Server
deliver topic n rest others s = record s {
  queues = put topic rest s.queues;
  getting = others;
  delivered = n ∷ s.delivered;
}

-- A call of `ack` or `nack` on the message of a request. Message lets the first call alone reach the closures
-- of the request, which set its event; a later one raises and changes nothing.
unfoldable pub settle : ℕ → Bool → Server → Server
settle n acked s = record s {
  pendings =
      if (s.pendings n).result
      then s.pendings
      else set_pending n (record { result = true; acked = acked }) s.pendings;
}

pub data Step (s : Server) : Server → Type 0 where
  request : (topic : String) → Step s (enqueue topic s)
  -- `while not self._closed`, and the wait for the queue
  poll : (topic : String) → s.closed ≡ false → Step s (record s { getting = topic ∷ s.getting })
  took :
      (topic : String) (n : ℕ) (rest : List ℕ) (before after : List String)
      → s.getting ≡ before ++ (topic ∷ after)
      → queue_at topic s ≡ n ∷ rest
      → Step s (deliver topic n rest (before ++ after) s)
  timed_out :
      (topic : String) (before after : List String)
      → s.getting ≡ before ++ (topic ∷ after)
      → Step s (record s { getting = before ++ after })
  -- a reader acks or nacks a message that it got
  settled : (n : ℕ) (acked : Bool) → Listed n s.delivered → Step s (settle n acked s)
  -- the wait of a request ends
  answered :
      (n code : ℕ)
      → response (s.pendings n) ≡ some code
      → Step s (record s { responses = (n, code) ∷ s.responses })
  shut : Step s (record s { closed = true })

pub data Steps (s : Server) : Server → Type 0 where
  here : Steps s s
  next : {t u : Server} → Steps s t → Step t u → Steps s u
