-- ===== src/Redis/Subscriber.antt =====
-- packages/natricine-redisstream/src/natricine_redis/subscriber.py, over a client of redis, which is a parameter.
pub mod Streams
pub mod Refinement
pub mod Outcomes
use natricine.Prelude.{
  ℕ, zero, suc, String, Bool, true, false, ◌||◌, if◌then◌else◌, ◌==◌, string_eq, Option, List, [],
  ◌∷◌, or_default,
}
use Prim.Native.String
use natricine.Runtime.{
  Exn, error, permanent, Result, ok, err, cancelled, Exec, pure, raise, ◌>>=◌, ◌>>◌, try_except,
}
use natricine.Pubsub.Message.{Message, AckFunc}
use natricine.Redis.Entry.{Entry, Python, Keys, parse_message}

-- What a read gives: for each stream its name and its entries.
abbrev pub Response : Type 0
Response = Option (List (String × List Entry))

pub record RedisClient (B : Type 0) : Type 0 where
  -- by the stream and the group, from id "0" and with `mkstream`
  pub xgroup_create : String → String → Exec B (Unit {0})
  -- the exception is a ResponseError
  pub is_response_error : Exn → Bool
  pub str : Exn → String
  -- by the group, the consumer, the stream, the id, the count and the time to block
  pub xreadgroup : String → String → String → String → ℕ → ℕ → Exec B Response
  -- by the stream, the group and the id
  pub xack : String → String → String → Exec B (Unit {0})

pub record RedisConfig : Type 0 where
  pub group_name : String
  pub consumer_name : String
  pub block_ms : ℕ
  pub count : ℕ
  pub keys : Keys

pub record RedisStreamSubscriber (B : Type 0) : Type 0 where
  pub closed : Bool
  pub env : B

abbrev pub subscriber_closed : Exn
subscriber_closed = error "RuntimeError" "Subscriber is closed"

unfoldable pub begins : String → String → Bool
begins String.[] s = true
begins (String.◌∷◌ c t) String.[] = false
begins (String.◌∷◌ c t) (String.◌∷◌ d s) =
    let rest = begins t s in if String.◌∷◌ c "" == String.◌∷◌ d "" then rest else false

-- t in s
unfoldable pub is_in : String → String → Bool
is_in t String.[] = t == ""
is_in t (String.◌∷◌ c s) = begins t (String.◌∷◌ c s) || is_in t s

module _ {B : Type 0} (client : RedisClient B) (config : RedisConfig) where
  abbrev pub on_redis : {A : Type 0} → Exec B A → Exec (RedisStreamSubscriber B) A
  on_redis act s = let (r, env) = act s.env in (r, record s { env = env })

  -- Only the error that the group exists is passed over.
  abbrev pub unless_exists : Exn → Exec B (Unit {0})
  unless_exists e =
      if client.is_response_error e
      then (if is_in "BUSYGROUP" (client.str e) then pure tt else raise e)
      else raise e

  unfoldable pub ensure_group : String → Exec B (Unit {0})
  ensure_group topic = try_except (client.xgroup_create topic config.group_name) unless_exists

  abbrev pub read : String → String → ℕ → Exec B Response
  read topic id block =
      client.xreadgroup config.group_name config.consumer_name topic id config.count block

  -- The `ack_func` of an entry, by its id.
  abbrev pub ack_of : String → String → AckFunc B
  ack_of topic mid = client.xack topic config.group_name mid

  module _ (python : Python) where
    abbrev pub parse : String → Entry → Exec B (Message B)
    parse topic e = parse_message python config.keys (ack_of topic) e

    -- `body` is what the reader of the iterator does with a message before it asks for the next one.
    module _ (body : Message B → Exec (RedisStreamSubscriber B) (Unit {0})) (topic : String) where
      unfoldable pub deliver_each : List Entry → Exec (RedisStreamSubscriber B) (Unit {0})
      deliver_each [] = pure tt
      deliver_each (e ∷ es) = do m ← on_redis (parse topic e); body m; deliver_each es

      unfoldable pub deliver_streams :
          List (String × List Entry) → Exec (RedisStreamSubscriber B) (Unit {0})
      deliver_streams [] = pure tt
      deliver_streams ((name, es) ∷ streams) = do deliver_each es; deliver_streams streams

      abbrev pub read_and_deliver : String → ℕ → Exec (RedisStreamSubscriber B) (Unit {0})
      read_and_deliver id block = do
        response ← on_redis (read topic id block)
        deliver_streams (or_default [] response)

      -- `while not self._closed`, for a number of rounds after which the reader asks no more: the pending
      -- entries are read first, then the new ones.
      unfoldable pub polls : ℕ → Exec (RedisStreamSubscriber B) (Unit {0})
      polls zero s = (ok tt, s)
      polls (suc rounds) s =
          let next =
            (do read_and_deliver "0" 0; read_and_deliver ">" config.block_ms; polls rounds) s in
          if s.closed then (ok tt, s) else next

      unfoldable pub subscribe : ℕ → Exec (RedisStreamSubscriber B) (Unit {0})
      subscribe rounds s =
          if s.closed
          then raise subscriber_closed s
          else (do on_redis (ensure_group topic); polls rounds) s

abbrev pub close : {B : Type 0} → Exec (RedisStreamSubscriber B) (Unit {0})
close s = (ok tt, record s { closed = true })
