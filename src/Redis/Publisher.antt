-- ===== src/Redis/Publisher.antt =====
-- packages/natricine-redisstream/src/natricine_redis/publisher.py, over a client of redis, which is a parameter.
use natricine.Prelude.{
  ℕ, zero, suc, String, Bool, true, false, if◌then◌else◌, Option, none, some, List, [], ◌∷◌,
}
use natricine.Prelude.Dict.{Dict}
use natricine.Runtime.{Exn, error, ok, Exec, pure, raise, ◌>>◌}
use natricine.Pubsub.Message.{Message}
use natricine.Redis.Entry.{Python, Keys, Value, fields_of}

-- `xadd` of a client: the stream, the fields, `maxlen` and `approximate`.
abbrev pub Xadd : Type 0 → Type 0
Xadd B = String → Dict String Value → Option ℕ → Bool → Exec B (Unit {0})

pub record RedisStreamPublisher (B : Type 0) : Type 0 where
  pub closed : Bool
  pub env : B

abbrev pub publisher_closed : Exn
publisher_closed = error "RuntimeError" "Publisher is closed"

-- `True if self._maxlen else False`
abbrev pub approximate : Option ℕ → Bool
approximate none = false
approximate (some zero) = false
approximate (some (suc n)) = true

module _ {B : Type 0} (xadd : Xadd B) (python : Python) (keys : Keys) (maxlen : Option ℕ) where
  abbrev pub on_redis : {A : Type 0} → Exec B A → Exec (RedisStreamPublisher B) A
  on_redis act s = let (r, env) = act s.env in (r, record s { env = env })

  unfoldable pub add_each : String → List (Message B) → Exec B (Unit {0})
  add_each topic [] = pure tt
  add_each topic (m ∷ ms) = do
    xadd topic (fields_of python keys m) maxlen (approximate maxlen)
    add_each topic ms

  unfoldable pub publish : String → List (Message B) → Exec (RedisStreamPublisher B) (Unit {0})
  publish topic ms s = if s.closed then raise publisher_closed s else on_redis (add_each topic ms) s

abbrev pub close : {B : Type 0} → Exec (RedisStreamPublisher B) (Unit {0})
close s = (ok tt, record s { closed = true })
