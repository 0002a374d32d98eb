-- ===== src/Pubsub/Message.antt =====
-- packages/natricine/src/natricine/pubsub/message.py: the message, its acknowledgement, its copy.
pub mod Settle
pub mod Callbacks
use natricine.Prelude.{ℕ, String, Bool, true, false, Option, none, some, List, if◌then◌else◌}
use natricine.Prelude.Dict.{Dict}
use natricine.Runtime.{Exn, error, Result, Exec, raise}

-- The callbacks act on the backend `B`: a database, a broker, a pending HTTP request.
abbrev pub AckFunc : Type 0 → Type 0
AckFunc B = Exec B (Unit {0})

pub record Message (B : Type 0) : Type 0 where
  pub payload : List ℕ
  pub metadata : Dict String String
  pub uuid : ℕ
  pub ack_func : Option (AckFunc B)
  pub nack_func : Option (AckFunc B)
  pub acked : Bool
  pub nacked : Bool

-- What a method of a message may change: the message itself, and the backend.
pub record Cell (B : Type 0) : Type 0 where
  pub self : Message B
  pub env : B

abbrev pub already_acked : Exn
already_acked = error "ValueError" "Message already acked"

abbrev pub ack_after_nack : Exn
ack_after_nack = error "ValueError" "Cannot ack a message that has been nacked"

abbrev pub already_nacked : Exn
already_nacked = error "ValueError" "Message already nacked"

abbrev pub nack_after_ack : Exn
nack_after_ack = error "ValueError" "Cannot nack a message that has been acked"

module _ {B : Type 0} where
  -- Message(payload=…, metadata=…, uuid=…), the other fields by their defaults
  abbrev pub fresh : List ℕ → Dict String String → ℕ → Message B
  fresh payload metadata uuid = record {
    payload = payload;
    metadata = metadata;
    uuid = uuid;
    ack_func = none;
    nack_func = none;
    acked = false;
    nacked = false;
  }

  -- `if self._ack_func: await self._ack_func()`
  abbrev pub call_back : Option (AckFunc B) → Exec (Cell B) (Unit {0})
  call_back none c = (Result.ok tt, c)
  call_back (some f) c = let (r, env) = f c.env in (r, record c { env = env })

  unfoldable pub ack : Exec (Cell B) (Unit {0})
  ack c =
      if c.self.acked
      then raise already_acked c
      else if c.self.nacked
      then raise ack_after_nack c
      else call_back c.self.ack_func (record c { self = record c.self { acked = true } })

  unfoldable pub nack : Exec (Cell B) (Unit {0})
  nack c =
      if c.self.nacked
      then raise already_nacked c
      else if c.self.acked
      then raise nack_after_ack c
      else call_back c.self.nack_func (record c { self = record c.self { nacked = true } })

  unfoldable pub copy : Message B → Message B
  copy m = fresh m.payload m.metadata m.uuid
