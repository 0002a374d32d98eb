-- ===== src/Pubsub/Message/Settle.antt =====
-- A message of pubsub/message.py under any calls of `ack` and `nack`.
use natricine.Prelude.{◌≡◌, refl, true, false, ◌&&◌, ◌||◌, List, [], ◌∷◌, All, arith}
use natricine.Runtime.{error, Result, err, Exec}
use natricine.Pubsub.Message.{Message, Cell, ack, nack, copy, call_back}

pub data Call : Type 0 where
  acks nacks : Call

module _ {B : Type 0} where
  abbrev pub call : Call → Exec (Cell B) (Unit {0})
  call acks = ack
  call nacks = nack

  -- The cell after some calls, each of which may raise, and what they return.
  abbrev pub calls : List Call → Cell B → Cell B
  calls [] c = c
  calls (o ∷ os) c = calls os (call o c).1

  abbrev pub results : List Call → Cell B → List (Result (Unit {0}))
  results [] c = []
  results (o ∷ os) c = (call o c).0 ∷ results os (call o c).1

  -- The one effect that calls may have: a flag is set, and its callback runs.
  abbrev pub settle : Call → Exec (Cell B) (Unit {0})
  settle acks c = call_back c.self.ack_func (record c { self = record c.self { acked = true } })
  settle nacks c = call_back c.self.nack_func (record c { self = record c.self { nacked = true } })

  abbrev pub IsSettled : Cell B → Type 0
  IsSettled c = (c.self.acked || c.self.nacked) ≡ true

  abbrev pub IsExclusive : Cell B → Type 0
  IsExclusive c = (c.self.acked && c.self.nacked) ≡ false

  abbrev pub IsFresh : Cell B → Type 0
  IsFresh c = (c.self.acked ≡ false) × (c.self.nacked ≡ false)

abbrev pub IsValueError : Result (Unit {0}) → Type 0
IsValueError (err (error kind message)) = kind ≡ "ValueError"
IsValueError _ = ⊥

module _ {B : Type 0} where
  call-settle : (o : Call) (c : Cell B) → IsFresh c → call o c ≡ settle o c
  unfolding ack nack
  call-settle acks c h = ground arith
  call-settle nacks c h = ground arith

  settle-IsSettled : (o : Call) (c : Cell B) → IsSettled (settle o c).1
  settle-IsSettled acks c = ground arith
  settle-IsSettled nacks c = ground arith

  call_settled : (o : Call) (c : Cell B) → IsSettled c → (call o c).1 ≡ c
  unfolding ack nack
  call_settled acks c h = ground arith
  call_settled nacks c h = ground arith

  call_refused : (o : Call) (c : Cell B) → IsSettled c → IsValueError (call o c).0
  unfolding ack nack
  call_refused acks c h = ground arith
  call_refused nacks c h = ground arith

  calls_settled : (os : List Call) (c : Cell B) → IsSettled c → calls os c ≡ c
  calls_settled [] c h = refl
  calls_settled (o ∷ os) c h = rw (call_settled o c h) (calls_settled os c h)

  results_settled : (os : List Call) (c : Cell B) → IsSettled c → All IsValueError (results os c)
  results_settled [] c h = tt
  results_settled (o ∷ os) c h =
      (call_refused o c h, rw (call_settled o c h) (results_settled os c h))

  -- On a message that is neither acked nor nacked, the first of any calls of `ack` and `nack` sets
  -- its own flag and runs its own callback; the later calls raise ValueError and change nothing.
  pub settle_once :
      (o : Call) (os : List Call) (c : Cell B)
      → IsFresh c
      → (calls (o ∷ os) c ≡ (settle o c).1)
        × ((call o c).0 ≡ (settle o c).0)
        × All IsValueError (results os (call o c).1)
  settle_once o os c h = rw (call-settle o c h) (
    calls_settled os (settle o c).1 (settle-IsSettled o c),
    refl,
    results_settled os (settle o c).1 (settle-IsSettled o c),
  )

  call-IsExclusive : (o : Call) (c : Cell B) → IsExclusive c → IsExclusive (call o c).1
  unfolding ack nack
  call-IsExclusive acks c h = ground arith
  call-IsExclusive nacks c h = ground arith

  -- No calls of `ack` and `nack` make a message both acked and nacked, if it was not before.
  pub calls-IsExclusive : (os : List Call) (c : Cell B) → IsExclusive c → IsExclusive (calls os c)
  calls-IsExclusive [] c h = h
  calls-IsExclusive (o ∷ os) c h = calls-IsExclusive os (call o c).1 (call-IsExclusive o c h)

  abbrev on_copy : List Call → Message B → B → Cell B
  on_copy os m env = calls os (record { self = copy m; env = env })

  -- Calls on a copy, even of a settled message, keep its payload, metadata and uuid those of the
  -- original and never reach the original's backend.
  pub calls-copy :
      (os : List Call) (m : Message B) (env : B)
      → ((on_copy os m env).env ≡ env)
        × ((on_copy os m env).self.payload ≡ m.payload)
        × ((on_copy os m env).self.metadata ≡ m.metadata)
        × ((on_copy os m env).self.uuid ≡ m.uuid)
  unfolding copy
  calls-copy [] m env = (refl, refl, refl, refl)
  calls-copy (acks ∷ os) m env =
      rw ((settle_once acks os (record { self = copy m; env = env }) (refl, refl)).0)
        (refl, refl, refl, refl)
  calls-copy (nacks ∷ os) m env =
      rw ((settle_once nacks os (record { self = copy m; env = env }) (refl, refl)).0)
        (refl, refl, refl, refl)
