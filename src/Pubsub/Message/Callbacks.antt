-- ===== src/Pubsub/Message/Callbacks.antt =====
-- Messages whose `ack` and `nack` call back into a backend, under any calls.
use natricine.Prelude.{◌≡◌, refl, ap, ◌∙◌, false, Option, some, List, [], ◌∷◌}
use natricine.Runtime.{Exec}
use natricine.Pubsub.Message.{Message, Cell, AckFunc}
use natricine.Pubsub.Message.Settle.{Call, acks, nacks, calls, settle_once}

-- The message has these callbacks, and is not settled.
pub record HasFuncs {B : Type 0} (m : Message B) (ack_func nack_func : Option (AckFunc B))
    : Type 0 where
  pub acks_by : m.ack_func ≡ ack_func
  pub nacks_by : m.nack_func ≡ nack_func
  pub not_acked : m.acked ≡ false
  pub not_nacked : m.nacked ≡ false

abbrev pub settled_env : {B : Type 0} → Exec B (Unit {0}) → Exec B (Unit {0}) → List Call → B → B
settled_env on_ack on_nack [] env = env
settled_env on_ack on_nack (acks ∷ os) env = (on_ack env).1
settled_env on_ack on_nack (nacks ∷ os) env = (on_nack env).1

-- Of any calls on a message with two callbacks, the first alone reaches the backend.
pub calls-HasFuncs :
    {B : Type 0} (m : Message B) (on_ack on_nack : AckFunc B) (os : List Call) (env : B)
    → HasFuncs m (some on_ack) (some on_nack)
    → (calls os (record { self = m; env = env })).env ≡ settled_env on_ack on_nack os env
calls-HasFuncs {B} m on_ack on_nack [] env funcs = refl
calls-HasFuncs {B} m on_ack on_nack (acks ∷ os) env funcs =
    let c : Cell B = record { self = m; env = env } in
    ap (λ (d : Cell B). d.env) (settle_once acks os c (funcs.not_acked, funcs.not_nacked)).0
    ∙ (rw funcs.acks_by refl)
calls-HasFuncs {B} m on_ack on_nack (nacks ∷ os) env funcs =
    let c : Cell B = record { self = m; env = env } in
    ap (λ (d : Cell B). d.env) (settle_once nacks os c (funcs.not_acked, funcs.not_nacked)).0
    ∙ (rw funcs.nacks_by refl)
