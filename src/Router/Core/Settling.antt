-- ===== src/Router/Core/Settling.antt =====
-- What becomes of a message and of the flags when a handler's task has dealt with it.
use natricine.Prelude.{
  ℕ, ◌≡◌, ◌≢◌, refl, Option, some, List, arith, ap, ◌∙◌, sym, String, string_eq,
}
use natricine.Runtime.{ok, cancelled, ◌>>=◌}
use natricine.Runtime.Laws.{>>=-eq-ok}
use natricine.Pubsub.Message.{Message}
use natricine.Pubsub.World.{World, Publisher, ack_at}
use natricine.Pubsub.World.Settled.{
  IsSettledAt, ack_at-IsSettled, nack_at-IsSettled, nack_and_raise-IsSettled,
}
use natricine.Router.Types.{HandlerFunc, Handler}
use natricine.Router.Core.{Run, publish_output, attempt, guarded, handle_message}

module _ {B : Type 0} where
  -- Publishing the output leaves the messages alone.
  pub heap-publish_output :
      (p : Option (Publisher B)) (t : Option String) (out : Option (List (Message B))) (w : World B)
      → (publish_output p t out w).1.heap ≡ w.heap
  unfolding publish_output
  heap-publish_output (some p) (some t) (some ms) w = ground arith
  heap-publish_output p t out w = refl

module _ {S B : Type 0} (handler : Handler S B) (wrapped : HandlerFunc B) (msg : ℕ) where
  -- Whatever the handler does, its messages and backends included, the flags are as before: the
  -- message is in flight only while it is handled, on every way out.
  pub handle_message_flags : (s : Run B) → (handle_message handler wrapped msg s).1.flags ≡ s.flags
  unfolding handle_message
  handle_message_flags s = ground arith

  IsSettled-attempt :
      (w : World B)
      → (attempt handler wrapped msg w).0 ≡ ok tt
      → IsSettledAt msg (attempt handler wrapped msg w).1
  unfolding attempt
  IsSettled-attempt w ran =
      let (out, handled, rest) =
        >>=-eq-ok (wrapped msg)
          (λ out. ack_at msg >>= λ _. publish_output handler.publisher handler.publish_topic out) w
          ran in
      let v = (wrapped msg w).1 in
      let (u, acked, last) =
        >>=-eq-ok (ack_at msg) (λ _. publish_output handler.publisher handler.publish_topic out) v
          (ap (λ t. t.0) (sym rest) ∙ ran) in
      rw
        (
          rest,
          last,
          heap-publish_output handler.publisher handler.publish_topic out (ack_at msg v).1,
        )
        (ack_at-IsSettled msg v)

  IsSettled-guarded :
      (w : World B)
      → (guarded handler wrapped msg w).0 ≢ cancelled
      → IsSettledAt msg (guarded handler wrapped msg w).1
  unfolding guarded
  IsSettled-guarded w live =
      let (r, v) = attempt handler wrapped msg w in
      nack_and_raise-IsSettled msg r v (IsSettled-attempt w) live

  -- Unless the task is cancelled, a message that is dealt with is settled, whatever the handler, the
  -- publisher and the callbacks of the message do: it returned, raised, or acked the message itself.
  pub handle_message-IsSettled :
      (s : Run B)
      → (handle_message handler wrapped msg s).0 ≢ cancelled
      → IsSettledAt msg (handle_message handler wrapped msg s).1.world
  unfolding handle_message
  handle_message-IsSettled s live =
      ground (arith, nack_at-IsSettled msg s.world, IsSettled-guarded s.world)
