-- ===== src/Cqrs/CommandBus/Dispatch.antt =====
-- How commands reach their handlers, and what becomes of their messages.
use natricine.Prelude.{
  Listed, ℕ, String, ◌≡◌, ◌≢◌, true, false, some, List, [], ◌∷◌, arith, ◌==◌, eq_iff, Bool-cases,
  inl, inr, string_eq,
}
use natricine.Prelude.Dict.{Dict, get}
use natricine.Runtime.{Result, ok, err, cancelled, Exec}
use natricine.Runtime.Laws.{>>=-eq-ok}
use natricine.Pubsub.Message.{fresh}
use natricine.Pubsub.World.{World, ack_at, nack_at}
use natricine.Pubsub.World.Settled.{
  IsSettledAt, IsFreshAt, HasNoFuncs, ack_at-HasNoFuncs, nack_at-HasNoFuncs, ack_at-IsSettled,
  nack_and_raise-IsSettled, ack_at_fresh, nack_at_fresh, nack_at_acked,
}
use natricine.Router.Core.{Run}
use natricine.Cqrs.Types.{PyType, type_eq, Func, name_of}
use natricine.Cqrs.Handling.{Config, subscriber_from_again}
use natricine.Cqrs.CommandBus.{
  Registry, topic_for_type, send, tasks, get_subscriber, invoke, attempt, process_message,
}

module _ {V S B : Type 0} (config : Config V S B) where
  tasks-Listed :
      (r : Registry V B) (fs : Dict PyType (Func V (World B))) (t : PyType) (f : Func V (World B))
      → get t fs ≡ some f
      → Listed (topic_for_type config r t, t, f) (tasks config r fs)
  unfolding tasks get
  tasks-Listed r [] t f found = cc
  tasks-Listed r ((u, g) ∷ fs) t f found = elim (Bool-cases (u == t)) [
    | inl same ↦ inl (cc ((eq_iff u t).0 same, rw same at found))
    | inr other ↦ inr (tasks-Listed r fs t f (rw other at found))
  ]

  -- A command whose type has a handler is published, as one message with the marshalled payload, to a
  -- topic on which `run` starts a task for just that type and that handler.
  pub send_reaches_handler :
      (type_of : V → PyType) (uuid4 : B → ℕ × B) (r : Registry V B) (command : V)
      (f : Func V (World B)) (payload : List ℕ) (env : B)
      → get (type_of command) r.handlers ≡ some f
      → config.marshaler.marshal command ≡ ok payload
      → (topic : String) × Listed (topic, type_of command, f) (tasks config r r.handlers)
        × (send config type_of uuid4 r command env
            ≡ config.publisher.publish topic (fresh payload [] (uuid4 env).0 ∷ []) (uuid4 env).1)
  unfolding send
  send_reaches_handler type_of uuid4 r command f payload env found dumped = (
    topic_for_type config r (type_of command),
    tasks-Listed r r.handlers (type_of command) f found,
    rw dumped,
  )

  -- Handlers of one name share one subscriber: what the bus gave to the first it gives to the second,
  -- and the factory is not called again.
  pub get_subscriber_again :
      (f g : Func V (World B)) (made made' : Dict String S) (s : S)
      → name_of f ≡ name_of g
      → get_subscriber config f made ≡ (ok s, made')
      → get_subscriber config g made' ≡ (ok s, made')
  unfolding get_subscriber
  get_subscriber_again f g made made' s same got = rw (← same) (
      subscriber_from_again config.subscriber_factory config.subscriber (name_of f) made made' s
        got)

  module _ (run_sync : Exec (World B) V → Exec (World B) V) (msg : ℕ) (t : PyType)
      (f : Func V (World B)) where
    IsSettled-attempt :
        (w : World B)
        → (attempt config run_sync msg t f w).0 ≡ ok tt
        → IsSettledAt msg (attempt config run_sync msg t f w).1
    unfolding attempt
    IsSettled-attempt w ran =
        let (v, called, rest) =
          >>=-eq-ok (invoke config run_sync msg t f) (λ _. ack_at msg) w ran in
        rw rest (ack_at-IsSettled msg (invoke config run_sync msg t f w).1)

    -- Unless its task is cancelled, a command's message is settled when it has been processed,
    -- whatever the marshaler, the dependencies and the handler do, and the bus has as many messages
    -- in flight as before, on every way out.
    pub process_message-IsSettled :
        (s : Run B)
        → ((process_message config run_sync msg t f s).0 ≢ cancelled
            → IsSettledAt msg (process_message config run_sync msg t f s).1.world)
          × ((process_message config run_sync msg t f s).1.flags ≡ s.flags)
    unfolding process_message
    process_message-IsSettled s = (
      (λ live.
          let (r, v) = attempt config run_sync msg t f s.world in
          nack_and_raise-IsSettled msg r v (IsSettled-attempt s.world) live),
      ground arith,
    )

    -- The flags that the message ends with, and what the task returns or raises where the callback of
    -- the message returns.
    abbrev pub Processed : Result V → World B → Result (Unit {0}) → World B → Type 0
    Processed (ok value) v r w =
        ((w.heap msg).acked ≡ true)
        × ((w.heap msg).nacked ≡ false)
        × ((ack_at msg v).0 ≡ ok tt → r ≡ ok tt)
    Processed (err e) v r w =
        ((w.heap msg).acked ≡ false)
        × ((w.heap msg).nacked ≡ true)
        × ((nack_at msg v).0 ≡ ok tt → r ≡ err e)
    Processed cancelled v r w = (w ≡ v) × (r ≡ cancelled)

    -- A command's message that is not settled by others, by how the call of the handler ends (reading
    -- the command, resolving the dependencies and running the handler): it returned, and the message is
    -- acked; it raised, and the message is nacked, and the exception goes on where the nack callback
    -- returns; it was cancelled, and nothing more is done.
    pub processed :
        (s : Run B) (r : Result V) (v : World B)
        → invoke config run_sync msg t f s.world ≡ (r, v)
        → IsFreshAt msg v
        → Processed r v
            (process_message config run_sync msg t f s).0
            (process_message config run_sync msg t f s).1.world
    unfolding process_message attempt
    processed s (ok value) v ran fresh =
        ground (arith, ack_at_fresh msg v, nack_at_acked msg (ack_at msg v).1)
    processed s (err e) v ran fresh = ground (arith, nack_at_fresh msg v)
    processed s cancelled v ran fresh = ground arith

    -- Where the message has no callbacks, settling it changes nothing but its flags.
    pub env-process_message :
        (s : Run B) (r : Result V) (v : World B)
        → invoke config run_sync msg t f s.world ≡ (r, v)
        → IsFreshAt msg v
        → HasNoFuncs msg v
        → (process_message config run_sync msg t f s).1.world.env ≡ v.env
    unfolding process_message attempt
    env-process_message s (ok value) v ran fresh plain =
        let (acked, same) = ack_at-HasNoFuncs msg v fresh plain in ground (arith, acked, same)
    env-process_message s (err e) v ran fresh plain =
        let (nacked, same) = nack_at-HasNoFuncs msg v fresh plain in ground (arith, nacked, same)
    env-process_message s cancelled v ran fresh plain = ground arith
