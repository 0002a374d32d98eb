-- ===== src/Cqrs/CommandBus.antt =====
-- packages/natricine/src/natricine/cqrs/command_bus.py.
pub mod Registration
pub mod Dispatch
use natricine.Prelude.{
  ℕ, String, Bool, true, false, Option, none, some, List, [], ◌∷◌, if◌then◌else◌, string_eq, ◌==◌,
  not,
}
use Prim.Native.String.{◌++◌}
use natricine.Prelude.Dict.{Dict, get, put, contains}
use natricine.Runtime.{
  Exn, error, Result, ok, err, cancelled, Exec, pure, raise, lift, ◌>>=◌, ◌>>◌, try_except,
  try_finally,
}
use natricine.Pubsub.Message.{Message, fresh}
use natricine.Pubsub.World.{World, Publisher, on_env, ack_at, nack_at}
use natricine.Router.Core.{Flags, Run, on_world, enter, leave}
use natricine.Cqrs.Types.{PyType, type_eq, Func, Marshaler, name_of, handled_type, first_param_name}
use natricine.Cqrs.Depends.{call_with_deps}
use natricine.Cqrs.Handling.{Config, no_source, no_marshaler, or_empty, subscriber_from}

-- The handlers of a bus, and the prefixes of the routers that brought them.
pub record Registry (V B : Type 0) : Type 0 where
  pub handlers : Dict PyType (Func V (World B))
  pub prefixes : Dict PyType String

abbrev pub already_registered : PyType → Exn
already_registered t = error "ValueError" ("Handler already registered for " ++ t.name)

abbrev pub already_running : Exn
already_running = error "RuntimeError" "CommandBus is already running"

module _ {V S B : Type 0} where
  -- The checks of `__init__`, whose other arguments are taken as they are.
  unfoldable pub init :
      Publisher B
      → Option S
      → Option (Marshaler V)
      → Option (String → S)
      → Option (String → String)
      → String
      → Result (Config V S B)
  init publisher none marshaler none generate prefix = err no_source
  init publisher subscriber none factory generate prefix = err no_marshaler
  init publisher subscriber (some marshaler) factory generate prefix = ok (record {
    publisher = publisher;
    subscriber = subscriber;
    subscriber_factory = factory;
    marshaler = marshaler;
    generate_topic = generate;
    topic_prefix = prefix;
  })

module _ {V B : Type 0} where
  -- The decorator: a type that has a handler gets the new one in its place.
  unfoldable pub handler : Func V (World B) → Exec (Registry V B) (Func V (World B))
  handler f r =
      (do t ← lift (handled_type f); λ r'. (ok f, record r' { handlers = put t f r'.handlers })) r

  abbrev set_prefix : PyType → String → Registry V B → Registry V B
  set_prefix t prefix r =
      if prefix == "" then r else record r { prefixes = put t prefix r.prefixes }

  -- The loop of `include_router` over the handlers of the router.
  unfoldable pub include_router :
      Dict PyType (Func V (World B)) → String → Exec (Registry V B) (Unit {0})
  include_router [] prefix r = (ok tt, r)
  include_router ((t, f) ∷ fs) prefix r =
      if contains t r.handlers
      then raise (already_registered t) r
      else include_router fs prefix
          (set_prefix t prefix (record r { handlers = put t f r.handlers }))

  module _ {S : Type 0} (config : Config V S B) where
    unfoldable pub topic_for_type : Registry V B → PyType → String
    topic_for_type r t =
        let name = config.marshaler.name t in
        elim config.generate_topic [
          | some generate ↦ generate name
          | none ↦ config.topic_prefix ++ or_empty (get t r.prefixes) ++ name
        ]

    -- `type_of` is Python's `type`, and `uuid4` gives the new message its uuid.
    unfoldable pub send : (V → PyType) → (B → ℕ × B) → Registry V B → V → Exec B (Unit {0})
    send type_of uuid4 r command = lift (config.marshaler.marshal command) >>= λ payload. λ env.
        let (uuid, env') = uuid4 env in
        config.publisher.publish (topic_for_type r (type_of command)) (fresh payload [] uuid ∷ [])
          env'

    -- The tasks that `run` starts: the topic, the type and the handler of each.
    unfoldable pub tasks :
        Registry V B → Dict PyType (Func V (World B)) → List (String × PyType × Func V (World B))
    tasks r [] = []
    tasks r ((t, f) ∷ fs) = (topic_for_type r t, t, f) ∷ tasks r fs

    -- `_get_subscriber_for_handler`, over `_handler_subscribers`
    unfoldable pub get_subscriber : Func V (World B) → Exec (Dict String S) S
    get_subscriber f = subscriber_from config.subscriber_factory config.subscriber (name_of f)

    module _ (run_sync : Exec (World B) V → Exec (World B) V) where
      -- The first two lines of the `try` block of `_process_message`: the command is read from the
      -- message object, and the handler is called with it.
      unfoldable pub invoke : ℕ → PyType → Func V (World B) → Exec (World B) V
      invoke msg t f = do
        command ← (λ w. lift (config.marshaler.unmarshal (w.heap msg).payload t) w)
        p ← lift (first_param_name f)
        call_with_deps run_sync f (put p command [])

      unfoldable pub attempt : ℕ → PyType → Func V (World B) → Exec (World B) (Unit {0})
      attempt msg t f = do invoke msg t f; ack_at msg

      -- `_process_message`
      unfoldable pub process_message : ℕ → PyType → Func V (World B) → Exec (Run B) (Unit {0})
      process_message msg t f s =
          try_finally (on_world (try_except (attempt msg t f) (λ e. do nack_at msg; raise e))) leave
            (enter s)

module _ {B : Type 0} where
  -- The loop of `_run_handler`: the messages for which a task is started, in order. A pull is what
  -- one wait for a message does, the steps of the other tasks included.
  unfoldable pub run_handler : List (Exec (Run B) ℕ) → Exec (Run B) (List ℕ)
  run_handler [] s = (ok [], s)
  run_handler (pull ∷ pulls) s =
      (pull >>= λ msg. λ t.
          let rest = (run_handler pulls >>= λ started. pure (msg ∷ started)) t in
          if t.flags.closing then (do on_world (nack_at msg); pure []) t else rest)
        s

  unfoldable pub run : Exec (Run B) (Unit {0}) → Exec (Run B) (Unit {0})
  run group s =
      if s.flags.running
      then raise already_running s
      else try_finally group
          (λ t. record t {
            flags = record t.flags { running = false; closing = false; scope = false };
          })
          (record s { flags = record s.flags { running = true; closing = false; scope = true } })

  -- The subscribers that have a `close` method are closed; the rest are left alone.
  close_each :
      {S : Type 0}
      → (S → Option (Exec (World B) (Unit {0})))
      → Dict String S
      → Exec (World B) (Unit {0})
  close_each closer [] = pure tt
  close_each closer ((name, s) ∷ made) = elim (closer s) [
    | none ↦ close_each closer made
    | some shut ↦ do shut; close_each closer made
  ]

  -- `close`: the effects of the wait and of the cancellation are parameters. The subscribers that the
  -- factory made are forgotten once all of them are closed.
  unfoldable pub close :
      {S : Type 0}
      → (Run B → Run B)
      → (Run B → Run B)
      → (S → Option (Exec (World B) (Unit {0})))
      → Dict String S
      → Run B
      → Result (Dict String S) × Run B
  unfolding close_each
  close drain cancel closer made s =
      if s.flags.running
      then (let t = drain (record s { flags = record s.flags { closing = true } }) in
          let u = if t.flags.scope then cancel t else t in
          (do on_world (close_each closer made); pure []) u)
      else (ok made, s)
