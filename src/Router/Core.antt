-- ===== src/Router/Core.antt =====
-- packages/natricine/src/natricine/router/router.py: registration, the middleware chain, and what a
-- handler's task does with each message. The task group of anyio is a parameter.
pub mod Chain
pub mod Settling
pub mod Outcomes
use natricine.Prelude.{
  ℕ, suc, ◌-◌, ◌+◌, String, Bool, true, false, ◌||◌, Option, none, some, List, [], ◌∷◌, ◌++◌, map,
  if◌then◌else◌, is_empty, ◌==◌, string_eq, ltb,
}
use mathlib.Core.List.{reverse}
use natricine.Runtime.{
  Exn, error, Result, ok, err, cancelled, Exec, pure, raise, ◌>>=◌, ◌>>◌, try_except, try_finally,
}
use natricine.Pubsub.Message.{Message}
use natricine.Pubsub.World.{World, Publisher, on_env, ack_at, nack_at}
use natricine.Router.Types.{HandlerFunc, NoPublishHandlerFunc, Middleware, Handler}

-- What `run`, `close` and the handler tasks change: `scope` tells whether a task group is open.
pub record Flags : Type 0 where
  pub running : Bool
  pub closing : Bool
  pub in_flight : ℕ
  pub scope : Bool

pub record Router (S B : Type 0) : Type 0 where
  pub handlers : List (Handler S B)
  pub middlewares : List (Middleware B)

-- The state of a running router: its flags, and the world that its handlers act on.
pub record Run (B : Type 0) : Type 0 where
  pub flags : Flags
  pub world : World B

-- `self._in_flight += 1` and `self._in_flight -= 1`. A number that was raised before is not 0, so the
-- truncated `-` is exact.
abbrev pub count_in : Flags → Flags
count_in f = record f { in_flight = f.in_flight + 1 }

abbrev pub count_out : Flags → Flags
count_out f = record f { in_flight = f.in_flight - 1 }

abbrev pub already_running : Exn
already_running = error "RuntimeError" "Router is already running"

abbrev pub stopped : Flags
stopped = record { running = false; closing = false; in_flight = 0; scope = false }

module _ {B : Type 0} where
  -- `middlewares or []`
  abbrev pub or_none : Option (List (Middleware B)) → List (Middleware B)
  or_none none = []
  or_none (some ms) = ms

  -- `wrapped`: the result of a handler without output is dropped.
  unfoldable pub without_output : NoPublishHandlerFunc B → HandlerFunc B
  without_output func msg = do func msg; pure none

module _ {S B : Type 0} where
  abbrev pub new : Router S B
  new = record { handlers = []; middlewares = [] }

  unfoldable pub add_middleware : Middleware B → Router S B → Router S B
  add_middleware m router = record router { middlewares = router.middlewares ++ m ∷ [] }

  unfoldable pub add_handler :
      String
      → String
      → S
      → String
      → Publisher B
      → HandlerFunc B
      → Option (List (Middleware B))
      → Router S B
      → Router S B
  add_handler name topic subscriber publish_topic publisher func own router = record router {
    handlers =
        router.handlers
        ++ record {
          name = name;
          subscriber = subscriber;
          subscribe_topic = topic;
          handler_func = func;
          publisher = some publisher;
          publish_topic = some publish_topic;
          middlewares = or_none own;
        }
          ∷ [];
  }

  unfoldable pub add_no_publisher_handler :
      String
      → String
      → S
      → NoPublishHandlerFunc B
      → Option (List (Middleware B))
      → Router S B
      → Router S B
  add_no_publisher_handler name topic subscriber func own router = record router {
    handlers =
        router.handlers
        ++ record {
          name = name;
          subscriber = subscriber;
          subscribe_topic = topic;
          handler_func = without_output func;
          publisher = none;
          publish_topic = none;
          middlewares = or_none own;
        }
          ∷ [];
  }

module _ {B : Type 0} where
  -- `for middleware in …: wrapped_func = middleware(wrapped_func)`
  unfoldable pub wrap_each : List (Middleware B) → HandlerFunc B → HandlerFunc B
  wrap_each [] func = func
  wrap_each (m ∷ ms) func = wrap_each ms (m func)

  unfoldable pub build_chain : {S : Type 0} → Router S B → Handler S B → HandlerFunc B
  build_chain router handler =
      wrap_each (reverse router.middlewares)
        (wrap_each (reverse handler.middlewares) handler.handler_func)

  -- An action on the world, and assignments to the flags.
  abbrev pub on_world : {A : Type 0} → Exec (World B) A → Exec (Run B) A
  on_world act s = let (r, w) = act s.world in (r, record s { world = w })

  abbrev pub enter : Run B → Run B
  enter s = record s { flags = count_in s.flags }

  abbrev pub leave : Run B → Run B
  leave s = record s { flags = count_out s.flags }

  -- `if output_messages and handler.publisher and handler.publish_topic`
  unfoldable pub publish_output :
      Option (Publisher B) → Option String → Option (List (Message B)) → Exec (World B) (Unit {0})
  publish_output (some publisher) (some topic) (some ms) =
      if is_empty ms || topic == "" then pure tt else on_env (publisher.publish topic ms)
  publish_output _ _ _ = pure tt

  module _ {S : Type 0} (handler : Handler S B) (wrapped : HandlerFunc B) where
    -- the `try` block
    unfoldable pub attempt : ℕ → Exec (World B) (Unit {0})
    attempt msg = do
      output ← wrapped msg
      ack_at msg
      publish_output handler.publisher handler.publish_topic output

    -- with its `except Exception: await msg.nack(); raise`
    unfoldable pub guarded : ℕ → Exec (World B) (Unit {0})
    guarded msg = try_except (attempt msg) (λ e. do nack_at msg; raise e)

    -- The body of the loop; `false` stands for `break`.
    unfoldable pub handle_message : ℕ → Exec (Run B) Bool
    handle_message msg s =
        if s.flags.closing
        then (do on_world (nack_at msg); pure false) s
        else try_finally (do on_world (guarded msg); pure true) leave (enter s)

    -- The loop over the subscription. A pull is what one wait for a message does, the steps of the
    -- other tasks included, up to the message that it brings.
    unfoldable pub run_handler : List (Exec (Run B) ℕ) → Exec (Run B) (Unit {0})
    run_handler [] s = (ok tt, s)
    run_handler (pull ∷ pulls) s =
        (do msg ← pull; more ← handle_message msg; if more then run_handler pulls else pure tt) s

  -- `run`: the task group runs the tasks that the router makes for its handlers.
  unfoldable pub run : Exec (Run B) (Unit {0}) → Exec (Run B) (Unit {0})
  run group s =
      if s.flags.running
      then raise already_running s
      else try_finally group
          (λ t. record t {
            flags = record t.flags { running = false; closing = false; scope = false };
          })
          (record s { flags = record s.flags { running = true; closing = false; scope = true } })

  -- `close`: the wait for the messages in flight ends by itself or by its time limit, and its effect
  -- is a parameter. What is returned tells whether the task group is cancelled.
  unfoldable pub close : (Run B → Run B) → Run B → Bool × Run B
  close drain s =
      if s.flags.running
      then (let t = drain (record s { flags = record s.flags { closing = true } }) in
          (t.flags.scope, t))
      else (false, s)
