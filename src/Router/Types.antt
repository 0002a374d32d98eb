-- ===== src/Router/Types.antt =====
-- packages/natricine/src/natricine/router/types.py and handler.py, and what the router takes from
-- anyio, random, uuid, traceback and logging, as a parameter.
use natricine.Prelude.{ℕ, String, Bool, true, false, Option, List}
use natricine.Runtime.{Exn, error, permanent, Exec}
use natricine.Pubsub.Message.{Message}
use natricine.Pubsub.World.{World, Publisher}

-- A handler is called with the message object.
abbrev pub HandlerFunc : Type 0 → Type 0
HandlerFunc B = ℕ → Exec (World B) (Option (List (Message B)))

abbrev pub NoPublishHandlerFunc : Type 0 → Type 0
NoPublishHandlerFunc B = ℕ → Exec (World B) (Unit {0})

abbrev pub Middleware : Type 0 → Type 0
Middleware B = HandlerFunc B → HandlerFunc B

-- `Handler` of handler.py. `S` is the type of the subscribers.
pub record Handler (S B : Type 0) : Type 0 where
  pub name : String
  pub subscriber : S
  pub subscribe_topic : String
  pub handler_func : HandlerFunc B
  pub publisher : Option (Publisher B)
  pub publish_topic : Option String
  pub middlewares : List (Middleware B)

-- The libraries that the middlewares call. `Float` is Python's float.
pub record External (B : Type 0) : Type 1 where
  pub Float : Type 0
  pub le_zero : Float → Bool
  pub neg : Float → Float
  pub add : Float → Float → Float
  pub mul : Float → Float → Float
  -- random.uniform(a, b)
  pub uniform : Float → Float → B → Float × B
  -- anyio.sleep(s)
  pub sleep : Float → Exec B (Unit {0})
  -- with anyio.fail_after(s): the block
  pub fail_after :
      Float
      → Exec (World B) (Option (List (Message B)))
      → Exec (World B) (Option (List (Message B)))
  pub uuid4 : B → ℕ × B
  -- traceback.format_exc() while the exception is handled
  pub format_exc : Exn → B → String
  -- log.exception("Handler failed for message %s", uuid)
  pub log_exception : ℕ → B → B

-- str(e), type(e).__name__ and isinstance(e, PermanentError)
abbrev pub str : Exn → String
str (error name message) = message
str (permanent cause) = str cause

abbrev pub type_name : Exn → String
type_name (error name message) = name
type_name (permanent cause) = "PermanentError"

abbrev pub is_permanent : Exn → Bool
is_permanent (permanent cause) = true
is_permanent _ = false

-- `e.cause if isinstance(e, PermanentError) else e`
abbrev pub unwrap : Exn → Exn
unwrap (permanent cause) = cause
unwrap (error name message) = error name message
