-- ===== src/Otel/Tracing.antt =====
-- packages/natricine-otel/src/natricine_otel/middleware.py and publisher.py, over a tracer of opentelemetry, which
-- is a parameter.
pub mod Transparent
use natricine.Prelude.{
  ℕ, String, Bool, ◌==◌, string_eq, if◌then◌else◌, Option, none, some, List, [], ◌∷◌, map, length,
}
use Prim.Native.String.{◌++◌}
use natricine.Prelude.Dict.{Dict, get, put}
use natricine.Runtime.{Exn, Result, ok, err, cancelled, Exec, ◌>>=◌, ◌>>◌, try_except}
use natricine.Pubsub.Message.{Message}
use natricine.Pubsub.World.{World, Publisher}
use natricine.Router.Types.{HandlerFunc, Middleware, str, type_name}
use natricine.Otel.Propagation.{Propagator, inject_context}

pub data Attribute : Type 0 where
  text : String → Attribute
  number : ℕ → Attribute

abbrev pub Attributes : Type 0
Attributes = Dict String Attribute

pub data Kind : Type 0 where
  consumer producer : Kind

pub data Status : Type 0 where
  ok_status : Status
  error_status : String → Status

-- A tracer on the state `S`. `leave` is what the block of `start_as_current_span` does at its end, by how it
-- ends.
pub record Tracer (Span Context S : Type 0) : Type 0 where
  pub start : String → Option Context → Kind → Attributes → S → Span × S
  pub leave : Span → Result (Unit {0}) → S → S
  pub set_status : Span → Status → S → S
  pub set_attribute : Span → String → Attribute → S → S

abbrev pub ending : {A : Type 0} → Result A → Result (Unit {0})
ending (ok a) = ok tt
ending (err e) = err e
ending cancelled = cancelled

-- `if topic:`
abbrev pub unless_empty : Option String → Option String
unless_empty none = none
unless_empty (some topic) = if topic == "" then none else some topic

-- `if topic_from_metadata and topic_from_metadata in msg.metadata`
abbrev pub topic_at : Option String → Dict String String → Option String
topic_at none metadata = none
topic_at (some key) metadata = if key == "" then none else get key metadata

abbrev pub with_destination : Option String → Attributes → Attributes
with_destination none attributes = attributes
with_destination (some topic) attributes = put "messaging.destination.name" (text topic) attributes

abbrev pub span_name : Option String → String
span_name none = "process"
span_name (some topic) = "process " ++ topic

module _ {Span Context S : Type 0} (tracer : Tracer Span Context S) where
  -- The block of a span: its result is passed on, and the span tells how it ended.
  abbrev pub marked : {A : Type 0} → Span → Exec S A → Exec S A
  marked span block =
      try_except (do result ← block; λ s. (ok result, tracer.set_status span ok_status s))
        (λ e s. (
          err e,
          tracer.set_attribute span "error.type" (text (type_name e))
              (tracer.set_status span (error_status (str e)) s),
        ))

  unfoldable pub in_span :
      {A : Type 0} → String → Option Context → Kind → Attributes → (Span → Exec S A) → Exec S A
  in_span name context kind attributes block s =
      let (span, s1) = tracer.start name context kind attributes s in
      let (r, s2) = marked span (block span) s1 in (r, tracer.leave span (ending r) s2)

-- The tracer of the backends, where messages live in a store.
abbrev pub on_world :
    {Span Context B : Type 0} → Tracer Span Context B → Tracer Span Context (World B)
on_world tracer = record {
  start = λ name context kind attributes w.
      (let (span, env) = tracer.start name context kind attributes w.env in
        (span, record w { env = env }));
  leave = λ span r w. record w { env = tracer.leave span r w.env };
  set_status = λ span status w. record w { env = tracer.set_status span status w.env };
  set_attribute = λ span key value w. record w { env = tracer.set_attribute span key value w.env };
}

module _ {Span Context B : Type 0} (tracer : Tracer Span Context B)
    (propagator : Propagator Context B) (uuid_str : ℕ → String) (system : String) where
  abbrev pub process_attributes : Message B → Attributes
  process_attributes m =
      ("messaging.system", text system)
      ∷ ("messaging.operation.type", text "process")
      ∷ ("messaging.operation.name", text "process")
      ∷ ("messaging.message.id", text (uuid_str m.uuid))
      ∷ []

  -- What both middlewares do, by the topic for the attribute and the topic for the name.
  abbrev pub process_span : Option String → Option String → Middleware B
  process_span destination named next_handler msg w =
      let m = w.heap msg in
      in_span (on_world tracer) (span_name named) (some (propagator.extract m.metadata w.env))
        consumer (with_destination destination (process_attributes m)) (λ span. next_handler msg) w

  unfoldable pub tracing : Option String → Middleware B
  tracing topic_from_metadata next_handler msg w =
      let topic = topic_at topic_from_metadata (w.heap msg).metadata in
      process_span topic (unless_empty topic) next_handler msg w

  -- `self._topic_extractor(msg)`, if there is one
  abbrev pub extracted : Option (Message B → Option String) → Message B → Option String
  extracted none m = none
  extracted (some extractor) m = extractor m

  -- TracingMiddleware
  unfoldable pub tracing_middleware : Option (Message B → Option String) → Middleware B
  tracing_middleware topic_extractor next_handler msg w =
      let topic = unless_empty (extracted topic_extractor (w.heap msg)) in
      process_span topic topic next_handler msg w

  abbrev pub describe : Span → List (Message B) → B → B
  describe span [] env = env
  describe span (m ∷ []) env =
      tracer.set_attribute span "messaging.message.id" (text (uuid_str m.uuid)) env
  describe span (m ∷ n ∷ ms) env =
      tracer.set_attribute span "messaging.batch.message_count" (number (length (m ∷ n ∷ ms))) env

  -- TracingPublisher
  module _ (publisher : Publisher B) where
    abbrev pub send : String → List (Message B) → Span → Exec B (Unit {0})
    send topic messages span env =
        let traced = map (inject_context (propagator.inject env)) messages in
        publisher.publish topic traced (describe span traced env)

    unfoldable pub publish : String → List (Message B) → Exec B (Unit {0})
    publish topic messages =
        in_span tracer ("send " ++ topic) none producer
          (("messaging.system", text system)
            ∷ ("messaging.operation.type", text "send")
            ∷ ("messaging.operation.name", text "send")
            ∷ ("messaging.destination.name", text topic)
            ∷ [])
          (send topic messages)

    abbrev pub close : Exec B (Unit {0})
    close = publisher.close
