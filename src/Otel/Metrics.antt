-- ===== src/Otel/Metrics.antt =====
-- packages/natricine-otel/src/natricine_otel/metrics.py, over the instruments of a meter of opentelemetry, which
-- are a parameter.
pub mod Counting
use natricine.Prelude.{
  ℕ, String, Bool, ◌==◌, string_eq, if◌then◌else◌, Option, none, some, List, [], ◌∷◌, map, length,
}
use natricine.Prelude.Dict.{Dict, get, put}
use natricine.Runtime.{Exn, Result, ok, err, cancelled, Exec, continue, ◌>>=◌, ◌>>◌}
use natricine.Pubsub.Message.{Message}
use natricine.Pubsub.World.{World, Publisher}
use natricine.Router.Types.{Middleware, type_name}
use natricine.Otel.Propagation.{Propagator, inject_context}
use natricine.Otel.Tracing.{Attribute, text, Attributes, unless_empty, with_destination, extracted}

-- A clock, a histogram and a counter on the state `S`.
pub record Meter (Time S : Type 0) : Type 0 where
  pub perf_counter : S → Time × S
  pub minus : Time → Time → Time
  -- `record` of the histogram, and `add` of the counter
  pub record_duration : Time → Attributes → S → S
  pub add : ℕ → Attributes → S → S

abbrev pub with_error : {A : Type 0} → Result A → Attributes → Attributes
with_error (ok a) attributes = attributes
with_error (err e) attributes = put "error.type" (text (type_name e)) attributes
with_error cancelled attributes = attributes

module _ {Time S : Type 0} (meter : Meter Time S) where
  -- The block that is timed: after it returned, `n` is added; its duration is recorded however it ends.
  unfoldable pub timed : {A : Type 0} → ℕ → Attributes → Exec S A → Exec S A
  timed n attributes block s =
      let (start, s1) = meter.perf_counter s in
      let (r, s2) = (do result ← block; λ t. (ok result, meter.add n attributes t)) s1 in
      let (now, s3) = meter.perf_counter s2 in
      (r, meter.record_duration (meter.minus now start) (with_error r attributes) s3)

-- The instruments of the backends, where messages live in a store.
abbrev pub on_world : {Time B : Type 0} → Meter Time B → Meter Time (World B)
on_world meter = record {
  perf_counter = λ w. (let (now, env) = meter.perf_counter w.env in (now, record w { env = env }));
  minus = meter.minus;
  record_duration = λ d attributes w. record w { env = meter.record_duration d attributes w.env };
  add = λ n attributes w. record w { env = meter.add n attributes w.env };
}

-- `msg.metadata.get(topic_from_metadata)`, if that is not empty
abbrev pub topic_in : {B : Type 0} → Option String → Message B → Option String
topic_in none m = none
topic_in (some key) m = if key == "" then none else get key m.metadata

module _ {Time B : Type 0} (meter : Meter Time B) (system : String) where
  abbrev pub process_attributes : Option String → Attributes
  process_attributes topic =
      with_destination (unless_empty topic)
        (("messaging.system", text system) ∷ ("messaging.operation.name", text "process") ∷ [])

  unfoldable pub metrics_middleware : Option String → Middleware B
  metrics_middleware topic_from_metadata handler msg w =
      timed (on_world meter) 1 (process_attributes (topic_in topic_from_metadata (w.heap msg)))
        (handler msg) w

  -- MetricsMiddleware
  unfoldable pub metrics_of : Option (Message B → Option String) → Middleware B
  metrics_of none handler msg w = timed (on_world meter) 1 (process_attributes none) (handler msg) w
  metrics_of (some extractor) handler msg w =
      timed (on_world meter) 1 (process_attributes (extractor (w.heap msg))) (handler msg) w

  -- MetricsPublisher
  module _ {Context : Type 0} (propagator : Propagator Context B) (publisher : Publisher B) where
    abbrev pub send : String → List (Message B) → Exec B (Unit {0})
    send topic messages env =
        publisher.publish topic (map (inject_context (propagator.inject env)) messages) env

    unfoldable pub publish : String → List (Message B) → Exec B (Unit {0})
    publish topic messages =
        timed meter (length messages)
          (("messaging.system", text system)
            ∷ ("messaging.operation.name", text "send")
            ∷ ("messaging.destination.name", text topic)
            ∷ [])
          (send topic messages)

    abbrev pub close : Exec B (Unit {0})
    close = publisher.close
