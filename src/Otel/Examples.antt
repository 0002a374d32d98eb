-- ===== src/Otel/Examples.antt =====
-- Tests of natricine-otel, and its theorems at concrete inputs.
use natricine.Prelude.{ℕ, ◌+◌, ◌≡◌, refl, String, none, some, List, [], ◌∷◌, string_eq}
use natricine.Prelude.Dict.{get}
use natricine.Runtime.{error, ok, err}
use natricine.Pubsub.Message.{Message, fresh}
use natricine.Pubsub.World.{World, Publisher}
use natricine.Router.Types.{HandlerFunc}
use natricine.Otel.Propagation.{Propagator, inject_context}
use natricine.Otel.Tracing.{Tracer, Status, ok_status, error_status, in_span, tracing, publish}
use natricine.Otel.Metrics
use natricine.Otel.Metrics.{Meter, metrics_middleware}
use natricine.Otel.Metrics.Counting.{MeterLaws, metrics_middleware_lem}

-- The environment is what the tracer was told, the last first.
abbrev Log : Type 0
Log = List String

abbrev status_name : Status → String
status_name ok_status = "OK"
status_name (error_status s) = s

abbrev tracer : Tracer String (Unit {0}) Log
tracer = record {
  start = λ name context kind attributes log. (name, name ∷ log);
  leave = λ span r log. "end" ∷ log;
  set_status = λ span status log. status_name status ∷ log;
  set_attribute = λ span key value log. key ∷ log;
}

abbrev propagator : Propagator (Unit {0}) Log
propagator = record { inject = λ log. ("traceparent", "00-1") ∷ []; extract = λ d log. tt }

abbrev order : Message Log
order = fresh (5 ∷ []) (("topic", "orders") ∷ []) 7

abbrev world : World Log
world = record { heap = λ r. order; env = [] }

abbrev failing : HandlerFunc Log
failing msg w = (err (error "ValueError" "no stock"), w)

abbrev uuid_text : ℕ → String
uuid_text u = "7"

traced_failure :
    (tracing tracer propagator uuid_text "natricine" (some "topic") failing 0 world).1.env
    ≡ "end" ∷ "error.type" ∷ "no stock" ∷ "process orders" ∷ []
unfolding tracing in_span get
traced_failure = refl

abbrev publisher : Publisher Log
publisher = record { publish = λ topic ms log. (ok tt, topic ∷ log); close = λ log. (ok tt, log) }

traced_publish :
    publish tracer propagator uuid_text "natricine" publisher "orders" (order ∷ []) []
    ≡ (ok tt, "end" ∷ "OK" ∷ "orders" ∷ "messaging.message.id" ∷ "send orders" ∷ [])
unfolding publish in_span inject_context
traced_publish = refl

-- Two numbers: what was counted, and how many durations were recorded.
abbrev Counts : Type 0
Counts = ℕ × ℕ

abbrev meter : Meter (Unit {0}) Counts
meter = record {
  perf_counter = λ c. (tt, c);
  minus = λ a b. tt;
  record_duration = λ d attributes c. (c.0, c.1 + 1);
  add = λ n attributes c. (c.0 + n, c.1);
}

meter_laws : MeterLaws (Metrics.on_world meter)
meter_laws = record {
  counted = λ w. w.env.0;
  recorded = λ w. w.env.1;
  counted-perf_counter = λ w. refl;
  recorded-perf_counter = λ w. refl;
  counted-add = λ n a w. refl;
  recorded-add = λ n a w. refl;
  counted-record_duration = λ d a w. refl;
  recorded-record_duration = λ d a w. refl;
}

abbrev counts : World Counts
counts = record { heap = λ r. fresh [] [] 7; env = (3, 5) }

abbrev lost : HandlerFunc Counts
lost msg w = (err (error "ValueError" "no stock"), w)

metrics_middleware_lem_example :
    let (r, w') = metrics_middleware meter "natricine" none lost 0 counts in
    (r ≡ err (error "ValueError" "no stock")) × (w'.env.0 ≡ 3 + 0) × (w'.env.1 ≡ 5 + 1)
unfolding meter_laws
metrics_middleware_lem_example =
    metrics_middleware_lem meter meter_laws "natricine" none lost 0 counts (λ w. refl) (λ w. refl)
