-- ===== src/Otel/Tracing/Transparent.antt =====
-- What a span changes of what it is around.
use natricine.Prelude.{
  ℕ, String, ◌≡◌, ◌≢◌, refl, sym, ap, ◌==◌, string_eq, Option, none, some, eq_iff, Bool-cases, inl,
  inr,
}
use natricine.Runtime.{Result, ok, err, cancelled, Exec}
use natricine.Pubsub.World.{World}
use natricine.Router.Types.{HandlerFunc, str, type_name}
use natricine.Otel.Propagation.{Propagator}
use natricine.Otel.Tracing.{
  Tracer, Kind, consumer, Attributes, text, ok_status, error_status, ending, marked, in_span,
  on_world, unless_empty, topic_at, span_name, with_destination, process_attributes, process_span,
  tracing, tracing_middleware,
}

-- What the span is told at the end of its block.
abbrev pub told : {A Span Context S : Type 0} → Tracer Span Context S → Span → Result A → S → S
told tracer span (ok a) s = tracer.leave span (ok tt) (tracer.set_status span ok_status s)
told tracer span (err e) s = tracer.leave span (err e) (
    tracer.set_attribute span "error.type" (text (type_name e))
      (tracer.set_status span (error_status (str e)) s))
told tracer span cancelled s = tracer.leave span cancelled s

module _ {Span Context S : Type 0} (tracer : Tracer Span Context S) where
  left :
      {A : Type 0} (span : Span) (block : Exec S A) (s : S) (r : Result A)
      → (block s).0 ≡ r
      → let (r', s2) = marked tracer span block s in
        ◌≡◌ {A = Result A × S}
          (r', tracer.leave span (ending r') s2)
          (r, told tracer span r (block s).1)
  left span block s (ok a) h = rw h refl
  left span block s (err e) h = rw h refl
  left span block s cancelled h = rw h refl

  pub in_span_lem :
      {A : Type 0} (name : String) (context : Option Context) (kind : Kind)
      (attributes : Attributes) (block : Span → Exec S A) (s : S)
      → let (span, s1) = tracer.start name context kind attributes s in
        let (r, s2) = block span s1 in
        in_span tracer name context kind attributes block s ≡ (r, told tracer span r s2)
  unfolding in_span
  in_span_lem name context kind attributes block s =
      let (span, s1) = tracer.start name context kind attributes s in
      left span (block span) s1 (block span s1).0 refl

module _ {Span Context B : Type 0} (tracer : Tracer Span Context B)
    (propagator : Propagator Context B) (uuid_str : ℕ → String) (system : String) where
  -- The traced handler gives what the handler gives within a new span, a child of the context in the message's
  -- metadata, with its result, its exception or its cancellation; the span is then ended, with
  -- the status of a return or of an exception, and none if the task was cancelled.
  pub tracing_lem :
      (topic_from_metadata : Option String) (next_handler : HandlerFunc B) (msg : ℕ) (w : World B)
      → let m = w.heap msg in
        let topic = topic_at topic_from_metadata m.metadata in
        let (span, w1) =
          (on_world tracer).start
            (span_name (unless_empty topic))
            (some (propagator.extract m.metadata w.env))
            consumer
            (with_destination topic (process_attributes tracer propagator uuid_str system m))
            w in
        let (r, w2) = next_handler msg w1 in
        tracing tracer propagator uuid_str system topic_from_metadata next_handler msg w
        ≡ (r, told (on_world tracer) span r w2)
  unfolding tracing
  tracing_lem topic_from_metadata next_handler msg w =
      in_span_lem (on_world tracer) _ _ _ _ (λ span. next_handler msg) w

  plain : (o : Option String) → o ≢ some "" → unless_empty o ≡ o
  plain none h = refl
  plain (some topic) h = elim (Bool-cases (topic == "")) [
    | inl empty ↦ elim (h (ap some ((eq_iff topic "").0 empty))) [ ]
    | inr full ↦ rw full refl
  ]

  -- The two middlewares do the same on every message whose topic under the key is not the empty text: the one
  -- that is given the key, and the one that is given the function that looks it up.
  pub tracing-eq-tracing_middleware :
      (key : String) (next_handler : HandlerFunc B) (msg : ℕ) (w : World B)
      → topic_at (some key) (w.heap msg).metadata ≢ some ""
      → tracing tracer propagator uuid_str system (some key) next_handler msg w
        ≡ tracing_middleware tracer propagator uuid_str system
            (some (λ m. topic_at (some key) m.metadata))
            next_handler
            msg
            w
  unfolding tracing tracing_middleware
  tracing-eq-tracing_middleware key next_handler msg w full =
      let topic = topic_at (some key) (w.heap msg).metadata in
      ap
        (λ o.
          process_span tracer propagator uuid_str system o (unless_empty topic) next_handler msg w)
        (sym (plain topic full))
