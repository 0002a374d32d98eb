-- ===== src/Otel/Metrics/Counting.antt =====
-- What the instruments have counted.
use natricine.Prelude.{ℕ, ◌+◌, String, ◌≡◌, refl, ap, ◌∙◌, Option, arith}
use natricine.Runtime.{Result, ok, err, cancelled, Exec, continue}
use natricine.Runtime.Laws.{Keeps}
use natricine.Pubsub.World.{World}
use natricine.Router.Types.{HandlerFunc}
use natricine.Otel.Tracing.{Attributes}
use natricine.Otel.Metrics.{
  Meter, timed, on_world, topic_in, process_attributes, metrics_middleware,
}

-- What a meter promises: the counter has the sum of what was added, and the histogram has one entry for each
-- duration.
pub record MeterLaws {Time S : Type 0} (meter : Meter Time S) : Type 0 where
  pub counted : S → ℕ
  pub recorded : S → ℕ
  pub counted-perf_counter : (s : S) → counted (meter.perf_counter s).1 ≡ counted s
  pub recorded-perf_counter : (s : S) → recorded (meter.perf_counter s).1 ≡ recorded s
  pub counted-add : (n : ℕ) (a : Attributes) (s : S) → counted (meter.add n a s) ≡ counted s + n
  pub recorded-add : (n : ℕ) (a : Attributes) (s : S) → recorded (meter.add n a s) ≡ recorded s
  pub counted-record_duration :
      (d : Time) (a : Attributes) (s : S) → counted (meter.record_duration d a s) ≡ counted s
  pub recorded-record_duration :
      (d : Time) (a : Attributes) (s : S) → recorded (meter.record_duration d a s) ≡ recorded s + 1

-- What was added for a block: `n` if it returned.
abbrev pub if_returned : {A : Type 0} → Result A → ℕ → ℕ
if_returned (ok a) n = n
if_returned (err e) n = 0
if_returned cancelled n = 0

module _ {Time S : Type 0} (meter : Meter Time S) (laws : MeterLaws meter) where
  abbrev add_after : {A : Type 0} → ℕ → Attributes → Result A → S → Result A × S
  add_after n attributes r s = continue r (λ result t. (ok result, meter.add n attributes t)) s

  add_after_lem :
      {A : Type 0} (n : ℕ) (attributes : Attributes) (r : Result A) (s : S)
      → let (r', s') = add_after n attributes r s in
        (r' ≡ r)
        × (laws.counted s' ≡ laws.counted s + if_returned r n)
        × (laws.recorded s' ≡ laws.recorded s)
  add_after_lem n attributes (ok a) s =
      (refl, laws.counted-add n attributes s, laws.recorded-add n attributes s)
  add_after_lem n attributes (err e) s = (refl, omega arith, refl)
  add_after_lem n attributes cancelled s = (refl, omega arith, refl)

  pub timed_lem :
      {A : Type 0} (n : ℕ) (attributes : Attributes) (block : Exec S A) (s : S)
      → Keeps laws.counted block
      → Keeps laws.recorded block
      → let r = (block (meter.perf_counter s).1).0 in
        let (r', s') = timed meter n attributes block s in
        (r' ≡ r)
        × (laws.counted s' ≡ laws.counted s + if_returned r n)
        × (laws.recorded s' ≡ laws.recorded s + 1)
  unfolding timed
  timed_lem n attributes block s keeps_counted keeps_recorded =
      let s1 = (meter.perf_counter s).1 in
      let (r, s2) = block s1 in
      let (same, counts, records) = add_after_lem n attributes r s2 in
      let s3 = (add_after n attributes r s2).1 in
      let s4 = (meter.perf_counter s3).1 in
      (
        same,
        laws.counted-record_duration _ _ s4
            ∙ laws.counted-perf_counter s3
            ∙ counts
            ∙ ap (λ c. c + if_returned r n) (keeps_counted s1 ∙ laws.counted-perf_counter s),
        laws.recorded-record_duration _ _ s4
            ∙ ap (λ c. c + 1)
                (laws.recorded-perf_counter s3
                  ∙ records
                  ∙ keeps_recorded s1
                  ∙ laws.recorded-perf_counter s),
      )

-- The measured handler gives the result, the exception or the cancellation of the handler, which runs once the clock
-- is read. Its duration is recorded once, however it ends; the message is counted if and only if it
-- returned. The handler must not use the two instruments itself.
pub metrics_middleware_lem :
    {Time B : Type 0} (meter : Meter Time B) (laws : MeterLaws (on_world meter)) (system : String)
    (topic_from_metadata : Option String) (handler : HandlerFunc B) (msg : ℕ) (w : World B)
    → Keeps laws.counted (handler msg)
    → Keeps laws.recorded (handler msg)
    → let r = (handler msg ((on_world meter).perf_counter w).1).0 in
      let (r', w') = metrics_middleware meter system topic_from_metadata handler msg w in
      (r' ≡ r)
      × (laws.counted w' ≡ laws.counted w + if_returned r 1)
      × (laws.recorded w' ≡ laws.recorded w + 1)
unfolding metrics_middleware
metrics_middleware_lem meter laws system topic_from_metadata handler msg w keeps_counted
      keeps_recorded =
    timed_lem (on_world meter) laws 1
      (process_attributes meter system (topic_in topic_from_metadata (w.heap msg))) (handler msg) w
      keeps_counted keeps_recorded
