-- ===== src/Conformance/Memory/Conforming.antt =====
-- InMemoryPubSub and the whole suite.
use natricine.Prelude.{ℕ, ◌≡◌, ◌≤◌, refl, false, arith, All, string_eq}
use natricine.Runtime.{ok}
use natricine.Pubsub.Message.{Message}
use natricine.Pubsub.Memory.{init, subscribe}
use natricine.Pubsub.Memory.Anyio.{Streams}
use natricine.Pubsub.Memory.Channels.{ChannelLaws}
use natricine.Conformance.Suite.{suite, test_subscribe_returns_async_iterator}
use natricine.Conformance.Memory.{World, memory, memory_features}
use natricine.Conformance.Memory.Passing.{
  passes_core, passes_fan_out, passes_acknowledgment, passes_robustness,
}

module _ {B : Type 0} {streams : Streams (Message B)} (laws : ChannelLaws streams)
    (uuid : ℕ → ℕ) where
  iterates :
      (w : World streams)
      → w.0.closed ≡ false
      → (test_subscribe_returns_async_iterator (memory streams) w).0 ≡ ok tt
  unfolding test_subscribe_returns_async_iterator subscribe
  iterates w going = rw going

  -- A new InMemoryPubSub with a buffer of 50 messages or more, over streams as anyio documents them, passes each
  -- test of the suite: none of them raises or is cancelled, so that no assertion fails.
  pub passes_suite :
      (size : ℕ) (env : streams.Env) (b : B)
      → 50 ≤ size
      → All
          (λ test. (test (init size env, b)).0 ≡ ok tt)
          (suite (memory streams) uuid memory_features)
  passes_suite size env b fits =
      let (a, c, d, e, f, g) = passes_core laws uuid size env b (omega (arith, fits)) in
      let h = passes_fan_out laws uuid size env b (omega (arith, fits)) in
      let (j, k, l) = passes_acknowledgment laws uuid size env b (omega (arith, fits)) in
      let (m, n, o) = passes_robustness laws uuid size env b fits in
      (
        a,
        (
          c,
          (
            d,
            (
              e,
              (f, (g, (h, (j, (k, (l, (iterates (init size env, b) refl, (m, (n, (o, tt)))))))))),
            ),
          ),
        ),
      )
