-- ===== src/Router/Examples.antt =====
-- Tests of the package router, and its theorems at concrete inputs.
use natricine.Prelude.{
  ℕ, suc, ◌+◌, ◌*◌, ◌≡◌, refl, false, true, none, some, List, [], ◌∷◌, ◌++◌, arith, leb, nat_eq,
  string_eq, if◌then◌else◌,
}
use natricine.Prelude.Int.{pos, negsuc}
use natricine.Runtime.{Exn, error, ok, err}
use natricine.Pubsub.Message.{Message, fresh, nack_after_ack, ack, nack}
use natricine.Pubsub.World.{World, Publisher, ack_at, nack_at}
use natricine.Pubsub.World.Settled.{IsSettledAt}
use natricine.Router.Types.{HandlerFunc, Middleware, Handler, External}
use natricine.Router.Middleware.Retry.{
  RetryConfig, retry, retry_failed, pause, should_retry, loop, give_up,
}
use natricine.Router.Middleware.Retry.Runs.{Fails, none_yet, again, retry_ends}
use natricine.Router.Middleware.Poison.{PoisonConfig, poison_queue}
use natricine.Router.Middleware.Poison.Burial.{poison_after_retries}
use natricine.Router.Core.{Router, Run, stopped, build_chain, handle_message, guarded, attempt}
use natricine.Router.Core.Chain.{build_chain-eq-compose}
use natricine.Router.Core.Settling.{handle_message-IsSettled}
use natricine.Router.Core.Outcomes.{Settlement, settlement, publish_failure_masked, own_ack_raises}

-- The backend counts the calls of the handler and keeps what was published.
record Backend : Type 0 where
  handled : ℕ
  published : List (List ℕ)

abbrev W : Type 0
W = World Backend

abbrev libraries : External Backend
libraries = record {
  Float = ℕ;
  le_zero = λ a. leb a 0;
  neg = λ a. a;
  add = λ a b. a + b;
  mul = λ a b. a * b;
  uniform = λ a b env. (a, env);
  sleep = λ d env. (ok tt, env);
  fail_after = λ d act. act;
  uuid4 = λ env. (11, env);
  format_exc = λ e env. "Traceback";
  log_exception = λ uuid env. env;
}

abbrev payloads : List (Message Backend) → List (List ℕ)
payloads [] = []
payloads (m ∷ ms) = m.payload ∷ payloads ms

abbrev keeper : Publisher Backend
keeper = record {
  publish = λ topic ms env. (ok tt, record env { published = env.published ++ payloads ms });
  close = λ env. (ok tt, env);
}

abbrev boom : Exn
boom = error "ConnectionError" "boom"

abbrev tick : W → W
tick w = record w { env = record w.env { handled = suc w.env.handled } }

-- It fails on the first two calls.
abbrev flaky : HandlerFunc Backend
flaky msg w = if leb 2 w.env.handled then (ok none, tick w) else (err boom, tick w)

abbrev start : W
start = record {
  heap = λ _. fresh (5 ∷ []) (("_topic", "orders") ∷ ("k", "v") ∷ []) 7;
  env = record { handled = 0; published = [] };
}

abbrev three : RetryConfig libraries
three = record {
  max_retries = pos 3;
  delay = 1;
  backoff = 2;
  jitter = 0;
  retry_on = none;
  on_retry = none;
}

two_failures : Fails libraries three flaky 0 start 2 4 (tick (tick start))
unfolding should_retry pause
two_failures = again boom (again boom none_yet refl refl refl) refl refl refl

retry_ends_example : retry libraries three flaky 0 start ≡ (ok none, tick (tick (tick start)))
retry_ends_example =
    retry_ends libraries three flaky 0 3 (ok none) (tick (tick (tick start))) refl two_failures
      (omega arith) refl tt

calls : W → ℕ
calls w = w.env.handled

-- A negative number of retries calls the handler never.
no_rounds :
    retry libraries (record three { max_retries = negsuc 0 }) flaky 0 start
    ≡ (err retry_failed, start)
unfolding retry loop give_up
no_rounds = refl

abbrev graveyard : PoisonConfig Backend
graveyard = record {
  publisher = keeper;
  topic = "poison";
  handler_name = "h";
  subscriber_name = "";
  catch = λ e. true;
  include_traceback = false;
  on_poison = none;
}

abbrev one_retry : RetryConfig libraries
one_retry = record three { max_retries = pos 1 }

-- The first attempt fails and is retried, and the second fails too.
one_failure : Fails libraries one_retry flaky 0 start 1 2 (tick start)
unfolding should_retry pause
one_failure = again boom none_yet refl refl refl

poison_after_retries_example :
    poison_queue libraries graveyard (retry libraries one_retry flaky) 0 start ≡ (
      ok none,
      record (tick (tick start)) { env = record { handled = 2; published = (5 ∷ []) ∷ [] } },
    )
poison_after_retries_example =
    poison_after_retries libraries graveyard one_retry flaky 0 1 boom
      (record { handled = 2; published = (5 ∷ []) ∷ [] }) refl refl one_failure refl refl refl

abbrev plain_handler : Handler ℕ Backend
plain_handler = record {
  name = "h";
  subscriber = 0;
  subscribe_topic = "orders";
  handler_func = flaky;
  publisher = some keeper;
  publish_topic = some "out";
  middlewares = (λ f. f) ∷ [];
}

abbrev retries : Middleware Backend
retries = retry libraries three

abbrev router : Router ℕ Backend
router = record {
  handlers = plain_handler ∷ [];
  middlewares = poison_queue libraries graveyard ∷ retries ∷ [];
}

build_chain-eq-compose_example :
    build_chain router plain_handler
    ≡ poison_queue libraries graveyard (retry libraries three flaky)
build_chain-eq-compose_example = build_chain-eq-compose router plain_handler

abbrev going : Run Backend
going = record { flags = record stopped { running = true; in_flight = 2 }; world = start }

handle_message-IsSettled_example :
    IsSettledAt 0 (handle_message plain_handler flaky 0 going).1.world
unfolding handle_message guarded attempt nack_at nack
handle_message-IsSettled_example = handle_message-IsSettled plain_handler flaky 0 going (λ e. cc)

settlement_example :
    Settlement plain_handler flaky 0
      (err boom)
      (tick start)
      (handle_message plain_handler flaky 0 going).0
      (handle_message plain_handler flaky 0 going).1.world
settlement_example =
    settlement plain_handler flaky 0 going (err boom) (tick start) refl refl (refl, refl)

-- A handler that acks its message, and has an output.
acking : HandlerFunc Backend
acking msg w = let (r, v) = ack_at msg w in (ok (some (fresh [] [] 8 ∷ [])), v)

own_ack_raises_example :
    ((handle_message plain_handler acking 0 going).0 ≡ err nack_after_ack)
    × ((handle_message plain_handler acking 0 going).1.world.heap 0
        ≡ record (start.heap 0) { acked = true })
    × ((handle_message plain_handler acking 0 going).1.world.env ≡ start.env)
unfolding acking ack_at ack
own_ack_raises_example =
    own_ack_raises plain_handler acking 0 going (ack_at 0 start).1 (some (fresh [] [] 8 ∷ [])) refl
      refl refl refl

abbrev broken : Publisher Backend
broken = record { publish = λ topic ms env. (err boom, env); close = λ env. (ok tt, env) }

abbrev with_output : HandlerFunc Backend
with_output msg w = (ok (some (fresh [] [] 8 ∷ [])), w)

publish_failure_masked_example :
    ((handle_message (record plain_handler { publisher = some broken }) with_output 0 going).0
      ≡ err nack_after_ack)
    × (((handle_message
            (record plain_handler { publisher = some broken })
            with_output
            0
            going).1.world.heap
          0).acked
        ≡ true)
unfolding ack_at ack
publish_failure_masked_example =
    publish_failure_masked (record plain_handler { publisher = some broken }) with_output 0 going
      start broken "out" (fresh [] [] 8) [] boom refl refl refl refl refl (refl, refl) refl refl
