-- ===== src/Cqrs/Examples.antt =====
-- Tests of the package cqrs, and its theorems at concrete inputs.
use natricine.Prelude.{ℕ, suc, String, ◌≡◌, refl, true, none, some, List, [], ◌∷◌, string_eq}
use natricine.Prelude.Dict.{Dict, get, put}
use natricine.Runtime.{error, Result, ok, err, Exec}
use natricine.Pubsub.Message.{fresh, ack}
use natricine.Pubsub.World.{World, Publisher, ack_at}
use natricine.Pubsub.World.Settled.{IsSettledAt}
use natricine.Router.Core.{Run, stopped}
use natricine.Cqrs.Types.{
  PyType, type_eq, Func, func, nil, param, absent, depends, Marshaler, handled_type, no_parameter,
  first_param_name,
}
use natricine.Cqrs.Depends.{resolve, call, call_with_deps}
use natricine.Cqrs.Depends.Resolution.{resolve_lem, Extends, Filled}
use natricine.Cqrs.Handling.{Config}
use natricine.Cqrs.CommandBus
use natricine.Cqrs.CommandBus.Dispatch.{process_message-IsSettled, processed, Processed}
use natricine.Cqrs.Interleaving.{Tasks, IsDrained, Steps, here, next, arrive, begin}
use natricine.Cqrs.Interleaving.Draining.{close_leaves_pending}

abbrev W : Type 0
W = World ℕ

abbrev create_user : PyType
create_user = record { id = 1; name = "CreateUser" }

-- A dependency that counts its calls on the backend, and a handler that asks for it.
abbrev database : Func ℕ W
database = func "get_database" true (ok []) nil (λ args w. (ok 40, record w { env = suc w.env }))

abbrev on_create : Func ℕ W
on_create =
    func "on_create" true (ok (("cmd", create_user) ∷ []))
      (param "cmd" absent absent (param "db" absent (depends database) nil)) (λ args w. (ok 0, w))

handled_types :
    (handled_type on_create ≡ ok create_user)
    × (handled_type database ≡ err (no_parameter "get_database"))
unfolding handled_type get
handled_types = (refl, refl)

abbrev world : W
world = record { heap = λ _. fresh (9 ∷ []) [] 7; env = 0 }

abbrev in_thread : Exec W ℕ → Exec W ℕ
in_thread act = act

abbrev provided : Dict String ℕ
provided = ("cmd", 9) ∷ []

resolve_lem_example :
    Extends in_thread provided (("cmd", 9) ∷ ("db", 40) ∷ [])
    × Filled in_thread []
        (param "cmd" absent absent (param "db" absent (depends database) nil))
        provided
        (("cmd", 9) ∷ ("db", 40) ∷ [])
unfolding resolve call get put
resolve_lem_example =
    resolve_lem in_thread "f" true (ok [])
      (param "cmd" absent absent (param "db" absent (depends database) nil)) (λ args w. (ok 0, w))
      provided (("cmd", 9) ∷ ("db", 40) ∷ []) world ((refl, tt), (tt, tt)) refl

abbrev head : List ℕ → Result ℕ
head [] = err (error "ValueError" "")
head (v ∷ vs) = ok v

abbrev numbers : Marshaler ℕ
numbers = record {
  marshal = λ v. ok (v ∷ []);
  unmarshal = λ data_ t. head data_;
  name = λ t. t.name;
}

abbrev silent : Publisher ℕ
silent = record { publish = λ topic ms env. (ok tt, suc env); close = λ env. (ok tt, env) }

abbrev settings : Config ℕ ℕ ℕ
settings = record {
  publisher = silent;
  subscriber = none;
  subscriber_factory = some (λ name. 5);
  marshaler = numbers;
  generate_topic = none;
  topic_prefix = "command.";
}

abbrev commands : CommandBus.Registry ℕ ℕ
commands = record {
  handlers = (create_user, on_create) ∷ [];
  prefixes = (create_user, "users.") ∷ [];
}

default_topic : CommandBus.topic_for_type settings commands create_user ≡ "command.users.CreateUser"
unfolding CommandBus.topic_for_type get
default_topic = refl

abbrev going : Run ℕ
going = record { flags = record stopped { running = true }; world = world }

process_message-IsSettled_example :
    IsSettledAt 0
      (CommandBus.process_message settings in_thread 0 create_user on_create going).1.world
unfolding CommandBus.process_message CommandBus.attempt CommandBus.invoke call_with_deps resolve
    call get put first_param_name ack_at ack
process_message-IsSettled_example =
    (process_message-IsSettled settings in_thread 0 create_user on_create going).0 (λ e. cc)

processed_example :
    Processed settings in_thread 0 create_user on_create
      (ok 0)
      (record world { env = 1 })
      (CommandBus.process_message settings in_thread 0 create_user on_create going).0
      (CommandBus.process_message settings in_thread 0 create_user on_create going).1.world
unfolding CommandBus.invoke call_with_deps resolve call get put first_param_name
processed_example =
    processed settings in_thread 0 create_user on_create going (ok 0) (record world { env = 1 })
      refl (refl, refl)

abbrev idle : Tasks
idle = record { flags = record stopped { running = true }; pending = []; busy = []; refused = [] }

abbrev one_busy : Tasks
one_busy = record idle { flags = record stopped { running = true; in_flight = 1 }; busy = 3 ∷ [] }

steps : Steps idle one_busy
steps = next (next here (arrive 3 refl)) (begin 3 [] [] refl)

abbrev closing : Tasks
closing = record one_busy {
  flags = record stopped { running = true; closing = true; in_flight = 1 };
}

close_leaves_pending_example :
    (t : Tasks) × Steps idle t × IsDrained t × (t.flags.closing ≡ true) × (t.pending ≡ 8 ∷ [])
close_leaves_pending_example = close_leaves_pending idle 8 refl refl refl
