-- ===== src/Cqrs/Routers.antt =====
-- packages/natricine/src/natricine/cqrs/router.py: handlers collected for a later `include_router`.
use natricine.Prelude.{List, [], ◌∷◌, ◌++◌, Option, none, some}
use natricine.Prelude.Dict.{Dict, get, put}
use natricine.Runtime.{ok, Exec, lift, ◌>>=◌}
use natricine.Cqrs.Types.{PyType, type_eq, Func, handled_type}

-- `_handlers` of a CommandRouter and of an EventRouter.
abbrev pub CommandRouter : Type 0 → Type 0 → Type 0
CommandRouter V S = Dict PyType (Func V S)

abbrev pub EventRouter : Type 0 → Type 0 → Type 0
EventRouter V S = Dict PyType (List (Func V S))

-- `d[t].append(f)` after `if t not in d: d[t] = []`
abbrev pub listed_for : {A : Type 0} → Option (List A) → List A
listed_for none = []
listed_for (some fs) = fs

module _ {V S : Type 0} where
  unfoldable pub command_handler : Func V S → Exec (CommandRouter V S) (Func V S)
  command_handler f = lift (handled_type f) >>= λ t. λ router. (ok f, put t f router)

  unfoldable pub event_handler : Func V S → Exec (EventRouter V S) (Func V S)
  event_handler f = lift (handled_type f) >>= λ t.
      λ router. (ok f, put t (listed_for (get t router) ++ f ∷ []) router)
