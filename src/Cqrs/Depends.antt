-- ===== src/Cqrs/Depends.antt =====
-- packages/natricine/src/natricine/cqrs/depends.py: dependency injection. The functions that depend on
-- one another form a tree here; Graph has them as objects that may also form a cycle.
pub mod Resolution
pub mod Graph
use natricine.Prelude.{
  String, Bool, true, false, Option, none, some, List, [], ◌∷◌, if◌then◌else◌, string_eq, ◌&&◌,
}
use natricine.Prelude.Dict.{Dict, get, put, contains}
use natricine.Runtime.{Exn, Result, ok, err, cancelled, Exec, pure, ◌>>=◌, continue}
use natricine.Cqrs.Types.{
  PyType, Func, func, Params, nil, param, Depends, absent, depends, hints_of,
}

-- `hints`, which is empty where `get_type_hints` raises
abbrev pub hints_or_none : Result (Dict String PyType) → Dict String PyType
hints_or_none (ok hints) = hints
hints_or_none r = []

-- `run_sync` is anyio.to_thread.run_sync, which runs a function in a worker thread.
module _ {V S : Type 0} (run_sync : Exec S V → Exec S V) where
  -- A coroutine function is awaited, another one runs in a thread.
  unfoldable pub call : Func V S → Dict String V → Exec S V
  call (func name true hints params body) args = body args
  call (func name false hints params body) args = run_sync (body args)

  unfoldable mutual
    -- resolve_dependencies(func, provided)
    pub resolve : Func V S → Dict String V → Exec S (Dict String V)
    resolve (func name coroutine hints params body) provided =
        resolve_params params (hints_or_none hints) provided

    -- the loop over the parameters
    pub resolve_params : Params V S → Dict String PyType → Dict String V → Exec S (Dict String V)
    resolve_params nil hints resolved = pure resolved
    resolve_params (param p annotated default rest) hints resolved =
        if contains p resolved then resolve_params rest hints resolved else do
          resolved' ←
              (if contains p hints
                then inject annotated p resolved (inject default p resolved (pure resolved))
                else inject default p resolved (pure resolved))
          resolve_params rest hints resolved'

    -- The value of a dependency is bound to its parameter; without one the fallback is taken.
    pub inject :
        Depends V S → String → Dict String V → Exec S (Dict String V) → Exec S (Dict String V)
    inject absent p resolved fallback = fallback
    inject (depends f) p resolved fallback = do
      nested ← resolve f []
      v ← call f nested
      pure (put p v resolved)

  unfoldable pub call_with_deps : Func V S → Dict String V → Exec S V
  call_with_deps f provided = do resolved ← resolve f provided; call f resolved
