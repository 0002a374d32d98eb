-- ===== src/Cqrs/Depends/Graph.antt =====
-- `resolve_dependencies` of packages/natricine/src/natricine/cqrs/depends.py on functions that are objects: a
-- dependency is a reference, so that functions can depend on one another in a circle. The fuel is the number of levels
-- that the recursion may still go down. It is the model's own: `out_of_fuel` is no exception of the code. Python's limit
-- of the stack, and the RecursionError of `get_type_hints` that `except Exception` swallows there, are not modelled.
pub mod Ending
mod Examples
use natricine.Prelude.{
  ℕ, zero, suc, String, Bool, true, false, Option, none, some, List, [], ◌∷◌, if◌then◌else◌,
  string_eq,
}
use natricine.Prelude.Dict.{Dict, put, contains}
use natricine.Runtime.{Exn, error, Result, Exec, pure, raise, ◌>>=◌}
use natricine.Cqrs.Types.{PyType}
use natricine.Cqrs.Depends.{hints_or_none}

-- A parameter: its name, and the function of the `Depends` of its annotation and of its default.
pub record Param : Type 0 where
  pub name : String
  pub annotated : Option ℕ
  pub default : Option ℕ

pub record Node (V S : Type 0) : Type 0 where
  pub name : String
  pub coroutine : Bool
  pub hints : Result (Dict String PyType)
  pub params : List Param
  pub body : Dict String V → Exec S V

-- The end of the fuel.
abbrev pub out_of_fuel : Exn
out_of_fuel = error "OutOfFuel" ""

module _ {V S : Type 0} (run_sync : Exec S V → Exec S V) (graph : ℕ → Node V S) where
  abbrev pub run_by : Bool → (Dict String V → Exec S V) → Dict String V → Exec S V
  run_by true body args = body args
  run_by false body args = run_sync (body args)

  -- `recurse` resolves the dependencies of a dependency.
  module _ (recurse : ℕ → Exec S (Dict String V)) where
    abbrev pub inject_at :
        Option ℕ → String → Dict String V → Exec S (Dict String V) → Exec S (Dict String V)
    inject_at none p resolved fallback = fallback
    inject_at (some g) p resolved fallback = do
      nested ← recurse g
      v ← run_by (graph g).coroutine (graph g).body nested
      pure (put p v resolved)

    unfoldable pub params_at :
        List Param → Dict String PyType → Dict String V → Exec S (Dict String V)
    params_at [] hints resolved = pure resolved
    params_at (q ∷ rest) hints resolved =
        if contains q.name resolved then params_at rest hints resolved else do
          resolved' ←
              (if contains q.name hints
                then inject_at q.annotated q.name resolved
                    (inject_at q.default q.name resolved (pure resolved))
                else inject_at q.default q.name resolved (pure resolved))
          params_at rest hints resolved'

  unfoldable pub resolve_at : ℕ → ℕ → Dict String V → Exec S (Dict String V)
  resolve_at zero f provided = raise out_of_fuel
  resolve_at (suc depth) f provided =
      params_at (λ g. resolve_at depth g []) (graph f).params (hints_or_none (graph f).hints)
        provided
