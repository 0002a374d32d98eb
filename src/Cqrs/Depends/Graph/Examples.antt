-- ===== src/Cqrs/Depends/Graph/Examples.antt =====
-- The theorems on graphs of dependencies, at concrete inputs.
use natricine.Prelude.{ℕ, zero, suc, ◌≡◌, refl, String, true, none, some, [], ◌∷◌, string_eq}
use natricine.Prelude.Dict.{Dict, get, put}
use natricine.Runtime.{ok, Exec}
use natricine.Cqrs.Types.{PyType}
use natricine.Cqrs.Depends.Graph.{Node, resolve_at, params_at}

-- A body counts its calls, and gives how many there were before.
abbrev counting : Dict String ℕ → Exec ℕ ℕ
counting args n = (ok n, suc n)

abbrev database : PyType
database = record { id = 1; name = "Database" }

abbrev leaf : Node ℕ ℕ
leaf = record {
  name = "get_settings";
  coroutine = true;
  hints = ok [];
  params = [];
  body = counting;
}

-- A function with one annotated parameter.
abbrev needs : String → ℕ → Node ℕ ℕ
needs name g = record {
  name = name;
  coroutine = true;
  hints = ok (("db", database) ∷ []);
  params = record { name = "db"; annotated = some g; default = none } ∷ [];
  body = counting;
}

-- The handler 2 depends on 1, and 1 on 0.
abbrev chain : ℕ → Node ℕ ℕ
chain zero = leaf
chain (suc zero) = needs "get_database" 0
chain (suc (suc zero)) = needs "handle" 1
chain n = leaf

abbrev in_place : Exec ℕ ℕ → Exec ℕ ℕ
in_place block = block

chain_resolved : resolve_at in_place chain 3 2 [] 0 ≡ (ok (("db", 1) ∷ []), 2)
unfolding resolve_at params_at get put
chain_resolved = refl
