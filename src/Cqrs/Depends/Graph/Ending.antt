-- ===== src/Cqrs/Depends/Graph/Ending.antt =====
-- Where the resolution of dependencies ends.
use natricine.Prelude.{ℕ, zero, suc, ◌<◌, ◌≡◌, Option, none, some, List, [], ◌∷◌, All, string_eq}
use natricine.Prelude.Dict.{Dict}
use natricine.Runtime.{Exec}
use natricine.Cqrs.Types.{Func, func, Params, nil, param, Depends, absent, depends}
use natricine.Cqrs.Depends.{resolve}
use natricine.Cqrs.Depends.Graph.{Param, Node, resolve_at}

module _ {V S : Type 0} (run_sync : Exec S V → Exec S V) (graph : ℕ → Node V S) where
  -- The tree that a function stands at the root of, down to a depth.
  abbrev depends_on : (ℕ → Func V S) → Option ℕ → Depends V S
  depends_on tree none = absent
  depends_on tree (some g) = depends (tree g)

  abbrev params_on : (ℕ → Func V S) → List Param → Params V S
  params_on tree [] = nil
  params_on tree (q ∷ rest) =
      param q.name (depends_on tree q.annotated) (depends_on tree q.default) (params_on tree rest)

  abbrev func_of : Node V S → Params V S → Func V S
  func_of n ps = func n.name n.coroutine n.hints ps n.body

  unfoldable pub tree_of : ℕ → ℕ → Func V S
  tree_of zero f = func_of (graph f) nil
  tree_of (suc depth) f = func_of (graph f) (params_on (tree_of depth) (graph f).params)

  module _ (rank : ℕ → ℕ) where
    abbrev IsBelow : ℕ → Option ℕ → Type 0
    IsBelow k none = Unit
    IsBelow k (some g) = rank g < k

    -- The functions that the parameters depend on have a lower rank.
    abbrev AreBelow : ℕ → List Param → Type 0
    AreBelow k = All (λ q. IsBelow k q.annotated × IsBelow k q.default)

    -- Down to a depth the two resolutions agree on the functions of a rank below it.
    abbrev Agrees : ℕ → ℕ → Type 0
    Agrees depth k =
        (g : ℕ)
        → rank g < k
        → resolve_at run_sync graph depth g [] ≡ resolve run_sync (tree_of depth g) []

    -- Every function depends only on functions of a lower rank.
    abbrev pub IsRanked : Type 0
    IsRanked = (f : ℕ) → AreBelow (rank f) (graph f).params
