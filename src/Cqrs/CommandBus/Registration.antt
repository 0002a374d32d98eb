-- ===== src/Cqrs/CommandBus/Registration.antt =====
-- Which handler a command type has after handlers and routers were added.
use natricine.Prelude.{
  String, ◌≡◌, refl, ◌∙◌, true, false, Option, none, some, [], ◌∷◌, ◌++◌, arith, eq_iff,
}
use natricine.Prelude.Dict.{Dict, get, put, contains, get-put}
use natricine.Runtime.{ok, err}
use natricine.Pubsub.World.{World}
use natricine.Cqrs.Types.{PyType, type_eq, Func}
use natricine.Cqrs.CommandBus.{Registry, include_router, already_registered, set_prefix}

abbrev pub or_else : {A : Type 0} → Option A → Option A → Option A
or_else (some a) o = some a
or_else none o = o

module _ {V B : Type 0} where
  -- No type of the router has a handler yet, and none is listed twice, as in every dictionary.
  abbrev pub IsNew : Dict PyType (Func V (World B)) → Dict PyType (Func V (World B)) → Type 0
  IsNew [] handlers = Unit
  IsNew ((t, f) ∷ fs) handlers =
      (contains t handlers ≡ false) × (contains t fs ≡ false) × IsNew fs handlers

  -- The handler that is looked up first in the router and then in the bus.
  abbrev pub either_handler :
      PyType
      → Dict PyType (Func V (World B))
      → Dict PyType (Func V (World B))
      → Option (Func V (World B))
  either_handler t fs handlers = or_else (get t fs) (get t handlers)

  handlers-set_prefix :
      (t : PyType) (prefix : String) (r : Registry V B)
      → (set_prefix t prefix r).handlers ≡ r.handlers
  handlers-set_prefix t prefix r = ground arith

  IsNew-put :
      (fs handlers : Dict PyType (Func V (World B))) (t : PyType) (f : Func V (World B))
      → contains t fs ≡ false
      → IsNew fs handlers
      → IsNew fs (put t f handlers)
  unfolding get
  IsNew-put [] handlers t f other new = tt
  IsNew-put ((u, g) ∷ fs) handlers t f other (fresh, once, new) = (
    rw get-put (ground (arith, eq_iff u t, eq_iff t u)),
    once,
    IsNew-put fs handlers t f (ground (arith, eq_iff u t)) new,
  )

  -- The bus after one handler of a router was added.
  abbrev added : PyType → Func V (World B) → String → Registry V B → Registry V B
  added t f prefix r = set_prefix t prefix (record r { handlers = put t f r.handlers })

  include_router_step :
      (t : PyType) (f : Func V (World B)) (fs : Dict PyType (Func V (World B))) (prefix : String)
      (r : Registry V B)
      → contains t r.handlers ≡ false
      → include_router ((t, f) ∷ fs) prefix r ≡ include_router fs prefix (added t f prefix r)
  unfolding include_router
  include_router_step t f fs prefix r fresh = rw fresh

  either-added :
      (t u : PyType) (f : Func V (World B)) (fs : Dict PyType (Func V (World B))) (prefix : String)
      (r : Registry V B)
      → contains t fs ≡ false
      → either_handler u fs (added t f prefix r).handlers
        ≡ either_handler u ((t, f) ∷ fs) r.handlers
  unfolding get
  either-added t u f fs prefix r once =
      rw (handlers-set_prefix t prefix (record r { handlers = put t f r.handlers }), get-put)
        (ground (arith, eq_iff t u))

  IsNew-added :
      (t : PyType) (f : Func V (World B)) (fs : Dict PyType (Func V (World B))) (prefix : String)
      (r : Registry V B)
      → contains t fs ≡ false
      → IsNew fs r.handlers
      → IsNew fs (added t f prefix r).handlers
  IsNew-added t f fs prefix r once new =
      rw (handlers-set_prefix t prefix (record r { handlers = put t f r.handlers }))
        (IsNew-put fs r.handlers t f once new)

  contains-added :
      (t u : PyType) (f : Func V (World B)) (prefix : String) (r : Registry V B)
      → contains u r.handlers ≡ true
      → contains u (added t f prefix r).handlers ≡ true
  contains-added t u f prefix r taken =
      rw (handlers-set_prefix t prefix (record r { handlers = put t f r.handlers }), get-put)
        (ground arith)

  -- A router whose types are all new is included whole: the call returns, and each type then has the
  -- router's handler, or the one that it had.
  pub include_router_new :
      (fs : Dict PyType (Func V (World B))) (prefix : String) (r : Registry V B)
      → IsNew fs r.handlers
      → ((include_router fs prefix r).0 ≡ ok tt)
        × ((t : PyType)
            → get t (include_router fs prefix r).1.handlers ≡ either_handler t fs r.handlers)
  unfolding include_router get
  include_router_new [] prefix r new = (refl, λ t. refl)
  include_router_new ((t, f) ∷ fs) prefix r (fresh, once, new) =
      let (ran, found) =
        include_router_new fs prefix (added t f prefix r) (IsNew-added t f fs prefix r once new) in
      rw (include_router_step t f fs prefix r fresh)
        (ran, λ u. found u ∙ either-added t u f fs prefix r once)

  -- Where a type of the router has a handler already, the call raises ValueError, and the handlers
  -- that stand before that type in the router have been registered all the same.
  pub include_router_conflict :
      (before after : Dict PyType (Func V (World B))) (t : PyType) (f : Func V (World B))
      (prefix : String) (r : Registry V B)
      → IsNew before r.handlers
      → contains t before ≡ false
      → contains t r.handlers ≡ true
      → ((include_router (before ++ (t, f) ∷ after) prefix r).0 ≡ err (already_registered t))
        × ((u : PyType)
            → get u (include_router (before ++ (t, f) ∷ after) prefix r).1.handlers
              ≡ either_handler u before r.handlers)
  unfolding include_router get
  include_router_conflict [] after t f prefix r new other taken = rw taken (refl, λ u. refl)
  include_router_conflict ((u, g) ∷ before) after t f prefix r (fresh, once, new) other taken =
      let (raised, found) =
        include_router_conflict before after t f prefix (added u g prefix r)
          (IsNew-added u g before prefix r once new) (ground arith)
          (contains-added u t g prefix r taken) in
      rw (include_router_step u g (before ++ (t, f) ∷ after) prefix r fresh)
        (raised, λ v. found v ∙ either-added u v g before prefix r once)
