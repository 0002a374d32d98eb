-- ===== src/Cqrs/Depends/Resolution.antt =====
-- What the resolution of dependencies binds.
use natricine.Prelude.{
  String, ◌≡◌, ap, sym, ◌∙◌, Bool, false, some, [], arith, if◌then◌else◌, string_eq, ◌==◌, eq_iff,
  Bool-cases, inl, inr,
}
use natricine.Prelude.Dict.{Dict, get, put, contains, get-put, get-put_self, contains-put}
use natricine.Runtime.{Result, ok, Exec, pure, ◌>>=◌}
use natricine.Runtime.Laws.{>>=-eq-ok}
use natricine.Cqrs.Types.{PyType, Func, func, Params, nil, param, Depends, absent, depends}
use natricine.Cqrs.Depends.{resolve, resolve_params, inject, call, hints_or_none}

module _ {V S : Type 0} (run_sync : Exec S V → Exec S V) where
  -- All that `old` binds, `new` binds to the same value.
  abbrev pub Extends : Dict String V → Dict String V → Type 0
  Extends old new = (k : String) (v : V) → get k old ≡ some v → get k new ≡ some v

  Extends-put :
      (p : String) (v : V) (d : Dict String V) → contains p d ≡ false → Extends d (put p v d)
  Extends-put p v d new k u bound = rw get-put (ground (arith, eq_iff p k))

  -- A value that a dependency gives: it is called with what its own dependencies are resolved to.
  abbrev pub Gives : Func V S → V → Type 0
  Gives f v =
      (s : S) × (nested : Dict String V) × ((resolve run_sync f [] s).0 ≡ ok nested)
      × ((call run_sync f nested (resolve run_sync f [] s).1).0 ≡ ok v)

  abbrev first_of : Depends V S → Depends V S → Depends V S
  first_of absent default = default
  first_of (depends f) default = depends f

  -- The dependency of a parameter: that of its annotation before that of its default, and only where its
  -- hint is known.
  abbrev pub injected : Dict String PyType → String → Depends V S → Depends V S → Depends V S
  injected hints p annotated default =
      if contains p hints then first_of annotated default else default

  abbrev pub IsBound : String → Dict String V → Depends V S → Type 0
  IsBound p r absent = Unit
  IsBound p r (depends f) = (v : V) × (get p r ≡ some v) × Gives f v

  -- Every parameter that has a dependency and that was not provided is bound to what its dependency gives.
  abbrev pub Filled : Dict String PyType → Params V S → Dict String V → Dict String V → Type 0
  Filled hints nil provided r = Unit
  Filled hints (param p annotated default rest) provided r =
      (contains p provided ≡ false → IsBound p r (injected hints p annotated default))
      × Filled hints rest provided r

  abbrev IsNot : String → Params V S → Type 0
  IsNot p nil = Unit
  IsNot p (param q annotated default rest) = ((q == p) ≡ false) × IsNot p rest

  -- No two parameters of a function have one name.
  abbrev pub AreNamedOnce : Params V S → Type 0
  AreNamedOnce nil = Unit
  AreNamedOnce (param p annotated default rest) = IsNot p rest × AreNamedOnce rest

  -- What one parameter adds, by its dependency.
  abbrev Outcome : String → Dict String V → Dict String V → Depends V S → Type 0
  Outcome p resolved r absent = r ≡ resolved
  Outcome p resolved r (depends f) = (v : V) × (r ≡ put p v resolved) × Gives f v

  inject_lem :
      (f : Func V S) (p : String) (resolved r : Dict String V) (fallback : Exec S (Dict String V))
      (s : S)
      → (inject run_sync (depends f) p resolved fallback s).0 ≡ ok r
      → Outcome p resolved r (depends f)
  unfolding inject
  inject_lem f p resolved r fallback s ran =
      let (nested, one, rest) =
        >>=-eq-ok (resolve run_sync f [])
          (λ nested. call run_sync f nested >>= λ v. pure (put p v resolved)) s ran in
      let t = (resolve run_sync f [] s).1 in
      let (v, two, last) =
        >>=-eq-ok (call run_sync f nested) (λ v. pure (put p v resolved)) t
          (ap (λ r. r.0) (sym rest) ∙ ran) in
      (v, cc (ap (λ r. r.0) rest, ap (λ r. r.0) last, ran), (s, nested, one, two))

  abbrev chosen :
      Dict String PyType
      → String
      → Depends V S
      → Depends V S
      → Dict String V
      → Exec S (Dict String V)
  chosen hints p annotated default resolved =
      if contains p hints
      then inject run_sync annotated p resolved (inject run_sync default p resolved (pure resolved))
      else inject run_sync default p resolved (pure resolved)

  default-Outcome :
      (d : Depends V S) (p : String) (resolved r : Dict String V) (s : S)
      → (inject run_sync d p resolved (pure resolved) s).0 ≡ ok r
      → Outcome p resolved r d
  unfolding inject
  default-Outcome absent p resolved r s ran = cc ran
  default-Outcome (depends f) p resolved r s ran = inject_lem f p resolved r (pure resolved) s ran

  annotated-Outcome :
      (a d : Depends V S) (p : String) (resolved r : Dict String V) (s : S)
      → (inject run_sync a p resolved (inject run_sync d p resolved (pure resolved)) s).0 ≡ ok r
      → Outcome p resolved r (first_of a d)
  unfolding inject
  annotated-Outcome absent d p resolved r s ran = default-Outcome d p resolved r s ran
  annotated-Outcome (depends f) d p resolved r s ran =
      inject_lem f p resolved r (inject run_sync d p resolved (pure resolved)) s ran

  chosen-Outcome :
      (hints : Dict String PyType) (p : String) (a d : Depends V S) (resolved r : Dict String V)
      (s : S)
      → (chosen hints p a d resolved s).0 ≡ ok r
      → Outcome p resolved r (injected hints p a d)
  chosen-Outcome hints p a d resolved r s ran = elim (Bool-cases (contains p hints)) [
    | inl known ↦ rw known (annotated-Outcome a d p resolved r s (rw known at ran))
    | inr unknown ↦ rw unknown (default-Outcome d p resolved r s (rw unknown at ran))
  ]

  -- A binding of another name does not count as a provided argument.
  Filled-put :
      (hints : Dict String PyType) (p : String) (v : V) (ps : Params V S) (d r : Dict String V)
      → IsNot p ps
      → Filled hints ps (put p v d) r
      → Filled hints ps d r
  Filled-put hints p v nil d r others filled = tt
  Filled-put hints p v (param q a b rest) d r (other, others) (bound, filled) =
      ((λ new. bound (contains-put q p v d other new)), Filled-put hints p v rest d r others filled)

  -- One parameter, by what the rest of the loop makes of the bindings.
  step_Filled :
      (x : Depends V S) (hints : Dict String PyType) (p : String) (rest : Params V S)
      (resolved next_ r : Dict String V)
      → contains p resolved ≡ false
      → IsNot p rest
      → Outcome p resolved next_ x
      → Extends next_ r × Filled hints rest next_ r
      → Extends resolved r × IsBound p r x × Filled hints rest resolved r
  step_Filled absent hints p rest resolved next_ r new others same (keeps, filled) =
      ((λ k v h. keeps k v (rw same h)), tt, rw same at filled)
  step_Filled (depends f) hints p rest resolved next_ r new others (v, e, gives) (keeps, filled) =
      let keeps' : Extends (put p v resolved) r = rw e at keeps in
      (
        (λ k u h. keeps' k u (Extends-put p v resolved new k u h)),
        (v, keeps' p v (get-put_self p v resolved), gives),
        Filled-put hints p v rest resolved r others (rw e at filled),
      )

  resolve_params_lem :
      (ps : Params V S) (hints : Dict String PyType) (resolved r : Dict String V) (s : S)
      → AreNamedOnce ps
      → (resolve_params run_sync ps hints resolved s).0 ≡ ok r
      → Extends resolved r × Filled hints ps resolved r
  unfolding resolve_params
  resolve_params_lem nil hints resolved r s once ran = ((λ k v h. cc (ran, h)), tt)
  resolve_params_lem (param p a d rest) hints resolved r s (others, once) ran =
      elim (Bool-cases (contains p resolved)) [
        | inl known ↦
            let (keeps, filled) =
              resolve_params_lem rest hints resolved r s once (rw known at ran) in
            (keeps, ((λ new. cc (known, new)), filled))
        | inr new ↦
            let (next_, one, later) =
              >>=-eq-ok (chosen hints p a d resolved)
                (λ resolved'. resolve_params run_sync rest hints resolved') s (rw new at ran) in
            let (keeps, bound, filled) =
              step_Filled (injected hints p a d) hints p rest resolved next_ r new others
                (chosen-Outcome hints p a d resolved next_ s one)
                (resolve_params_lem rest hints next_ r (chosen hints p a d resolved s).1 once
                  (ap (λ t. t.0) (sym later) ∙ rw new at ran)) in
            (keeps, ((λ _. bound), filled))
      ]

  -- When the dependencies of a function, no two of whose parameters have one name, are resolved, the
  -- arguments that were provided are bound as they were, and every other parameter with a dependency is bound
  -- to a value that calling its dependency with its own dependencies gave: the one of its annotation, if
  -- there is one and its hint is known, and else the one of its default.
  pub resolve_lem :
      (name : String) (coroutine : Bool) (hints : Result (Dict String PyType)) (ps : Params V S)
      (body : Dict String V → Exec S V) (provided r : Dict String V) (s : S)
      → AreNamedOnce ps
      → (resolve run_sync (func name coroutine hints ps body) provided s).0 ≡ ok r
      → Extends provided r × Filled (hints_or_none hints) ps provided r
  unfolding resolve
  resolve_lem name coroutine hints ps body provided r s once ran =
      resolve_params_lem ps (hints_or_none hints) provided r s once ran
