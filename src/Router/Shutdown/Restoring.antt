-- ===== src/Router/Shutdown/Restoring.antt =====
-- The handlers of the signals, after the shutdown block.
use natricine.Prelude.{
  ℕ, ◌≡◌, refl, sym, ap, ◌∙◌, Bool, true, false, Bool-cases, inl, inr, ◌==◌, nat_eq, eq_iff,
  eq_refl, if◌then◌else◌, if_elim, Option, none, some, List, [], ◌∷◌, Listed, is_some, or_default,
}
use natricine.Prelude.Dict.{
  Dict, get, put, get-put, contains, HasKeysOnce, contains-put, put-HasKeysOnce,
}
use natricine.Runtime.{Exn, ok, err, Exec}
use natricine.Router.Shutdown.{
  Signals, install_one, install, restore_one, restore, shutdown_watcher, graceful_shutdown,
}

-- No signal is given twice.
abbrev pub AreOnce : List ℕ → Type 0
AreOnce [] = Unit
AreOnce (sig ∷ signals) = (Listed sig signals → ⊥) × AreOnce signals

differs :
    (j sig : ℕ) (signals : List ℕ)
    → Listed j signals
    → (Listed sig signals → ⊥)
    → (j == sig) ≡ false
differs j sig signals l new = elim (Bool-cases (j == sig)) [
  | inl same ↦ let no : ⊥ = new (rw (sym ((eq_iff j sig).0 same)) l) in elim no [ ]
  | inr other ↦ other
]

module _ {H B : Type 0} (os : Signals H B) where
  abbrev pub changed : ℕ → H → (ℕ → H) → ℕ → H
  changed sig h handlers j = if sig == j then h else handlers j

  -- What Python documents of signals: `handlers env` are those in place. A signal is supported or not; setting a
  -- supported one returns its handler, and for another nothing changes and ValueError or OSError is raised.
  pub record SignalLaws : Type 0 where
    pub handlers : B → ℕ → H
    pub is_supported : ℕ → Bool
    pub signal_sets :
        (sig : ℕ) (h : H) (env : B)
        → is_supported sig ≡ true
        → ((os.signal sig h env).0 ≡ ok (handlers env sig))
          × (handlers (os.signal sig h env).1 ≡ changed sig h (handlers env))
    pub signal_fails :
        (sig : ℕ) (h : H) (env : B)
        → is_supported sig ≡ false
        → (e : Exn) × ((os.signal sig h env).0 ≡ err e)
          × (os.is_unsupported e ≡ true)
          × (handlers (os.signal sig h env).1 ≡ handlers env)

  module _ (laws : SignalLaws) (before : ℕ → H) where
    -- What was kept, and what is in place where nothing was, are the handlers from before.
    record IsKept (original : Dict ℕ H) (now : ℕ → H) : Type 0 where
      kept : (j : ℕ) → or_default (now j) (get j original) ≡ before j
      supported : (j : ℕ) → contains j original ≡ true → laws.is_supported j ≡ true
      once : HasKeysOnce original

    -- Putting back all that was kept gives the handlers from before, and raises nothing.
    abbrev Restores : Dict ℕ H → Type 0
    Restores original =
        (env : B)
        → IsKept original (laws.handlers env)
        → ((restore os original env).0 ≡ ok tt)
          × ((j : ℕ) → laws.handlers (restore os original env).1 j ≡ before j)

    restore_one_lem :
        (sig : ℕ) (h : H) (env : B)
        → laws.is_supported sig ≡ true
        → ((restore_one os sig h env).0 ≡ ok tt)
          × (laws.handlers (restore_one os sig h env).1 ≡ changed sig h (laws.handlers env))
    restore_one_lem sig h env works =
        let (set, now) = laws.signal_sets sig h env works in (rw set refl, rw set now)

    default_absent : (o : Option H) (a : H) → is_some o ≡ false → or_default a o ≡ a
    default_absent none a h = refl
    default_absent (some b) a h = cc h

    absent :
        (k j : ℕ) (o : Dict ℕ H) (a : H)
        → (k == j) ≡ true
        → contains k o ≡ false
        → or_default a (get j o) ≡ a
    absent k j o a same free =
        default_absent (get j o) a (ap (λ i. contains i o) (sym ((eq_iff k j).0 same)) ∙ free)

    rest-IsKept :
        (sig : ℕ) (h : H) (o : Dict ℕ H) (now : ℕ → H)
        → IsKept ((sig, h) ∷ o) now
        → IsKept o (changed sig h now)
    unfolding get
    rest-IsKept sig h o now is_kept = record {
      kept = λ j. elim (Bool-cases (sig == j)) [
        | inl same ↦
            let set : changed sig h now j ≡ h = rw same refl in
            absent sig j o (changed sig h now j) same is_kept.once.0
            ∙ set
            ∙ (rw same at (is_kept.kept j))
        | inr other ↦ rw other (rw other at (is_kept.kept j))
      ];
      supported = λ j here.
          is_kept.supported j
            (if_elim (λ (x : Option H). is_some x ≡ true) (sig == j) (λ _. refl) (λ _. here));
      once = is_kept.once.1;
    }

    restore_lem : (original : Dict ℕ H) → Restores original
    unfolding restore get
    restore_lem [] env is_kept = (refl, is_kept.kept)
    restore_lem ((sig, h) ∷ o) env is_kept =
        let (done, now) =
          restore_one_lem sig h env (is_kept.supported sig (rw (eq_refl sig) refl)) in
        let env' = (restore_one os sig h env).1 in
        let later : IsKept o (laws.handlers env') =
          rw now (rest-IsKept sig h o (laws.handlers env) is_kept) in
        rw done (restore_lem o env' later)

    install_one_ok :
        (sig : ℕ) (o : Dict ℕ H) (env : B)
        → laws.is_supported sig ≡ true
        → contains sig o ≡ false
        → IsKept o (laws.handlers env)
        → ((install_one os sig o env).0 ≡ ok (put sig (laws.handlers env sig) o))
          × IsKept (put sig (laws.handlers env sig) o) (laws.handlers (install_one os sig o env).1)
    install_one_ok sig o env works free is_kept =
        let (set, now) = laws.signal_sets sig os.handle_signal env works in
        let old = laws.handlers env sig in
        (
          rw set refl,
          rw set (
              rw now (record {
                kept = λ j. rw (get-put sig j old o) (elim (Bool-cases (sig == j)) [
                  | inl same ↦ rw same (
                      sym (default_absent (get sig o) old free)
                      ∙ is_kept.kept sig
                      ∙ ap before ((eq_iff sig j).0 same))
                  | inr other ↦ rw other (is_kept.kept j)
                ]);
                supported = λ j here.
                    (let entered = rw (get-put sig j old o) at here in
                      elim (Bool-cases (sig == j)) [
                        | inl same ↦ ap laws.is_supported (sym ((eq_iff sig j).0 same)) ∙ works
                        | inr other ↦ is_kept.supported j (rw other at entered)
                      ]);
                once = put-HasKeysOnce sig old o is_kept.once;
              })),
        )

    install_one_unsupported :
        (sig : ℕ) (o : Dict ℕ H) (env : B)
        → laws.is_supported sig ≡ false
        → IsKept o (laws.handlers env)
        → ((install_one os sig o env).0 ≡ ok o)
          × IsKept o (laws.handlers (install_one os sig o env).1)
    install_one_unsupported sig o env fails is_kept =
        let (e, raised, caught, now) = laws.signal_fails sig os.handle_signal env fails in
        (rw (raised, caught) refl, rw (raised, caught) (rw now is_kept))

    -- Installing the handlers returns what was in place.
    abbrev Installs : List ℕ → Type 0
    Installs signals =
        (o : Dict ℕ H) (env : B)
        → AreOnce signals
        → ((j : ℕ) → Listed j signals → contains j o ≡ false)
        → IsKept o (laws.handlers env)
        → (o' : Dict ℕ H) × ((install os signals o env).0 ≡ ok o')
          × IsKept o' (laws.handlers (install os signals o env).1)

    install_lem : (signals : List ℕ) → Installs signals
    unfolding install
    install_lem [] o env once free is_kept = (o, refl, is_kept)
    install_lem (sig ∷ signals) o env (new, once) free is_kept =
        elim (Bool-cases (laws.is_supported sig)) [
          | inl works ↦
              let old = laws.handlers env sig in
              let (done, kept) = install_one_ok sig o env works (free sig (inl refl)) is_kept in
              rw done (
                install_lem signals (put sig old o) (install_one os sig o env).1 once
                  (λ j l. contains-put j sig old o (differs j sig signals l new) (free j (inr l)))
                  kept)
          | inr fails ↦
              let (done, kept) = install_one_unsupported sig o env fails is_kept in
              rw done (
                install_lem signals o (install_one os sig o env).1 once (λ j l. free j (inr l))
                  kept)
        ]

  -- The shutdown block puts back the handler of every signal, whatever became of the block: with a return, an
  -- exception or a cancellation, which it passes on. No signal may be given twice, and the block must leave
  -- the handlers as they are.
  pub graceful_shutdown_lem :
      (laws : SignalLaws) (signals : List ℕ) (closeables : List (Exec B (Unit {0})))
      (block : Exec B (Unit {0})) (env : B)
      → AreOnce signals
      → ((now : B)
          → laws.handlers (os.task_group (shutdown_watcher os closeables) block now).1
            ≡ laws.handlers now)
      → let installed = (install os signals [] env).1 in
        let (r, env') = graceful_shutdown os signals closeables block env in
        (r ≡ (os.task_group (shutdown_watcher os closeables) block installed).0)
        × ((sig : ℕ) → laws.handlers env' sig ≡ laws.handlers env sig)
  unfolding graceful_shutdown get
  graceful_shutdown_lem laws signals closeables block env once keeps =
      let before = laws.handlers env in
      let (o, done, is_kept) =
        install_lem laws before signals [] env once (λ j l. refl)
          (record { kept = λ j. refl; supported = λ j here. cc here; once = tt }) in
      let installed = (install os signals [] env).1 in
      let ended = (os.task_group (shutdown_watcher os closeables) block installed).1 in
      let still : IsKept laws before o (laws.handlers ended) = rw (keeps installed) is_kept in
      let (restored, back) = restore_lem laws before o ended still in
      rw (done, restored) (refl, back)
