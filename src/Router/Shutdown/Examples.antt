-- ===== src/Router/Shutdown/Examples.antt =====
-- Tests of the shutdown block, and its theorem at a concrete input.
use natricine.Prelude.{
  ℕ, ◌≡◌, refl, String, true, inl, inr, [], ◌∷◌, ◌==◌, nat_eq, if◌then◌else◌, arith,
}
use natricine.Prelude.Dict.{put}
use natricine.Runtime.{error, ok, err, cancelled, Exec}
use natricine.Router.Shutdown.{Signals, graceful_shutdown, install, restore}
use natricine.Router.Shutdown.Restoring.{SignalLaws, AreOnce, graceful_shutdown_lem}

-- The environment is the table of the handlers of signals, each of which is supported.
abbrev Table : Type 0
Table = ℕ → String

abbrev posix : Signals String Table
posix = record {
  signal = λ sig h table. (ok (table sig), λ j. if sig == j then h else table j);
  is_unsupported = λ e. true;
  handle_signal = "handle_signal";
  wait = λ table. (cancelled, table);
  task_group = λ watcher block table. block table;
}

posix_laws : SignalLaws posix
posix_laws = record {
  handlers = λ table. table;
  is_supported = λ sig. true;
  signal_sets = λ sig h table works. (refl, refl);
  signal_fails = λ sig h table fails. cc fails;
}

abbrev defaults : Table
defaults sig = "default"

abbrev broken : Exec Table (Unit {0})
broken table = (err (error "ValueError" "broken"), table)

-- A signal that is given twice keeps the handler of the block.
given_twice : (graceful_shutdown posix (15 ∷ 15 ∷ []) [] broken defaults).1 15 ≡ "handle_signal"
unfolding graceful_shutdown install restore put
given_twice = refl

sigterm_once : AreOnce (15 ∷ 2 ∷ [])
sigterm_once =
    (λ h. elim h [ inl e ↦ omega arith | inr more ↦ elim more [ ] ], (λ h. elim h [ ], tt))

graceful_shutdown_lem_example :
    let (r, table) = graceful_shutdown posix (15 ∷ 2 ∷ []) [] broken defaults in
    (r ≡ err (error "ValueError" "broken")) × ((sig : ℕ) → table sig ≡ "default")
unfolding posix_laws
graceful_shutdown_lem_example =
    graceful_shutdown_lem posix posix_laws (15 ∷ 2 ∷ []) [] broken defaults sigterm_once
      (λ now. refl)
