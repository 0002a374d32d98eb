-- ===== src/Router/Shutdown.antt =====
-- packages/natricine/src/natricine/router/shutdown.py, over Python's signals and the task groups of anyio, which are
-- parameters.
pub mod Restoring
mod Examples
use natricine.Prelude.{ℕ, Bool, if◌then◌else◌, nat_eq, List, [], ◌∷◌}
use natricine.Prelude.Dict.{Dict, put}
use natricine.Runtime.{Exn, Result, ok, err, cancelled, Exec, pure, raise, ◌>>=◌, ◌>>◌, try_except}

-- Signals are numbers, and `H` is the type of their handlers.
pub record Signals (H B : Type 0) : Type 0 where
  -- signal.signal(sig, handler), which gives the handler before
  pub signal : ℕ → H → Exec B H
  -- the exception is a ValueError or an OSError
  pub is_unsupported : Exn → Bool
  -- `handle_signal`, which sets the event, and `shutdown_event.wait()`
  pub handle_signal : H
  pub wait : Exec B (Unit {0})
  -- a task group with the watcher beside the block, which cancels the watcher when the block has ended
  pub task_group : Exec B (Unit {0}) → Exec B (Unit {0}) → Exec B (Unit {0})

-- finally: an exception of the last block takes the place of what came before
abbrev pub after_all : Result (Unit {0}) → Result (Unit {0}) → Result (Unit {0})
after_all r (ok u) = r
after_all r (err e) = err e
after_all r cancelled = cancelled

module _ {H B : Type 0} (os : Signals H B) where
  abbrev pub unless_unsupported : {A : Type 0} → A → Exn → Exec B A
  unless_unsupported a e = if os.is_unsupported e then pure a else raise e

  -- original_handlers[sig] = signal.signal(sig, handle_signal)
  abbrev pub install_one : ℕ → Dict ℕ H → Exec B (Dict ℕ H)
  install_one sig original =
      try_except (do handler ← os.signal sig os.handle_signal; pure (put sig handler original))
        (unless_unsupported original)

  unfoldable pub install : List ℕ → Dict ℕ H → Exec B (Dict ℕ H)
  install [] original = pure original
  install (sig ∷ signals) original = install_one sig original >>= install signals

  abbrev pub restore_one : ℕ → H → Exec B (Unit {0})
  restore_one sig handler = try_except (do os.signal sig handler; pure tt) (unless_unsupported tt)

  unfoldable pub restore : Dict ℕ H → Exec B (Unit {0})
  restore [] = pure tt
  restore ((sig, handler) ∷ original) = do restore_one sig handler; restore original

  unfoldable pub close_each : List (Exec B (Unit {0})) → Exec B (Unit {0})
  close_each [] = pure tt
  close_each (close ∷ closeables) = do close; close_each closeables

  abbrev pub shutdown_watcher : List (Exec B (Unit {0})) → Exec B (Unit {0})
  shutdown_watcher closeables = do os.wait; close_each closeables

  -- The `try` statement, by the handlers that were there.
  abbrev pub guarded_block :
      List (Exec B (Unit {0})) → Exec B (Unit {0}) → Dict ℕ H → Exec B (Unit {0})
  guarded_block closeables block original env =
      let (r, env') = os.task_group (shutdown_watcher closeables) block env in
      let (last, env'') = restore original env' in (after_all r last, env'')

  unfoldable pub graceful_shutdown :
      List ℕ → List (Exec B (Unit {0})) → Exec B (Unit {0}) → Exec B (Unit {0})
  graceful_shutdown signals closeables block = install signals [] >>= guarded_block closeables block
