-- ===== src/Cqrs/Interleaving.antt =====
-- The tasks of a bus in any order: `_run_handler` starts a task for each message, which runs
-- `_process_message` when the event loop comes to it, and `close` may come between
-- (packages/natricine/src/natricine/cqrs/command_bus.py and event_bus.py). A step is what a task does
-- up to its next wait.
pub mod Draining
use natricine.Prelude.{ℕ, ◌≡◌, Bool, true, false, List, [], ◌∷◌, ◌++◌}
use natricine.Router.Core.{Flags, count_in, count_out}

-- `pending` are the messages whose tasks are started and have not begun, `busy` those that are being
-- processed, `refused` those that a loop nacked because the bus is closing.
pub record Tasks : Type 0 where
  pub flags : Flags
  pub pending : List ℕ
  pub busy : List ℕ
  pub refused : List ℕ

-- The end of the wait of `close`: `while self._in_flight > 0` ends.
abbrev pub IsDrained : Tasks → Type 0
IsDrained s = s.flags.in_flight ≡ 0

pub data Step (s : Tasks) : Tasks → Type 0 where
  -- the loop of `_run_handler` gets the message `m`
  arrive : (m : ℕ) → s.flags.closing ≡ false → Step s (record s { pending = m ∷ s.pending })
  refuse : (m : ℕ) → s.flags.closing ≡ true → Step s (record s { refused = m ∷ s.refused })
  -- the task of a message begins, and ends in any way
  begin :
      (m : ℕ) (before after : List ℕ)
      → s.pending ≡ before ++ (m ∷ after)
      → Step s (record s { flags = count_in s.flags; pending = before ++ after; busy = m ∷ s.busy })
  finish :
      (m : ℕ) (before after : List ℕ)
      → s.busy ≡ before ++ (m ∷ after)
      → Step s (record s { flags = count_out s.flags; busy = before ++ after })
  -- `close` sets the flag, and begins to wait
  shut : s.flags.running ≡ true → Step s (record s { flags = record s.flags { closing = true } })

pub data Steps (s : Tasks) : Tasks → Type 0 where
  here : Steps s s
  next : {t u : Tasks} → Steps s t → Step t u → Steps s u
