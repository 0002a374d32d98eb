-- ===== src/Cqrs/Interleaving/Draining.antt =====
-- What the count of messages in flight says of the tasks, and what it does not.
use natricine.Prelude.{
  ℕ, suc, ◌+◌, ◌≤◌, ◌≡◌, refl, ap, true, false, List, ◌∷◌, ◌++◌, length, length-append, arith,
}
use natricine.Cqrs.Interleaving.{
  Tasks, IsDrained, Step, arrive, refuse, begin, finish, shut, Steps, here, next,
}

abbrev pub IsCounted : Tasks → Type 0
IsCounted s = s.flags.in_flight ≡ length s.busy

length-removed :
    (m : ℕ) (before after l : List ℕ)
    → l ≡ before ++ (m ∷ after)
    → length l ≡ suc (length (before ++ after))
length-removed m before after l e =
    omega (arith, ap length e, length-append before (m ∷ after), length-append before after)

Step-IsCounted : {s t : Tasks} → Step s t → IsCounted s → IsCounted t
Step-IsCounted (arrive m open_) h = h
Step-IsCounted (refuse m shut_) h = h
Step-IsCounted (begin m before after e) h = omega arith
Step-IsCounted {s} (finish m before after e) h =
    omega (arith, length-removed m before after s.busy e)
Step-IsCounted (shut on) h = h

-- In every order of the tasks' steps, the number in flight is the number of messages that are being
-- processed, if it was at the start.
pub Steps-IsCounted : {s t : Tasks} → Steps s t → IsCounted s → IsCounted t
Steps-IsCounted here h = h
Steps-IsCounted (next steps step) h = Step-IsCounted step (Steps-IsCounted steps h)

-- The messages that were accepted and are not done.
abbrev pub open_work : Tasks → ℕ
open_work s = length s.pending + length s.busy

Step-closing :
    {s t : Tasks}
    → Step s t
    → s.flags.closing ≡ true
    → (t.flags.closing ≡ true) × (open_work t ≤ open_work s)
Step-closing (arrive m open_) h = cc
Step-closing (refuse m shut_) h = (h, omega arith)
Step-closing {s} (begin m before after e) h =
    (h, omega (arith, length-removed m before after s.pending e))
Step-closing {s} (finish m before after e) h =
    (h, omega (arith, length-removed m before after s.busy e))
Step-closing (shut on) h = (refl, omega arith)

-- Once `close` has set its flag, no message is accepted any more: the flag stays set, and the messages
-- that are accepted and not done never become more, in every order of the tasks' steps.
pub Steps-closing :
    {s t : Tasks}
    → Steps s t
    → s.flags.closing ≡ true
    → (t.flags.closing ≡ true) × (open_work t ≤ open_work s)
Steps-closing here h = (h, omega arith)
Steps-closing (next steps step) h =
    let (closing, less) = Steps-closing steps h in
    let (closing', less') = Step-closing step closing in (closing', omega arith)

-- The number in flight does not count a message whose task has not begun: from every idle open bus
-- that runs, and for every message, some steps reach a state in which `close` has ended its wait, as
-- nothing is in flight, while the accepted message has not been processed.
pub close_leaves_pending :
    (s : Tasks) (m : ℕ)
    → s.flags.running ≡ true
    → s.flags.closing ≡ false
    → s.flags.in_flight ≡ 0
    → (t : Tasks) × Steps s t × IsDrained t × (t.flags.closing ≡ true) × (t.pending ≡ m ∷ s.pending)
close_leaves_pending s m on open_ idle =
    let accepted : Tasks = record s { pending = m ∷ s.pending } in
    (
      record accepted { flags = record s.flags { closing = true } },
      next (next here (arrive m open_)) (shut on),
      idle,
      refl,
      refl,
    )
