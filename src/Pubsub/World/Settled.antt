-- ===== src/Pubsub/World/Settled.antt =====
-- Acknowledgement of a message object in the shared store.
use natricine.Prelude.{ℕ, ◌≡◌, ◌≢◌, refl, true, false, ◌||◌, none, arith, nat_eq, eq_refl}
use natricine.Runtime.{Exec, Result, ok, err, cancelled, recover, raise, ◌>>=◌}
use natricine.Pubsub.Message.{ack, nack, nack_after_ack, already_acked}
use natricine.Pubsub.World.{World, ack_at, nack_at}

module _ {B : Type 0} where
  abbrev pub IsSettledAt : ℕ → World B → Type 0
  IsSettledAt r w = ((w.heap r).acked || (w.heap r).nacked) ≡ true

  abbrev pub IsFreshAt : ℕ → World B → Type 0
  IsFreshAt r w = ((w.heap r).acked ≡ false) × ((w.heap r).nacked ≡ false)

  pub ack_at-IsSettled : (r : ℕ) (w : World B) → IsSettledAt r (ack_at r w).1
  unfolding ack_at ack
  ack_at-IsSettled r w = ground (arith, eq_refl r)

  pub nack_at-IsSettled : (r : ℕ) (w : World B) → IsSettledAt r (nack_at r w).1
  unfolding nack_at nack
  nack_at-IsSettled r w = ground (arith, eq_refl r)

  -- On a message that is not settled each sets its own flag alone.
  pub ack_at_fresh :
      (r : ℕ) (w : World B)
      → IsFreshAt r w
      → (((ack_at r w).1.heap r).acked ≡ true) × (((ack_at r w).1.heap r).nacked ≡ false)
  unfolding ack_at ack
  ack_at_fresh r w h = ground (arith, eq_refl r)

  pub nack_at_fresh :
      (r : ℕ) (w : World B)
      → IsFreshAt r w
      → (((nack_at r w).1.heap r).acked ≡ false) × (((nack_at r w).1.heap r).nacked ≡ true)
  unfolding nack_at nack
  nack_at_fresh r w h = ground (arith, eq_refl r)

  -- A message as `copy` makes it, whose `ack` and `nack` only set its flags.
  abbrev pub HasNoFuncs : ℕ → World B → Type 0
  HasNoFuncs r w = ((w.heap r).ack_func ≡ none) × ((w.heap r).nack_func ≡ none)

  pub ack_at-HasNoFuncs :
      (r : ℕ) (w : World B)
      → IsFreshAt r w
      → HasNoFuncs r w
      → ((ack_at r w).0 ≡ ok tt) × ((ack_at r w).1.env ≡ w.env)
  unfolding ack_at ack
  ack_at-HasNoFuncs r w fresh (acks, nacks) = rw (fresh.0, fresh.1, acks) (refl, refl)

  pub nack_at-HasNoFuncs :
      (r : ℕ) (w : World B)
      → IsFreshAt r w
      → HasNoFuncs r w
      → ((nack_at r w).0 ≡ ok tt) × ((nack_at r w).1.env ≡ w.env)
  unfolding nack_at nack
  nack_at-HasNoFuncs r w fresh (acks, nacks) = rw (fresh.0, fresh.1, nacks) (refl, refl)

  -- A `nack` after an `ack` raises and changes neither the message nor the backend.
  pub nack_at_acked :
      (r : ℕ) (w : World B)
      → (w.heap r).acked ≡ true
      → (w.heap r).nacked ≡ false
      → ((nack_at r w).0 ≡ err nack_after_ack)
        × ((nack_at r w).1.heap r ≡ w.heap r)
        × ((nack_at r w).1.env ≡ w.env)
  unfolding nack_at nack
  nack_at_acked r w acked nacked = ground (arith, eq_refl r)

  pub ack_at_acked :
      (r : ℕ) (w : World B)
      → (w.heap r).acked ≡ true
      → ((ack_at r w).0 ≡ err already_acked)
        × ((ack_at r w).1.heap r ≡ w.heap r)
        × ((ack_at r w).1.env ≡ w.env)
  unfolding ack_at ack
  ack_at_acked r w acked = ground (arith, eq_refl r)

  -- The end of a `try` block: `except Exception: await msg.nack(); raise`.
  abbrev pub nack_and_raise : ℕ → Result (Unit {0}) → Exec (World B) (Unit {0})
  nack_and_raise msg r = recover r (λ e. nack_at msg >>= λ _. raise e)

  -- If the block settled the message whenever it returned, the message is settled at the end unless
  -- the task was cancelled.
  pub nack_and_raise-IsSettled :
      (msg : ℕ) (r : Result (Unit {0})) (v : World B)
      → (r ≡ ok tt → IsSettledAt msg v)
      → (nack_and_raise msg r v).0 ≢ cancelled
      → IsSettledAt msg (nack_and_raise msg r v).1
  nack_and_raise-IsSettled msg (ok u) v done live = done refl
  nack_and_raise-IsSettled msg (err e) v done live = ground (arith, nack_at-IsSettled msg v)
  nack_and_raise-IsSettled msg cancelled v done live = absurd (live refl)
