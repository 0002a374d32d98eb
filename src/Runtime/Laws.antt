-- ===== src/Runtime/Laws.antt =====
-- What a block that returned tells of its first step.
use natricine.Prelude.{◌≡◌, refl, ◌∙◌, fun_ext}
use natricine.Runtime.{Exn, Result, ok, err, cancelled, Exec, continue, recover, try_except, ◌>>=◌}

module _ {ℓ} {S A B : Type ℓ} where
  continue-eq-ok :
      (r : Result A) (f : A → Exec S B) (s : S) {b : B}
      → (continue r f s).0 ≡ ok b
      → (a : A) × (r ≡ ok a) × (continue r f s ≡ f a s)
  continue-eq-ok (ok a) f s h = (a, refl, refl)
  continue-eq-ok (err e) f s h = cc
  continue-eq-ok cancelled f s h = cc

  -- If a block returned, so did its first step, and the block is what followed.
  pub >>=-eq-ok :
      (m : Exec S A) (f : A → Exec S B) (s : S) {b : B}
      → ((m >>= f) s).0 ≡ ok b
      → (a : A) × ((m s).0 ≡ ok a) × ((m >>= f) s ≡ f a (m s).1)
  >>=-eq-ok m f s h = continue-eq-ok (m s).0 f (m s).1 h

-- An action that leaves a part of the state as it is, however it ends.
module _ {ℓ} {S X : Type ℓ} (part : S → X) where
  abbrev pub Keeps : {A : Type ℓ} → Exec S A → Type ℓ
  Keeps m = (s : S) → part (m s).1 ≡ part s

  continue-Keeps :
      {A B : Type ℓ} (r : Result A) (f : A → Exec S B) (s : S)
      → ((a : A) → Keeps (f a))
      → part (continue r f s).1 ≡ part s
  continue-Keeps (ok a) f s keeps = keeps a s
  continue-Keeps (err e) f s keeps = refl
  continue-Keeps cancelled f s keeps = refl

  pub >>=-Keeps :
      {A B : Type ℓ} (m : Exec S A) (f : A → Exec S B)
      → Keeps m
      → ((a : A) → Keeps (f a))
      → Keeps (m >>= f)
  >>=-Keeps m f first next s = continue-Keeps (m s).0 f (m s).1 next ∙ first s

  recover-Keeps :
      {A : Type ℓ} (r : Result A) (handle : Exn → Exec S A) (s : S)
      → ((e : Exn) → Keeps (handle e))
      → part (recover r handle s).1 ≡ part s
  recover-Keeps (ok a) handle s keeps = refl
  recover-Keeps (err e) handle s keeps = keeps e s
  recover-Keeps cancelled handle s keeps = refl

  pub try_except-Keeps :
      {A : Type ℓ} (m : Exec S A) (handle : Exn → Exec S A)
      → Keeps m
      → ((e : Exn) → Keeps (handle e))
      → Keeps (try_except m handle)
  try_except-Keeps m handle first next s = recover-Keeps (m s).0 handle (m s).1 next ∙ first s

module _ {ℓ} {S A B C : Type ℓ} where
  continue_assoc :
      (r : Result A) (f : A → Exec S B) (g : B → Exec S C) (s : S)
      → continue (continue r f s).0 g (continue r f s).1 ≡ continue r (λ a. f a >>= g) s
  continue_assoc (ok a) f g s = refl
  continue_assoc (err e) f g s = refl
  continue_assoc cancelled f g s = refl

  pub >>=_assoc :
      (m : Exec S A) (f : A → Exec S B) (g : B → Exec S C) → (m >>= f) >>= g ≡ m >>= λ a. f a >>= g
  >>=_assoc m f g = fun_ext λ s. continue_assoc (m s).0 f g (m s).1
