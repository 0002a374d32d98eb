-- ===== src/Runtime.antt =====
-- Python's exceptions and the methods that may raise. What was written before a raise stays
-- written, so the state comes back beside the exception too.
pub mod Laws
use natricine.Prelude.{String}

-- `error` is an instance of `Exception` by its class name and its `str`; `permanent` is
-- `PermanentError(cause)` of router/middleware.py.
pub data Exn : Type 0 where
  error : String → String → Exn
  permanent : Exn → Exn

-- `cancelled` is a `BaseException` that `except Exception` lets through: a cancelled task.
pub data Result {ℓ} (A : Type ℓ) : Type ℓ where
  ok : A → Result A
  err : Exn → Result A
  cancelled : Result A

abbrev pub Exec {ℓ} : Type ℓ → Type ℓ → Type ℓ
Exec S A = S → Result A × S

module _ {ℓ} {S A : Type ℓ} where
  abbrev pub pure : A → Exec S A
  pure a s = (ok a, s)

  abbrev pub raise : Exn → Exec S A
  raise e s = (err e, s)

  abbrev pub lift : Result A → Exec S A
  lift r s = (r, s)

module _ {ℓ} {S A B : Type ℓ} where
  abbrev pub continue : Result A → (A → Exec S B) → Exec S B
  continue cancelled k s = (cancelled, s)
  continue (err x) k s = (err x, s)
  continue (ok a) k s = k a s

  infixl 10 ◌>>=◌ ◌>>◌
  abbrev pub ◌>>=◌ : Exec S A → (A → Exec S B) → Exec S B
  ◌>>=◌ m f s = let (r, s') = m s in continue r f s'

  abbrev pub ◌>>◌ : Exec S A → Exec S B → Exec S B
  m >> n = m >>= λ _. n

module _ {ℓ} {S A : Type ℓ} where
  abbrev pub recover : Result A → (Exn → Exec S A) → Exec S A
  recover (ok a) h s = (ok a, s)
  recover (err e) h s = h e s
  recover cancelled h s = (cancelled, s)

  -- try: m; except Exception as e: h(e)
  abbrev pub try_except : Exec S A → (Exn → Exec S A) → Exec S A
  try_except m h s = let (r, s') = m s in recover r h s'

  -- try: m; finally: f, where `f` is an assignment, which does not raise
  abbrev pub try_finally : Exec S A → (S → S) → Exec S A
  try_finally m f s = let (r, s') = m s in (r, f s')
