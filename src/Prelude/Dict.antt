-- ===== src/Prelude/Dict.antt =====
-- Python's `dict`, with the order of insertion: an assignment to a present key keeps its place.
use mathlib.Core.Path.{◌≡◌, refl}
use mathlib.Core.Bool.{Bool, true, false}
use mathlib.Core.Option.{Option, none, some}
use mathlib.Core.List.{List, [], ◌∷◌, ◌++◌}
use native.Mathlib.Omega.{arith}
use natricine.Prelude.Tests.{if◌then◌else◌, is_some, if_elim}
use natricine.Prelude.Equality.{Eq, ◌==◌, eq_iff, eq_refl}

abbrev pub Dict {ℓ} : Type ℓ → Type ℓ → Type ℓ
Dict K V = List (K × V)

module _ {ℓ} {K V : Type ℓ} ⦃e : Eq K⦄ where
  -- d.get(k)
  unfoldable pub get : K → Dict K V → Option V
  get k [] = none
  get k ((j, v) ∷ d) = if j == k then some v else get k d

  -- k in d
  abbrev pub contains : K → Dict K V → Bool
  contains k d = is_some (get k d)

  -- d[k] = v
  unfoldable pub put : K → V → Dict K V → Dict K V
  put k v [] = (k, v) ∷ []
  put k v ((j, w) ∷ d) = if j == k then (j, v) ∷ d else (j, w) ∷ put k v d

  pub get-put :
      (k j : K) (v : V) (d : Dict K V) → get j (put k v d) ≡ (if k == j then some v else get j d)
  unfolding get put
  get-put k j v [] = refl
  get-put k j v ((i, w) ∷ d) = ground (arith, eq_iff k j, eq_iff i k, eq_iff i j, get-put k j v d)

  pub get-put_self : (k : K) (v : V) (d : Dict K V) → get k (put k v d) ≡ some v
  get-put_self k v d = simp (get-put, eq_refl)

  -- No key stands twice, as in every dictionary.
  abbrev pub HasKeysOnce : Dict K V → Type 0
  HasKeysOnce [] = Unit
  HasKeysOnce ((k, v) ∷ d) = (contains k d ≡ false) × HasKeysOnce d

  -- A new key goes to the end.
  pub put_new : (k : K) (v : V) (d : Dict K V) → contains k d ≡ false → put k v d ≡ d ++ (k, v) ∷ []
  unfolding get put
  put_new k v [] h = refl
  put_new k v ((j, w) ∷ d) h = ground (arith, put_new k v d, h)

  contains-snoc :
      (k j : K) (v : V) (d : Dict K V)
      → contains k (d ++ (j, v) ∷ []) ≡ (if contains k d then true else j == k)
  unfolding get
  contains-snoc k j v [] = ground arith
  contains-snoc k j v ((i, w) ∷ d) = ground (arith, contains-snoc k j v d)

module _ {ℓ} {K V W : Type ℓ} ⦃e : Eq K⦄ where
  -- No key of the second dictionary is one of the first.
  abbrev pub Apart : Dict K V → Dict K W → Type ℓ
  Apart a d = (k : K) → contains k d ≡ true → contains k a ≡ false

  pub Apart-snoc :
      (k : K) (v : V) (w : W) (a : Dict K V) (d : Dict K W)
      → contains k d ≡ false
      → Apart a ((k, w) ∷ d)
      → Apart (a ++ (k, v) ∷ []) d
  unfolding get
  Apart-snoc k v w a d once apart j here =
      ground (arith, contains-snoc j k v a, apart j, eq_iff k j, once, here)

  pub head-Apart :
      (k : K) (w : W) (a : Dict K V) (d : Dict K W) → Apart a ((k, w) ∷ d) → contains k a ≡ false
  unfolding get
  head-Apart k w a d apart = ground (arith, apart k, eq_refl k)

  pub tail-Apart : (k : K) (w : W) (a : Dict K V) (d : Dict K W) → Apart a ((k, w) ∷ d) → Apart a d
  unfolding get
  tail-Apart k w a d apart j here = ground (arith, apart j, here)

module _ {ℓ} {K V : Type ℓ} ⦃e : Eq K⦄ where
  pub contains-put :
      (j k : K) (v : V) (d : Dict K V)
      → (j == k) ≡ false
      → contains j d ≡ false
      → contains j (put k v d) ≡ false
  contains-put j k v d other h = ground (arith, get-put k j v d, eq_iff j k, eq_iff k j, other, h)

  pub put-HasKeysOnce : (k : K) (v : V) (d : Dict K V) → HasKeysOnce d → HasKeysOnce (put k v d)
  unfolding put get
  put-HasKeysOnce k v [] h = (refl, tt)
  put-HasKeysOnce k v ((j, w) ∷ d) (new, once) =
      let rest = put-HasKeysOnce k v d once in
      if_elim HasKeysOnce (j == k) {x = (j, v) ∷ d} {y = (j, w) ∷ put k v d} (λ _. (new, once))
        (λ other. (contains-put j k v d other new, rest))
