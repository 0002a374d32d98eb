-- ===== src/Redis/Group/Draining.antt =====
-- What many rounds come to: all is acked, or nothing is.
use natricine.Prelude.{
  ℕ, zero, suc, ◌-◌, ◌≤◌, String, ◌≡◌, refl, sym, ap, ◌∙◌, Bool, true, false, Bool-cases, inl, inr,
  ◌==◌, string_eq, eq_iff, List, [], ◌∷◌, ◌++◌, map, length, take, drop, append-take-drop,
  length-drop, All, Listed, if_elim, arith,
}
use mathlib.Core.List.{append-nil}
use natricine.Redis.Group.{Group, remove, settle_entries, round, rounds}

All-weaken :
    {A : Type 0} {P Q : A → Type 0} (xs : List A) → ((x : A) → P x → Q x) → All P xs → All Q xs
All-weaken [] f h = tt
All-weaken (x ∷ xs) f (p, h) = (f x p, All-weaken xs f h)

module _ {E : Type 0} (mid : E → String) where
  length-remove : (k : String) (es : List E) → length (remove mid k es) ≤ length es
  unfolding remove
  length-remove k [] = omega arith
  length-remove k (e ∷ es) = ground (arith, length-remove k es)

  remove-append :
      (k : String) (xs ys : List E) → remove mid k (xs ++ ys) ≡ remove mid k xs ++ remove mid k ys
  unfolding remove
  remove-append k [] ys = refl
  remove-append k (x ∷ xs) ys = elim (Bool-cases (mid x == k)) [
    | inl same ↦ rw same (remove-append k xs ys)
    | inr other ↦ rw other (ap (λ l. x ∷ l) (remove-append k xs ys))
  ]

  -- The id of the entry is one of these.
  abbrev Within : List E → E → Type 0
  Within es e = Listed (mid e) (map mid es)

  otherwise : (e x : E) (es : List E) → Within (e ∷ es) x → (mid x == mid e) ≡ false → Within es x
  otherwise e x es (inl same) other = cc ((eq_iff (mid x) (mid e)).1 same, other)
  otherwise e x es (inr h) other = h

  remove-All :
      (e : E) (es xs : List E) → All (Within (e ∷ es)) xs → All (Within es) (remove mid (mid e) xs)
  unfolding remove
  remove-All e es [] h = tt
  remove-All e es (x ∷ xs) (p, h) =
      let rest = remove-All e es xs h in
      if_elim (All (Within es)) (mid x == mid e) {x = remove mid (mid e) xs}
        {y = x ∷ remove mid (mid e) xs} (λ _. rest) (λ other. (otherwise e x es p other, rest))

  All-Within : (es : List E) → All (Within es) es
  All-Within [] = tt
  All-Within (e ∷ es) = (inl refl, All-weaken es (λ x h. inr h) (All-Within es))

  -- A reader that acks all it is given.
  abbrev all : E → Bool
  all e = true

  settle_gone : (es xs : List E) → All (Within es) xs → settle_entries mid all es xs ≡ []
  settle_gone [] [] h = refl
  settle_gone [] (x ∷ xs) h = elim h.0 [ ]
  settle_gone (e ∷ es) xs h = settle_gone es (remove mid (mid e) xs) (remove-All e es xs h)

  settle_entries-append :
      (es xs ys : List E)
      → settle_entries mid all es (xs ++ ys)
        ≡ settle_entries mid all es xs ++ settle_entries mid all es ys
  settle_entries-append [] xs ys = refl
  settle_entries-append (e ∷ es) xs ys =
      ap (settle_entries mid all es) (remove-append (mid e) xs ys)
      ∙ settle_entries-append es (remove mid (mid e) xs) (remove mid (mid e) ys)

  length-settle_entries : (es xs : List E) → length (settle_entries mid all es xs) ≤ length xs
  length-settle_entries [] xs = omega arith
  length-settle_entries (e ∷ es) xs =
      omega (arith, length-settle_entries es (remove mid (mid e) xs), length-remove (mid e) xs)

  length-pending :
      (count : ℕ) (g : Group E) → length (round mid all count g).pending ≤ length g.pending - count
  length-pending count g =
      let new = take count g.unread in
      let old = take count g.pending in
      let left = settle_entries mid all old g.pending in
      let split : left ≡ settle_entries mid all old (drop count g.pending) =
        ap (settle_entries mid all old) (sym (append-take-drop count g.pending))
        ∙ settle_entries-append old old (drop count g.pending)
        ∙ ap (λ l. l ++ settle_entries mid all old (drop count g.pending))
            (settle_gone old old (All-Within old)) in
      let end : settle_entries mid all new (left ++ new) ≡ settle_entries mid all new left =
        settle_entries-append new left new
        ∙ ap (λ l. settle_entries mid all new left ++ l) (settle_gone new new (All-Within new))
        ∙ append-nil (settle_entries mid all new left) in
      omega (
        arith,
        ap length end,
        ap length split,
        length-settle_entries new left,
        length-settle_entries old (drop count g.pending),
        length-drop count g.pending,
      )

  is_nil : (xs : List E) → length xs ≤ 0 → xs ≡ []
  is_nil [] h = refl
  is_nil (x ∷ xs) h = let no : ⊥ = omega arith in elim no [ ]

  -- Rounds enough for what is pending and what is unread.
  pub rounds_drain :
      (count n : ℕ) (g : Group E)
      → 1 ≤ count
      → length g.pending ≤ n
      → length g.unread ≤ n
      → rounds mid all count n g ≡ record { pending = []; unread = [] }
  rounds_drain count zero g some_ p u =
      ap (λ (l : List E × List E). record { pending = l.0; unread = l.1 })
        (λ i. (is_nil g.pending p i, is_nil g.unread u i))
  rounds_drain count (suc n) g some_ p u =
      rounds_drain count n (round mid all count g) some_ (omega (arith, length-pending count g))
        (omega (arith, length-drop count g.unread))
