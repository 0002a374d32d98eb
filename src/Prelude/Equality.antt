-- ===== src/Prelude/Equality.antt =====
-- Python's `==` on the keys of dictionaries and the members of lists, as an interface.
use Prim.Native.Nat.{ℕ, compare, Ordering}
use Prim.Native.String.{String}
use mathlib.Core.Path.{◌≡◌, refl}
use mathlib.Core.Logic.{◌↔◌}
use mathlib.Core.Bool.{Bool, true, false}
use native.Mathlib.Omega.{arith}
use text.Mathlib.Text.{◌==◌ as str_beq}
use text.Mathlib.TextEquality.{eq_iff as str_beq_iff}

pub record Eq {ℓ} (K : Type ℓ) : Type ℓ where
  pub same : K → K → Bool
  pub same_iff : (x y : K) → (same x y ≡ true) ↔ (x ≡ y)

infix 50 ◌==◌
abbrev pub ◌==◌ {ℓ} : {K : Type ℓ} ⦃inst : Eq K⦄ → K → K → Bool
◌==◌ ⦃inst⦄ x y = inst.same x y

pub eq_iff {ℓ} : {K : Type ℓ} ⦃inst : Eq K⦄ (x y : K) → ((x == y) ≡ true) ↔ (x ≡ y)
eq_iff ⦃inst⦄ x y = inst.same_iff x y

pub eq_refl {ℓ} : {K : Type ℓ} ⦃inst : Eq K⦄ (x : K) → (x == x) ≡ true
eq_refl ⦃inst⦄ x = (inst.same_iff x x).1 refl

abbrev pub nat_beq : ℕ → ℕ → Bool
nat_beq a b = elim (compare a b) [ Ordering.eq ↦ true | _ ↦ false ]

pub nat_beq_iff : (a b : ℕ) → (nat_beq a b ≡ true) ↔ (a ≡ b)
nat_beq_iff a b = ground arith

instance abbrev pub nat_eq : Eq ℕ
nat_eq = record { same = nat_beq; same_iff = nat_beq_iff }

instance abbrev pub string_eq : Eq String
string_eq = record { same = str_beq; same_iff = str_beq_iff }
