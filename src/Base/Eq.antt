-- ===== src/Base/Eq.antt =====
-- Equality of keys as an interface: `==` for every type with an instance.
use Prim.Native.Nat.{ℕ}
use Prim.Native.String.{String}
use mathlib.Core.Path.{◌≡◌, refl}
use mathlib.Core.Logic.{◌↔◌}
use mathlib.Core.Bool.{Bool, true, false, ◌&&◌}
use mathlib.Core.Option.{Option, none, some}
use native.Mathlib.Omega.{arith}
use text.Mathlib.Text.{◌==◌ as str_beq}
use text.Mathlib.TextEquality.{eq_iff as str_beq_iff}
use provisioned_throughput.Base.Tests.{nat_beq, nat_beq_iff}

pub record BEq (A : Type 0) : Type 0 where
  pub beq : A → A → Bool
  pub beq_iff : (a b : A) → (beq a b ≡ true) ↔ (a ≡ b)

infix 50 ◌==◌
abbrev pub ◌==◌ : {A : Type 0} ⦃e : BEq A⦄ → A → A → Bool
◌==◌ ⦃e⦄ = e.beq

pub ==_iff : {A : Type 0} ⦃e : BEq A⦄ (a b : A) → ((a == b) ≡ true) ↔ (a ≡ b)
==_iff ⦃e⦄ a b = e.beq_iff a b

pub ==_refl : {A : Type 0} ⦃e : BEq A⦄ (a : A) → (a == a) ≡ true
==_refl a = (==_iff a a).1 refl

instance abbrev pub nat_eq : BEq ℕ
nat_eq = record { beq = nat_beq; beq_iff = nat_beq_iff }

instance abbrev pub string_eq : BEq String
string_eq = record { beq = str_beq; beq_iff = str_beq_iff }

abbrev pair_beq : {A B : Type 0} ⦃a : BEq A⦄ ⦃b : BEq B⦄ → A × B → A × B → Bool
pair_beq (x, y) (u, v) = x == u && y == v

pub pair_beq_iff :
    {A B : Type 0} ⦃a : BEq A⦄ ⦃b : BEq B⦄ (p q : A × B) → (pair_beq p q ≡ true) ↔ (p ≡ q)
pair_beq_iff (x, y) (u, v) =
    (λ h. ground (arith, ==_iff x u, ==_iff y v), λ h. ground (arith, ==_iff x u, ==_iff y v))

instance abbrev pub pair_eq : {A B : Type 0} ⦃a : BEq A⦄ ⦃b : BEq B⦄ → BEq (A × B)
pair_eq = record { beq = pair_beq; beq_iff = pair_beq_iff }

abbrev option_beq : {A : Type 0} ⦃a : BEq A⦄ → Option A → Option A → Bool
option_beq none none = true
option_beq (some x) (some y) = x == y
option_beq _ _ = false

pub option_beq_iff : {A : Type 0} ⦃a : BEq A⦄ (p q : Option A) → (option_beq p q ≡ true) ↔ (p ≡ q)
option_beq_iff none none = (λ _. refl, λ _. refl)
option_beq_iff (some x) (some y) =
    (λ h. ground (arith, ==_iff x y), λ h. ground (arith, ==_iff x y))
option_beq_iff none (some y) = (λ h. cc, λ h. cc)
option_beq_iff (some x) none = (λ h. cc, λ h. cc)

instance abbrev pub option_eq : {A : Type 0} ⦃a : BEq A⦄ → BEq (Option A)
option_eq = record { beq = option_beq; beq_iff = option_beq_iff }
