-- ===== src/Prelude/Equality.antt =====
-- Keys that can be compared, and the comparison of the numbers and of pairs of keys.
use Prim.Native.Nat.{ℕ}
use mathlib.Core.Path.{◌≡◌}
use mathlib.Core.Logic.{◌↔◌}
use mathlib.Core.Bool.{Bool, true, ◌&&◌}
use native.Mathlib.Omega.{arith}
use go_idento.Prelude.Tests.{nat_beq, nat_beq_iff}

pub record Eq {ℓ} (K : Type ℓ) : Type ℓ where
  pub beq : K → K → Bool
  pub beq_iff : (j k : K) → (beq j k ≡ true) ↔ (j ≡ k)

instance abbrev pub nat_eq : Eq ℕ
nat_eq = record { beq = nat_beq; beq_iff = nat_beq_iff }

-- One operator for every type that has an instance.
infix 50 ◌==◌
abbrev pub ◌==◌ {ℓ} : {A : Type ℓ} ⦃class : Eq A⦄ → A → A → Bool
◌==◌ ⦃class⦄ = class.beq

module _ {ℓ} {A : Type ℓ} ⦃e : Eq A⦄ where
  pub pair_beq : A × A → A × A → Bool
  pair_beq p q = p.0 == q.0 && p.1 == q.1

  pub pair_beq_iff : (p q : A × A) → (pair_beq p q ≡ true) ↔ (p ≡ q)
  unfolding pair_beq
  pair_beq_iff (a, b) (c, d) = ground (arith, e.beq_iff a c, e.beq_iff b d)

  instance abbrev pub pair_eq : Eq (A × A)
  pair_eq = record { beq = pair_beq; beq_iff = pair_beq_iff }
