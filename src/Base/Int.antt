-- ===== src/Base/Int.antt =====
-- Go's `int`: signed integers over the native numbers, with Boolean comparisons.
use Prim.Native.Nat.{ℕ}
use mathlib.Core.Path.{◌≡◌}
use mathlib.Core.Logic.{◌↔◌}
use mathlib.Core.Bool.{Bool, true, false}
use native.Mathlib.Omega.{arith}
use external_dns_iij_dpf_web.Base.Tests.{ltb, nat_eq, Eq}

-- `negsuc n` is -(n + 1).
pub data ℤ : Type 0 where
  pos : ℕ → ℤ
  negsuc : ℕ → ℤ

abbrev pub ltb_ℤ : ℤ → ℤ → Bool
ltb_ℤ (pos a) (pos b) = ltb a b
ltb_ℤ (pos a) (negsuc b) = false
ltb_ℤ (negsuc a) (pos b) = true
ltb_ℤ (negsuc a) (negsuc b) = ltb b a

abbrev pub ℤ_eq : ℤ → ℤ → Bool
ℤ_eq (pos a) (pos b) = nat_eq a b
ℤ_eq (pos a) (negsuc b) = false
ℤ_eq (negsuc a) (pos b) = false
ℤ_eq (negsuc a) (negsuc b) = nat_eq a b

pub ℤ_eq_iff : (a b : ℤ) → (ℤ_eq a b ≡ true) ↔ (a ≡ b)
ℤ_eq_iff (pos a) (pos b) = ground arith
ℤ_eq_iff (pos a) (negsuc b) = ground arith
ℤ_eq_iff (negsuc a) (pos b) = ground arith
ℤ_eq_iff (negsuc a) (negsuc b) = ground arith

instance abbrev pub eq_ℤ : Eq ℤ
eq_ℤ = record { same = ℤ_eq; same_iff = ℤ_eq_iff }
