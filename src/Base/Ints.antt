-- ===== src/Base/Ints.antt =====
-- The integers over the native natural numbers, with `===` on them.
use Prim.Native.Nat.{ℕ}
use mathlib.Core.Bool.{Bool, false}
use auth_sso.Base.Tests.{nat_eq}

pub data ℤ : Type 0 where
  pos negsuc : ℕ → ℤ

abbrev pub int_eq : ℤ → ℤ → Bool
int_eq (pos m) (pos n) = nat_eq m n
int_eq (negsuc m) (negsuc n) = nat_eq m n
int_eq _ _ = false
