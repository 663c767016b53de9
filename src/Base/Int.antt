-- ===== src/Base/Int.antt =====
-- A C++ `int` or `int64_t` that may be negative.
use Prim.Native.Nat.{ℕ}
use mathlib.Core.Path.{◌≡◌, refl, ap}
use mathlib.Core.Logic.{◌↔◌}
use mathlib.Core.Bool.{Bool, true, false}
use server_mcp_bridge.Base.Tests.{ltb, ◌==◌, ==_iff}

-- `negsuc n` is -(n + 1).
pub data ℤ : Type 0 where
  pos : ℕ → ℤ
  negsuc : ℕ → ℤ

-- `a < b`.
abbrev pub ltℤ : ℤ → ℤ → Bool
ltℤ (pos a) (pos b) = ltb a b
ltℤ (pos a) (negsuc b) = false
ltℤ (negsuc a) (pos b) = true
ltℤ (negsuc a) (negsuc b) = ltb b a

-- `a == b`.
abbrev pub eqℤ : ℤ → ℤ → Bool
eqℤ (pos a) (pos b) = a == b
eqℤ (pos a) (negsuc b) = false
eqℤ (negsuc a) (pos b) = false
eqℤ (negsuc a) (negsuc b) = a == b

eqℤ→eq : (a b : ℤ) → eqℤ a b ≡ true → a ≡ b
eqℤ→eq (pos a) (pos b) h = ap pos ((==_iff a b).0 h)
eqℤ→eq (pos a) (negsuc b) h = cc
eqℤ→eq (negsuc a) (pos b) h = cc
eqℤ→eq (negsuc a) (negsuc b) h = ap negsuc ((==_iff a b).0 h)

eqℤ_refl : (a : ℤ) → eqℤ a a ≡ true
eqℤ_refl (pos a) = (==_iff a a).1 refl
eqℤ_refl (negsuc a) = (==_iff a a).1 refl

pub eqℤ_iff : (a b : ℤ) → (eqℤ a b ≡ true) ↔ (a ≡ b)
eqℤ_iff a b = (eqℤ→eq a b, λ e. rw e (eqℤ_refl b))
