-- ===== src/Bits.antt =====
-- Laws of `&`, `|` and `^` on unsigned values, from the digit recursion that the native operations
-- stand for.
use Prim.Native.Nat.{
  min, max, differ, digits, bit_and, bit_or, bit_xor, bit_and-bitwise, bit_or-bitwise,
  bit_xor-bitwise,
}
use native.Mathlib.Nat.{pow-suc}
use server_mcp_bridge.Base.{
  ℕ, zero, suc, ◌+◌, ◌-◌, ◌*◌, ◌/◌, ◌%◌, ◌^◌, ◌≤◌, ◌<◌, ◌≡◌, refl, ap, ◌∙◌, arith,
}

-- The fuel of the recursion is irrelevant once it covers the first number.
enough_fuel :
    (z : ℕ → ℕ) (f : ℕ → ℕ → ℕ) (a b n : ℕ) → a ≤ n → digits z f (suc n) a b ≡ digits z f n a b
enough_fuel z f zero b zero h = refl
enough_fuel z f zero b (suc n) h = refl
enough_fuel z f (suc a) b zero h = absurd (omega arith)
enough_fuel z f (suc a) b (suc n) h =
    ap (λ r. r * 2 + f (suc a % 2) (b % 2)) (enough_fuel z f (suc a / 2) (b / 2) n (omega arith))

exact_fuel :
    (z : ℕ → ℕ) (f : ℕ → ℕ → ℕ) (a b k n : ℕ) → n ≡ k + a → digits z f n a b ≡ digits z f a a b
exact_fuel z f a b zero n h = let e : n ≡ a = omega (arith, h) in rw e
exact_fuel z f a b (suc k) zero h = absurd (omega arith)
exact_fuel z f a b (suc k) (suc n) h =
    enough_fuel z f a b n (omega arith) ∙ exact_fuel z f a b k n (omega arith)

-- The lowest digit of the result, and the operation on what is left.
halve_digits :
    (z : ℕ → ℕ) (f : ℕ → ℕ → ℕ) (a b : ℕ)
    → digits z f (suc a) (suc a) b
      ≡ digits z f (suc a / 2) (suc a / 2) (b / 2) * 2 + f (suc a % 2) (b % 2)
halve_digits z f a b =
    ap (λ r. r * 2 + f (suc a % 2) (b % 2))
      (exact_fuel z f (suc a / 2) (b / 2) (a - suc a / 2) a (omega arith))

and_halves : (m n : ℕ) → bit_and m n ≡ bit_and (m / 2) (n / 2) * 2 + min (m % 2) (n % 2)
and_halves zero b = simp bit_and-bitwise (omega arith)
and_halves (suc a) b = simp bit_and-bitwise (halve_digits (λ y. 0) min a b)

or_halves : (m n : ℕ) → bit_or m n ≡ bit_or (m / 2) (n / 2) * 2 + max (m % 2) (n % 2)
or_halves zero b = simp bit_or-bitwise (omega arith)
or_halves (suc a) b = simp bit_or-bitwise (halve_digits (λ y. y) max a b)

xor_halves : (a b : ℕ) → bit_xor a b ≡ bit_xor (a / 2) (b / 2) * 2 + differ (a % 2) (b % 2)
xor_halves zero b = simp bit_xor-bitwise (omega arith)
xor_halves (suc a) b = simp bit_xor-bitwise (halve_digits (λ y. y) differ a b)

differ_bits : (x y : ℕ) → x < 2 → y < 2 → differ x y ≡ 0 → x ≡ y
differ_bits zero y h k e = ground arith
differ_bits (suc zero) zero h k e = ground arith
differ_bits (suc zero) (suc zero) h k e = refl
differ_bits (suc zero) (suc (suc y)) h k e = absurd (omega arith)
differ_bits (suc (suc x)) y h k e = absurd (omega arith)

differ_self : (x : ℕ) → differ x x ≡ 0
differ_self zero = refl
differ_self (suc x) = differ_self x

-- Bounded by `n`, so that the induction can halve.
xor-eq-zero_below : (n a b : ℕ) → a ≤ n → b ≤ n → bit_xor a b ≡ 0 → a ≡ b
xor-eq-zero_below zero a b h k e = omega arith
xor-eq-zero_below (suc n) a b h k e =
    let high : bit_xor (a / 2) (b / 2) ≡ 0 = omega (arith, xor_halves a b, e) in
    let low : differ (a % 2) (b % 2) ≡ 0 = omega (arith, xor_halves a b, e) in
    omega (
      arith,
      xor-eq-zero_below n (a / 2) (b / 2) (omega arith) (omega arith) high,
      differ_bits (a % 2) (b % 2) (omega arith) (omega arith) low,
    )

-- `a ^ b` is zero for equal values only.
pub eq_of_bit_xor : (a b : ℕ) → bit_xor a b ≡ 0 → a ≡ b
eq_of_bit_xor a b e = xor-eq-zero_below (a + b) a b (omega arith) (omega arith) e

xor_self_below : (n a : ℕ) → a ≤ n → bit_xor a a ≡ 0
xor_self_below n zero h = refl
xor_self_below zero (suc a) h = absurd (omega arith)
xor_self_below (suc n) (suc a) h =
    omega (arith, xor_halves (suc a) (suc a), xor_self_below n (suc a / 2), differ_self (suc a % 2))

pub bit_xor_self : (a : ℕ) → bit_xor a a ≡ 0
bit_xor_self a = xor_self_below a a (omega arith)

or-eq-zero_below : (n a b : ℕ) → a ≤ n → b ≤ n → bit_or a b ≡ 0 → (a ≡ 0) × (b ≡ 0)
or-eq-zero_below zero a b h k e = omega arith
or-eq-zero_below (suc n) a b h k e =
    let high : bit_or (a / 2) (b / 2) ≡ 0 = omega (arith, or_halves a b, e) in
    omega
      (arith, or_halves a b, or-eq-zero_below n (a / 2) (b / 2) (omega arith) (omega arith) high)

-- `a | b` is zero if both are.
pub zero_of_bit_or : (a b : ℕ) → bit_or a b ≡ 0 → (a ≡ 0) × (b ≡ 0)
zero_of_bit_or a b e = or-eq-zero_below (a + b) a b (omega arith) (omega arith) e

-- A mask of low ones is a remainder.
and_none : (n a : ℕ) → a ≤ n → bit_and a 0 ≡ 0
and_none n zero h = refl
and_none zero (suc a) h = absurd (omega arith)
and_none (suc n) (suc a) h = omega (arith, and_halves (suc a) 0, and_none n (suc a / 2))

pub bit_and_mask1 : (a : ℕ) → bit_and a 1 ≡ a % 2
bit_and_mask1 a = omega (arith, and_halves a 1, and_none (a / 2) (a / 2))

pub bit_and_mask2 : (a : ℕ) → bit_and a 3 ≡ a % 4
bit_and_mask2 a = omega (arith, and_halves a 3, bit_and_mask1 (a / 2))

pub bit_and_mask3 : (a : ℕ) → bit_and a 7 ≡ a % 8
bit_and_mask3 a = omega (arith, and_halves a 7, bit_and_mask2 (a / 2))

pub bit_and_mask4 : (a : ℕ) → bit_and a 15 ≡ a % 16
bit_and_mask4 a = omega (arith, and_halves a 15, bit_and_mask3 (a / 2))

pub bit_and_mask5 : (a : ℕ) → bit_and a 31 ≡ a % 32
bit_and_mask5 a = omega (arith, and_halves a 31, bit_and_mask4 (a / 2))

pub bit_and_mask6 : (a : ℕ) → bit_and a 63 ≡ a % 64
bit_and_mask6 a = omega (arith, and_halves a 63, bit_and_mask5 (a / 2))

or_none : (n a : ℕ) → a ≤ n → bit_or a 0 ≡ a
or_none n zero h = refl
or_none zero (suc a) h = absurd (omega arith)
or_none (suc n) (suc a) h = omega (arith, or_halves (suc a) 0, or_none n (suc a / 2))

-- A field above `k` bits, or'ed with a field of `k` bits, is their sum.
pub bit_or_join : (k q r : ℕ) → r < 2 ^ k → bit_or (q * 2 ^ k) r ≡ q * 2 ^ k + r
bit_or_join zero q r h =
    let e : r ≡ 0 = omega arith in
    let one : q * 2 ^ 0 ≡ q = omega arith in rw (e, one) (omega (arith, or_none q q (omega arith)))
bit_or_join (suc k) q r h =
    let double : q * 2 ^ suc k ≡ q * 2 ^ k * 2 = rw pow-suc (grind arith) in
    let small : r / 2 < 2 ^ k = omega (arith, pow-suc 2 k) in
    let even : q * 2 ^ k * 2 / 2 ≡ q * 2 ^ k = omega arith in
    rw double (
      omega (
        arith,
        or_halves (q * 2 ^ k * 2) r,
        bit_or_join k q (r / 2) small,
        ap (λ t. bit_or t (r / 2)) even,
      ))
