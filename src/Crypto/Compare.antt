-- ===== src/Crypto/Compare.antt =====
-- `constant_time_equal` decides equality, although it looks at every byte.
use Prim.Native.Nat.{bit_or, bit_xor}
use server_mcp_bridge.Base.{
  ℕ, ◌≡◌, refl, inl, inr, true, false, [], ◌∷◌, arith, Text, text_eq, ◌==◌, text_eq_iff,
  text_eq_refl, length, Bool-cases, ==_iff,
}
use server_mcp_bridge.Bits.{eq_of_bit_xor, bit_xor_self, zero_of_bit_or}
use server_mcp_bridge.Crypto.{accumulate, constant_time_equal}

accumulate-zero :
    (r : ℕ) (a b : Text)
    → length a ≡ length b
    → accumulate r a b ≡ 0
    → (r ≡ 0) × (text_eq a b ≡ true)
unfolding accumulate text_eq
accumulate-zero r [] [] h e = (e, refl)
accumulate-zero r [] (y ∷ ys) h e = absurd (omega arith)
accumulate-zero r (x ∷ xs) [] h e = absurd (omega arith)
accumulate-zero r (x ∷ xs) (y ∷ ys) h e =
    let rest = accumulate-zero (bit_or r (bit_xor x y)) xs ys (omega arith) e in
    let both = zero_of_bit_or r (bit_xor x y) rest.0 in
    (both.0, ground (arith, rest.1, eq_of_bit_xor x y both.1))

accumulate_self : (a : Text) → accumulate 0 a a ≡ 0
unfolding accumulate
accumulate_self [] = refl
accumulate_self (x ∷ xs) = rw bit_xor_self (accumulate_self xs)

differ_lem : (a b : Text) → text_eq a b ≡ false → constant_time_equal a b ≡ false
unfolding constant_time_equal
differ_lem a b e = elim (Bool-cases (length a == length b)) [
  | inl same ↦ elim (Bool-cases (accumulate 0 a b == 0)) [
    | inl zero_acc ↦
        cc (e, (accumulate-zero 0 a b ((==_iff _ _).0 same) ((==_iff _ _).0 zero_acc)).1)
    | inr other ↦ rw (same, other)
  ]
  | inr differ ↦ rw differ
]

-- Comparing in constant time gives the answer of comparing the strings.
pub constant_time_equal-eq-text_eq : (a b : Text) → constant_time_equal a b ≡ text_eq a b
unfolding constant_time_equal
constant_time_equal-eq-text_eq a b = elim (Bool-cases (text_eq a b)) [
  | inl e ↦ rw ((text_eq_iff a b).0 e, text_eq_refl b, accumulate_self b) (ground arith)
  | inr e ↦ rw e (differ_lem a b e)
]
