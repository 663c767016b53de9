-- ===== src/Crypto.antt =====
-- src/core/crypto.cpp: hexadecimal output, the comparison of hashes, and the salted hash of tokens.
-- `Crypto.Sha256` has the digest itself.
pub mod Sha256
pub mod Hex
pub mod Compare
mod Tests
use Prim.Native.Nat.{bit_and, bit_or, bit_xor}
use server_mcp_bridge.Base.{
  ℕ, zero, suc, ◌*◌, ◌/◌, ◌^◌, ◌==◌, Bool, true, false, not, List, [], ◌∷◌, ◌++◌, Text, codes,
  length, get_or, if◌then◌else◌,
}
use Sha256.{sha256}

-- `hex[i]` of `static const char hex[] = "0123456789abcdef"`, read inside its bounds only.
unfoldable pub hex_digit : ℕ → ℕ
hex_digit i = get_or (codes "0123456789abcdef") i 0

-- The two digits of each byte, `data[i] >> 4` and `data[i] & 0xf`.
unfoldable pub to_hex : List ℕ → Text
unfolding hex_digit
to_hex [] = []
to_hex (b ∷ bs) = hex_digit (b / 2 ^ 4) ∷ hex_digit (bit_and b 0xf) ∷ to_hex bs

unfoldable pub sha256_hex : Text → Text
unfolding to_hex hex_digit sha256
sha256_hex input = to_hex (sha256 input)

unfoldable pub sha256_salted_hex : (salt_hex token : Text) → Text
unfolding sha256_hex
sha256_salted_hex salt_hex token = sha256_hex (salt_hex ++ token)

-- The loop over both strings, which are of one length: `result |= a[i] ^ b[i]`.
unfoldable pub accumulate : ℕ → Text → Text → ℕ
accumulate result [] _ = result
accumulate result (x ∷ xs) [] = result
accumulate result (x ∷ xs) (y ∷ ys) = accumulate (bit_or result (bit_xor x y)) xs ys

unfoldable pub constant_time_equal : Text → Text → Bool
unfolding accumulate
constant_time_equal a b = if not (length a == length b) then false else accumulate 0 a b == 0
