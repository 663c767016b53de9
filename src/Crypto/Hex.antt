-- ===== src/Crypto/Hex.antt =====
-- The shape of hexadecimal output, and its inverse.
use Prim.Native.Nat.{bit_and}
use server_mcp_bridge.Base.{
  ℕ, ◌+◌, ◌-◌, ◌*◌, ◌/◌, ◌^◌, ◌<◌, ◌≡◌, refl, ap, Bool, true, ◌&&◌, ◌||◌, List, [], ◌∷◌, arith,
  Text, leb, ◌==◌, length, all, if◌then◌else◌, all_below, all_below_sound, ==_iff, and_true, ◌++◌,
}
use server_mcp_bridge.Bits.{bit_and_mask4}
use server_mcp_bridge.Crypto.{hex_digit, to_hex, sha256_hex, sha256_salted_hex}
use server_mcp_bridge.Crypto.Sha256.{sha256, length-sha256, AreBytes, sha256-AreBytes}

-- `(c >= '0' && c <= '9') || (c >= 'a' && c <= 'f')`, as the validators of identifiers test it.
abbrev pub is_hex : ℕ → Bool
is_hex c = (leb b'0' c && leb c b'9') || (leb b'a' c && leb c b'f')

-- The value of a digit.
abbrev pub hex_value : ℕ → ℕ
hex_value c = if leb c b'9' then c - b'0' else c - 87

-- The bytes that a text of hexadecimal digits stands for.
pub from_hex : Text → List ℕ
from_hex [] = []
from_hex (h ∷ []) = []
from_hex (h ∷ l ∷ rest) = (hex_value h * 16 + hex_value l) ∷ from_hex rest

digit_table : all_below 16 (λ n. is_hex (hex_digit n) && (hex_value (hex_digit n) == n)) ≡ true
unfolding all_below hex_digit
digit_table = refl

hex_digit_lem : (n : ℕ) → n < 16 → (is_hex (hex_digit n) ≡ true) × (hex_value (hex_digit n) ≡ n)
hex_digit_lem n h =
    let checked = and_true _ _ (all_below_sound _ 16 n h digit_table) in
    (checked.0, (==_iff _ n).0 checked.1)

nibbles : (b : ℕ) → b < 256 → (b / 2 ^ 4 < 16) × (bit_and b 0xf < 16)
nibbles b h = (omega arith, omega (arith, bit_and_mask4 b))

-- Two digits for each byte.
pub length-to_hex : (bs : List ℕ) → length (to_hex bs) ≡ 2 * length bs
unfolding to_hex
length-to_hex [] = refl
length-to_hex (b ∷ bs) = omega (arith, length-to_hex bs)

-- All of them lowercase hexadecimal digits.
pub all-to_hex : (bs : List ℕ) → AreBytes bs → all is_hex (to_hex bs) ≡ true
unfolding to_hex
all-to_hex [] h = refl
all-to_hex (b ∷ bs) h =
    let n = nibbles b h.0 in
    rw ((hex_digit_lem _ n.0).0, (hex_digit_lem _ n.1).0) (all-to_hex bs h.1)

-- Reading the digits gives the bytes back: different bytes have different texts.
pub from_hex-to_hex : (bs : List ℕ) → AreBytes bs → from_hex (to_hex bs) ≡ bs
unfolding from_hex to_hex
from_hex-to_hex [] h = refl
from_hex-to_hex (b ∷ bs) h =
    let n = nibbles b h.0 in
    rw ((hex_digit_lem _ n.0).1, (hex_digit_lem _ n.1).1, from_hex-to_hex bs h.1)
      (ap (λ c. c ∷ bs) (omega (arith, bit_and_mask4 b)))

-- A salted hash is 64 lowercase hexadecimal digits.
pub sha256_salted_hex-shape :
    (salt token : Text)
    → (length (sha256_salted_hex salt token) ≡ 64)
      × (all is_hex (sha256_salted_hex salt token) ≡ true)
unfolding sha256_salted_hex sha256_hex
sha256_salted_hex-shape salt token = (
  omega (arith, length-to_hex (sha256 (salt ++ token)), length-sha256 (salt ++ token)),
  all-to_hex (sha256 (salt ++ token)) (sha256-AreBytes (salt ++ token)),
)
