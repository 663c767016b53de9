-- ===== src/Shortid/Shape.antt =====
-- The shape of the identifiers of sessions and of tokens.
use Prim.Native.Nat.{bit_and, bit_or}
use server_mcp_bridge.Base.{
  ℕ, zero, suc, ◌%◌, ◌/◌, ◌≡◌, refl, Bool, true, ◌||◌, arith, Text, ◌==◌, ==_iff, length, all,
  get_or, all_below, all_below_sound,
}
use server_mcp_bridge.Bits.{bit_and_mask4, bit_and_mask6}
use server_mcp_bridge.Crypto.{hex_digit, to_hex}
use server_mcp_bridge.Crypto.Sha256.{AreBytes}
use server_mcp_bridge.Crypto.Hex.{is_hex, length-to_hex, all-to_hex}
use server_mcp_bridge.Shortid.{bytes_from, make_token, make_uuid_v4}
use server_mcp_bridge.Shortid.Letters.{DrawsBytes}

version_table : all_below 16 (λ n. hex_digit (bit_or n 64 / 16) == b'4') ≡ true
unfolding all_below hex_digit
version_table = refl

abbrev pub is_variant : ℕ → Bool
is_variant c = (c == b'8') || (c == b'9') || (c == b'a') || (c == b'b')

variant_table : all_below 64 (λ n. is_variant (hex_digit (bit_or n 128 / 16))) ≡ true
unfolding all_below hex_digit
variant_table = refl

-- A text of 36 characters with dashes in their places, the version 4 and the variant 10.
pub record IsUuid (t : Text) : Type 0 where
  pub size : length t ≡ 36
  pub dash8 : get_or t 8 0 ≡ b'-'
  pub dash13 : get_or t 13 0 ≡ b'-'
  pub version : get_or t 14 0 ≡ b'4'
  pub dash18 : get_or t 18 0 ≡ b'-'
  pub variant : is_variant (get_or t 19 0) ≡ true
  pub dash23 : get_or t 23 0 ≡ b'-'

version_lem : (x : ℕ) → hex_digit (bit_or (bit_and x 15) 64 / 16) ≡ b'4'
version_lem x = (==_iff _ _).0 (
    rw (bit_and_mask4 x) (
      all_below_sound (λ n. hex_digit (bit_or n 64 / 16) == b'4') 16 (x % 16) (omega arith)
        version_table))

variant_lem : (x : ℕ) → is_variant (hex_digit (bit_or (bit_and x 63) 128 / 16)) ≡ true
variant_lem x = rw (bit_and_mask6 x) (
    all_below_sound (λ n. is_variant (hex_digit (bit_or n 128 / 16))) 64 (x % 64) (omega arith)
      variant_table)

-- Whatever the bytes drawn, the identifier of a session has the form of a random UUID.
pub make_uuid_v4-IsUuid : (raw : ℕ → ℕ) → IsUuid (make_uuid_v4 raw)
unfolding make_uuid_v4 to_hex
make_uuid_v4-IsUuid raw = record {
  size = refl;
  dash8 = refl;
  dash13 = refl;
  version = version_lem (raw 6);
  dash18 = refl;
  variant = variant_lem (raw 8);
  dash23 = refl;
}

bytes_from-AreBytes : (raw : ℕ → ℕ) (i n : ℕ) → DrawsBytes raw → AreBytes (bytes_from raw i n)
bytes_from-AreBytes raw i zero h = tt
bytes_from-AreBytes raw i (suc n) h = (h i, bytes_from-AreBytes raw (suc i) n h)

-- A token is 64 lowercase hexadecimal digits.
pub make_token-shape :
    (raw : ℕ → ℕ)
    → DrawsBytes raw
    → (length (make_token raw) ≡ 64) × (all is_hex (make_token raw) ≡ true)
make_token-shape raw h =
    (length-to_hex (bytes_from raw 0 32), all-to_hex _ (bytes_from-AreBytes raw 0 32 h))
