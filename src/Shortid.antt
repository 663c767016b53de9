-- ===== src/Shortid.antt =====
-- src/core/shortid.cpp: the identifiers of users, tokens and the identifiers of sessions. The bytes
-- read from /dev/urandom are an argument, by their index.
pub mod Letters
pub mod Shape
mod Tests
use Prim.Native.Nat.{bit_and, bit_or}
use server_mcp_bridge.Base.{
  ℕ, zero, suc, ◌*◌, ◌/◌, Bool, true, false, not, ◌&&◌, ◌||◌, List, [], ◌∷◌, ◌++◌, Text, codes, leb,
  ◌==◌, length, all, take, drop, get_or, if◌then◌else◌,
}
use server_mcp_bridge.Crypto.{to_hex}

abbrev pub alphabet : Text
alphabet = codes "abcdefghijklmnopqrstuvwxyz234567"

abbrev pub letter : ℕ → ℕ
letter i = get_or alphabet i 0

-- `x << k` is `x * 2 ^ k`, which is below 2 ^ 32 here, and `x >> k` is `x / 2 ^ k`.
unfoldable pub make_shortid : (raw : ℕ → ℕ) → Text
make_shortid raw =
    letter (raw 0 / 8)
    ∷ letter (bit_or (bit_and (raw 0) 7 * 4) (raw 1 / 64))
    ∷ letter (bit_and (raw 1 / 2) 31)
    ∷ letter (bit_or (bit_and (raw 1) 1 * 16) (raw 2 / 16))
    ∷ letter (bit_or (bit_and (raw 2) 15 * 2) (raw 3 / 128))
    ∷ letter (bit_and (raw 3 / 4) 31)
    ∷ letter (bit_or (bit_and (raw 3) 3 * 8) (raw 4 / 32))
    ∷ letter (bit_and (raw 4) 31)
    ∷ []

abbrev pub is_letter : ℕ → Bool
is_letter c = (leb b'a' c && leb c b'z') || (leb b'2' c && leb c b'7')

abbrev pub valid_shortid : Text → Bool
valid_shortid s = if not (length s == 8) then false else all is_letter s

-- The bytes from the index `i` on.
abbrev pub bytes_from : (raw : ℕ → ℕ) → ℕ → ℕ → List ℕ
bytes_from raw i zero = []
bytes_from raw i (suc n) = raw i ∷ bytes_from raw (suc i) n

abbrev pub make_token : (raw : ℕ → ℕ) → Text
make_token raw = to_hex (bytes_from raw 0 32)

-- The sixteen bytes with the version and the variant set.
abbrev pub uuid_bytes : (raw : ℕ → ℕ) → List ℕ
uuid_bytes raw =
    bytes_from raw 0 6
    ++ bit_or (bit_and (raw 6) 15) 64 ∷ raw 7 ∷ bit_or (bit_and (raw 8) 63) 128 ∷ bytes_from raw 9 7

abbrev pub dashed : (hex : Text) → Text
dashed hex =
    take 8 hex
    ++ b'-'
      ∷ (take 4 (drop 8 hex)
          ++ b'-'
            ∷ (take 4 (drop 12 hex)
                ++ b'-' ∷ (take 4 (drop 16 hex) ++ b'-' ∷ take 12 (drop 20 hex))))

unfoldable pub make_uuid_v4 : (raw : ℕ → ℕ) → Text
make_uuid_v4 raw = dashed (to_hex (uuid_bytes raw))
