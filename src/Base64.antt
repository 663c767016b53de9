-- ===== src/Base64.antt =====
-- Base64: base64_encode of src/core/runtime_sync.cpp and src/tools/scheduling/cron_backend_linux.cpp,
-- and base64_decode of src/priv/main.c. A C string is the list of its bytes before the terminator.
pub mod Trip
pub mod Bounds
mod Tests
use Prim.Native.Nat.{bit_and, bit_or}
use server_mcp_bridge.Base.{
  ℕ, ◌+◌, ◌-◌, ◌*◌, ◌/◌, ◌%◌, ◌^◌, Bool, true, false, ◌&&◌, ◌||◌, Option, none, some, List, [], ◌∷◌,
  ◌++◌, Text, codes, ltb, leb, ◌==◌, length, is_empty, get_or, if◌then◌else◌,
}

unfoldable pub tbl : ℕ → ℕ
tbl n = get_or (codes "ABCDEFGHIJKLMNOPQRSTUVWXYZabcdefghijklmnopqrstuvwxyz0123456789+/") n 0

-- `tbl[(v >> shift) & 0x3f]`.
abbrev pub sextet : (v shift : ℕ) → ℕ
sextet v shift = tbl (bit_and (v / 2 ^ shift) 63)

unfoldable pub base64_encode : Text → Text
unfolding tbl
base64_encode [] = []
base64_encode (a ∷ []) = let v = a * 2 ^ 16 in sextet v 18 ∷ sextet v 12 ∷ b'=' ∷ b'=' ∷ []
base64_encode (a ∷ b ∷ []) =
    let v = bit_or (a * 2 ^ 16) (b * 2 ^ 8) in sextet v 18 ∷ sextet v 12 ∷ sextet v 6 ∷ b'=' ∷ []
base64_encode (a ∷ b ∷ c ∷ rest) =
    let v = bit_or (bit_or (a * 2 ^ 16) (b * 2 ^ 8)) c in
    sextet v 18 ∷ sextet v 12 ∷ sextet v 6 ∷ sextet v 0 ∷ base64_encode rest

unfoldable pub b64_val : ℕ → Option ℕ
b64_val c =
    if leb b'A' c && leb c b'Z'
    then some (c - b'A')
    else if leb b'a' c && leb c b'z'
    then some (c - b'a' + 26)
    else if leb b'0' c && leb c b'9'
    then some (c - b'0' + 52)
    else if c == b'+'
    then some 62
    else if c == b'/'
    then some 63
    else none

-- An element of `quad`: a value, or -2.
pub data Digit : Type 0 where
  value : ℕ → Digit
  padding : Digit

abbrev pub value_digit : Option ℕ → Option Digit
value_digit none = none
value_digit (some v) = some (value v)

unfoldable pub digit : ℕ → Option Digit
unfolding b64_val
digit c = if c == b'=' then some padding else value_digit (b64_val c)

unfoldable pub is_skipped : ℕ → Bool
is_skipped c = (c == 10) || (c == 13) || (c == b' ') || (c == 9)

-- What a character does to the loop: return -1, leave it, or go on with a quartet. `out` is what has
-- been written to `dst` by then, also if -1 is returned.
pub data Flow : Type 0 where
  broken : (out : Text) → Flow
  finished : (out : Text) → Flow
  going : (quad : List Digit) (out : Text) → Flow

-- `if (out + 1 > dst_sz) return -1; dst[out++] = (unsigned char)b;`.
unfoldable pub put_byte : (dst_sz b : ℕ) (out : Text) → (Text → Flow) → Flow
put_byte dst_sz b out next =
    if ltb dst_sz (length out + 1) then broken out else next (out ++ (b % 256) ∷ [])

abbrev pub third_byte : (dst_sz q2 : ℕ) (quad3 : Digit) → (out : Text) → Flow
third_byte dst_sz q2 padding out = finished out
third_byte dst_sz q2 (value q3) out =
    put_byte dst_sz (bit_or (bit_and q2 3 * 2 ^ 6) q3) out (λ out. going [] out)

abbrev pub second_byte : (dst_sz q1 : ℕ) (quad2 quad3 : Digit) → (out : Text) → Flow
second_byte dst_sz q1 padding quad3 out = finished out
second_byte dst_sz q1 (value q2) quad3 out =
    put_byte dst_sz (bit_or (bit_and q1 15 * 2 ^ 4) (q2 / 2 ^ 2)) out (third_byte dst_sz q2 quad3)

-- A full quartet.
abbrev pub flush : (dst_sz : ℕ) (quad0 quad1 quad2 quad3 : Digit) → (out : Text) → Flow
flush dst_sz (value q0) (value q1) quad2 quad3 out =
    put_byte dst_sz (bit_or (q0 * 2 ^ 2) (q1 / 2 ^ 4)) out (second_byte dst_sz q1 quad2 quad3)
flush dst_sz padding quad1 quad2 quad3 out = broken out
flush dst_sz (value q0) padding quad2 quad3 out = broken out

unfoldable pub push : (dst_sz : ℕ) (quad : List Digit) → Digit → (out : Text) → Flow
unfolding put_byte
push dst_sz (quad0 ∷ quad1 ∷ quad2 ∷ []) d out = flush dst_sz quad0 quad1 quad2 d out
push dst_sz quad d out = going (quad ++ d ∷ []) out

-- How the decoder ends, with the bytes that it wrote to `dst`: it returns -1, or their number.
pub data Decoding : Type 0 where
  failed : (dst : Text) → Decoding
  decoded : (dst : Text) → Decoding

-- The loop, and the test for an incomplete quartet after it.
unfoldable pub decode_loop : (dst_sz : ℕ) → Text → (quad : List Digit) (out : Text) → Decoding
unfolding is_skipped digit push
decode_loop dst_sz [] quad out = if is_empty quad then decoded out else failed out
decode_loop dst_sz (c ∷ cs) quad out = elim (is_skipped c) [
  | true ↦ decode_loop dst_sz cs quad out
  | false ↦ elim (digit c) [
    | none ↦ failed out
    | some d ↦ elim (push dst_sz quad d out) [
      | broken out' ↦ failed out'
      | finished out' ↦ decoded out'
      | going quad' out' ↦ decode_loop dst_sz cs quad' out'
    ]
  ]
]

-- A call with an empty buffer of `dst_sz` bytes.
unfoldable pub decode_into : (dst_sz : ℕ) → Text → Decoding
unfolding decode_loop
decode_into dst_sz text = decode_loop dst_sz text [] []

-- What a caller has of it: the bytes if it does not return -1.
abbrev pub result_of : Decoding → Option Text
result_of (failed dst) = none
result_of (decoded dst) = some dst

unfoldable pub base64_decode : (dst_sz : ℕ) → Text → Option Text
unfolding decode_into
base64_decode dst_sz text = result_of (decode_into dst_sz text)
