-- ===== src/Crypto/Sha256.antt =====
-- `sha256` of src/core/crypto.cpp. A uint32_t is a number below 2 ^ 32, and every sum wraps.
use Prim.Native.Nat.{bit_and, bit_or, bit_xor}
use mathlib.Core.List.{reverse}
use server_mcp_bridge.Base.{
  ℕ, zero, suc, ◌+◌, ◌-◌, ◌*◌, ◌/◌, ◌%◌, ◌^◌, ◌≡◌, refl, ap, arith, ◌<◌, All, All-append,
  length-append, ltb→lt, Bool-cases, inl, inr, List, [], ◌∷◌, ◌++◌, codes, length, ltb, ◌==◌, take,
  drop, replicate, length-replicate, if◌then◌else◌,
}

abbrev u32_mod : ℕ
u32_mod = 2 ^ 32

-- `(x >> n) | (x << (32 - n))`.
rotr : ℕ → ℕ → ℕ
rotr x n = bit_or (x / 2 ^ n) (x * 2 ^ (32 - n) % u32_mod)

-- The round constants `K`.
abbrev k_table : List ℕ
k_table =
    0x428a2f98 ∷ 0x71374491 ∷ 0xb5c0fbcf ∷ 0xe9b5dba5 ∷ 0x3956c25b ∷ 0x59f111f1 ∷ 0x923f82a4
    ∷ 0xab1c5ed5 ∷ 0xd807aa98 ∷ 0x12835b01 ∷ 0x243185be ∷ 0x550c7dc3 ∷ 0x72be5d74 ∷ 0x80deb1fe
    ∷ 0x9bdc06a7 ∷ 0xc19bf174 ∷ 0xe49b69c1 ∷ 0xefbe4786 ∷ 0x0fc19dc6 ∷ 0x240ca1cc ∷ 0x2de92c6f
    ∷ 0x4a7484aa ∷ 0x5cb0a9dc ∷ 0x76f988da ∷ 0x983e5152 ∷ 0xa831c66d ∷ 0xb00327c8 ∷ 0xbf597fc7
    ∷ 0xc6e00bf3 ∷ 0xd5a79147 ∷ 0x06ca6351 ∷ 0x14292967 ∷ 0x27b70a85 ∷ 0x2e1b2138 ∷ 0x4d2c6dfc
    ∷ 0x53380d13 ∷ 0x650a7354 ∷ 0x766a0abb ∷ 0x81c2c92e ∷ 0x92722c85 ∷ 0xa2bfe8a1 ∷ 0xa81a664b
    ∷ 0xc24b8b70 ∷ 0xc76c51a3 ∷ 0xd192e819 ∷ 0xd6990624 ∷ 0xf40e3585 ∷ 0x106aa070 ∷ 0x19a4c116
    ∷ 0x1e376c08 ∷ 0x2748774c ∷ 0x34b0bcb5 ∷ 0x391c0cb3 ∷ 0x4ed8aa4a ∷ 0x5b9cca4f ∷ 0x682e6ff3
    ∷ 0x748f82ee ∷ 0x78a5636f ∷ 0x84c87814 ∷ 0x8cc70208 ∷ 0x90befffa ∷ 0xa4506ceb ∷ 0xbef9a3f7
    ∷ 0xc67178f2 ∷ []

-- The list of schedule words is kept newest first, so `W[i - 2]` is its second element.
unfoldable pub at : ℕ → List ℕ → ℕ
at i [] = 0
at zero (w ∷ ws) = w
at (suc i) (w ∷ ws) = at i ws

-- The first 16 words of a block, big-endian, newest first.
load_words : List ℕ → List ℕ → List ℕ
load_words acc (b0 ∷ b1 ∷ b2 ∷ b3 ∷ rest) =
    load_words (bit_or (bit_or (bit_or (b0 * 2 ^ 24) (b1 * 2 ^ 16)) (b2 * 2 ^ 8)) b3 ∷ acc) rest
load_words acc _ = acc

-- One word of the message schedule, `W[i]` from the 16 words before it.
next_word : List ℕ → ℕ
unfolding at rotr
next_word ws =
    let s0 = bit_xor (bit_xor (rotr (at 14 ws) 7) (rotr (at 14 ws) 18)) (at 14 ws / 2 ^ 3) in
    let s1 = bit_xor (bit_xor (rotr (at 1 ws) 17) (rotr (at 1 ws) 19)) (at 1 ws / 2 ^ 10) in
    (at 15 ws + s0 + at 6 ws + s1) % u32_mod

schedule : ℕ → List ℕ → List ℕ
schedule zero ws = ws
schedule (suc n) ws = schedule n (next_word ws ∷ ws)

record State : Type 0 where
  a : ℕ
  b : ℕ
  c : ℕ
  d : ℕ
  e : ℕ
  f : ℕ
  g : ℕ
  h : ℕ

-- One round of the compression loop.
round : State → (k w : ℕ) → State
unfolding rotr
round s k w =
    let s1 = bit_xor (bit_xor (rotr s.e 6) (rotr s.e 11)) (rotr s.e 25) in
    let ch = bit_xor (bit_and s.e s.f) (bit_and (u32_mod - 1 - s.e) s.g) in
    let t1 = (s.h + s1 + ch + k + w) % u32_mod in
    let s0 = bit_xor (bit_xor (rotr s.a 2) (rotr s.a 13)) (rotr s.a 22) in
    let mj = bit_xor (bit_xor (bit_and s.a s.b) (bit_and s.a s.c)) (bit_and s.b s.c) in
    let t2 = (s0 + mj) % u32_mod in
    record {
      h = s.g;
      g = s.f;
      f = s.e;
      e = (s.d + t1) % u32_mod;
      d = s.c;
      c = s.b;
      b = s.a;
      a = (t1 + t2) % u32_mod;
    }

rounds : State → List ℕ → List ℕ → State
unfolding round
rounds s (k ∷ ks) (w ∷ ws) = rounds (round s k w) ks ws
rounds s _ _ = s

process_block : List ℕ → State → State
unfolding load_words next_word schedule rounds
process_block block state =
    let s = rounds state k_table (reverse (schedule 48 (load_words [] block))) in
    record {
      a = (state.a + s.a) % u32_mod;
      b = (state.b + s.b) % u32_mod;
      c = (state.c + s.c) % u32_mod;
      d = (state.d + s.d) % u32_mod;
      e = (state.e + s.e) % u32_mod;
      f = (state.f + s.f) % u32_mod;
      g = (state.g + s.g) % u32_mod;
      h = (state.h + s.h) % u32_mod;
    }

abbrev initial : State
initial = record {
  a = 0x6a09e667;
  b = 0xbb67ae85;
  c = 0x3c6ef372;
  d = 0xa54ff53a;
  e = 0x510e527f;
  f = 0x9b05688c;
  g = 0x1f83d9ab;
  h = 0x5be0cd19;
}

-- `while (len >= 64)`: it runs `len / 64` times.
full_blocks : ℕ → List ℕ → State → State
unfolding process_block
full_blocks zero bytes state = state
full_blocks (suc n) bytes state =
    full_blocks n (drop 64 bytes) (process_block (take 64 bytes) state)

-- The `n` lowest bytes of a number, big-endian: `(uint8_t)(v >> 8 * i)`, from the last on.
big_endian : ℕ → ℕ → List ℕ
big_endian zero v = []
big_endian (suc n) v = v / 2 ^ (8 * n) % 256 ∷ big_endian n v

-- The last block or two: the rest of the data, 0x80, zeros, and the length in bits.
padded : ℕ → List ℕ → List ℕ
unfolding big_endian
padded total rest =
    let pad_len = if ltb (length rest) 56 then 64 else 128 in
    rest ++ (0x80 ∷ (replicate (pad_len - length rest - 9) 0 ++ big_endian 8 (total * 8 % 2 ^ 64)))

-- Words as bytes, big-endian.
words : List ℕ → List ℕ
unfolding big_endian
words [] = []
words (w ∷ ws) = big_endian 4 w ++ words ws

digest : State → List ℕ
unfolding words
digest s = words (s.a ∷ s.b ∷ s.c ∷ s.d ∷ s.e ∷ s.f ∷ s.g ∷ s.h ∷ [])

finish : List ℕ → State → State
unfolding process_block
finish pad state =
    let once = process_block (take 64 pad) state in
    if length pad == 128 then process_block (drop 64 pad) once else once

-- The state after all blocks of the message.
hashed : List ℕ → State
unfolding full_blocks padded finish
hashed bytes =
    let blocks = length bytes / 64 in
    let rest = drop (blocks * 64) bytes in
    finish (padded (length bytes) rest) (full_blocks blocks bytes initial)

unfoldable pub sha256 : List ℕ → List ℕ
unfolding digest hashed
sha256 bytes = digest (hashed bytes)

abbrev pub AreBytes : List ℕ → Type 0
AreBytes = All (λ b. b < 256)

length-big_endian : (n v : ℕ) → length (big_endian n v) ≡ n
unfolding big_endian
length-big_endian zero v = refl
length-big_endian (suc n) v = ap suc (length-big_endian n v)

big_endian-AreBytes : (n v : ℕ) → AreBytes (big_endian n v)
unfolding big_endian
big_endian-AreBytes zero v = tt
big_endian-AreBytes (suc n) v = (omega arith, big_endian-AreBytes n v)

-- The digest is 32 bytes.
pub length-sha256 : (bytes : List ℕ) → length (sha256 bytes) ≡ 32
unfolding sha256
length-sha256 bytes = refl

words-AreBytes : (ws : List ℕ) → AreBytes (words ws)
unfolding words
words-AreBytes [] = tt
words-AreBytes (w ∷ ws) =
    All-append (λ b. b < 256) (big_endian 4 w) (words ws) (big_endian-AreBytes 4 w)
      (words-AreBytes ws)

digest-AreBytes : (s : State) → AreBytes (digest s)
unfolding digest
digest-AreBytes s = words-AreBytes (s.a ∷ s.b ∷ s.c ∷ s.d ∷ s.e ∷ s.f ∷ s.g ∷ s.h ∷ [])

pub sha256-AreBytes : (bytes : List ℕ) → AreBytes (sha256 bytes)
unfolding sha256
sha256-AreBytes bytes = digest-AreBytes (hashed bytes)

-- The blocks that the padding makes are whole: one, or two if the length does not fit the first.
length-padded :
    (total : ℕ) (rest : List ℕ)
    → length rest < 64
    → length (padded total rest) ≡ (if ltb (length rest) 56 then 64 else 128)
unfolding padded
length-padded total rest h = elim (Bool-cases (ltb (length rest) 56)) [
  | inl e ↦
      rw (e, length-append rest)
        (omega (arith, ltb→lt (length rest) 56 e, padding (64 - length rest - 9)))
  | inr e ↦ rw (e, length-append rest) (omega (arith, padding (128 - length rest - 9)))
]
  where
    padding :
        (n : ℕ) → length (0x80 ∷ (replicate n 0 ++ big_endian 8 (total * 8 % 2 ^ 64))) ≡ 1 + n + 8
    padding n = omega (
      arith,
      length-append (replicate n 0) (big_endian 8 (total * 8 % 2 ^ 64)),
      length-replicate {A = ℕ} n 0,
      length-big_endian 8 (total * 8 % 2 ^ 64),
    )

-- The test vector of FIPS 180-4 for the three bytes of "abc".
sha256_abc :
    sha256 (codes "abc")
    ≡ 0xba ∷ 0x78 ∷ 0x16 ∷ 0xbf ∷ 0x8f ∷ 0x01 ∷ 0xcf ∷ 0xea ∷ 0x41 ∷ 0x41 ∷ 0x40 ∷ 0xde ∷ 0x5d
      ∷ 0xae ∷ 0x22 ∷ 0x23 ∷ 0xb0 ∷ 0x03 ∷ 0x61 ∷ 0xa3 ∷ 0x96 ∷ 0x17 ∷ 0x7a ∷ 0x9c ∷ 0xb4 ∷ 0x10
      ∷ 0xff ∷ 0x61 ∷ 0xf2 ∷ 0x00 ∷ 0x15 ∷ 0xad ∷ []
unfolding sha256
sha256_abc = refl
