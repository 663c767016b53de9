-- ===== src/Base64/Trip.antt =====
-- Decoding what was encoded.
use Prim.Native.Nat.{bit_and, bit_or}
use server_mcp_bridge.Base.{
  ℕ, ◌+◌, ◌*◌, ◌/◌, ◌%◌, ◌^◌, ◌≤◌, ◌<◌, ◌≡◌, refl, sym, ap, ◌∙◌, Bool, true, false, not, ◌&&◌,
  Option, none, some, List, [], ◌∷◌, ◌++◌, arith, Text, ltb, ◌==◌, length, length-append,
  append-empty, all_below, all_below_sound, ==_iff, and_true,
}
use server_mcp_bridge.Bits.{bit_and_mask2, bit_and_mask4, bit_and_mask6, bit_or_join}
use server_mcp_bridge.Crypto.Sha256.{AreBytes}
use server_mcp_bridge.Base64.{
  tbl, base64_encode, Digit, value, padding, digit, is_skipped, Flow, broken, finished, going,
  Decoding, failed, decoded, result_of, put_byte, second_byte, third_byte, push, decode_loop,
  base64_decode,
}

abbrev reads : ℕ → Option Digit → Bool
reads n none = false
reads n (some padding) = false
reads n (some (value v)) = v == n

tbl_checked : all_below 64 (λ n. not (is_skipped (tbl n)) && reads n (digit (tbl n))) ≡ true
unfolding all_below tbl digit is_skipped
tbl_checked = refl

reads_lem : (n : ℕ) (d : Option Digit) → reads n d ≡ true → d ≡ some (value n)
reads_lem n none h = cc
reads_lem n (some padding) h = cc
reads_lem n (some (value v)) h = ap (λ m. some (value m)) ((==_iff v n).0 h)

flipped_lem : (b : Bool) → not b ≡ true → b ≡ false
flipped_lem true h = cc
flipped_lem false h = refl

tbl_lem : (n : ℕ) → n < 64 → (is_skipped (tbl n) ≡ false) × (digit (tbl n) ≡ some (value n))
tbl_lem n h =
    let both = and_true _ _ (all_below_sound _ 64 n h tbl_checked) in
    (flipped_lem (is_skipped (tbl n)) both.0, reads_lem n (digit (tbl n)) both.1)

abbrev continue : (dst_sz : ℕ) (cs : Text) → Flow → Decoding
continue dst_sz cs (broken out) = failed out
continue dst_sz cs (finished out) = decoded out
continue dst_sz cs (going quad out) = decode_loop dst_sz cs quad out

-- The loop at the letter of a value.
at_letter :
    (dst_sz n : ℕ) (cs : Text) (quad : List Digit) (out : Text)
    → n < 64
    → decode_loop dst_sz (tbl n ∷ cs) quad out ≡ continue dst_sz cs (push dst_sz quad (value n) out)
unfolding decode_loop
at_letter dst_sz n cs quad out h = rw ((tbl_lem n h).0, (tbl_lem n h).1, decode_loop) refl

-- The loop at a sign of padding.
at_padding :
    (dst_sz : ℕ) (cs : Text) (quad : List Digit) (out : Text)
    → decode_loop dst_sz (b'=' ∷ cs) quad out ≡ continue dst_sz cs (push dst_sz quad padding out)
unfolding decode_loop is_skipped digit
at_padding dst_sz cs quad out = refl

-- The four letters of three bytes.
abbrev letter0 : ℕ → ℕ
letter0 a = a / 4

abbrev letter1 : (a b : ℕ) → ℕ
letter1 a b = a % 4 * 16 + b / 16

abbrev letter2 : (b c : ℕ) → ℕ
letter2 b c = b % 16 * 4 + c / 64

-- What the encoder packs into a number, as an arithmetic expression.
packed :
    (a b c : ℕ)
    → b < 256
    → c < 256
    → bit_or (bit_or (a * 2 ^ 16) (b * 2 ^ 8)) c ≡ a * 65536 + b * 256 + c
packed a b c hb hc =
    let high : bit_or (a * 2 ^ 16) (b * 2 ^ 8) ≡ (a * 256 + b) * 2 ^ 8 =
      bit_or_join 16 a (b * 2 ^ 8) (omega arith) ∙ omega arith in
    rw (high, bit_or_join 8 (a * 256 + b) c (omega arith)) (omega arith)

sextets :
    (v a b c : ℕ)
    → v ≡ a * 65536 + b * 256 + c
    → a < 256
    → b < 256
    → c < 256
    → (bit_and (v / 2 ^ 18) 63 ≡ letter0 a)
      × (bit_and (v / 2 ^ 12) 63 ≡ letter1 a b)
      × (bit_and (v / 2 ^ 6) 63 ≡ letter2 b c)
      × (bit_and (v / 2 ^ 0) 63 ≡ c % 64)
sextets v a b c e ha hb hc = (
  bit_and_mask6 _ ∙ omega arith,
  bit_and_mask6 _ ∙ omega arith,
  bit_and_mask6 _ ∙ omega arith,
  bit_and_mask6 _ ∙ omega arith,
)

-- What the decoder puts together from two letters.
first_byte :
    (a b : ℕ) → a < 256 → b < 256 → bit_or (letter0 a * 2 ^ 2) (letter1 a b / 2 ^ 4) % 256 ≡ a
first_byte a b ha hb =
    rw (bit_or_join 2 (letter0 a) (letter1 a b / 2 ^ 4) (omega arith)) (omega arith)

middle_byte :
    (a b c : ℕ)
    → a < 256
    → b < 256
    → c < 256
    → bit_or (bit_and (letter1 a b) 15 * 2 ^ 4) (letter2 b c / 2 ^ 2) % 256 ≡ b
middle_byte a b c ha hb hc =
    rw
      (
        bit_and_mask4 (letter1 a b),
        bit_or_join 4 (letter1 a b % 16) (letter2 b c / 2 ^ 2) (omega arith),
      )
      (omega arith)

last_byte :
    (b c : ℕ) → b < 256 → c < 256 → bit_or (bit_and (letter2 b c) 3 * 2 ^ 6) (c % 64) % 256 ≡ c
last_byte b c hb hc =
    rw (bit_and_mask2 (letter2 b c), bit_or_join 6 (letter2 b c % 4) (c % 64) (omega arith))
      (omega arith)

-- There is room for a byte.
put_byte_lem :
    (dst_sz b a : ℕ) (out : Text) (next : Text → Flow)
    → length out + 1 ≤ dst_sz
    → b % 256 ≡ a
    → put_byte dst_sz b out next ≡ next (out ++ a ∷ [])
unfolding put_byte
put_byte_lem dst_sz b a out next room e =
    let fits : ltb dst_sz (length out + 1) ≡ false = ground arith in rw (fits, e) refl

-- The quartets of three bytes, of two and of one.
quartet3 :
    (dst_sz a b c : ℕ) (cs out : Text)
    → a < 256
    → b < 256
    → c < 256
    → length out + 3 ≤ dst_sz
    → decode_loop dst_sz
        (tbl (letter0 a) ∷ tbl (letter1 a b) ∷ tbl (letter2 b c) ∷ tbl (c % 64) ∷ cs)
        []
        out
      ≡ decode_loop dst_sz cs [] (((out ++ a ∷ []) ++ b ∷ []) ++ c ∷ [])
unfolding push
quartet3 dst_sz a b c cs out ha hb hc room =
    at_letter dst_sz (letter0 a) _ [] out (omega arith)
    ∙ at_letter dst_sz (letter1 a b) _ _ out (omega arith)
    ∙ at_letter dst_sz (letter2 b c) _ _ out (omega arith)
    ∙ at_letter dst_sz (c % 64) cs _ out (omega arith)
    ∙ ap (continue dst_sz cs) (
        put_byte_lem dst_sz _ a out
          (second_byte dst_sz (letter1 a b) (value (letter2 b c)) (value (c % 64))) (omega arith)
          (first_byte a b ha hb)
        ∙ put_byte_lem dst_sz _ b (out ++ a ∷ []) (third_byte dst_sz (letter2 b c) (value (c % 64)))
            (omega (arith, length-append out (a ∷ []))) (middle_byte a b c ha hb hc)
        ∙ put_byte_lem dst_sz _ c ((out ++ a ∷ []) ++ b ∷ []) (λ out. going [] out)
            (omega (arith, length-append out (a ∷ []), length-append (out ++ a ∷ []) (b ∷ [])))
            (last_byte b c hb hc))

quartet2 :
    (dst_sz a b : ℕ) (out : Text)
    → a < 256
    → b < 256
    → length out + 2 ≤ dst_sz
    → decode_loop dst_sz
        (tbl (letter0 a) ∷ tbl (letter1 a b) ∷ tbl (letter2 b 0) ∷ b'=' ∷ [])
        []
        out
      ≡ decoded ((out ++ a ∷ []) ++ b ∷ [])
unfolding push
quartet2 dst_sz a b out ha hb room =
    at_letter dst_sz (letter0 a) _ [] out (omega arith)
    ∙ at_letter dst_sz (letter1 a b) _ _ out (omega arith)
    ∙ at_letter dst_sz (letter2 b 0) _ _ out (omega arith)
    ∙ at_padding dst_sz [] _ out
    ∙ ap (continue dst_sz []) (
        put_byte_lem dst_sz _ a out (second_byte dst_sz (letter1 a b) (value (letter2 b 0)) padding)
          (omega arith) (first_byte a b ha hb)
        ∙ put_byte_lem dst_sz _ b (out ++ a ∷ []) (third_byte dst_sz (letter2 b 0) padding)
            (omega (arith, length-append out (a ∷ []))) (middle_byte a b 0 ha hb (omega arith)))

quartet1 :
    (dst_sz a : ℕ) (out : Text)
    → a < 256
    → length out + 1 ≤ dst_sz
    → decode_loop dst_sz (tbl (letter0 a) ∷ tbl (letter1 a 0) ∷ b'=' ∷ b'=' ∷ []) [] out
      ≡ decoded (out ++ a ∷ [])
unfolding push
quartet1 dst_sz a out ha room =
    at_letter dst_sz (letter0 a) _ [] out (omega arith)
    ∙ at_letter dst_sz (letter1 a 0) _ _ out (omega arith)
    ∙ at_padding dst_sz _ _ out
    ∙ at_padding dst_sz [] _ out
    ∙ ap (continue dst_sz []) (
        put_byte_lem dst_sz _ a out (second_byte dst_sz (letter1 a 0) padding padding) (omega arith)
          (first_byte a 0 ha (omega arith)))

assoc3 :
    (out : Text) (a b c : ℕ) (rest : Text)
    → (((out ++ a ∷ []) ++ b ∷ []) ++ c ∷ []) ++ rest ≡ out ++ a ∷ b ∷ c ∷ rest
assoc3 [] a b c rest = refl
assoc3 (x ∷ out) a b c rest = ap (λ r. x ∷ r) (assoc3 out a b c rest)

assoc2 : (out : Text) (a b : ℕ) → (out ++ a ∷ []) ++ b ∷ [] ≡ out ++ a ∷ b ∷ []
assoc2 [] a b = refl
assoc2 (x ∷ out) a b = ap (λ r. x ∷ r) (assoc2 out a b)

length_three :
    (out : Text) (a b c : ℕ) → length (((out ++ a ∷ []) ++ b ∷ []) ++ c ∷ []) ≡ length out + 3
length_three [] a b c = refl
length_three (x ∷ out) a b c = omega (arith, length_three out a b c)

at_end : (dst_sz : ℕ) (out : Text) → decode_loop dst_sz [] [] out ≡ decoded out
unfolding decode_loop
at_end dst_sz out = refl

-- The letters that the encoder writes.
encode3 :
    (a b c : ℕ) (rest : Text)
    → a < 256
    → b < 256
    → c < 256
    → base64_encode (a ∷ b ∷ c ∷ rest)
      ≡ tbl (letter0 a) ∷ tbl (letter1 a b) ∷ tbl (letter2 b c) ∷ tbl (c % 64) ∷ base64_encode rest
unfolding base64_encode
encode3 a b c rest ha hb hc =
    let s = sextets _ a b c (packed a b c hb hc) ha hb hc in rw (s.0, s.1, s.2, s.3) refl

encode2 :
    (a b : ℕ)
    → a < 256
    → b < 256
    → base64_encode (a ∷ b ∷ [])
      ≡ tbl (letter0 a) ∷ tbl (letter1 a b) ∷ tbl (letter2 b 0) ∷ b'=' ∷ []
unfolding base64_encode
encode2 a b ha hb =
    let v : bit_or (a * 2 ^ 16) (b * 2 ^ 8) ≡ a * 65536 + b * 256 + 0 =
      bit_or_join 16 a (b * 2 ^ 8) (omega arith) ∙ omega arith in
    let s = sextets _ a b 0 v ha hb (omega arith) in rw (s.0, s.1, s.2) refl

encode1 :
    (a : ℕ)
    → a < 256
    → base64_encode (a ∷ []) ≡ tbl (letter0 a) ∷ tbl (letter1 a 0) ∷ b'=' ∷ b'=' ∷ []
unfolding base64_encode
encode1 a ha =
    let v : a * 2 ^ 16 ≡ a * 65536 + 0 * 256 + 0 = omega arith in
    let s = sextets _ a 0 0 v ha (omega arith) (omega arith) in rw (s.0, s.1) refl

encode0 : base64_encode [] ≡ []
unfolding base64_encode
encode0 = refl

decode_loop_from :
    (dst_sz : ℕ) (bs out : Text)
    → AreBytes bs
    → length out + length bs ≤ dst_sz
    → decode_loop dst_sz (base64_encode bs) [] out ≡ decoded (out ++ bs)
decode_loop_from dst_sz [] out h room =
    ap (λ t. decode_loop dst_sz t [] out) encode0
    ∙ at_end dst_sz out
    ∙ ap decoded (sym (append-empty out))
decode_loop_from dst_sz (a ∷ []) out (ha, h) room =
    rw (encode1 a ha) (quartet1 dst_sz a out ha room)
decode_loop_from dst_sz (a ∷ b ∷ []) out (ha, (hb, h)) room =
    rw (encode2 a b ha hb) (quartet2 dst_sz a b out ha hb room ∙ ap decoded (assoc2 out a b))
decode_loop_from dst_sz (a ∷ b ∷ c ∷ rest) out (ha, (hb, (hc, h))) room =
    let out' : Text = ((out ++ a ∷ []) ++ b ∷ []) ++ c ∷ [] in
    let size : length out' ≡ length out + 3 = length_three out a b c in
    rw (encode3 a b c rest ha hb hc) (
      quartet3 dst_sz a b c (base64_encode rest) out ha hb hc (omega (arith, room))
      ∙ decode_loop_from dst_sz rest out' h (omega (arith, size, room))
      ∙ ap decoded (assoc3 out a b c rest))

-- The helper decodes what the daemon encoded, if the bytes fit the buffer.
pub base64_decode-base64_encode :
    (dst_sz : ℕ) (bs : Text)
    → AreBytes bs
    → length bs ≤ dst_sz
    → base64_decode dst_sz (base64_encode bs) ≡ some bs
unfolding base64_decode
base64_decode-base64_encode dst_sz bs h room =
    ap result_of (decode_loop_from dst_sz bs [] h (omega (arith, room)))
