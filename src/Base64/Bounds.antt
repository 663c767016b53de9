-- ===== src/Base64/Bounds.antt =====
-- The decoder stays inside its buffer.
use server_mcp_bridge.Base.{
  ℕ, ◌+◌, ◌%◌, ◌≤◌, ◌<◌, inl, inr, Bool, true, false, Option, none, some, List, [], ◌∷◌, ◌++◌,
  arith, Text, ltb, length, length-append, All-append, Bool-cases,
}
use server_mcp_bridge.Crypto.Sha256.{AreBytes}
use server_mcp_bridge.Base64.{
  Digit, value, padding, Flow, broken, finished, going, put_byte, third_byte, second_byte, flush,
  push, digit, is_skipped, Decoding, failed, decoded, decode_loop, decode_into,
}

-- Bytes, and no more of them than the buffer holds.
abbrev pub FitsBuffer : (dst_sz : ℕ) → Text → Type 0
FitsBuffer dst_sz out = (length out ≤ dst_sz) × AreBytes out

abbrev FlowFits : (dst_sz : ℕ) → Flow → Type 0
FlowFits dst_sz (broken out) = FitsBuffer dst_sz out
FlowFits dst_sz (finished out) = FitsBuffer dst_sz out
FlowFits dst_sz (going quad out) = FitsBuffer dst_sz out

put_byte_fits :
    (dst_sz b : ℕ) (out : Text) (next : Text → Flow)
    → FitsBuffer dst_sz out
    → ((out' : Text) → FitsBuffer dst_sz out' → FlowFits dst_sz (next out'))
    → FlowFits dst_sz (put_byte dst_sz b out next)
unfolding put_byte
put_byte_fits dst_sz b out next h keep = elim (Bool-cases (ltb dst_sz (length out + 1))) [
  | inl e ↦ rw e h
  | inr e ↦
      let room : length out + 1 ≤ dst_sz = ground arith in
      rw e (
        keep (out ++ (b % 256) ∷ []) (
          omega (arith, length-append out ((b % 256) ∷ []), room),
          All-append (λ (b : ℕ). b < 256) out ((b % 256) ∷ []) h.1 (omega arith, tt),
        ))
]

third_byte_fits :
    (dst_sz q2 : ℕ) (quad3 : Digit) (out : Text)
    → FitsBuffer dst_sz out
    → FlowFits dst_sz (third_byte dst_sz q2 quad3 out)
third_byte_fits dst_sz q2 padding out h = h
third_byte_fits dst_sz q2 (value q3) out h = put_byte_fits dst_sz _ out _ h (λ out' k. k)

second_byte_fits :
    (dst_sz q1 : ℕ) (quad2 quad3 : Digit) (out : Text)
    → FitsBuffer dst_sz out
    → FlowFits dst_sz (second_byte dst_sz q1 quad2 quad3 out)
second_byte_fits dst_sz q1 padding quad3 out h = h
second_byte_fits dst_sz q1 (value q2) quad3 out h =
    put_byte_fits dst_sz _ out (third_byte dst_sz q2 quad3) h (third_byte_fits dst_sz q2 quad3)

flush_fits :
    (dst_sz : ℕ) (quad0 quad1 quad2 quad3 : Digit) (out : Text)
    → FitsBuffer dst_sz out
    → FlowFits dst_sz (flush dst_sz quad0 quad1 quad2 quad3 out)
flush_fits dst_sz (value q0) (value q1) quad2 quad3 out h =
    put_byte_fits dst_sz _ out (second_byte dst_sz q1 quad2 quad3) h
      (second_byte_fits dst_sz q1 quad2 quad3)
flush_fits dst_sz padding quad1 quad2 quad3 out h = h
flush_fits dst_sz (value q0) padding quad2 quad3 out h = h

push_fits :
    (dst_sz : ℕ) (quad : List Digit) (d : Digit) (out : Text)
    → FitsBuffer dst_sz out
    → FlowFits dst_sz (push dst_sz quad d out)
unfolding push
push_fits dst_sz [] d out h = h
push_fits dst_sz (a ∷ []) d out h = h
push_fits dst_sz (a ∷ b ∷ []) d out h = h
push_fits dst_sz (a ∷ b ∷ c ∷ []) d out h = flush_fits dst_sz a b c d out h
push_fits dst_sz (a ∷ b ∷ c ∷ e ∷ quad) d out h = h

-- What is written to `dst`, however the call ends.
abbrev pub written_to : Decoding → Text
written_to (failed dst) = dst
written_to (decoded dst) = dst

abbrev Fits : (dst_sz : ℕ) → Decoding → Type 0
Fits dst_sz r = FitsBuffer dst_sz (written_to r)

-- What follows a character, if the rest of the loop keeps to the buffer.
module _ (dst_sz : ℕ) (rest : List Digit → Text → Decoding)
    (keep : (quad : List Digit) (out : Text)
      → FitsBuffer dst_sz out
      → Fits dst_sz (rest quad out)) where
  abbrev go_on : Flow → Decoding
  go_on f = elim f [
    | broken out' ↦ failed out'
    | finished out' ↦ decoded out'
    | going quad' out' ↦ rest quad' out'
  ]

  after_push : (f : Flow) → FlowFits dst_sz f → Fits dst_sz (go_on f)
  after_push (broken out') k = k
  after_push (finished out') k = k
  after_push (going quad' out') k = keep quad' out' k

  after_digit :
      (quad : List Digit) (out : Text) (r : Option Digit)
      → FitsBuffer dst_sz out
      → Fits dst_sz (elim r [ none ↦ failed out | some d ↦ go_on (push dst_sz quad d out) ])
  after_digit quad out none h = h
  after_digit quad out (some d) h =
      after_push (push dst_sz quad d out) (push_fits dst_sz quad d out h)

  after_char :
      (quad : List Digit) (out : Text) (b : Bool) (r : Option Digit)
      → FitsBuffer dst_sz out
      → Fits dst_sz (elim b [
        | true ↦ rest quad out
        | false ↦ elim r [ none ↦ failed out | some d ↦ go_on (push dst_sz quad d out) ]
      ])
  after_char quad out true r h = keep quad out h
  after_char quad out false r h = after_digit quad out r h

decode_loop-Fits :
    (dst_sz : ℕ) (text : Text) (quad : List Digit) (out : Text)
    → FitsBuffer dst_sz out
    → Fits dst_sz (decode_loop dst_sz text quad out)
unfolding decode_loop
decode_loop-Fits dst_sz [] [] out h = h
decode_loop-Fits dst_sz [] (d ∷ quad) out h = h
decode_loop-Fits dst_sz (c ∷ cs) quad out h =
    after_char dst_sz (decode_loop dst_sz cs) (decode_loop-Fits dst_sz cs) quad out (is_skipped c)
      (digit c) h

-- Whatever the text, and whether the decoder returns -1 or not, what it has written to its buffer are
-- bytes, and no more than the buffer holds.
pub decode_into-FitsBuffer :
    (dst_sz : ℕ) (text : Text) → FitsBuffer dst_sz (written_to (decode_into dst_sz text))
unfolding decode_into
decode_into-FitsBuffer dst_sz text = decode_loop-Fits dst_sz text [] [] (omega arith, tt)
