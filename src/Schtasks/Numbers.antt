-- ===== src/Schtasks/Numbers.antt =====
-- The number that parse_int_in_range reads is the decimal value of the text.
use server_mcp_bridge.Base.{
  ℕ, ◌+◌, ◌*◌, ◌-◌, ◌≤◌, ◌≡◌, ◌∙◌, refl, ◌↔◌, Bool, true, false, ◌&&◌, ◌||◌, some, [], ◌∷◌, arith,
  Text, ltb, leb, is_empty, all, Option-cases, inl, inr,
}
use server_mcp_bridge.Schtasks.{parse_digits, parse_int_in_range}

abbrev pub is_digit : ℕ → Bool
is_digit c = leb b'0' c && leb c b'9'

-- The decimal value of digits after a number `v`.
abbrev pub decimal : (v : ℕ) → Text → ℕ
decimal v [] = v
decimal v (c ∷ cs) = decimal (v * 10 + (c - b'0')) cs

le_decimal : (v : ℕ) (t : Text) → v ≤ decimal v t
le_decimal v [] = omega arith
le_decimal v (c ∷ cs) = omega (arith, le_decimal (v * 10 + (c - b'0')) cs)

digits_sound :
    (v n : ℕ) (t : Text) → parse_digits v t ≡ some n → (all is_digit t ≡ true) × (decimal v t ≡ n)
unfolding parse_digits
digits_sound v n [] h = (refl, ground (arith, h))
digits_sound v n (c ∷ cs) h =
    let step : ltb c b'0' || ltb b'9' c ≡ false = ground (arith, h) in
    let rest : parse_digits (v * 10 + (c - b'0')) cs ≡ some n = ground (arith, h) in
    let (digits, same) = digits_sound (v * 10 + (c - b'0')) n cs rest in
    (ground (arith, step, digits), same)

digits_complete :
    (v : ℕ) (t : Text)
    → all is_digit t ≡ true
    → decimal v t ≤ 100_000
    → parse_digits v t ≡ some (decimal v t)
unfolding parse_digits
digits_complete v [] h k = refl
digits_complete v (c ∷ cs) h k =
    let rest = digits_complete (v * 10 + (c - b'0')) cs (ground (arith, h)) k in
    let small = le_decimal (v * 10 + (c - b'0')) cs in ground (arith, h, k, rest, small)

-- A text of decimal digits with the value `n`, in a range.
pub record IsNumber (t : Text) (lo hi n : ℕ) : Type 0 where
  pub filled : is_empty t ≡ false
  pub digits : all is_digit t ≡ true
  pub value : decimal 0 t ≡ n
  pub above : lo ≤ n
  pub below : n ≤ hi

-- A number is read exactly when the text is one, of digits alone, and in the range; leading zeros are
-- allowed. The guard against an overflow takes none away from a range up to 100000.
pub parse_int_in_range_iff :
    (t : Text) (lo hi n : ℕ)
    → hi ≤ 100_000
    → (parse_int_in_range t lo hi ≡ some n) ↔ IsNumber t lo hi n
unfolding parse_int_in_range
parse_int_in_range_iff t lo hi n bound = (forth, back)
  where
    forth : parse_int_in_range t lo hi ≡ some n → IsNumber t lo hi n
    forth h = elim (Option-cases (parse_digits 0 t)) [
      | inl e ↦ absurd (ground (arith, h, e))
      | inr (m, e) ↦
          let same : m ≡ n = ground (arith, h, e) in
          let (digits, value) = digits_sound 0 m t e in
          record {
            filled = ground (arith, h);
            digits = digits;
            value = value ∙ same;
            above = ground (arith, h, e);
            below = ground (arith, h, e);
          }
    ]

    back : IsNumber t lo hi n → parse_int_in_range t lo hi ≡ some n
    back v =
        let read : parse_digits 0 t ≡ some (decimal 0 t) =
          digits_complete 0 t v.digits (omega (arith, v.value, v.below)) in
        ground (arith, v.filled, read, v.value, v.above, v.below)
