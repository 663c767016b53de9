-- ===== src/CronSyntax/Fields.antt =====
-- valid_schedule recognises a regular language, here by its right-linear grammar.
use server_mcp_bridge.Base.{
  ℕ, zero, suc, ◌+◌, ◌≤◌, ◌≡◌, refl, ◌↔◌, true, false, [], ◌∷◌, arith, Text, length, is_empty,
  Bool-cases, inl, inr,
}
use server_mcp_bridge.CronSyntax.{is_blank, is_schedule_char, scan_fields, valid_schedule}

-- A character of a field. It is not a blank.
abbrev IsFieldChar : ℕ → Type 0
IsFieldChar c = (is_blank c ≡ false) × (is_schedule_char c ≡ true)

mutual
  -- The rest of a text inside a field, with `n` fields to follow: it ends in the last field.
  pub data InField : ℕ → Text → Type 0 where
    done : InField zero []
    more : {n : ℕ} {c : ℕ} {cs : Text} → IsFieldChar c → InField n cs → InField n (c ∷ cs)
    gap : {n : ℕ} {c : ℕ} {cs : Text} → is_blank c ≡ true → InGap n cs → InField (suc n) (c ∷ cs)

  -- The rest of a text in the blanks before a field, with `n` fields after that one.
  pub data InGap : ℕ → Text → Type 0 where
    skip : {n : ℕ} {c : ℕ} {cs : Text} → is_blank c ≡ true → InGap n cs → InGap n (c ∷ cs)
    start : {n : ℕ} {c : ℕ} {cs : Text} → IsFieldChar c → InField n cs → InGap n (c ∷ cs)

mutual
  unfolding scan_fields

  scan-InField : (n k : ℕ) (s : Text) → k + n ≡ 5 → InField n s → scan_fields k true s ≡ true
  scan-InField zero k [] h done = ground arith
  scan-InField (suc n) k [] h r = elim r [ ]
  scan-InField n k (c ∷ cs) h (more f r) = ground (arith, f, scan-InField n k cs h r)
  scan-InField (suc n) k (c ∷ cs) h (gap b r) =
      ground (arith, b, scan-InGap n (suc k) cs (omega arith) r)

  scan-InGap : (n k : ℕ) (s : Text) → k + n ≡ 5 → InGap n s → scan_fields k false s ≡ true
  scan-InGap n k [] h r = elim r [ ]
  scan-InGap n k (c ∷ cs) h (skip b r) = ground (arith, b, scan-InGap n k cs h r)
  scan-InGap n k (c ∷ cs) h (start f r) = ground (arith, f, scan-InField n k cs h r)

mutual
  unfolding scan_fields

  InField-scan :
      (k : ℕ) (s : Text) → scan_fields k true s ≡ true → (n : ℕ) × (k + n ≡ 5) × InField n s
  InField-scan k [] h = (zero, ground arith, done)
  InField-scan k (c ∷ cs) h = elim (Bool-cases (is_blank c)) [
    | inl b ↦
        let (n, e, r) = InGap-scan (suc k) cs (ground (arith, h, b)) in
        (suc n, omega arith, gap b r)
    | inr b ↦
        let (n, e, r) = InField-scan k cs (ground (arith, h, b)) in
        (n, e, more (b, ground (arith, h, b)) r)
  ]

  InGap-scan : (k : ℕ) (s : Text) → scan_fields k false s ≡ true → (n : ℕ) × (k + n ≡ 5) × InGap n s
  InGap-scan k [] h = absurd (ground arith)
  InGap-scan k (c ∷ cs) h = elim (Bool-cases (is_blank c)) [
    | inl b ↦ let (n, e, r) = InGap-scan k cs (ground (arith, h, b)) in (n, e, skip b r)
    | inr b ↦
        let (n, e, r) = InField-scan k cs (ground (arith, h, b)) in
        (n, e, start (b, ground (arith, h, b)) r)
  ]

-- Five fields with blanks between them and possibly before them, but not after them, in at most 200
-- bytes.
abbrev pub IsSchedule : Text → Type 0
IsSchedule s = (length s ≤ 200) × InGap 4 s

InGap-filled : (n : ℕ) (s : Text) → InGap n s → is_empty s ≡ false
InGap-filled n [] r = elim r [ ]
InGap-filled n (c ∷ cs) r = refl

-- A text is a valid schedule exactly when it is five fields of digits and `*` `/` `,` `-`, with blanks
-- between them and possibly before them, but not after them, in at most 200 bytes.
pub valid_schedule_iff : (s : Text) → (valid_schedule s ≡ true) ↔ IsSchedule s
unfolding valid_schedule
valid_schedule_iff s = (forth, back)
  where
    forth : valid_schedule s ≡ true → IsSchedule s
    forth h =
        let (n, e, r) = InGap-scan 1 s (ground (arith, h)) in
        let four : n ≡ 4 = omega arith in (ground (arith, h), rw four at r)

    back : IsSchedule s → valid_schedule s ≡ true
    back (short, r) = ground (arith, scan-InGap 4 1 s refl r, InGap-filled 4 s r)
