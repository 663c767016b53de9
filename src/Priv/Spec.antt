-- ===== src/Priv/Spec.antt =====
-- spec_well_formed of src/priv/main.c, the helper's own check of a sudoers line, and that it is the
-- check of the daemon.
use server_mcp_bridge.Base.{
  ℕ, zero, suc, ◌+◌, ◌-◌, ◌≤◌, ◌≡◌, refl, ap, ◌∙◌, Bool, true, false, not, ◌&&◌, ◌||◌, [], ◌∷◌,
  ◌++◌, arith, Text, codes, text_eq, ltb, leb, ◌==◌, ==_iff, length, length-drop, take, drop,
  get_or, is_empty, all, if◌then◌else◌,
}
use server_mcp_bridge.GrantTemplate.{
  is_printable, back, find_newline, tail_is_well_formed, spec_is_well_formed,
}
use server_mcp_bridge.Priv.{is_base32}

abbrev pub priv_path_mid : Text
priv_path_mid = codes " ALL=(root) NOPASSWD: /"

abbrev pub priv_wildcard_tail : Text
priv_wildcard_tail = codes " ALL=(ALL) NOPASSWD: ALL" ++ 10 ∷ []

-- The tests of the loop over all bytes but the last.
abbrev pub is_body_char : ℕ → Bool
is_body_char c = if ltb c 32 || ltb 126 c then false else if c == 10 then false else true

-- The two forms that may follow the shortid, where `len` is the length of the whole line.
unfoldable pub tail_well_formed : (len : ℕ) (rest : Text) → Bool
unfolding text_eq
tail_well_formed len rest =
    if leb (length priv_path_mid) (len - 17)
      && text_eq (take (length priv_path_mid) rest) priv_path_mid
    then true
    else if (len == 17 + length priv_wildcard_tail)
        && text_eq (take (length priv_wildcard_tail) rest) priv_wildcard_tail
    then true
    else false

unfoldable pub spec_well_formed : Text → Bool
unfolding text_eq tail_well_formed
spec_well_formed buf =
    let len = length buf in
    if (len == 0) || ltb 4096 len
    then false
    else if not (get_or buf (len - 1) 0 == 10)
    then false
    else if not (all is_body_char (take (len - 1) buf))
    then false
    else if ltb len 17
    then false
    else if not (text_eq (take 9 buf) (codes "mcp_user_"))
    then false
    else if not (all is_base32 (take 8 (drop 9 buf)))
    then false
    else tail_well_formed len (drop 17 buf)

last_lem : (buf : Text) → get_or buf (length buf - 1) 0 ≡ back buf
unfolding back
last_lem [] = refl
last_lem (c ∷ []) = refl
last_lem (c ∷ d ∷ cs) =
    let e : length (c ∷ d ∷ cs) - 1 ≡ suc (length (d ∷ cs) - 1) = omega arith in
    ap (λ i. get_or (c ∷ d ∷ cs) i 0) e ∙ last_lem (d ∷ cs)

empty_lem : (buf : Text) → (length buf == 0) ≡ is_empty buf
empty_lem [] = refl
empty_lem (c ∷ cs) = ground arith

all_eq : (p q : ℕ → Bool) (t : Text) → ((c : ℕ) → p c ≡ q c) → all p t ≡ all q t
all_eq p q [] h = refl
all_eq p q (c ∷ cs) h = ground (arith, h c, all_eq p q cs h)

body_char_lem : (c : ℕ) → is_body_char c ≡ is_printable c
body_char_lem c = ground arith

-- A line feed after printable characters is the first one.
newline_lem :
    (buf : Text)
    → is_empty buf ≡ false
    → (back buf == 10) ≡ true
    → all is_printable (take (length buf - 1) buf) ≡ true
    → (find_newline buf == length buf - 1) ≡ true
unfolding back find_newline
newline_lem [] filled last printable = cc
newline_lem (c ∷ []) filled last printable = ground (arith, last)
newline_lem (c ∷ d ∷ cs) filled last printable =
    ground (arith, printable, newline_lem (d ∷ cs) refl last)

take_all : (n : ℕ) (t : Text) → length t ≡ n → take n t ≡ t
take_all zero [] h = refl
take_all zero (c ∷ cs) h = absurd (omega arith)
take_all (suc n) [] h = refl
take_all (suc n) (c ∷ cs) h = ap (λ r. c ∷ r) (take_all n cs (omega arith))

-- The tests of the two checks in their orders, with their results as variables.
gates_lem :
    (bad last newline printable prefix short shortid tail tail' : Bool)
    → (bad ≡ false → last ≡ true → printable ≡ true → newline ≡ true)
    → (short ≡ false → tail ≡ tail')
    → (if bad
        then false
        else if not last
        then false
        else if not printable
        then false
        else if short
        then false
        else if not prefix
        then false
        else if not shortid
        then false
        else tail)
      ≡ (if bad
          then false
          else if not last
          then false
          else if not newline
          then false
          else if not printable
          then false
          else if not prefix
          then false
          else if short
          then false
          else if not shortid
          then false
          else tail')
gates_lem bad last newline printable prefix short shortid tail tail' h k = ground arith

forms_lem :
    (path sized sized' text text' : Bool)
    → sized ≡ sized'
    → (sized ≡ true → text ≡ text')
    → (if path then true else if sized && text then true else false)
      ≡ (if path then true else sized' && text')
forms_lem path sized sized' text text' h k = ground arith

sized_lem : (len : ℕ) → 17 ≤ len → (len == 42) ≡ (len - 17 == 25)
sized_lem len h = ground arith

tail_lem :
    (len : ℕ) (rest : Text)
    → length rest ≡ len - 17
    → 17 ≤ len
    → tail_well_formed len rest ≡ tail_is_well_formed rest
unfolding tail_well_formed tail_is_well_formed
tail_lem len rest h long = rw h (
    forms_lem _ _ _ _ _ (sized_lem len long) (λ e.
      ap (λ t. text_eq t priv_wildcard_tail)
        (take_all 25 rest (omega (arith, h, (==_iff len 42).0 e)))))

-- The helper accepts exactly the lines that the daemon accepts.
pub spec_well_formed-eq-spec_is_well_formed :
    (buf : Text) → spec_well_formed buf ≡ spec_is_well_formed buf
unfolding spec_well_formed spec_is_well_formed
spec_well_formed-eq-spec_is_well_formed buf =
    rw (empty_lem buf, last_lem buf, all_eq is_body_char is_printable _ body_char_lem)
      (gates_lem _ _ _ _ _ _ _ _ _
        (λ bad last printable. newline_lem buf (filled bad) last printable)
        (λ short. tail_lem (length buf) (drop 17 buf) (length-drop 17 buf) (long short)))
  where
    filled : (is_empty buf || ltb 4096 (length buf)) ≡ false → is_empty buf ≡ false
    filled h = ground (arith, h)

    long : ltb (length buf) 17 ≡ false → 17 ≤ length buf
    long h = ground (arith, h)
