-- ===== src/Shortid/Letters.antt =====
-- An identifier of a user is valid, and it holds all forty bits that were drawn.
use Prim.Native.Nat.{bit_and, bit_or}
use server_mcp_bridge.Base.{
  ℕ, ◌+◌, ◌*◌, ◌-◌, ◌/◌, ◌%◌, ◌<◌, ◌≡◌, refl, true, ◌&&◌, List, [], ◌∷◌, arith, Text, leb, ◌==◌,
  ==_iff, all_below, all_below_sound, and_true, if◌then◌else◌,
}
use server_mcp_bridge.Bits.{
  bit_and_mask1, bit_and_mask2, bit_and_mask3, bit_and_mask4, bit_and_mask5, bit_or_join,
}
use server_mcp_bridge.Shortid.{letter, make_shortid, is_letter, valid_shortid, bytes_from}

-- The number of a letter.
abbrev pub letter_value : ℕ → ℕ
letter_value c = if leb b'a' c then c - b'a' else c - 24

letter_table : all_below 32 (λ n. is_letter (letter n) && (letter_value (letter n) == n)) ≡ true
unfolding all_below
letter_table = refl

letter_lem : (n : ℕ) → n < 32 → (is_letter (letter n) ≡ true) × (letter_value (letter n) ≡ n)
letter_lem n h =
    let checked = and_true _ _ (all_below_sound _ 32 n h letter_table) in
    (checked.0, (==_iff _ _).0 checked.1)

-- The groups of five bits that two bytes share.
module _ (x y : ℕ) where
  group1 : y < 256 → bit_or (bit_and x 7 * 4) (y / 64) ≡ x % 8 * 4 + y / 64
  group1 h = rw (bit_and_mask3 x) (bit_or_join 2 (x % 8) (y / 64) (omega arith))

  group3 : y < 256 → bit_or (bit_and x 1 * 16) (y / 16) ≡ x % 2 * 16 + y / 16
  group3 h = rw (bit_and_mask1 x) (bit_or_join 4 (x % 2) (y / 16) (omega arith))

  group4 : y < 256 → bit_or (bit_and x 15 * 2) (y / 128) ≡ x % 16 * 2 + y / 128
  group4 h = rw (bit_and_mask4 x) (bit_or_join 1 (x % 16) (y / 128) (omega arith))

  group6 : y < 256 → bit_or (bit_and x 3 * 8) (y / 32) ≡ x % 4 * 8 + y / 32
  group6 h = rw (bit_and_mask2 x) (bit_or_join 3 (x % 4) (y / 32) (omega arith))

-- The text of the groups as numbers.
spelled : (a b c d e : ℕ) → Text
spelled a b c d e =
    letter (a / 8)
    ∷ letter (a % 8 * 4 + b / 64)
    ∷ letter (b / 2 % 32)
    ∷ letter (b % 2 * 16 + c / 16)
    ∷ letter (c % 16 * 2 + d / 128)
    ∷ letter (d / 4 % 32)
    ∷ letter (d % 4 * 8 + e / 32)
    ∷ letter (e % 32)
    ∷ []

abbrev pub DrawsBytes : (raw : ℕ → ℕ) → Type 0
DrawsBytes raw = (i : ℕ) → raw i < 256

make_shortid-spelled :
    (raw : ℕ → ℕ)
    → DrawsBytes raw
    → make_shortid raw ≡ spelled (raw 0) (raw 1) (raw 2) (raw 3) (raw 4)
unfolding make_shortid spelled
make_shortid-spelled raw h =
    rw
      (
        group1 (raw 0) (raw 1) (h 1),
        bit_and_mask5 (raw 1 / 2),
        group3 (raw 1) (raw 2) (h 2),
        group4 (raw 2) (raw 3) (h 3),
        bit_and_mask5 (raw 3 / 4),
        group6 (raw 3) (raw 4) (h 4),
        bit_and_mask5 (raw 4),
      )
      refl

valid_shortid-spelled :
    (a b c d e : ℕ)
    → a < 256
    → b < 256
    → c < 256
    → d < 256
    → e < 256
    → valid_shortid (spelled a b c d e) ≡ true
unfolding spelled
valid_shortid-spelled a b c d e ha hb hc hd he =
    rw
      (
        (letter_lem (a / 8) (omega arith)).0,
        (letter_lem (a % 8 * 4 + b / 64) (omega arith)).0,
        (letter_lem (b / 2 % 32) (omega arith)).0,
        (letter_lem (b % 2 * 16 + c / 16) (omega arith)).0,
        (letter_lem (c % 16 * 2 + d / 128) (omega arith)).0,
        (letter_lem (d / 4 % 32) (omega arith)).0,
        (letter_lem (d % 4 * 8 + e / 32) (omega arith)).0,
        (letter_lem (e % 32) (omega arith)).0,
      )
      refl

-- The five bytes that eight letters stand for.
abbrev pub bytes_of : Text → List ℕ
bytes_of (s ∷ t ∷ u ∷ v ∷ w ∷ x ∷ y ∷ z ∷ []) =
    (letter_value s * 8 + letter_value t / 4)
    ∷ (letter_value t % 4 * 64 + letter_value u * 2 + letter_value v / 16)
    ∷ (letter_value v % 16 * 16 + letter_value w / 2)
    ∷ (letter_value w % 2 * 128 + letter_value x * 4 + letter_value y / 8)
    ∷ (letter_value y % 8 * 32 + letter_value z)
    ∷ []
bytes_of _ = []

five :
    (a b c d e a' b' c' d' e' : ℕ)
    → a ≡ a'
    → b ≡ b'
    → c ≡ c'
    → d ≡ d'
    → e ≡ e'
    → (a ∷ b ∷ c ∷ d ∷ e ∷ []) ≡ a' ∷ b' ∷ c' ∷ d' ∷ e' ∷ []
five a b c d e a' b' c' d' e' p q r s t = rw (p, q, r, s, t) refl

bytes_of-spelled :
    (a b c d e : ℕ)
    → a < 256
    → b < 256
    → c < 256
    → d < 256
    → e < 256
    → bytes_of (spelled a b c d e) ≡ a ∷ b ∷ c ∷ d ∷ e ∷ []
unfolding spelled
bytes_of-spelled a b c d e ha hb hc hd he =
    rw
      (
        (letter_lem (a / 8) (omega arith)).1,
        (letter_lem (a % 8 * 4 + b / 64) (omega arith)).1,
        (letter_lem (b / 2 % 32) (omega arith)).1,
        (letter_lem (b % 2 * 16 + c / 16) (omega arith)).1,
        (letter_lem (c % 16 * 2 + d / 128) (omega arith)).1,
        (letter_lem (d / 4 % 32) (omega arith)).1,
        (letter_lem (d % 4 * 8 + e / 32) (omega arith)).1,
        (letter_lem (e % 32) (omega arith)).1,
      )
      (five _ _ _ _ _ a b c d e (omega arith) (omega arith) (omega arith) (omega arith)
        (omega arith))

-- Whatever the bytes drawn, the identifier is eight letters a-z or digits 2-7.
pub valid_shortid-make_shortid :
    (raw : ℕ → ℕ) → DrawsBytes raw → valid_shortid (make_shortid raw) ≡ true
valid_shortid-make_shortid raw h =
    rw (make_shortid-spelled raw h)
      (valid_shortid-spelled (raw 0) (raw 1) (raw 2) (raw 3) (raw 4) (h 0) (h 1) (h 2) (h 3) (h 4))

-- The five bytes drawn can be read back from the identifier, so that different bytes give different
-- identifiers.
pub bytes_of-make_shortid :
    (raw : ℕ → ℕ) → DrawsBytes raw → bytes_of (make_shortid raw) ≡ bytes_from raw 0 5
bytes_of-make_shortid raw h =
    rw (make_shortid-spelled raw h)
      (bytes_of-spelled (raw 0) (raw 1) (raw 2) (raw 3) (raw 4) (h 0) (h 1) (h 2) (h 3) (h 4))
