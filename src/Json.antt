-- ===== src/Json.antt =====
-- The JSON values that the program passes about. vendor/json.hpp is not modelled: this is its
-- documented data model, and parsing and printing are parameters of the code that calls them. An
-- object's fields stand in the order in which they were set; no theorem depends on that order.
use server_mcp_bridge.Base.{
  ◌≡◌, refl, Bool, true, false, Option, none, some, List, [], ◌∷◌, String, Text, codes, text_eq,
  text_eq_iff, ℤ, pos, arith, if◌then◌else◌,
}

mutual
  pub data Json : Type 0 where
    null : Json
    boolean : Bool → Json
    integer : ℤ → Json
    -- A number with a fraction or an exponent, by its digits.
    real : Text → Json
    str : Text → Json
    arr : Items → Json
    obj : Fields → Json

  pub data Items : Type 0 where
    nil : Items
    cons : Json → Items → Items

  pub data Fields : Type 0 where
    end : Fields
    field : Text → Json → Fields → Fields

-- `doc.find(key)` on an object; `none` is `doc.end()`.
unfoldable pub get : Text → Fields → Option Json
unfolding text_eq
get k end = none
get k (field j v fs) = if text_eq j k then some v else get k fs

-- `doc[key] = value` on an object.
unfoldable pub put : Text → Json → Fields → Fields
unfolding text_eq
put k v end = field k v end
put k v (field j w fs) = if text_eq j k then field k v fs else field j w (put k v fs)

pub get-put :
    (k j : Text) (v : Json) (fs : Fields)
    → get j (put k v fs) ≡ (if text_eq k j then some v else get j fs)
unfolding get put
get-put k j v end = refl
get-put k j v (field i w fs) =
    ground (arith, get-put k j v fs, text_eq_iff k j, text_eq_iff i k, text_eq_iff i j)

-- `doc.contains(key)`.
abbrev pub contains : Text → Fields → Bool
contains k fs = elim (get k fs) [ none ↦ false | some v ↦ true ]

-- A string literal as a value.
abbrev pub lit : String → Json
lit s = str (codes s)

-- An array of strings.
unfoldable pub strings : List Text → Items
strings [] = nil
strings (t ∷ ts) = cons (str t) (strings ts)

-- Conversions of a field, `none` where they throw: `value(key, "")`, `value(key, false)`,
-- `value(key, int64_t{0})` and `at(key).get<std::string>()`. `truncate` converts a fraction.
abbrev pub string_value : Option Json → Option Text
string_value none = some []
string_value (some (str s)) = some s
string_value (some _) = none

abbrev pub bool_value : Option Json → Option Bool
bool_value none = some false
bool_value (some (boolean b)) = some b
bool_value (some _) = none

abbrev pub int_value : (Text → ℤ) → Option Json → Option ℤ
int_value truncate none = some (pos 0)
int_value truncate (some (integer n)) = some n
int_value truncate (some (real r)) = some (truncate r)
int_value truncate (some _) = none

abbrev pub string_at : Option Json → Option Text
string_at (some (str s)) = some s
string_at _ = none
