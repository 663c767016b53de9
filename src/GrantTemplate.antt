-- ===== src/GrantTemplate.antt =====
-- src/core/grant_template.cpp and .hpp: from a template and the arguments given for it to a line for
-- sudoers. std::regex is a parameter: `match` is `none` for a malformed expression.
pub mod Words
pub mod Parse
pub mod Specs
mod Tests
use server_mcp_bridge.Base.{
  ℕ, zero, suc, ◌+◌, ◌-◌, Bool, true, false, not, ◌&&◌, ◌||◌, Option, none, some, List, [], ◌∷◌,
  ◌++◌, Text, codes, text_eq, ltb, leb, ◌==◌, length, is_empty, take, drop, all, if◌then◌else◌,
}
use server_mcp_bridge.Json.{Json, str, obj, Fields, end, get}
use server_mcp_bridge.Map
use server_mcp_bridge.Map.{Map}

pub record GrantTemplate : Type 0 where
  pub name : Text
  pub description : Text
  pub binary : Text
  pub argv : List Text
  pub params : Map Text

pub data Result : Type 0 where
  returned : Text → Result
  threw : Text → Result

abbrev pub is_lower : ℕ → Bool
is_lower c = leb b'a' c && leb c b'z'

abbrev pub is_shortid_char : ℕ → Bool
is_shortid_char c = is_lower c || (leb b'2' c && leb c b'7')

abbrev pub valid_shortid : Text → Bool
valid_shortid s = if not (length s == 8) then false else all is_shortid_char s

abbrev pub is_digit : ℕ → Bool
is_digit c = leb b'0' c && leb c b'9'

abbrev pub is_name_char : ℕ → Bool
is_name_char c = is_lower c || is_digit c || (c == b'_')

unfoldable pub valid_template_name : Text → Bool
valid_template_name [] = false
valid_template_name (c ∷ cs) =
    if ltb 32 (length (c ∷ cs))
    then false
    else if not (is_lower c)
    then false
    else all is_name_char cs

-- `piece.back()` of a text that is not empty.
unfoldable pub back : Text → ℕ
back [] = 0
back (c ∷ []) = c
back (c ∷ d ∷ cs) = back (d ∷ cs)

-- Whether a piece is `{name}`, and the name; empty if it is not.
unfoldable pub placeholder_of : Text → Text
unfolding back
placeholder_of [] = []
placeholder_of (c ∷ cs) =
    if ltb (length (c ∷ cs)) 3
    then []
    else if not (c == b'{') || not (back (c ∷ cs) == b'}')
    then []
    else take (length (c ∷ cs) - 2) cs

-- `std::isalnum` in the C locale.
abbrev pub isalnum : ℕ → Bool
isalnum c = is_lower c || (leb b'A' c && leb c b'Z') || is_digit c

abbrev pub is_arg_char : ℕ → Bool
is_arg_char c =
    isalnum c
    || (c == b'_')
    || (c == b'.')
    || (c == b'+')
    || (c == b'/')
    || (c == b'=')
    || (c == b':')
    || (c == b'@')
    || (c == b',')
    || (c == b'-')

abbrev pub arg_value_charset_ok : Text → Bool
arg_value_charset_ok v = if is_empty v then false else all is_arg_char v

-- What the regular expression of a placeholder says of its value: an error, or the empty text.
abbrev pub match_error : (ph : Text) → Option Bool → Text
match_error ph none = codes "template regex for '" ++ ph ++ codes "' is malformed"
match_error ph (some false) =
    codes "captured arg '" ++ ph ++ codes "' does not match template regex"
match_error ph (some true) = []

-- `captured_args[ph].get_ref<const std::string&>()`.
abbrev pub string_of : Option Json → Text
string_of (some (str v)) = v
string_of _ = []

-- The loop of `render_command`, with the command so far.
unfoldable pub render_argv : (name : Text) → Fields → (cmd : Text) → List Text → Result
unfolding placeholder_of
render_argv name args cmd [] = returned cmd
render_argv name args cmd (piece ∷ argv) =
    let ph = placeholder_of piece in
    let literal = render_argv name args (cmd ++ b' ' ∷ piece) argv in
    let value = render_argv name args (cmd ++ b' ' ∷ string_of (get ph args)) argv in
    if is_empty ph
    then (if not (arg_value_charset_ok piece)
        then threw
            (codes "grant_template '" ++ name ++ codes "': literal argv piece has disallowed chars")
        else literal)
    else value

abbrev pub fields_of : Json → Fields
fields_of (obj args) = args
fields_of _ = end

abbrev pub spec_of : (shortid : Text) → Result → Result
spec_of shortid (threw what) = threw what
spec_of shortid (returned cmd) =
    returned
      (codes "mcp_user_" ++ (shortid ++ (codes " ALL=(root) NOPASSWD: " ++ (cmd ++ 10 ∷ []))))

module _ (match : (regex v : Text) → Option Bool) where
  abbrev pub value_error : (ph regex : Text) → Option Json → Text
  value_error ph regex none = codes "missing captured arg '" ++ ph ++ b'\'' ∷ []
  value_error ph regex (some (str v)) =
      if not (arg_value_charset_ok v)
      then codes "captured arg '" ++ ph ++ codes "' contains disallowed characters"
      else match_error ph (match regex v)
  value_error ph regex (some _) = codes "captured arg '" ++ ph ++ codes "' must be a string"

  unfoldable pub placeholder_error : Map Text → Fields → (ph : Text) → Text
  placeholder_error params args ph = elim (Map.find params ph) [
    | none ↦ codes "template missing 'params." ++ ph ++ codes "' regex"
    | some regex ↦ value_error ph regex (get ph args)
  ]

  -- The loop of `validate_captured_args`.
  unfoldable pub argv_error : Map Text → Fields → List Text → Text
  unfolding placeholder_of placeholder_error
  argv_error params args [] = []
  argv_error params args (piece ∷ argv) =
      let rest = argv_error params args argv in
      let ph = placeholder_of piece in
      if is_empty ph
      then rest
      else if is_empty (placeholder_error params args ph)
      then rest
      else placeholder_error params args ph

  unfoldable pub validate_captured_args : GrantTemplate → Json → Text
  unfolding argv_error
  validate_captured_args tmpl (obj args) = argv_error tmpl.params args tmpl.argv
  validate_captured_args tmpl _ = codes "captured_args must be a JSON object"

  unfoldable pub render_command : GrantTemplate → Json → Result
  unfolding validate_captured_args render_argv
  render_command tmpl captured_args =
      let err = validate_captured_args tmpl captured_args in
      if not (is_empty err)
      then threw (codes "grant_template: " ++ err)
      else render_argv tmpl.name (fields_of captured_args) tmpl.binary tmpl.argv

  unfoldable pub render_sudoers_spec : (shortid : Text) → GrantTemplate → Json → Result
  unfolding render_command
  render_sudoers_spec shortid tmpl captured_args =
      if not (valid_shortid shortid)
      then threw (codes "grant_template: invalid shortid '" ++ shortid ++ b'\'' ∷ [])
      else spec_of shortid (render_command tmpl captured_args)

unfoldable pub render_full_admin_spec : (shortid : Text) → Result
render_full_admin_spec shortid =
    if not (valid_shortid shortid)
    then threw (codes "grant_template: invalid shortid '" ++ shortid ++ b'\'' ∷ [])
    else returned (codes "mcp_user_" ++ (shortid ++ (codes " ALL=(ALL) NOPASSWD: ALL" ++ 10 ∷ [])))

-- `spec.find('\n')`; a text without one gives `npos`, here its length.
unfoldable pub find_newline : Text → ℕ
find_newline [] = 0
find_newline (c ∷ cs) = let rest = find_newline cs in if c == 10 then 0 else suc rest

abbrev pub is_printable : ℕ → Bool
is_printable c = not (ltb c 32 || ltb 126 c)

abbrev pub path_mid : Text
path_mid = codes " ALL=(root) NOPASSWD: /"

abbrev pub wildcard_tail : Text
wildcard_tail = codes " ALL=(ALL) NOPASSWD: ALL" ++ 10 ∷ []

-- The two accepted forms of what follows the shortid.
unfoldable pub tail_is_well_formed : Text → Bool
unfolding text_eq
tail_is_well_formed rest =
    if leb (length path_mid) (length rest) && text_eq (take (length path_mid) rest) path_mid
    then true
    else (length rest == length wildcard_tail) && text_eq rest wildcard_tail

unfoldable pub spec_is_well_formed : Text → Bool
unfolding text_eq back find_newline tail_is_well_formed
spec_is_well_formed spec =
    if is_empty spec || ltb 4096 (length spec)
    then false
    else if not (back spec == 10)
    then false
    else if not (find_newline spec == length spec - 1)
    then false
    else if not (all is_printable (take (length spec - 1) spec))
    then false
    else if not (text_eq (take 9 spec) (codes "mcp_user_"))
    then false
    else if ltb (length spec) 17
    then false
    else if not (all is_shortid_char (take 8 (drop 9 spec)))
    then false
    else tail_is_well_formed (drop 17 spec)
