-- ===== src/GrantRecord.antt =====
-- The grant records of src/core/grant_template.cpp: what the daemon hands to the helper on Windows, and
-- the check that both make of it.
pub mod Checks
mod Tests
use server_mcp_bridge.Base.{
  ℕ, Bool, true, false, not, ◌&&◌, ◌||◌, Option, none, some, List, [], ◌∷◌, ◌++◌, Text, codes,
  text_eq, ℤ, ltb, leb, ◌==◌, length, is_empty, all, if◌then◌else◌,
}
use server_mcp_bridge.Json.{Json, boolean, integer, str, obj, Fields, end, field, get}
use server_mcp_bridge.GrantTemplate.{GrantTemplate, valid_shortid, render_command}
use server_mcp_bridge.GrantTemplate

-- A record, or the message of a std::exception.
pub data Rendered : Type 0 where
  rendered : Json → Rendered
  failed : Text → Rendered

abbrev pub is_grantid_char : ℕ → Bool
is_grantid_char c = (leb b'0' c && leb c b'9') || (leb b'a' c && leb c b'f')

abbrev pub valid_grantid_hex : Text → Bool
valid_grantid_hex s = if not (length s == 16) then false else all is_grantid_char s

abbrev pub is_sid_char : ℕ → Bool
is_sid_char c = (leb b'0' c && leb c b'9') || (c == b'S') || (c == b's') || (c == b'-')

unfoldable pub plausible_sid : Text → Bool
plausible_sid (a ∷ b ∷ c ∷ d ∷ rest) =
    let s = a ∷ b ∷ c ∷ d ∷ rest in
    if ltb (length s) 6 || ltb 256 (length s)
    then false
    else if not (a == b'S') && not (a == b's')
    then false
    else if not (b == b'-') || not (c == b'1') || not (d == b'-')
    then false
    else all is_sid_char s
plausible_sid _ = false

-- The `sval` of a field: its text, or the empty text if it is missing or of another type.
abbrev pub text_of : Option Json → Text
text_of (some (str v)) = v
text_of _ = []

abbrev pub sval : Text → Fields → Text
sval k record_fields = text_of (get k record_fields)

-- `pat.find(c) != npos`.
unfoldable pub holds : ℕ → Text → Bool
holds c [] = false
holds c (d ∷ ds) = (d == c) || holds c ds

-- From the first character that is no space on.
unfoldable pub skip_spaces : Text → Text
skip_spaces [] = []
skip_spaces (c ∷ cs) = let rest = skip_spaces cs in if c == b' ' then rest else c ∷ cs

abbrev pub is_alpha : ℕ → Bool
is_alpha c = (leb b'A' c && leb c b'Z') || (leb b'a' c && leb c b'z')

-- `win_abs`: a letter, a colon, and a slash of one of the two kinds.
abbrev pub is_win_abs : Text → Bool
is_win_abs (c ∷ d ∷ e ∷ rest) = is_alpha c && (d == b':') && ((e == 92) || (e == b'/'))
is_win_abs _ = false

unfoldable pub pattern_error : (skipped : Text) → Text
pattern_error [] = codes "command_pattern empty"
pattern_error (c ∷ cs) =
    if not (c == b'/') && not (is_win_abs (c ∷ cs))
    then codes "command_pattern must be absolute or '*'"
    else []

abbrev pub is_boolean : Option Json → Bool
is_boolean (some (boolean b)) = true
is_boolean _ = false

-- Missing, or an integer.
abbrev pub is_expiry : Option Json → Bool
is_expiry none = true
is_expiry (some (integer n)) = true
is_expiry (some _) = false

-- The checks of a record whose fields are read, in their order.
unfoldable pub fields_error :
    (grantid shortid sid template pat : Text) (elevated expires_at : Option Json) → Text
unfolding plausible_sid holds skip_spaces pattern_error text_eq
fields_error grantid shortid sid template pat elevated expires_at =
    if not (valid_grantid_hex grantid)
    then codes "invalid or missing grantid"
    else if not (valid_shortid shortid)
    then codes "invalid or missing shortid"
    else if not (is_empty sid) && not (plausible_sid sid)
    then codes "malformed sid"
    else if is_empty template || ltb 32 (length template)
    then codes "missing template"
    else if is_empty pat || ltb 4096 (length pat)
    then codes "missing command_pattern"
    else if holds 0 pat
    then codes "command_pattern has NUL"
    else if holds 10 pat
    then codes "command_pattern has newline"
    else if not (is_boolean elevated)
    then codes "missing elevated"
    else if not (is_expiry expires_at)
    then codes "expires_at must be integer"
    else if not (text_eq pat (codes "*"))
    then pattern_error (skip_spaces pat)
    else []

unfoldable pub validate_grant_record : Json → Text
unfolding fields_error
validate_grant_record (obj fs) =
    fields_error (sval (codes "grantid") fs) (sval (codes "shortid") fs) (sval (codes "sid") fs)
      (sval (codes "template") fs) (sval (codes "command_pattern") fs) (get (codes "elevated") fs)
      (get (codes "expires_at") fs)
validate_grant_record _ = codes "record must be a JSON object"

abbrev pub grant_record : (grantid shortid sid template pat : Text) (expires_at : ℤ) → Json
grant_record grantid shortid sid template pat expires_at = obj (
    field (codes "grantid") (str grantid) (
      field (codes "shortid") (str shortid) (
        field (codes "sid") (str sid) (
          field (codes "template") (str template) (
            field (codes "command_pattern") (str pat) (
              field (codes "elevated") (boolean true)
                (field (codes "expires_at") (integer expires_at) end)))))))

-- `auto err = validate_grant_record(record); if (!err.empty()) throw ...; return record;`.
abbrev pub validated : Json → Rendered
validated v =
    let err = validate_grant_record v in
    if not (is_empty err) then failed (codes "grant_template: " ++ err) else rendered v

-- The checks that both renderers make first.
abbrev pub after_checks : (grantid shortid sid : Text) → Rendered → Rendered
after_checks grantid shortid sid r =
    if not (valid_grantid_hex grantid)
    then failed (codes "grant_template: invalid grantid")
    else if not (valid_shortid shortid)
    then failed (codes "grant_template: invalid shortid")
    else if not (is_empty sid) && not (plausible_sid sid)
    then failed (codes "grant_template: malformed sid")
    else r

abbrev pub record_of :
    (grantid shortid sid template : Text) (expires_at : ℤ) → GrantTemplate.Result → Rendered
record_of grantid shortid sid template expires_at (GrantTemplate.threw what) = failed what
record_of grantid shortid sid template expires_at (GrantTemplate.returned command) =
    validated (grant_record grantid shortid sid template command expires_at)

unfoldable pub render_windows_grant_record :
    (match : (regex v : Text) → Option Bool) (grantid shortid sid : Text)
    → GrantTemplate
    → Json
    → (expires_at : ℤ) → Rendered
unfolding render_command validate_grant_record
render_windows_grant_record match grantid shortid sid tmpl captured_args expires_at =
    after_checks grantid shortid sid
      (record_of grantid shortid sid tmpl.name expires_at (render_command match tmpl captured_args))

unfoldable pub render_windows_full_admin_record :
    (grantid shortid sid : Text) (expires_at : ℤ) → Rendered
unfolding validate_grant_record
render_windows_full_admin_record grantid shortid sid expires_at =
    after_checks grantid shortid sid
      (validated (grant_record grantid shortid sid (codes "full_admin") (codes "*") expires_at))
