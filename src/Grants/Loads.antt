-- ===== src/Grants/Loads.antt =====
-- load_state_locked of src/core/grants.cpp. The parser of vendor/json.hpp is a parameter.
use server_mcp_bridge.Base.{not, Option, none, some, Text, codes, ℤ, if◌then◌else◌}
use server_mcp_bridge.Json.{Json, arr, obj, Items, nil, cons, Fields, get, string_value, int_value}
use server_mcp_bridge.Json
use server_mcp_bridge.Map
use server_mcp_bridge.Map.{Map}
use server_mcp_bridge.Grants.{Grant, valid_grantid, message, Result, returned, threw, GrantManager}

infixl 5 ◌>>=◌
abbrev ◌>>=◌ : {A B : Type 0} → Option A → (A → Option B) → Option B
none >>= f = none
some a >>= f = f a

-- `value("captured_args", json::object())`.
abbrev pub args_value : Option Json → Json
args_value none = obj Json.end
args_value (some v) = v

module _ (truncate : Text → ℤ) where
  -- The grant of an element of the array; `none` where `value` throws.
  unfoldable pub read_grant : Fields → Option Grant
  read_grant g = do
    grantid ← string_value (get (codes "grantid") g)
    shortid ← string_value (get (codes "shortid") g)
    template_name ← string_value (get (codes "template_name") g)
    expires_at ← int_value truncate (get (codes "expires_at") g)
    some (record {
      grantid = grantid;
      shortid = shortid;
      template_name = template_name;
      captured_args = args_value (get (codes "captured_args") g);
      expires_at = expires_at;
    })

  -- The loop of load_state_locked; a field of another type makes `value` throw, out of it.
  unfoldable pub load_grants : Items → Map Grant → Result (Unit {0}) × Map Grant
  unfolding read_grant
  load_grants nil grants = (returned tt, grants)
  load_grants (cons (obj g) items) grants = elim (read_grant g) [
    | none ↦ (threw (message (codes "type_error")), grants)
    | some rec ↦
        load_grants items
          (if not (valid_grantid rec.grantid) then grants else Map.set grants rec.grantid rec)
  ]
  load_grants (cons _ items) grants = load_grants items grants

  abbrev pub load_grants_doc : Option Json → Map Grant → Result (Unit {0}) × Map Grant
  load_grants_doc (some (arr items)) grants = load_grants items grants
  load_grants_doc _ grants = (returned tt, grants)

module _ (parse : Text → Option Json) (truncate : Text → ℤ) where
  abbrev pub parsed_file : Option Text → Option Json
  parsed_file none = none
  parsed_file (some text) = parse text

  unfoldable pub load_state_locked :
      {W : Type 0} → GrantManager W → Result (Unit {0}) × GrantManager W
  unfolding load_grants
  load_state_locked s =
      let (r, grants) = load_grants_doc truncate (parsed_file s.file) s.grants in
      (r, record s { grants = grants })
