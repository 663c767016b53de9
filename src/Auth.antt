-- ===== src/Auth.antt =====
-- src/core/auth.cpp, and RequestContext of src/core/request_context.hpp: from the Authorization
-- header to the identity of a request.
pub mod Resolve
mod Tests
use server_mcp_bridge.Base.{
  Bool, true, false, not, Option, none, some, [], ◌∷◌, Text, codes, text_eq, length, leb, is_empty,
  take, drop, if◌then◌else◌, ◌&&◌,
}
use server_mcp_bridge.Crypto.{sha256_salted_hex, constant_time_equal}
use server_mcp_bridge.UserStore.{UserRecord, UserStore, lookup_by_hash}

pub record RequestContext : Type 0 where
  pub user_id : Text
  pub os_username : Text
  pub is_admin : Bool
  pub session_id : Text
  pub bearer_hash : Text
  pub client_ip : Text

abbrev pub prefix : Text
prefix = codes "Bearer "

-- `none` where the source returns false.
unfoldable pub extract_bearer : Text → Option Text
unfolding text_eq
extract_bearer auth_header =
    if leb (length auth_header) (length prefix)
    then none
    else if not (text_eq (take (length prefix) auth_header) prefix)
    then none
    else if is_empty (drop (length prefix) auth_header)
    then none
    else some (drop (length prefix) auth_header)

unfoldable pub verify_bearer_token : (auth_header global_salt_hex expected_hash_hex : Text) → Bool
unfolding extract_bearer
verify_bearer_token auth_header global_salt_hex expected_hash_hex =
    elim (extract_bearer auth_header) [
      | none ↦ false
      | some token ↦
          if is_empty expected_hash_hex
          then false
          else constant_time_equal (sha256_salted_hex global_salt_hex token) expected_hash_hex
    ]

-- The identity of a known user.
user_context : UserRecord → (computed client_ip : Text) → RequestContext
user_context user computed client_ip = record {
  user_id = user.user_id;
  os_username = user.os_username;
  is_admin = user.is_admin;
  session_id = [];
  bearer_hash = computed;
  client_ip = client_ip;
}

-- The identity of the install admin.
admin_context : (computed client_ip : Text) → RequestContext
admin_context computed client_ip = record {
  user_id = codes "admin";
  os_username = codes "mcp_user_mcpadmin";
  is_admin = true;
  session_id = [];
  bearer_hash = computed;
  client_ip = client_ip;
}

-- The rest of `auth_resolve` once the token is hashed.
resolve_hash :
    (admin_token_hash_hex : Text) → UserStore → (client_ip computed : Text) → Option RequestContext
unfolding user_context admin_context
resolve_hash admin_token_hash_hex users client_ip computed = elim (lookup_by_hash users computed) [
  | some user ↦ some (user_context user computed client_ip)
  | none ↦
      if not (is_empty admin_token_hash_hex) && constant_time_equal computed admin_token_hash_hex
      then some (admin_context computed client_ip)
      else none
]

unfoldable pub auth_resolve :
    (auth_header global_salt_hex admin_token_hash_hex : Text)
    → UserStore
    → (client_ip : Text) → Option RequestContext
unfolding extract_bearer resolve_hash
auth_resolve auth_header global_salt_hex admin_token_hash_hex users client_ip =
    elim (extract_bearer auth_header) [
      | none ↦ none
      | some token ↦
          resolve_hash admin_token_hash_hex users client_ip
            (sha256_salted_hex global_salt_hex token)
    ]
