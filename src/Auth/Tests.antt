-- ===== src/Auth/Tests.antt =====
-- The identity of the install admin, from its token.
use server_mcp_bridge.Base.{◌≡◌, true, ◌↔◌, some, [], Text, codes}
use server_mcp_bridge.Crypto.{sha256_salted_hex}
use server_mcp_bridge.Map
use server_mcp_bridge.UserStore.{UserStore}
use server_mcp_bridge.Auth.{RequestContext, auth_resolve}
use server_mcp_bridge.Auth.Resolve.{Identifies, auth_resolve_iff}

abbrev header : Text
header = codes "Bearer secret"

abbrev hash : Text
hash = sha256_salted_hex (codes "00") (codes "secret")

abbrev users : UserStore
users = record { global_salt = codes "00"; by_hash = Map.empty }

abbrev admin : RequestContext
admin = record {
  user_id = codes "admin";
  os_username = codes "mcp_user_mcpadmin";
  is_admin = true;
  session_id = [];
  bearer_hash = hash;
  client_ip = codes "10.0.0.1";
}

auth_resolve_iff_example :
    (auth_resolve header (codes "00") hash users (codes "10.0.0.1") ≡ some admin)
    ↔ Identifies header (codes "00") hash users (codes "10.0.0.1") admin
auth_resolve_iff_example = auth_resolve_iff header (codes "00") hash users (codes "10.0.0.1") admin
