-- ===== src/Server/Tests.antt =====
-- The endpoint at concrete inputs. The world is a number, and the one tool adds one to it.
use server_mcp_bridge.Base.{
  ℕ, suc, ◌≡◌, refl, ◌⊎◌, true, false, none, some, [], ◌∷◌, Text, codes, pos,
}
use server_mcp_bridge.Json.{null, integer, obj, Fields, end, field, lit, get}
use server_mcp_bridge.JsonRpc.{is_notification, parse_request}
use server_mcp_bridge.Crypto.{sha256_salted_hex, constant_time_equal}
use server_mcp_bridge.Auth.{auth_resolve}
use server_mcp_bridge.UserStore.{lookup_by_hash}
use server_mcp_bridge.Map
use server_mcp_bridge.RateLimiter
use server_mcp_bridge.RateLimiter.{allow}
use server_mcp_bridge.Session
use server_mcp_bridge.Session.{SessionStore, issue, validate}
use server_mcp_bridge.Registry.{find, ToolDef, returned}
use server_mcp_bridge.Server.{
  Outside, Server, HttpRequest, Surroundings, Admitted, next, is_ip_allowed, admit, handle_reload,
  undefined, post, run_method, conclude,
}
use server_mcp_bridge.Server.Admission.{Admits, admit-Admits}
use server_mcp_bridge.Router.{make_default_router, dispatch, mcp_tools_call}
use server_mcp_bridge.Server.Post.{met, RanTool, post-RanTool, undefined_iff}

abbrev salt : Text
salt = codes "00"

abbrev token : Text
token = codes "secret"

-- Every body parses to this envelope: `notifications/initialized` with an id.
abbrev envelope : Fields
envelope = field (codes "jsonrpc") (lit "2.0") (
    field (codes "id") (integer (pos 1))
      (field (codes "method") (lit "notifications/initialized") end))

abbrev outside : Outside ℕ
outside = record {
  parse = λ body. some (obj envelope);
  dump = λ v. [];
  truncate = λ t. pos 0;
  write_all = λ c w. w;
  tools = Map.empty;
}

abbrev bearer : Text
bearer = sha256_salted_hex salt token

abbrev server : Server ℕ
server = record {
  config = record {
    allowed_ips = [];
    global_token_salt = salt;
    admin_token_hash = bearer;
    webhook_url = [];
    webhook_secret_token = [];
  };
  config_path = [];
  users = record { global_salt = salt; by_hash = Map.empty };
  rate_limiter = RateLimiter.new (pos 60) 0;
  sessions = (issue (Session.new 1000 0) 1 (codes "s1") bearer (codes "admin")).1;
  reload_users = false;
  world = 0;
}

abbrev request : HttpRequest
request = record {
  remote_addr = codes "127.0.0.1";
  authorization = codes "Bearer secret";
  session_header = codes "s1";
  body = [];
}

abbrev surroundings : Surroundings
surroundings = record {
  users_dir = none;
  config_file = none;
  limiter_now = 2;
  session_now = 3;
  uuid = codes "s2";
}

abbrev admitted : Admitted
admitted = record {
  rpc = record {
    id = integer (pos 1);
    has_id = true;
    method = codes "notifications/initialized";
    params = obj end;
  };
  ctx = record {
    user_id = codes "admin";
    os_username = codes "mcp_user_mcpadmin";
    is_admin = true;
    session_id = codes "s1";
    bearer_hash = bearer;
    client_ip = codes "127.0.0.1";
  };
  header = none;
}

request_admitted :
    (admit outside request surroundings (met outside request surroundings server)).0 ≡ next admitted
unfolding admit handle_reload is_ip_allowed auth_resolve lookup_by_hash sha256_salted_hex
    constant_time_equal allow issue validate parse_request get Map.empty Map.find Map.set Map.erase
    Map.retain RateLimiter.new Session.new Session.gc_locked
request_admitted = refl

-- The handler goes wrong on it.
undefined_iff_example : (post outside request surroundings server).0 ≡ undefined
undefined_iff_example =
    (undefined_iff outside request surroundings server).1 (admitted, request_admitted, refl, refl)

abbrev tool : ToolDef ℕ
tool = record {
  name = codes "add";
  description = [];
  required = codes "by" ∷ [];
  optional = [];
  handler = λ ctx args w. (returned null, suc w);
}

abbrev call : Fields
call = field (codes "jsonrpc") (lit "2.0") (
    field (codes "id") (integer (pos 1)) (
      field (codes "method") (lit "tools/call") (
        field (codes "params")
          (obj (
            field (codes "name") (lit "add")
              (field (codes "arguments") (obj (field (codes "by") (integer (pos 1)) end)) end)))
          end)))

abbrev calling : Outside ℕ
calling = record outside {
  parse = λ body. some (obj call);
  tools = Map.set Map.empty (codes "add") tool;
}

-- The call of the tool runs it once.
call_runs : (post calling request surroundings server).1.world ≡ 1
unfolding post run_method conclude dispatch make_default_router mcp_tools_call admit handle_reload
    is_ip_allowed auth_resolve lookup_by_hash sha256_salted_hex constant_time_equal allow issue
    validate parse_request get Map.empty Map.find Map.set Map.erase Map.retain RateLimiter.new
    Session.new Session.gc_locked find is_notification
call_runs = refl

post-RanTool_example :
    ((post calling request surroundings server).1.world
      ≡ (met calling request surroundings server).world)
    ⊎ RanTool calling request surroundings server
post-RanTool_example = post-RanTool calling request surroundings server

admit-next :
    admit outside request surroundings server
    ≡ (next admitted, (admit outside request surroundings server).1)
unfolding admit is_ip_allowed auth_resolve lookup_by_hash sha256_salted_hex constant_time_equal
    allow issue validate parse_request get Map.empty Map.find Map.set Map.erase Map.retain
    RateLimiter.new Session.new Session.gc_locked
admit-next = refl

admit-Admits_example : Admits outside request surroundings server admitted
admit-Admits_example =
    admit-Admits outside request surroundings server admitted
      (admit outside request surroundings server).1 admit-next
