-- ===== src/JsonRpc.antt =====
-- src/core/jsonrpc.cpp and .hpp: the JSON-RPC 2.0 envelope.
pub mod Accepted
pub mod Rejected
mod Tests
use server_mcp_bridge.Base.{
  ℕ, Bool, true, false, not, Option, none, some, [], ◌∷◌, ◌++◌, String, Text, codes, text_eq, ℤ,
  negsuc, if◌then◌else◌,
}
use server_mcp_bridge.Json.{
  Json, null, boolean, integer, real, str, arr, obj, Items, Fields, end, field, get, lit,
}

-- -32700 and the others.
abbrev pub parse_error : ℤ
parse_error = negsuc 32699

abbrev pub invalid_request : ℤ
invalid_request = negsuc 32599

abbrev pub method_not_found : ℤ
method_not_found = negsuc 32600

abbrev pub invalid_params : ℤ
invalid_params = negsuc 32601

abbrev pub internal_error : ℤ
internal_error = negsuc 32602

pub record Request : Type 0 where
  pub id : Json
  pub has_id : Bool
  pub method : Text
  pub params : Json

unfoldable pub is_notification : Request → Bool
is_notification r = not r.has_id

unfoldable pub make_response : Json → Json → Json
make_response id result = obj (
    field (codes "jsonrpc") (lit "2.0") (field (codes "id") id (field (codes "result") result end)))

unfoldable pub make_error : Json → ℤ → Text → Json
make_error id code message = obj (
    field (codes "jsonrpc") (lit "2.0") (
      field (codes "id") id (
        field (codes "error")
          (obj (field (codes "code") (integer code) (field (codes "message") (str message) end)))
          end)))

-- `nullopt` with `error_response` filled, or the request.
pub data Parsed : Type 0 where
  rejected : Json → Parsed
  accepted : Request → Parsed

reject : Json → String → Parsed
unfolding make_error
reject id message = rejected (make_error id invalid_request (codes message))

-- The optional `params`.
with_params : Text → Json → Bool → Option Json → Parsed
unfolding reject
with_params m id has_id none =
    accepted (record { id = id; has_id = has_id; method = m; params = obj end })
with_params m id has_id (some (obj fs)) =
    accepted (record { id = id; has_id = has_id; method = m; params = obj fs })
with_params m id has_id (some (arr xs)) =
    accepted (record { id = id; has_id = has_id; method = m; params = arr xs })
with_params m id has_id _ = reject id "params must be an object or array"

-- The optional `id`: a string or a number, and null counts as absent.
with_id : Fields → Text → Option Json → Parsed
unfolding reject with_params
with_id fs m none = with_params m null false (get (codes "params") fs)
with_id fs m (some null) = with_params m null false (get (codes "params") fs)
with_id fs m (some (str s)) = with_params m (str s) true (get (codes "params") fs)
with_id fs m (some (integer n)) = with_params m (integer n) true (get (codes "params") fs)
with_id fs m (some (real n)) = with_params m (real n) true (get (codes "params") fs)
with_id fs m _ = reject null "id must be a string or number"

with_method : Fields → Option Json → Parsed
unfolding reject with_id
with_method fs (some (str m)) = with_id fs m (get (codes "id") fs)
with_method fs _ = reject null "method must be a string"

-- `jr != doc.end() && jr->is_string() && jr->get<std::string>() == "2.0"`.
is_version : Option Json → Bool
unfolding text_eq
is_version (some (str v)) = text_eq v (codes "2.0")
is_version _ = false

unfoldable pub parse_request : Json → Parsed
unfolding reject is_version with_method
parse_request (arr xs) = reject null "batch requests are not supported"
parse_request (obj fs) =
    if not (is_version (get (codes "jsonrpc") fs))
    then reject null "jsonrpc must be \"2.0\""
    else with_method fs (get (codes "method") fs)
parse_request _ = reject null "request must be a JSON object"
