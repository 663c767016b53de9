-- ===== src/JsonRpc/Tests.antt =====
-- The envelope at concrete inputs.
use server_mcp_bridge.Base.{◌≡◌, refl, ◌↔◌, true, some, codes}
use server_mcp_bridge.Json.{Json, obj, Fields, end, field, lit, get}
use server_mcp_bridge.JsonRpc.{Request, accepted, make_error, invalid_request, parse_request}
use server_mcp_bridge.JsonRpc.Accepted.{IsRequest, parse_request_iff}
use server_mcp_bridge.JsonRpc.Rejected.{IsRefusal, parse_request-IsRefusal}

abbrev ping_fields : Fields
ping_fields =
    field (codes "jsonrpc") (lit "2.0")
      (field (codes "id") (lit "a") (field (codes "method") (lit "ping") end))

abbrev ping : Request
ping = record { id = lit "a"; has_id = true; method = codes "ping"; params = obj end }

parse_request_iff_example :
    (parse_request (obj ping_fields) ≡ accepted ping) ↔ IsRequest (obj ping_fields) ping
parse_request_iff_example = parse_request_iff (obj ping_fields) ping

ping-accepted : parse_request (obj ping_fields) ≡ accepted ping
unfolding parse_request get
ping-accepted = refl

-- `params` must not be a string.
abbrev bad_fields : Fields
bad_fields = field (codes "params") (lit "x") ping_fields

abbrev bad_answer : Json
bad_answer = make_error (lit "a") invalid_request (codes "params must be an object or array")

parse_request-IsRefusal_example : IsRefusal (some (lit "a")) bad_answer
unfolding get
parse_request-IsRefusal_example =
    parse_request-IsRefusal (obj bad_fields) bad_answer (unfold parse_request in refl)
