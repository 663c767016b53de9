-- ===== src/Router/Tests.antt =====
-- The methods with one tool, on a world that is a number.
use server_mcp_bridge.Base.{ℕ, suc, refl, true, [], ◌∷◌, Text, codes}
use server_mcp_bridge.Json.{Json, null, obj, Fields, end, field, lit, get}
use server_mcp_bridge.Map
use server_mcp_bridge.Auth.{RequestContext}
use server_mcp_bridge.Registry.{find, ToolDef, ToolRegistry, returned}
use server_mcp_bridge.Router.Calls.{IsCall, Decided, mcp_tools_call-Decided}

abbrev tool : ToolDef ℕ
tool = record {
  name = codes "add";
  description = [];
  required = codes "by" ∷ [];
  optional = [];
  handler = λ ctx args w. (returned null, suc w);
}

abbrev tools : ToolRegistry ℕ
tools = Map.set Map.empty (codes "add") tool

abbrev dump : Json → Text
dump v = codes "json"

abbrev ctx : RequestContext
ctx = record {
  user_id = codes "u";
  os_username = codes "mcp_user_u";
  is_admin = true;
  session_id = codes "s";
  bearer_hash = codes "h";
  client_ip = [];
}

abbrev args : Fields
args = field (codes "by") (lit "1") end

abbrev params : Fields
params = field (codes "name") (lit "add") (field (codes "arguments") (obj args) end)

params-IsCall : IsCall dump tools (obj params) tool args
unfolding get find Map.set Map.find Map.empty
params-IsCall = record {
  fields = params;
  is_object = refl;
  name = codes "add";
  named = refl;
  arguments = refl;
  registered = refl;
  required = (refl, tt);
}

mcp_tools_call-Decided_example : Decided dump tools (obj params) ctx 0
mcp_tools_call-Decided_example = mcp_tools_call-Decided dump tools ctx (obj params) 0
