-- ===== src/Router.antt =====
-- src/core/mcp_router.cpp and .hpp: the methods of MCP and the calls of tools. `dump` is the printer
-- of vendor/json.hpp, a parameter.
pub mod Calls
pub mod Methods
mod Tests
use server_mcp_bridge.Base.{
  Bool, true, false, Option, none, some, List, [], ◌∷◌, ◌++◌, Text, codes, ℤ, if◌then◌else◌,
}
use server_mcp_bridge.Json.{
  Json, null, boolean, str, arr, obj, Items, nil, cons, Fields, end, field, get, contains, lit,
}
use server_mcp_bridge.JsonRpc.{method_not_found, invalid_params}
use server_mcp_bridge.Map
use server_mcp_bridge.Map.{Map}
use server_mcp_bridge.Auth.{RequestContext}
use server_mcp_bridge.Registry.{ToolResult, returned, threw, ToolDef, ToolRegistry, list_all}
use server_mcp_bridge.Registry

-- A handler returns an optional result, throws an McpError, or throws another std::exception.
pub data Outcome : Type 0 where
  result : Option Json → Outcome
  mcp_error : ℤ → Text → Outcome
  failure : Text → Outcome

abbrev pub Handler : Type 0 → Type 0
Handler World = RequestContext → Json → World → Outcome × World

abbrev pub McpRouter : Type 0 → Type 0
McpRouter World = Map (Handler World)

-- `it.value().value(key, otherwise)`, where the value is an object and the field of the right type.
field_or : Text → Json → Json → Json
field_or key (obj fs) otherwise = elim (get key fs) [ none ↦ otherwise | some v ↦ v ]
field_or key _ otherwise = otherwise

-- The loop over the result of `list_all`.
tool_list : Fields → Items
unfolding field_or
tool_list end = nil
tool_list (field name v rest) =
    cons
      (obj (
        field (codes "name") (str name) (
          field (codes "description") (field_or (codes "description") v (str [])) (
            field (codes "inputSchema")
              (field_or (codes "inputSchema") v (
                obj
                  (field (codes "type") (lit "object") (field (codes "properties") (obj end) end))))
              end))))
      (tool_list rest)

-- The first required argument that is missing.
unfoldable pub missing_arg : List Text → Fields → Option Text
missing_arg [] args = none
missing_arg (a ∷ required) args =
    let rest = missing_arg required args in if contains a args then rest else some a

-- The result of a call: one text, and whether it is an error.
unfoldable pub call_result : Text → Bool → Json
call_result text is_error = obj (
    field (codes "content")
      (arr
        (cons (obj (field (codes "type") (lit "text") (field (codes "text") (str text) end))) nil))
      (field (codes "isError") (boolean is_error) end))

-- `params.value("arguments", json::object())`.
abbrev pub arguments_of : Fields → Json
arguments_of params = elim (get (codes "arguments") params) [ none ↦ obj end | some a ↦ a ]

module _ {World : Type 0} (dump : Json → Text) (tools : ToolRegistry World) where
  pub mcp_tools_list : Json
  unfolding tool_list
  mcp_tools_list = obj (field (codes "tools") (arr (tool_list (list_all tools))) end)

  -- What the `try` block makes of the handler's end.
  unfoldable pub content_of : ToolResult × World → Outcome × World
  unfolding call_result
  content_of (returned v, w) = (result (some (call_result (dump v) false)), w)
  content_of (threw what, w) = (result (some (call_result (codes "Error: " ++ what) true)), w)

  invalid : Text → World → Outcome × World
  invalid message w = (mcp_error invalid_params message, w)

  call_tool : ToolDef World → RequestContext → Fields → World → Outcome × World
  unfolding content_of invalid missing_arg
  call_tool tool ctx args w = elim (missing_arg tool.required args) [
    | none ↦ content_of (tool.handler ctx args w)
    | some a ↦ invalid (codes "missing required argument: " ++ a) w
  ]

  with_arguments : Text → RequestContext → Json → World → Outcome × World
  unfolding call_tool invalid
  with_arguments tool_name ctx (obj args) w = elim (Registry.find tools tool_name) [
    | none ↦ invalid (codes "unknown tool: " ++ tool_name) w
    | some tool ↦ call_tool tool ctx args w
  ]
  with_arguments tool_name ctx _ w = invalid (codes "params.arguments must be an object") w

  with_name : Fields → Option Json → RequestContext → World → Outcome × World
  unfolding with_arguments invalid
  with_name params (some (str tool_name)) ctx w =
      with_arguments tool_name ctx (arguments_of params) w
  with_name params _ ctx w = invalid (codes "params.name must be a string") w

  unfoldable pub mcp_tools_call : RequestContext → Json → World → Outcome × World
  unfolding with_name invalid
  mcp_tools_call ctx (obj params) w = with_name params (get (codes "name") params) ctx w
  mcp_tools_call ctx _ w = invalid (codes "params must be an object") w

  -- `params["protocolVersion"]` if it is a string.
  client_proto : Json → Text
  client_proto (obj params) = elim (get (codes "protocolVersion") params) [
    | some (str v) ↦ v
    | _ ↦ codes "2025-03-26"
  ]
  client_proto _ = codes "2025-03-26"

  pub initialize_result : Json → Json
  unfolding client_proto
  initialize_result params = obj (
      field (codes "protocolVersion") (str (client_proto params)) (
        field (codes "capabilities") (obj (field (codes "tools") (obj end) end)) (
          field (codes "serverInfo")
            (obj
              (field (codes "name") (lit "mcp_bridge") (field (codes "version") (lit "2.0.0") end)))
            end)))

  unfoldable pub add_method : McpRouter World → Text → Handler World → McpRouter World
  add_method r method h = Map.set r method h

  unfoldable pub make_default_router : McpRouter World
  unfolding add_method initialize_result mcp_tools_list
  make_default_router =
      let r0 =
        add_method Map.empty (codes "initialize")
          (λ ctx params w. (result (some (initialize_result params)), w)) in
      let r1 =
        add_method r0 (codes "notifications/initialized") (λ ctx params w. (result none, w)) in
      let r2 = add_method r1 (codes "ping") (λ ctx params w. (result (some (obj end)), w)) in
      let r3 = add_method r2 (codes "shutdown") (λ ctx params w. (result (some (obj end)), w)) in
      let r4 =
        add_method r3 (codes "tools/list") (λ ctx params w. (result (some mcp_tools_list), w)) in
      add_method r4 (codes "tools/call") (λ ctx params w. mcp_tools_call ctx params w)

unfoldable pub dispatch :
    {World : Type 0} → McpRouter World → Text → RequestContext → Json → World → Outcome × World
dispatch methods method ctx params w = elim (Map.find methods method) [
  | none ↦ (mcp_error method_not_found (codes "method not found: " ++ method), w)
  | some handler ↦ handler ctx params w
]
