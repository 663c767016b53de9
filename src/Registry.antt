-- ===== src/Registry.antt =====
-- src/registry: the tools by name, and the JSON that describes them. `World` is what the handlers
-- of the tools act on: the machine, its files, processes and databases, and the daemon's stores.
use server_mcp_bridge.Base.{true, Option, List, [], ◌∷◌, Text, codes}
use server_mcp_bridge.Json.{Json, boolean, str, arr, obj, Fields, end, field, put, lit, strings}
use server_mcp_bridge.Map
use server_mcp_bridge.Map.{Map}
use server_mcp_bridge.Auth.{RequestContext}

-- A handler returns, or throws a std::exception with a message.
pub data ToolResult : Type 0 where
  returned : Json → ToolResult
  threw : Text → ToolResult

abbrev pub ToolHandler : Type 0 → Type 0
ToolHandler World = RequestContext → Fields → World → ToolResult × World

pub record ToolDef (World : Type 0) : Type 0 where
  pub name : Text
  pub description : Text
  pub required : List Text
  pub optional : List Text
  pub handler : ToolHandler World

abbrev pub ToolRegistry : Type 0 → Type 0
ToolRegistry World = Map (ToolDef World)

-- `properties[a] = json::object()` for each name.
unfoldable pub add_properties : List Text → Fields → Fields
add_properties [] properties = properties
add_properties (a ∷ names) properties = add_properties names (put a (obj end) properties)

module _ {World : Type 0} where
  unfoldable pub register_tool : ToolRegistry World → Text → ToolDef World → ToolRegistry World
  register_tool tools name def = Map.set tools name (record def { name = name })

  unfoldable pub find : ToolRegistry World → Text → Option (ToolDef World)
  find tools name = Map.find tools name

  unfoldable pub input_schema : ToolDef World → Json
  unfolding add_properties
  input_schema def = obj (
      field (codes "type") (lit "object") (
        field (codes "properties")
          (obj (add_properties def.optional (add_properties def.required end)))
          (field (codes "required") (arr (strings def.required))
            (field (codes "additionalProperties") (boolean true) end))))

  unfoldable pub describe : ToolDef World → Json
  unfolding input_schema
  describe def = obj (
      field (codes "description") (str def.description) (
        field (codes "required") (arr (strings def.required)) (
          field (codes "optional") (arr (strings def.optional))
            (field (codes "inputSchema") (input_schema def) end))))

  list_from : List (Text × ToolDef World) → Fields → Fields
  unfolding describe
  list_from [] result = result
  list_from ((name, def) ∷ tools) result = list_from tools (put name (describe def) result)

  unfoldable pub list_all : ToolRegistry World → Fields
  unfolding list_from
  list_all tools = list_from (Map.to_list tools) end
