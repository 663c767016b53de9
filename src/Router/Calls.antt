-- ===== src/Router/Calls.antt =====
-- When a tool runs.
use server_mcp_bridge.Base.{
  ◌≡◌, refl, ◌⊎◌, inl, inr, true, Option, none, some, List, [], ◌∷◌, ◌++◌, arith, Text, codes, All,
  Option-cases,
}
use server_mcp_bridge.Json.{Json, null, str, obj, Fields, get, contains}
use server_mcp_bridge.JsonRpc.{invalid_params}
use server_mcp_bridge.Auth.{RequestContext}
use server_mcp_bridge.Registry.{ToolDef, ToolResult, returned, threw, ToolRegistry}
use server_mcp_bridge.Registry
use server_mcp_bridge.Router.{
  mcp_error, missing_arg, arguments_of, content_of, call_tool, with_arguments, with_name,
  mcp_tools_call,
}

missing_arg-none :
    (names : List Text) (args : Fields)
    → missing_arg names args ≡ none
    → All (λ a. contains a args ≡ true) names
unfolding missing_arg
missing_arg-none [] args h = tt
missing_arg-none (a ∷ names) args h = ground (arith, missing_arg-none names args)

none-missing_arg :
    (names : List Text) (args : Fields)
    → All (λ a. contains a args ≡ true) names
    → missing_arg names args ≡ none
unfolding missing_arg
none-missing_arg [] args h = refl
none-missing_arg (a ∷ names) args h = ground (arith, none-missing_arg names args h.1)

module _ {World : Type 0} (dump : Json → Text) (tools : ToolRegistry World) where
  -- A call names a registered tool and gives it an object with all required arguments.
  pub record IsCall (params : Json) (tool : ToolDef World) (args : Fields) : Type 0 where
    pub fields : Fields
    pub is_object : params ≡ obj fields
    pub name : Text
    pub named : get (codes "name") fields ≡ some (str name)
    pub arguments : arguments_of fields ≡ obj args
    pub registered : Registry.find tools name ≡ some tool
    pub required : All (λ a. contains a args ≡ true) tool.required

  -- The handler of the tool named runs once, with the identity of the request and the arguments.
  -- What it returns or throws becomes the content of the result.
  pub mcp_tools_call_runs :
      (ctx : RequestContext) (params : Json) (tool : ToolDef World) (args : Fields) (w : World)
      → IsCall params tool args
      → mcp_tools_call dump tools ctx params w ≡ content_of dump tools (tool.handler ctx args w)
  unfolding mcp_tools_call
  mcp_tools_call_runs ctx params tool args w c = rw (
    c.is_object,
    c.named,
    c.arguments,
    with_arguments,
    c.registered,
    call_tool,
    none-missing_arg tool.required args c.required,
  )

  -- Any other parameters are refused.
  abbrev pub Refused : Json → RequestContext → World → Type 0
  Refused params ctx w =
      (message : Text) × (mcp_tools_call dump tools ctx params w
        ≡ (mcp_error invalid_params message, w))

  abbrev pub Decided : Json → RequestContext → World → Type 0
  Decided params ctx w =
      ((tool : ToolDef World) × (args : Fields) × IsCall params tool args) ⊎ Refused params ctx w

  decide_tool :
      (fs : Fields) (name : Text) (args : Fields) (ctx : RequestContext) (w : World)
      → get (codes "name") fs ≡ some (str name)
      → arguments_of fs ≡ obj args
      → Decided (obj fs) ctx w
  unfolding mcp_tools_call
  decide_tool fs name args ctx w n a = elim (Option-cases (Registry.find tools name)) [
    | inl e ↦ inr (codes "unknown tool: " ++ name, rw (n, a, with_arguments, e))
    | inr (tool, e) ↦ elim (Option-cases (missing_arg tool.required args)) [
      | inl m ↦ inl (
        tool,
        args,
        record {
          fields = fs;
          is_object = refl;
          name = name;
          named = n;
          arguments = a;
          registered = e;
          required = missing_arg-none tool.required args m;
        },
      )
      | inr (missing, m) ↦ inr (
        codes "missing required argument: " ++ missing,
        rw (n, a, with_arguments, e, call_tool, m),
      )
    ]
  ]

  decide_arguments :
      (fs : Fields) (name : Text) (v : Json) (ctx : RequestContext) (w : World)
      → get (codes "name") fs ≡ some (str name)
      → arguments_of fs ≡ v
      → Decided (obj fs) ctx w
  unfolding mcp_tools_call
  decide_arguments fs name (obj args) ctx w n a = decide_tool fs name args ctx w n a
  decide_arguments fs name null ctx w n a =
      inr (codes "params.arguments must be an object", rw (n, a, with_arguments))
  decide_arguments fs name _ ctx w n a =
      inr (codes "params.arguments must be an object", rw (n, a, with_arguments))

  decide_name :
      (fs : Fields) (v : Option Json) (ctx : RequestContext) (w : World)
      → get (codes "name") fs ≡ v
      → Decided (obj fs) ctx w
  unfolding mcp_tools_call
  decide_name fs (some (str name)) ctx w n = decide_arguments fs name _ ctx w n refl
  decide_name fs none ctx w n = inr (codes "params.name must be a string", rw (n, with_name))
  decide_name fs (some _) ctx w n = inr (codes "params.name must be a string", rw (n, with_name))

  -- Parameters either make a call, or are refused with the code -32602 before any handler runs, so
  -- that nothing changes.
  pub mcp_tools_call-Decided :
      (ctx : RequestContext) (params : Json) (w : World) → Decided params ctx w
  unfolding mcp_tools_call
  mcp_tools_call-Decided ctx (obj fs) w = decide_name fs _ ctx w refl
  mcp_tools_call-Decided ctx null w = inr (codes "params must be an object", refl)
  mcp_tools_call-Decided ctx _ w = inr (codes "params must be an object", refl)

  -- The content of a result takes over the world that the handler left.
  pub content_of-world : (r : ToolResult × World) → (content_of dump tools r).1 ≡ r.1
  unfolding content_of
  content_of-world (returned v, w) = refl
  content_of-world (threw what, w) = refl
