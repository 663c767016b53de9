-- ===== src/Router/Methods.antt =====
-- The default router: its methods, and which of them act.
use server_mcp_bridge.Base.{
  ◌≡◌, refl, ap, inl, inr, ◌≢◌, ◌↔◌, none, some, arith, Text, codes, text_eq, text_eq_iff,
  if◌then◌else◌,
}
use server_mcp_bridge.Json.{Json, end, obj}
use server_mcp_bridge.Auth.{RequestContext}
use server_mcp_bridge.Registry.{ToolResult, returned, threw, ToolRegistry}
use server_mcp_bridge.Map
use server_mcp_bridge.Map.{find-set, find-empty}
use server_mcp_bridge.Router.{
  result, mcp_tools_call, mcp_tools_list, initialize_result, make_default_router, content_of,
  dispatch,
}
use server_mcp_bridge.Router.Calls.{mcp_tools_call-Decided, mcp_tools_call_runs}

module _ {World : Type 0} (dump : Json → Text) (tools : ToolRegistry World) where
  -- The methods as a table.
  find-default :
      (method : Text)
      → Map.find (make_default_router dump tools) method ≡ (
          if text_eq (codes "tools/call") method
          then some (λ ctx params w. mcp_tools_call dump tools ctx params w)
          else if text_eq (codes "tools/list") method
          then some (λ ctx params w. (result (some (mcp_tools_list dump tools)), w))
          else if text_eq (codes "shutdown") method
          then some (λ ctx params w. (result (some (obj end)), w))
          else if text_eq (codes "ping") method
          then some (λ ctx params w. (result (some (obj end)), w))
          else if text_eq (codes "notifications/initialized") method
          then some (λ ctx params w. (result none, w))
          else if text_eq (codes "initialize") method
          then some (λ ctx params w. (result (some (initialize_result dump tools params)), w))
          else none)
  unfolding make_default_router
  find-default method = simp (find-set, find-empty)

  content_of-ne : (r : ToolResult × World) → (content_of dump tools r).0 ≢ result none
  unfolding content_of
  content_of-ne (returned v, w) e = cc
  content_of-ne (threw what, w) e = cc

  mcp_tools_call-ne :
      (ctx : RequestContext) (params : Json) (w : World)
      → (mcp_tools_call dump tools ctx params w).0 ≢ result none
  mcp_tools_call-ne ctx params w e = elim (mcp_tools_call-Decided dump tools ctx params w) [
    | inl (tool, args, c) ↦
        content_of-ne (tool.handler ctx args w)
          (rw (mcp_tools_call_runs dump tools ctx params tool args w c) at e)
    | inr (message, q) ↦ cc (ap (λ r. r.0) q, e)
  ]

  -- Only a call of a tool can change the world: every other method leaves it as it was, the unknown
  -- ones too.
  pub dispatch-world :
      (method : Text) (ctx : RequestContext) (params : Json) (w : World)
      → method ≢ codes "tools/call"
      → (dispatch (make_default_router dump tools) method ctx params w).1 ≡ w
  unfolding dispatch
  dispatch-world method ctx params w ne =
      ground (arith, find-default method, text_eq_iff (codes "tools/call") method)

  -- The one method without a result is `notifications/initialized`.
  pub dispatch-none_iff :
      (method : Text) (ctx : RequestContext) (params : Json) (w : World)
      → ((dispatch (make_default_router dump tools) method ctx params w).0 ≡ result none)
        ↔ (method ≡ codes "notifications/initialized")
  unfolding dispatch
  dispatch-none_iff method ctx params w = (
    λ e. ground (
      arith,
      e,
      find-default method,
      mcp_tools_call-ne ctx params w,
      text_eq_iff (codes "notifications/initialized") method,
    ),
    λ e. rw (e, find-default, dispatch) (unfold text_eq in refl),
  )

  pub dispatch-tools_call :
      (ctx : RequestContext) (params : Json) (w : World)
      → dispatch (make_default_router dump tools) (codes "tools/call") ctx params w
        ≡ mcp_tools_call dump tools ctx params w
  unfolding dispatch
  dispatch-tools_call ctx params w = rw (find-default, dispatch) (unfold text_eq in refl)
