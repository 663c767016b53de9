-- ===== src/Server/Post.antt =====
-- What the handler of POST / does with the world, and when it goes wrong.
use server_mcp_bridge.Base.{
  ◌≡◌, refl, sym, ◌∙◌, ap, ◌⊎◌, inl, inr, ◌↔◌, true, none, some, arith, codes, text_eq, text_eq_iff,
  text_eq→eq, Bool-cases,
}
use server_mcp_bridge.Json.{Json, Fields}
use server_mcp_bridge.JsonRpc.{is_notification}
use server_mcp_bridge.Auth.{RequestContext}
use server_mcp_bridge.Registry.{ToolDef}
use server_mcp_bridge.Router.{
  Outcome, result, mcp_error, failure, mcp_tools_call, make_default_router, dispatch,
}
use server_mcp_bridge.Router.Calls.{
  IsCall, mcp_tools_call-Decided, mcp_tools_call_runs, content_of-world,
}
use server_mcp_bridge.Router.Methods.{dispatch-world, dispatch-none_iff, dispatch-tools_call}
use server_mcp_bridge.Server.{
  Outside, Server, HttpRequest, Surroundings, Response, undefined, Step, stop, next, Handling,
  proceed, ◌>>=◌, Admitted, check_ip, authenticate, limit, parse_body, parse_envelope, admit,
  conclude, run_method, run_admitted, handle_reload, post,
}
use server_mcp_bridge.Server.Admission.{Admits, admit-Admits, open_session-world}

abbrev KeepsWorld : {World A : Type 0} → Handling World A → Type 0
KeepsWorld {World} m = (s : Server World) → (m s).1.world ≡ s.world

module _ {World A B : Type 0} where
  proceed-world :
      (r : Step A × Server World) (f : A → Handling World B) (w : World)
      → ((a : A) → KeepsWorld (f a))
      → r.1.world ≡ w
      → (proceed f r).1.world ≡ w
  unfolding proceed
  proceed-world (stop q, s) f w k h = h
  proceed-world (next a, s) f w k h = k a s ∙ h

  >>=-KeepsWorld :
      (m : Handling World A) (f : A → Handling World B)
      → KeepsWorld m
      → ((a : A) → KeepsWorld (f a))
      → KeepsWorld (m >>= f)
  unfolding ◌>>=◌
  >>=-KeepsWorld m f km kf s = proceed-world (m s) f s.world kf (km s)

module _ {World : Type 0} (o : Outside World) (req : HttpRequest) (env : Surroundings) where
  check_ip-KeepsWorld : KeepsWorld {World = World} (check_ip req)
  unfolding check_ip
  check_ip-KeepsWorld s = ground arith

  authenticate-KeepsWorld : KeepsWorld {World = World} (authenticate req)
  unfolding authenticate
  authenticate-KeepsWorld s = ground arith

  limit-KeepsWorld : (ctx : RequestContext) → KeepsWorld {World = World} (limit env ctx)
  unfolding limit
  limit-KeepsWorld ctx s = ground arith

  parse_body-KeepsWorld : KeepsWorld (parse_body o req)
  unfolding parse_body
  parse_body-KeepsWorld s = ground arith

  parse_envelope-KeepsWorld : (doc : Json) → KeepsWorld {World = World} (parse_envelope doc)
  unfolding parse_envelope
  parse_envelope-KeepsWorld doc s = ground arith

  admit-KeepsWorld : KeepsWorld (admit o req env)
  unfolding admit
  admit-KeepsWorld = >>=-KeepsWorld (check_ip req) _ check_ip-KeepsWorld λ u.
      >>=-KeepsWorld (authenticate req) _ authenticate-KeepsWorld λ ctx.
        >>=-KeepsWorld (limit env ctx) _ (limit-KeepsWorld ctx) λ v.
          >>=-KeepsWorld (parse_body o req) _ parse_body-KeepsWorld λ doc.
            >>=-KeepsWorld (parse_envelope doc) _ (parse_envelope-KeepsWorld doc)
              λ rpc s. open_session-world req env s ctx rpc

module _ {World : Type 0} (a : Admitted) where
  conclude-world : (out : Outcome) (s : Server World) → (conclude a out s).1.world ≡ s.world
  unfolding conclude
  conclude-world (mcp_error code message) s = ground arith
  conclude-world (failure what) s = ground arith
  conclude-world (result none) s = ground arith
  conclude-world (result (some v)) s = ground arith

  undefined-conclude :
      (out : Outcome) (s : Server World)
      → (conclude a out s).0 ≡ undefined
      → (out ≡ result none) × (a.rpc.has_id ≡ true)
  unfolding conclude is_notification
  undefined-conclude (mcp_error code message) s h = ground arith
  undefined-conclude (failure what) s h = ground arith
  undefined-conclude (result none) s h = ground arith
  undefined-conclude (result (some v)) s h = ground arith

  conclude-undefined :
      (out : Outcome) (s : Server World)
      → out ≡ result none
      → a.rpc.has_id ≡ true
      → (conclude a out s).0 ≡ undefined
  unfolding conclude is_notification
  conclude-undefined out s e h = rw (e, conclude) (ground arith)

module _ {World : Type 0} (o : Outside World) (req : HttpRequest) (env : Surroundings)
    (s : Server World) where
  -- The server that the request meets, after a reload that may be due.
  abbrev pub met : Server World
  met = handle_reload o env s

  -- A tool that ran for an admitted request, and the world that it left.
  pub record RanTool : Type 0 where
    pub admitted : Admitted
    pub passed : Admits o req env met admitted
    pub is_call : admitted.rpc.method ≡ codes "tools/call"
    pub tool : ToolDef World
    pub args : Fields
    pub call : IsCall o.dump o.tools admitted.rpc.params tool args
    pub world_after : (post o req env s).1.world ≡ (tool.handler admitted.ctx args met.world).1

  run_method-world :
      (a : Admitted) (t : Server World)
      → (run_method o a t).1.world
        ≡ (dispatch (make_default_router o.dump o.tools) a.rpc.method a.ctx a.rpc.params t.world).1
  unfolding run_method
  run_method-world a t = conclude-world a _ _

  post-admit :
      (r : Step Admitted × Server World)
      → admit o req env met ≡ r
      → post o req env s ≡ run_admitted o r
  unfolding post
  post-admit r h = ap (run_admitted o) h

  world-admit : (r : Step Admitted × Server World) → admit o req env met ≡ r → r.1.world ≡ met.world
  world-admit r h = sym (ap (λ q. q.1.world) h) ∙ admit-KeepsWorld o req env met

  post-next :
      (a : Admitted) (t : Server World)
      → admit o req env met ≡ (next a, t)
      → (post o req env s).1.world
        ≡ (dispatch
            (make_default_router o.dump o.tools)
            a.rpc.method
            a.ctx
            a.rpc.params
            met.world).1
  unfolding run_admitted
  post-next a t h =
      ap (λ r. r.1.world) (post-admit (next a, t) h)
      ∙ run_method-world a t
      ∙ ap
          (λ w. (dispatch (make_default_router o.dump o.tools) a.rpc.method a.ctx a.rpc.params w).1)
          (world-admit (next a, t) h)

  post-stop :
      (q : Response) (t : Server World)
      → admit o req env met ≡ (stop q, t)
      → (post o req env s).1.world ≡ met.world
  unfolding run_admitted
  post-stop q t h = ap (λ r. r.1.world) (post-admit (stop q, t) h) ∙ world-admit (stop q, t) h

  ran_tool :
      (a : Admitted) (t : Server World)
      → admit o req env met ≡ (next a, t)
      → a.rpc.method ≡ codes "tools/call"
      → ((post o req env s).1.world ≡ met.world) ⊎ RanTool
  ran_tool a t h m =
      let called : (post o req env s).1.world
          ≡ (mcp_tools_call o.dump o.tools a.ctx a.rpc.params met.world).1 =
        post-next a t h
        ∙ ap (λ k. (dispatch (make_default_router o.dump o.tools) k a.ctx a.rpc.params met.world).1)
            m
        ∙ ap (λ r. r.1) (dispatch-tools_call o.dump o.tools a.ctx a.rpc.params met.world) in
      elim (mcp_tools_call-Decided o.dump o.tools a.ctx a.rpc.params met.world) [
        | inl (tool, args, c) ↦ inr (record {
          admitted = a;
          passed = admit-Admits o req env met a t h;
          is_call = m;
          tool = tool;
          args = args;
          call = c;
          world_after =
              called
              ∙ ap (λ r. r.1)
                  (mcp_tools_call_runs o.dump o.tools a.ctx a.rpc.params tool args met.world c)
              ∙ content_of-world o.dump o.tools (tool.handler a.ctx args met.world);
        })
        | inr (message, e) ↦ inl (called ∙ ap (λ r. r.1) e)
      ]

  decide_world :
      (r : Step Admitted × Server World)
      → admit o req env met ≡ r
      → ((post o req env s).1.world ≡ met.world) ⊎ RanTool
  decide_world (stop q, t) h = inl (post-stop q t h)
  decide_world (next a, t) h = elim (Bool-cases (text_eq a.rpc.method (codes "tools/call"))) [
    | inl e ↦ ran_tool a t h (text_eq→eq _ _ e)
    | inr e ↦ inl (
        post-next a t h
        ∙ dispatch-world o.dump o.tools a.rpc.method a.ctx a.rpc.params met.world
            (λ q. cc (e, (text_eq_iff a.rpc.method (codes "tools/call")).1 q)))
  ]

  -- A request to POST / either leaves the world as it met it, or it passed every check of the
  -- admission and called a registered tool with all required arguments, and the world is the one that
  -- the handler of that tool left, run once with the identity that the token stands for.
  pub post-RanTool : ((post o req env s).1.world ≡ met.world) ⊎ RanTool
  post-RanTool = decide_world (admit o req env met) refl

  undefined-run :
      (r : Step Admitted × Server World)
      → (run_admitted o r).0 ≡ undefined
      → (a : Admitted) × (r.0 ≡ next a)
        × (a.rpc.method ≡ codes "notifications/initialized")
        × (a.rpc.has_id ≡ true)
  unfolding run_admitted run_method
  undefined-run (stop q, t) h = cc
  undefined-run (next a, t) h =
      let u = undefined-conclude a _ _ h in
      (
        a,
        refl,
        (dispatch-none_iff o.dump o.tools a.rpc.method a.ctx a.rpc.params t.world).0 u.0,
        u.1,
      )

  run-undefined :
      (r : Step Admitted × Server World) (a : Admitted)
      → r.0 ≡ next a
      → a.rpc.method ≡ codes "notifications/initialized"
      → a.rpc.has_id ≡ true
      → (run_admitted o r).0 ≡ undefined
  unfolding run_admitted run_method
  run-undefined (stop q, t) a h m i = cc
  run-undefined (next b, t) a h m i =
      let same : b ≡ a = ground (arith, h) in
      conclude-undefined b _ _
        ((dispatch-none_iff o.dump o.tools b.rpc.method b.ctx b.rpc.params t.world).1 (rw same m))
        (rw same i)

  -- The handler dereferences an empty optional exactly when an admitted request calls
  -- `notifications/initialized` with an `id`, so that it expects a response and there is no result.
  pub undefined_iff : ((post o req env s).0 ≡ undefined) ↔ (
      (a : Admitted) × ((admit o req env met).0 ≡ next a)
      × (a.rpc.method ≡ codes "notifications/initialized")
      × (a.rpc.has_id ≡ true))
  undefined_iff = (forth, back)
    where
      answered : (post o req env s).0 ≡ (run_admitted o (admit o req env met)).0
      answered = ap (λ r. r.0) (post-admit (admit o req env met) refl)

      forth :
          (post o req env s).0 ≡ undefined
          → (a : Admitted) × ((admit o req env met).0 ≡ next a)
            × (a.rpc.method ≡ codes "notifications/initialized")
            × (a.rpc.has_id ≡ true)
      forth h = undefined-run (admit o req env met) (sym answered ∙ h)

      back :
          ((a : Admitted) × ((admit o req env met).0 ≡ next a)
            × (a.rpc.method ≡ codes "notifications/initialized")
            × (a.rpc.has_id ≡ true))
          → (post o req env s).0 ≡ undefined
      back (a, e, m, i) = answered ∙ run-undefined (admit o req env met) a e m i
