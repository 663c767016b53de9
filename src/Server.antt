-- ===== src/Server.antt =====
-- src/core/server.cpp and .hpp: the HTTP endpoint, POST / for JSON-RPC and the admission of GET /.
-- The HTTP library is not modelled: a request is what the handlers read of it, and a response what
-- they set. What a request meets (clocks, random identifiers, files) is an argument.
pub mod Admission
pub mod Post
mod Tests
use server_mcp_bridge.Base.{
  ℕ, Bool, true, false, not, ◌||◌, Option, none, some, List, [], ◌∷◌, String, Text, codes, text_eq,
  ℤ, eqℤ, is_empty, if◌then◌else◌,
}
use server_mcp_bridge.Json.{Json, null}
use server_mcp_bridge.JsonRpc.{
  Request, rejected, accepted, parse_request, is_notification, make_error, make_response,
  parse_error, invalid_request, method_not_found, internal_error,
}
use server_mcp_bridge.JsonRpc
use server_mcp_bridge.Auth.{RequestContext, auth_resolve}
use server_mcp_bridge.UserStore.{UserStore, DirEntry, load_all}
use server_mcp_bridge.RateLimiter.{RateLimiter, allow}
use server_mcp_bridge.Session.{Session, SessionStore, issue, validate, invalidate}
use server_mcp_bridge.Registry.{ToolRegistry}
use server_mcp_bridge.Router.{Outcome, result, mcp_error, failure, make_default_router, dispatch}

-- The part of `Config` that the endpoint reads after construction.
pub record Config : Type 0 where
  pub allowed_ips : List Text
  pub global_token_salt : Text
  pub admin_token_hash : Text
  pub webhook_url : Text
  pub webhook_secret_token : Text

pub record Server (World : Type 0) : Type 0 where
  pub config : Config
  pub config_path : Text
  pub users : UserStore
  pub rate_limiter : RateLimiter
  pub sessions : SessionStore
  -- `g_reload_users`, which SIGHUP sets.
  pub reload_users : Bool
  pub world : World

-- What a handler reads of a request; a header that is missing reads as the empty text.
pub record HttpRequest : Type 0 where
  pub remote_addr : Text
  pub authorization : Text
  pub session_header : Text
  pub body : Text

-- What the handling of a request meets: the users directory and the configuration file if it
-- reloads (`none` if it cannot be read), the clock of the limiter and then that of the sessions, and
-- the identifier that a new session draws.
pub record Surroundings : Type 0 where
  pub users_dir : Option (List DirEntry)
  pub config_file : Option Config
  pub limiter_now : ℕ
  pub session_now : ℕ
  pub uuid : Text

pub data Content : Type 0 where
  no_content : Content
  plain : Text → Content
  json : Json → Content

pub record Response : Type 0 where
  pub status : ℕ
  pub content : Content
  pub session_header : Option Text

-- A handler returns early with its response, or goes on.
pub data Step {ℓ} (A : Type ℓ) : Type ℓ where
  stop : Response → Step A
  next : A → Step A

abbrev pub Handling : Type 0 → Type 0 → Type 0
Handling World A = Server World → Step A × Server World

unfoldable pub proceed :
    {World A B : Type 0} → (A → Handling World B) → Step A × Server World → Step B × Server World
proceed f (stop r, s) = (stop r, s)
proceed f (next a, s) = f a s

infixl 5 ◌>>=◌ ◌>>◌
unfoldable pub ◌>>=◌ :
    {World A B : Type 0} → Handling World A → (A → Handling World B) → Handling World B
unfolding proceed
◌>>=◌ m f s = proceed f (m s)

abbrev pub ◌>>◌ :
    {World B : Type 0} → Handling World (Unit {0}) → Handling World B → Handling World B
m >> k = m >>= λ _. k

-- A response with a status and a content, and no session header.
abbrev pub answer : {A : Type 0} → ℕ → Content → Step A
answer status content = stop (record { status = status; content = content; session_header = none })

-- `for (const auto& a : allowed) if (a == ip) return true;`.
unfoldable pub listed : Text → List Text → Bool
unfolding text_eq
listed ip [] = false
listed ip (a ∷ allowed) = text_eq a ip || listed ip allowed

unfoldable pub is_ip_allowed : Text → List Text → Bool
unfolding listed
is_ip_allowed ip allowed = if is_empty allowed then true else listed ip allowed

-- An admitted request: the envelope, the identity with its session, and the header to send.
pub record Admitted : Type 0 where
  pub rpc : Request
  pub ctx : RequestContext
  pub header : Option Text

-- A reply, or the undefined behaviour of `*result` on an empty optional.
pub data Reply : Type 0 where
  replied : Response → Reply
  undefined : Reply

-- What the endpoint is built from: `json::parse` and `dump` of vendor/json.hpp, its conversion of a
-- fraction to an integer, `runtime_sync::write_all`, and the tools.
pub record Outside (World : Type 0) : Type 0 where
  pub parse : Text → Option Json
  pub dump : Json → Text
  pub truncate : Text → ℤ
  pub write_all : Config → World → World
  pub tools : ToolRegistry World

-- The response of an admitted request, with its session header.
reply_with : Admitted → ℕ → Content → Reply
reply_with a status content =
    replied (record { status = status; content = content; session_header = a.header })

module _ {World : Type 0} where
  pub check_ip : HttpRequest → Handling World (Unit {0})
  check_ip req s =
      if not (is_ip_allowed req.remote_addr s.config.allowed_ips)
      then (answer 403 (plain (codes "Forbidden\n")), s)
      else (next tt, s)

  pub authenticate : HttpRequest → Handling World RequestContext
  authenticate req s =
      elim (auth_resolve req.authorization s.config.global_token_salt s.config.admin_token_hash
        s.users req.remote_addr) [
          | none ↦ (answer 401 (plain (codes "Unauthorized\n")), s)
          | some ctx ↦ (next ctx, s)
        ]

  pub limit : Surroundings → RequestContext → Handling World (Unit {0})
  limit env ctx s =
      let (ok, limiter) = allow s.rate_limiter env.limiter_now ctx.user_id in
      let s' = record s { rate_limiter = limiter } in
      if not ok then (answer 429 (plain (codes "Rate limit exceeded\n")), s') else (next tt, s')

  pub parse_envelope : Json → Handling World Request
  parse_envelope body s = elim (parse_request body) [
    | rejected env_err ↦ (answer 400 (json env_err), s)
    | accepted rpc ↦ (next rpc, s)
  ]

  -- `initialize` invalidates the session of its header, if any, and issues a new one.
  pub initialize : HttpRequest → Surroundings → RequestContext → Request → Handling World Admitted
  initialize req env ctx rpc s =
      let before =
        if not (is_empty req.session_header)
        then invalidate s.sessions req.session_header
        else s.sessions in
      let (sess, after) = issue before env.session_now env.uuid ctx.bearer_hash ctx.user_id in
      (
        next (record {
          rpc = rpc;
          ctx = record ctx { session_id = sess.id };
          header = some sess.id;
        }),
        record s { sessions = after },
      )

  pub resume :
      Surroundings
      → RequestContext
      → Request
      → Option Session × SessionStore
      → Handling World Admitted
  resume env ctx rpc (none, sessions) s = (
    answer 401 (
        json (
          make_error rpc.id invalid_request
            (codes "session unknown or bound to a different bearer"))),
    record s { sessions = sessions },
  )
  resume env ctx rpc (some sess, sessions) s = (
    next (record { rpc = rpc; ctx = record ctx { session_id = sess.id }; header = none }),
    record s { sessions = sessions },
  )

  pub open_session : HttpRequest → Surroundings → RequestContext → Request → Handling World Admitted
  unfolding initialize resume
  open_session req env ctx rpc s =
      if text_eq rpc.method (codes "initialize")
      then initialize req env ctx rpc s
      else if is_empty req.session_header
      then (
        answer 400 (
            json (
              make_error rpc.id invalid_request
                (codes "missing Mcp-Session-Id; call initialize first"))),
        s,
      )
      else resume env ctx rpc
          (validate s.sessions env.session_now req.session_header ctx.bearer_hash) s

  shut_down : Admitted → Server World → Server World
  unfolding text_eq
  shut_down a s =
      if text_eq a.rpc.method (codes "shutdown")
      then record s { sessions = invalidate s.sessions a.ctx.session_id }
      else s

  -- What follows the dispatch. A notification is answered with 204 whatever came of it.
  unfoldable pub conclude : Admitted → Outcome → Server World → Reply × Server World
  unfolding reply_with shut_down
  conclude a (mcp_error code message) s =
      if is_notification a.rpc then (reply_with a 204 no_content, s) else (
        reply_with a (if eqℤ code method_not_found then 404 else 400)
            (json (make_error a.rpc.id code message)),
        s,
      )
  conclude a (failure what) s =
      if is_notification a.rpc
      then (reply_with a 204 no_content, s)
      else (reply_with a 500 (json (make_error a.rpc.id internal_error what)), s)
  conclude a (result none) s =
      if is_notification a.rpc
      then (reply_with a 204 no_content, shut_down a s)
      else (undefined, shut_down a s)
  conclude a (result (some v)) s =
      if is_notification a.rpc
      then (reply_with a 204 no_content, shut_down a s)
      else (reply_with a 200 (json (make_response a.rpc.id v)), shut_down a s)

  listening : Option Session × SessionStore → Handling World Session
  listening (none, sessions) s = (
    answer 401 (plain (codes "session required (call initialize first)\n")),
    record s { sessions = sessions },
  )
  listening (some sess, sessions) s = (next sess, record s { sessions = sessions })

  -- The session that a stream of events needs.
  listen_in : HttpRequest → Surroundings → RequestContext → Handling World Session
  unfolding listening
  listen_in req env ctx s =
      if is_empty req.session_header
      then (answer 401 (plain (codes "session required (call initialize first)\n")), s)
      else listening (validate s.sessions env.session_now req.session_header ctx.bearer_hash) s

  admit_events : HttpRequest → Surroundings → Handling World Session
  unfolding check_ip authenticate listen_in ◌>>=◌
  admit_events req env = do check_ip req; ctx ← authenticate req; listen_in req env ctx

module _ {World : Type 0} (o : Outside World) where
  reconfigure : Option Config → Server World → Server World
  unfolding text_eq
  reconfigure none s = s
  reconfigure (some new_cfg) s =
      let webhook_changed =
        not (text_eq new_cfg.webhook_url s.config.webhook_url)
        || not (text_eq new_cfg.webhook_secret_token s.config.webhook_secret_token) in
      if webhook_changed
      then record s { config = new_cfg; world = o.write_all new_cfg s.world }
      else record s { config = new_cfg }

  unfoldable pub handle_reload : Surroundings → Server World → Server World
  unfolding reconfigure
  handle_reload env s =
      let s' = record s {
        reload_users = false;
        users = load_all o.truncate env.users_dir s.users;
      } in
      if not s.reload_users
      then s
      else if is_empty s.config_path
      then s'
      else reconfigure env.config_file s'

  pub parse_body : HttpRequest → Handling World Json
  parse_body req s = elim (o.parse req.body) [
    | none ↦ (answer 400 (json (make_error null parse_error (codes "invalid JSON body"))), s)
    | some body ↦ (next body, s)
  ]

  -- From the handler's start up to the dispatch.
  unfoldable pub admit : HttpRequest → Surroundings → Handling World Admitted
  unfolding check_ip authenticate limit parse_body parse_envelope open_session ◌>>=◌
  admit req env = do
    check_ip req
    ctx ← authenticate req
    limit env ctx
    body ← parse_body req
    rpc ← parse_envelope body
    open_session req env ctx rpc

  unfoldable pub run_method : Admitted → Server World → Reply × Server World
  unfolding conclude
  run_method a s =
      let (outcome, world) =
        dispatch (make_default_router o.dump o.tools) a.rpc.method a.ctx a.rpc.params s.world in
      conclude a outcome (record s { world = world })

  pub run_admitted : Step Admitted × Server World → Reply × Server World
  unfolding run_method
  run_admitted (stop r, s) = (replied r, s)
  run_admitted (next a, s) = run_method a s

  -- The handler of POST /.
  unfoldable pub post : HttpRequest → Surroundings → Server World → Reply × Server World
  unfolding run_admitted admit handle_reload
  post req env s = run_admitted (admit req env (handle_reload env s))

  -- The handler of GET /, up to the start of the event stream of a session.
  unfoldable pub get_events : HttpRequest → Surroundings → Handling World Session
  unfolding admit_events handle_reload
  get_events req env s = admit_events req env (handle_reload env s)
