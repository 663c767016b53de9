-- ===== src/Server/Admission.antt =====
-- What a request passed if it reaches the dispatch, and what the steps before change.
use mathlib.Core.Path.{subst}
use server_mcp_bridge.Base.{
  ◌≡◌, refl, ◌∙◌, ap, ◌⊎◌, inl, inr, ◌≢◌, true, Option, none, some, arith, codes, text_eq,
  text_eq_iff, text_eq→eq, Bool-cases,
}
use server_mcp_bridge.Json.{Json}
use server_mcp_bridge.JsonRpc.{Request, accepted, parse_request}
use server_mcp_bridge.Auth.{RequestContext, auth_resolve}
use server_mcp_bridge.RateLimiter.{allow}
use server_mcp_bridge.Session.{Session, SessionStore, issue, validate}
use server_mcp_bridge.Server.{
  Outside, Server, HttpRequest, Surroundings, Step, stop, next, Handling, proceed, ◌>>=◌,
  is_ip_allowed, Admitted, check_ip, authenticate, limit, parse_body, parse_envelope, initialize,
  resume, open_session, admit,
}

module _ {World A B : Type 0} where
  -- The parts of a chain of steps that went through.
  proceed-next :
      (r : Step A × Server World) (f : A → Handling World B) (b : B) (s' : Server World)
      → proceed f r ≡ (next b, s')
      → (a : A) × (r.0 ≡ next a) × (f a r.1 ≡ (next b, s'))
  unfolding proceed
  proceed-next (stop q, s) f b s' h = absurd (ground arith)
  proceed-next (next a, s) f b s' h = (a, refl, h)

  pub >>=-next :
      (m : Handling World A) (f : A → Handling World B) (s : Server World) (b : B)
      (s' : Server World)
      → (m >>= f) s ≡ (next b, s')
      → (a : A) × ((m s).0 ≡ next a) × (f a (m s).1 ≡ (next b, s'))
  unfolding ◌>>=◌
  >>=-next m f s b s' h = proceed-next (m s) f b s' h

module _ {World : Type 0} (req : HttpRequest) (env : Surroundings) (s : Server World) where
  check_ip-next :
      (u : Unit {0})
      → (check_ip req s).0 ≡ next u
      → (is_ip_allowed req.remote_addr s.config.allowed_ips ≡ true) × ((check_ip req s).1 ≡ s)
  unfolding check_ip
  check_ip-next u h = ground arith

  authenticate-next :
      (ctx : RequestContext)
      → (authenticate req s).0 ≡ next ctx
      → (auth_resolve req.authorization s.config.global_token_salt s.config.admin_token_hash s.users
            req.remote_addr
          ≡ some ctx)
        × ((authenticate req s).1 ≡ s)
  unfolding authenticate
  authenticate-next ctx h = ground arith

  limit-next :
      (ctx : RequestContext) (u : Unit {0})
      → (limit env ctx s).0 ≡ next u
      → ((allow s.rate_limiter env.limiter_now ctx.user_id).0 ≡ true)
        × ((limit env ctx s).1
            ≡ record s { rate_limiter = (allow s.rate_limiter env.limiter_now ctx.user_id).1 })
  unfolding limit
  limit-next ctx u h = ground arith

  parse_body-next :
      (o : Outside World) (doc : Json)
      → (parse_body o req s).0 ≡ next doc
      → (o.parse req.body ≡ some doc) × ((parse_body o req s).1 ≡ s)
  unfolding parse_body
  parse_body-next o doc h = ground arith

  parse_envelope-next :
      (doc : Json) (rpc : Request)
      → (parse_envelope doc s).0 ≡ next rpc
      → (parse_request doc ≡ accepted rpc) × ((parse_envelope doc s).1 ≡ s)
  unfolding parse_envelope
  parse_envelope-next doc rpc h = ground arith

  -- The session of an admitted request: a new one of its caller for `initialize`, and for any other
  -- method the one of its header, which is bound to the hash of its bearer.
  pub record Opens (ctx : RequestContext) (rpc : Request) (a : Admitted) : Type 0 where
    pub session : Session
    pub of_request : a.rpc ≡ rpc
    pub with_session : a.ctx ≡ record ctx { session_id = session.id }
    pub origin :
        ((rpc.method ≡ codes "initialize")
          × (session.id ≡ env.uuid)
          × (session.bearer_hash ≡ ctx.bearer_hash)
          × (session.user_id ≡ ctx.user_id))
        ⊎ ((rpc.method ≢ codes "initialize")
            × ((validate s.sessions env.session_now req.session_header ctx.bearer_hash).0
                ≡ some session))

  initialize-next :
      (ctx : RequestContext) (rpc : Request) (a : Admitted)
      → rpc.method ≡ codes "initialize"
      → (initialize req env ctx rpc s).0 ≡ next a
      → Opens ctx rpc a × ((initialize req env ctx rpc s).1.world ≡ s.world)
  unfolding initialize issue
  initialize-next ctx rpc a first h = (
    record {
      session = (issue s.sessions env.session_now env.uuid ctx.bearer_hash ctx.user_id).0;
      of_request = ground arith;
      with_session = ground arith;
      origin = inl (first, refl, refl, refl);
    },
    refl,
  )

  resume-next :
      (ctx : RequestContext) (rpc : Request) (a : Admitted) (r : Option Session × SessionStore)
      → (resume env ctx rpc r s).0 ≡ next a
      → (session : Session) × (r.0 ≡ some session)
        × (a.rpc ≡ rpc)
        × (a.ctx ≡ record ctx { session_id = session.id })
  unfolding resume
  resume-next ctx rpc a (none, sessions) h = absurd (ground arith)
  resume-next ctx rpc a (some session, sessions) h = (session, refl, ground arith, ground arith)

  resume-world :
      (ctx : RequestContext) (rpc : Request) (r : Option Session × SessionStore)
      → (resume env ctx rpc r s).1.world ≡ s.world
  unfolding resume
  resume-world ctx rpc (none, sessions) = refl
  resume-world ctx rpc (some session, sessions) = refl

  pub open_session-world :
      (ctx : RequestContext) (rpc : Request) → (open_session req env ctx rpc s).1.world ≡ s.world
  unfolding open_session
  open_session-world ctx rpc = ground (
    arith,
    resume-world ctx rpc (validate s.sessions env.session_now req.session_header ctx.bearer_hash),
  )

  open_session-next :
      (ctx : RequestContext) (rpc : Request) (a : Admitted)
      → (open_session req env ctx rpc s).0 ≡ next a
      → Opens ctx rpc a
  unfolding open_session
  open_session-next ctx rpc a h = elim (Bool-cases (text_eq rpc.method (codes "initialize"))) [
    | inl e ↦ (initialize-next ctx rpc a (text_eq→eq _ _ e) (rw (e, open_session) at h)).0
    | inr e ↦
        let (session, found, same, with) =
          resume-next ctx rpc a
            (validate s.sessions env.session_now req.session_header ctx.bearer_hash)
            (ground (arith, h, e)) in
        record {
          session = session;
          of_request = same;
          with_session = with;
          origin = inr (λ q. cc (e, (text_eq_iff rpc.method (codes "initialize")).1 q), found);
        }
  ]

-- What an admitted request has passed, in the order in which it passed it.
pub record Admits {World : Type 0} (o : Outside World) (req : HttpRequest) (env : Surroundings)
    (s : Server World) (a : Admitted) : Type 0 where
  pub ip : is_ip_allowed req.remote_addr s.config.allowed_ips ≡ true
  pub who : RequestContext
  pub identified :
      auth_resolve req.authorization s.config.global_token_salt s.config.admin_token_hash s.users
        req.remote_addr
      ≡ some who
  pub within_limit : (allow s.rate_limiter env.limiter_now who.user_id).0 ≡ true
  pub doc : Json
  pub parsed : o.parse req.body ≡ some doc
  pub envelope : parse_request doc ≡ accepted a.rpc
  pub session : Session
  pub with_session : a.ctx ≡ record who { session_id = session.id }
  pub origin :
      ((a.rpc.method ≡ codes "initialize")
        × (session.id ≡ env.uuid)
        × (session.bearer_hash ≡ who.bearer_hash)
        × (session.user_id ≡ who.user_id))
      ⊎ ((a.rpc.method ≢ codes "initialize")
          × ((validate s.sessions env.session_now req.session_header who.bearer_hash).0
              ≡ some session))

module _ {World : Type 0} (o : Outside World) (req : HttpRequest) (env : Surroundings)
    (s : Server World) (a : Admitted) where
  abbrev Resolved : Server World → RequestContext → Type 0
  Resolved t who =
      auth_resolve req.authorization t.config.global_token_salt t.config.admin_token_hash t.users
        req.remote_addr
      ≡ some who

  -- The server after the limiter has counted a request.
  counted_in : RequestContext → Server World → Server World
  counted_in who t = record t {
    rate_limiter = (allow t.rate_limiter env.limiter_now who.user_id).1;
  }

  abbrev counted : RequestContext → Server World
  counted who = counted_in who s

  Admits-open :
      (who : RequestContext) (doc : Json) (rpc : Request) (s' : Server World)
      → is_ip_allowed req.remote_addr s.config.allowed_ips ≡ true
      → auth_resolve req.authorization s.config.global_token_salt s.config.admin_token_hash s.users
          req.remote_addr
        ≡ some who
      → (allow s.rate_limiter env.limiter_now who.user_id).0 ≡ true
      → o.parse req.body ≡ some doc
      → parse_request doc ≡ accepted rpc
      → open_session req env who rpc (counted who) ≡ (next a, s')
      → Admits o req env s a
  unfolding counted_in
  Admits-open who doc rpc s' ip identified within_limit parsed envelope h =
      let v = open_session-next req env (counted who) who rpc a (ap (λ r. r.0) h) in
      record {
        ip = ip;
        who = who;
        identified = identified;
        within_limit = within_limit;
        doc = doc;
        parsed = parsed;
        envelope = rw v.of_request envelope;
        session = v.session;
        with_session = v.with_session;
        origin = rw v.of_request v.origin;
      }

  -- A request that reaches the dispatch comes from an allowed address, carries the token of the
  -- identity that it gets, is within the limit of its user, and holds a JSON-RPC request; its session
  -- is a new one for `initialize`, and else one that is valid for the hash of its token.
  pub admit-Admits : (s' : Server World) → admit o req env s ≡ (next a, s') → Admits o req env s a
  unfolding counted_in admit
  admit-Admits s' h =
      let (u, e1, h1) = proceed-next (check_ip req s) _ a s' h in
      let t1 : Server World = (check_ip req s).1 in
      let ip = check_ip-next req env s u e1 in
      let (who, e2, h2) = proceed-next (authenticate req t1) _ a s' h1 in
      let t2 : Server World = (authenticate req t1).1 in
      let auth = authenticate-next req env t1 who e2 in
      let (v, e3, h3) = proceed-next (limit env who t2) _ a s' h2 in
      let t3 : Server World = (limit env who t2).1 in
      let lim = limit-next req env t2 who v e3 in
      let (doc, e4, h4) = proceed-next (parse_body o req t3) _ a s' h3 in
      let t4 : Server World = (parse_body o req t3).1 in
      let body = parse_body-next req env t3 o doc e4 in
      let (rpc, e5, h5) = proceed-next (parse_envelope doc t4) _ a s' h4 in
      let envelope = parse_envelope-next req env t4 doc rpc e5 in
      let same : t2 ≡ s = auth.1 ∙ ip.1 in
      let last : (parse_envelope doc t4).1 ≡ counted who =
        envelope.1 ∙ body.1 ∙ lim.1 ∙ ap (counted_in who) same in
      Admits-open who doc rpc s' ip.0 (subst (λ t. Resolved t who) ip.1 auth.0)
        (subst (λ t. (allow t.rate_limiter env.limiter_now who.user_id).0 ≡ true) same lim.0) body.0
        envelope.0 (subst (λ t. open_session req env who rpc t ≡ (next a, s')) last h5)
