-- ===== src/UserTools/Created.antt =====
-- How user_create ends: with a record of a provisioned account, or with nothing changed.
use server_mcp_bridge.Base.{
  ◌≡◌, refl, ◌⊎◌, inl, inr, ◌||◌, true, false, Bool, Option, none, some, ◌∷◌, [], ◌++◌, arith, Text,
  codes, pos, eqℤ, eqℤ_iff, is_empty, Bool-cases,
}
use server_mcp_bridge.Json.{Json, obj, Fields, get, string_at, bool_value}
use server_mcp_bridge.Map
use server_mcp_bridge.Crypto.{sha256_salted_hex}
use server_mcp_bridge.Auth.{RequestContext}
use server_mcp_bridge.Registry.{ToolResult, returned, threw}
use server_mcp_bridge.CronFile.{Outside}
use server_mcp_bridge.Shortid.{make_shortid, make_token}
use server_mcp_bridge.UserTools.{
  UserWorld, UserConfig, UserCall, is_email_ish, user_path, user_fields, reload, after_write,
  write_record, create_answer, provision, create_user, user_create,
}

module _ (o : Outside) (cfg : UserConfig) (c : UserCall) (w : UserWorld) where
  -- The record is new, and its account and its directories were made before it.
  pub record Created (r : ToolResult × UserWorld) : Type 0 where
    pub name : Text
    pub email : Text
    pub is_admin : Bool
    pub well_formed : (is_empty name ≡ false) × (is_email_ish email ≡ true)
    pub provisioned : (c.helper_exit ≡ pos 0) ⊎ (c.helper_exit ≡ pos 14)
    pub prepared : c.state_exit ≡ pos 0
    pub free : Map.find w.records (make_shortid c.raw_shortid) ≡ none
    pub body : Text
    pub dumped :
        o.dump (
          obj (
            user_fields
              (make_shortid c.raw_shortid)
              name
              email
              is_admin
              (sha256_salted_hex cfg.global_token_salt (make_token c.raw_token))
              c.now))
        ≡ some body
    pub result :
        r.0
        ≡ returned (
            create_answer o c name email is_admin
              (make_shortid c.raw_shortid)
              (make_token c.raw_token))
    pub world :
        r.1
        ≡ reload o c.is_listed (record w {
          records = Map.set w.records (make_shortid c.raw_shortid) (body ++ b'\n' ∷ []);
        })

  pub record Unchanged (r : ToolResult × UserWorld) : Type 0 where
    pub what : Text
    pub result : r ≡ (threw what, w)

  stop : (what : Text) → Unchanged (threw what, w)
  stop what = record { what = what; result = refl }

  abbrev pub Ends : ToolResult × UserWorld → Type 0
  Ends r = Created r ⊎ Unchanged r

  module _ (name email : Text) (is_admin : Bool) (named : is_empty name ≡ false)
      (valid : is_email_ish email ≡ true)
      (provisioned : (c.helper_exit ≡ pos 0) ⊎ (c.helper_exit ≡ pos 14))
      (prepared : c.state_exit ≡ pos 0) where
    abbrev shortid : Text
    shortid = make_shortid c.raw_shortid

    abbrev answer : Json
    answer = create_answer o c name email is_admin shortid (make_token c.raw_token)

    abbrev document : Json
    document = obj (
        user_fields shortid name email is_admin
          (sha256_salted_hex cfg.global_token_salt (make_token c.raw_token)) c.now)

    written-Ends :
        (body : Text) (found fault : Option Text)
        → o.dump document ≡ some body
        → Map.find w.records shortid ≡ found
        → Ends (
            after_write o c answer (elim found [
              | some old ↦
                  (some (codes "open " ++ (user_path cfg shortid ++ codes ": File exists")), w)
              | none ↦ elim fault [
                | some what ↦ (some what, w)
                | none ↦
                    (none, record w { records = Map.set w.records shortid (body ++ b'\n' ∷ []) })
              ]
            ]))
    written-Ends body (some old) fault dumped found = inr (stop _)
    written-Ends body none (some what) dumped found = inr (stop _)
    written-Ends body none none dumped found = inl (record {
      name = name;
      email = email;
      is_admin = is_admin;
      well_formed = (named, valid);
      provisioned = provisioned;
      prepared = prepared;
      free = found;
      body = body;
      dumped = dumped;
      result = refl;
      world = refl;
    })

    write_record-Ends :
        (text : Option Text)
        → o.dump document ≡ text
        → Ends (write_record o cfg c answer shortid text w)
    write_record-Ends none dumped = inr (stop _)
    write_record-Ends (some body) dumped =
        written-Ends body (Map.find w.records shortid) c.file_fault dumped refl

  provision-Ends :
      (name email : Text) (is_admin : Bool)
      → is_empty name ≡ false
      → is_email_ish email ≡ true
      → Ends (
          provision o cfg c name email is_admin
            (make_shortid c.raw_shortid)
            (make_token c.raw_token)
            w)
  provision-Ends name email is_admin named valid =
      elim (Bool-cases (eqℤ c.helper_exit (pos 0) || eqℤ c.helper_exit (pos 14))) [
        | inr e ↦ rw e (inr (stop _))
        | inl e ↦ elim (Bool-cases (eqℤ c.state_exit (pos 0))) [
          | inr f ↦ rw (e, f) (inr (stop _))
          | inl f ↦
              rw (e, f)
                (write_record-Ends name email is_admin named valid (one_of (Bool-cases _) e)
                  ((eqℤ_iff c.state_exit (pos 0)).0 f) _ refl)
        ]
      ]
    where
      one_of :
          (eqℤ c.helper_exit (pos 0) ≡ true) ⊎ (eqℤ c.helper_exit (pos 0) ≡ false)
          → (eqℤ c.helper_exit (pos 0) || eqℤ c.helper_exit (pos 14)) ≡ true
          → (c.helper_exit ≡ pos 0) ⊎ (c.helper_exit ≡ pos 14)
      one_of (inl e) h = inl ((eqℤ_iff c.helper_exit (pos 0)).0 e)
      one_of (inr e) h = inr ((eqℤ_iff c.helper_exit (pos 14)).0 (ground (arith, e, h)))

  create_user-Ends :
      (name email : Option Text) (is_admin : Option Bool)
      → Ends (create_user o cfg c name email is_admin w)
  create_user-Ends (some name) (some email) (some is_admin) = elim (Bool-cases (is_empty name)) [
    | inl e ↦ rw e (inr (stop _))
    | inr e ↦ elim (Bool-cases (is_email_ish email)) [
      | inr f ↦ rw (e, f) (inr (stop _))
      | inl f ↦ elim (Bool-cases (is_empty cfg.global_token_salt)) [
        | inl g ↦ rw (e, f, g) (inr (stop _))
        | inr g ↦ rw (e, f, g) (provision-Ends name email is_admin e f)
      ]
    ]
  ]
  create_user-Ends none _ _ = inr (stop _)
  create_user-Ends (some _) none _ = inr (stop _)
  create_user-Ends (some _) (some _) none = inr (stop _)

  by_admin :
      (admin : Bool) (r : ToolResult × UserWorld)
      → admin ≡ true
      → Ends r
      → (admin ≡ true) × Created r ⊎ Unchanged r
  by_admin admin r e (inl v) = inl (e, v)
  by_admin admin r e (inr v) = inr v

  -- user_create either throws and changes no file and nothing of the index; or an administrator calls
  -- it, and it returns a token after it wrote a record of a new name with the hash of that token, and
  -- loaded the index again. Then the helper made the account, or found it there, and prepared its
  -- directories before.
  pub user_create-Created :
      (ctx : RequestContext) (args : Fields)
      → (ctx.is_admin ≡ true) × Created (user_create o cfg c ctx args w)
        ⊎ Unchanged (user_create o cfg c ctx args w)
  unfolding user_create
  user_create-Created ctx args = elim (Bool-cases ctx.is_admin) [
    | inr e ↦ inr (rw e (stop _))
    | inl e ↦ by_admin ctx.is_admin _ e (
        rw e (
          create_user-Ends (string_at (get (codes "name") args))
            (string_at (get (codes "email") args)) (bool_value (get (codes "is_admin") args))))
  ]
