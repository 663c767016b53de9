-- ===== src/Auth/Resolve.antt =====
-- Who a request is taken for.
use mathlib.Core.Path.{ap₂}
use server_mcp_bridge.Base.{
  ◌≡◌, refl, sym, ◌≢◌, ◌↔◌, ◌⊎◌, inl, inr, ◌∙◌, ap, true, false, none, some, [], ◌∷◌, ◌++◌, arith,
  Text, codes, text_eq, text_eq_iff, is_empty, take, drop, ℕ, zero, suc, Option-cases,
  if◌then◌else◌,
}
use server_mcp_bridge.Crypto.{sha256_salted_hex}
use server_mcp_bridge.Crypto.Compare.{constant_time_equal-eq-text_eq}
use server_mcp_bridge.UserStore.{UserRecord, UserStore, lookup_by_hash}
use server_mcp_bridge.Auth.{
  RequestContext, prefix, extract_bearer, verify_bearer_token, resolve_hash, auth_resolve,
}

take-drop : (n : ℕ) (xs : Text) → take n xs ++ drop n xs ≡ xs
take-drop zero xs = refl
take-drop (suc n) [] = refl
take-drop (suc n) (x ∷ xs) = ap (λ r. x ∷ r) (take-drop n xs)

is_empty-ne : (t : Text) → is_empty t ≡ false → t ≢ []
is_empty-ne [] h e = cc
is_empty-ne (c ∷ cs) h e = cc

ne-is_empty : (t : Text) → t ≢ [] → is_empty t ≡ false
ne-is_empty [] h = absurd (h refl)
ne-is_empty (c ∷ cs) h = refl

-- A header with a token is "Bearer ", and a token that is not empty, of any bytes.
extract_bearer_sound :
    (header token : Text)
    → extract_bearer header ≡ some token
    → (header ≡ prefix ++ token) × (token ≢ [])
unfolding extract_bearer
extract_bearer_sound header token h =
    let head : take 7 header ≡ prefix = ground (arith, text_eq_iff (take 7 header) prefix) in
    let rest : drop 7 header ≡ token = ground arith in
    let filled : is_empty (drop 7 header) ≡ false = ground arith in
    (sym (take-drop 7 header) ∙ ap₂ (λ a b. a ++ b) head rest, rw rest at (is_empty-ne _ filled))

extract_bearer_complete :
    (token : Text) → token ≢ [] → extract_bearer (prefix ++ token) ≡ some token
unfolding extract_bearer
extract_bearer_complete [] h = absurd (h refl)
extract_bearer_complete (c ∷ cs) h = ground arith

-- A known user, with the record that the index has for the hash of the token.
pub record IsUser (users : UserStore) (hash client_ip : Text) (ctx : RequestContext) : Type 0 where
  pub user : UserRecord
  pub known : lookup_by_hash users hash ≡ some user
  pub context : ctx ≡ record {
    user_id = user.user_id;
    os_username = user.os_username;
    is_admin = user.is_admin;
    session_id = [];
    bearer_hash = hash;
    client_ip = client_ip;
  }

-- The install admin: an admin hash is configured, it is that of the token, and no user has it.
pub record IsInstallAdmin (users : UserStore) (admin_hash hash client_ip : Text)
    (ctx : RequestContext) : Type 0 where
  pub configured : admin_hash ≢ []
  pub same : hash ≡ admin_hash
  pub unknown : lookup_by_hash users hash ≡ none
  pub context : ctx ≡ record {
    user_id = codes "admin";
    os_username = codes "mcp_user_mcpadmin";
    is_admin = true;
    session_id = [];
    bearer_hash = hash;
    client_ip = client_ip;
  }

-- The identity that a token stands for.
pub record Identifies (header salt admin_hash : Text) (users : UserStore) (client_ip : Text)
    (ctx : RequestContext) : Type 0 where
  pub token : Text
  pub header_is : header ≡ prefix ++ token
  pub filled : token ≢ []
  pub who :
      IsUser users (sha256_salted_hex salt token) client_ip ctx
      ⊎ IsInstallAdmin users admin_hash (sha256_salted_hex salt token) client_ip ctx

module _ (admin_hash : Text) (users : UserStore) (client_ip hash : Text)
    (ctx : RequestContext) where
  abbrev IsOne : Type 0
  IsOne = IsUser users hash client_ip ctx ⊎ IsInstallAdmin users admin_hash hash client_ip ctx

  resolve_user :
      (user : UserRecord)
      → lookup_by_hash users hash ≡ some user
      → resolve_hash admin_hash users client_ip hash ≡ some ctx
      → IsOne
  unfolding resolve_hash
  resolve_user user known h = inl (record { user = user; known = known; context = ground arith })

  resolve_admin :
      lookup_by_hash users hash ≡ none
      → resolve_hash admin_hash users client_ip hash ≡ some ctx
      → IsOne
  unfolding resolve_hash
  resolve_admin unknown h = inr (record {
    configured = is_empty-ne _ (ground arith);
    same =
        ground (arith, constant_time_equal-eq-text_eq hash admin_hash, text_eq_iff hash admin_hash);
    unknown = unknown;
    context = ground arith;
  })

  resolve_sound : resolve_hash admin_hash users client_ip hash ≡ some ctx → IsOne
  resolve_sound h = elim (Option-cases (lookup_by_hash users hash)) [
    | inl e ↦ resolve_admin e h
    | inr (user, e) ↦ resolve_user user e h
  ]

  resolve_complete : IsOne → resolve_hash admin_hash users client_ip hash ≡ some ctx
  unfolding resolve_hash
  resolve_complete (inl v) = ground (arith, v.known, v.context)
  resolve_complete (inr v) = ground (
    arith,
    v.unknown,
    v.context,
    ne-is_empty admin_hash v.configured,
    constant_time_equal-eq-text_eq hash admin_hash,
    text_eq_iff hash admin_hash,
  )

-- A request is taken for somebody exactly when its header is "Bearer " and a token, and the salted
-- hash of the token is that of a user record, which then gives the name, the account and the admin
-- right; or, no record having it, it is the configured admin hash, which gives those of the install
-- admin. The hash of the token is kept as the one to which sessions are bound.
pub auth_resolve_iff :
    (header salt admin_hash : Text) (users : UserStore) (client_ip : Text) (ctx : RequestContext)
    → (auth_resolve header salt admin_hash users client_ip ≡ some ctx)
      ↔ Identifies header salt admin_hash users client_ip ctx
unfolding auth_resolve
auth_resolve_iff header salt admin_hash users client_ip ctx = (forth, back)
  where
    forth :
        auth_resolve header salt admin_hash users client_ip ≡ some ctx
        → Identifies header salt admin_hash users client_ip ctx
    forth h = elim (Option-cases (extract_bearer header)) [
      | inl e ↦ cc (e, h)
      | inr (token, e) ↦
          let shape = extract_bearer_sound header token e in
          record {
            token = token;
            header_is = shape.0;
            filled = shape.1;
            who =
                resolve_sound admin_hash users client_ip (sha256_salted_hex salt token) ctx
                  (rw (e, auth_resolve) at h);
          }
    ]

    back :
        Identifies header salt admin_hash users client_ip ctx
        → auth_resolve header salt admin_hash users client_ip ≡ some ctx
    back v =
        rw (v.header_is, extract_bearer_complete v.token v.filled, auth_resolve)
          (resolve_complete admin_hash users client_ip (sha256_salted_hex salt v.token) ctx v.who)

verify_missing :
    (header salt hash : Text)
    → extract_bearer header ≡ none
    → verify_bearer_token header salt hash ≡ false
unfolding verify_bearer_token
verify_missing header salt hash e = ground (arith, e)

verify_found :
    (header salt hash token : Text)
    → extract_bearer header ≡ some token
    → verify_bearer_token header salt hash
      ≡ (if is_empty hash then false else text_eq (sha256_salted_hex salt token) hash)
unfolding verify_bearer_token
verify_found header salt hash token e =
    ground (arith, e, constant_time_equal-eq-text_eq (sha256_salted_hex salt token) hash)

abbrev pub IsVerified : (header salt hash : Text) → Type 0
IsVerified header salt hash =
    (token : Text) × (header ≡ prefix ++ token)
    × (token ≢ [])
    × (hash ≢ [])
    × (sha256_salted_hex salt token ≡ hash)

-- A token is verified against a hash exactly when the header carries a token, the hash is not empty,
-- and it is the salted hash of the token.
pub verify_bearer_token_iff :
    (header salt hash : Text)
    → (verify_bearer_token header salt hash ≡ true) ↔ IsVerified header salt hash
verify_bearer_token_iff header salt hash = (forth, back)
  where
    forth : verify_bearer_token header salt hash ≡ true → IsVerified header salt hash
    forth h = elim (Option-cases (extract_bearer header)) [
      | inl e ↦ cc (verify_missing header salt hash e, h)
      | inr (token, e) ↦
          let shape = extract_bearer_sound header token e in
          let found = verify_found header salt hash token e in
          (
            token,
            shape.0,
            shape.1,
            is_empty-ne hash (ground (arith, found)),
            ground (arith, found, text_eq_iff (sha256_salted_hex salt token) hash),
          )
    ]

    back : IsVerified header salt hash → verify_bearer_token header salt hash ≡ true
    back (token, e, filled, given, same) =
        let found =
          verify_found (prefix ++ token) salt hash token (extract_bearer_complete token filled) in
        rw e (
          ground
            (arith, found, ne-is_empty hash given, text_eq_iff (sha256_salted_hex salt token) hash))
