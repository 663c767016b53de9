-- ===== src/UserTools/Tokens.antt =====
-- The token that user_create returns is the new user's: the index that it loads finds the record.
use server_mcp_bridge.Base.{
  ℕ, zero, suc, ◌≡◌, ◌≢◌, refl, sym, ◌∙◌, ap, inl, inr, true, false, not, Bool, Option, some, List,
  ◌∷◌, [], ◌++◌, arith, ◌/◌, Text, text_eq, text_eq_iff, text_eq→eq, eq→text_eq, text_eq_differ,
  all, is_among, All, codes, ℤ, is_empty, get_or, length, ◌==◌, Bool-cases, Option-cases,
}
use server_mcp_bridge.Json.{obj, get}
use server_mcp_bridge.Map
use server_mcp_bridge.Map.{Map, keys_where, keys_where-to_list, to_list-All, find-set}
use server_mcp_bridge.Crypto.{sha256_salted_hex}
use server_mcp_bridge.Crypto.Hex.{sha256_salted_hex-shape}
use server_mcp_bridge.Registry.{ToolResult}
use server_mcp_bridge.CronFile.{Outside}
use server_mcp_bridge.Shortid.{alphabet, make_shortid, make_token}
use server_mcp_bridge.UserStore.{
  UserRecord, DirEntry, is_hidden, ends_with_json, entry_record, read_user_file, lookup_by_hash,
  lookup_by_token, load_all,
}
use server_mcp_bridge.UserStore.Loaded.{first_with, entry_records, lookup-load_all}
use server_mcp_bridge.UserTools.{
  UserWorld, UserConfig, UserCall, os_username_of, user_fields, dir_entries, reload,
}
use server_mcp_bridge.UserTools.Created.{Created}

-- The record of a file, if it has one.
abbrev pub file_record : Outside → (name text : Text) → Option UserRecord
file_record o name text =
    entry_record o.truncate
      (record { d_name = name ++ codes ".json"; is_regular = true; content = o.parse text })

module _ (o : Outside) (id hash : Text) (u : UserRecord) (same : u.token_hash ≡ hash) where
  -- The file of `id` has the record, and no other file has one with this hash.
  record Holds (name text : Text) : Type 0 where
    here : text_eq name id ≡ true → file_record o name text ≡ some u
    elsewhere :
        (r : UserRecord)
        → text_eq name id ≡ false
        → file_record o name text ≡ some r
        → text_eq r.token_hash hash ≡ false

  first_with-holder :
      (pairs : List (Text × Text))
      → All (λ q. Holds q.0 q.1) pairs
      → is_among id (keys_where (λ name text. true) pairs) ≡ true
      → first_with hash (entry_records o.truncate (dir_entries o pairs)) ≡ some u
  unfolding first_with dir_entries keys_where is_among
  first_with-holder [] h among = absurd (ground (arith, among))
  first_with-holder ((name, text) ∷ pairs) (one, h) among = elim (Bool-cases (text_eq name id)) [
    | inl e ↦ rw (one.here e, eq→text_eq u.token_hash hash same) refl
    | inr e ↦
        let rest = first_with-holder pairs h (ground (arith, among, e)) in
        elim (Option-cases (file_record o name text)) [
          | inl f ↦ rw f rest
          | inr (r, f) ↦ rw (f, one.elsewhere r e f) rest
        ]
  ]

get_or-dot :
    (l : Text) (i : ℕ) → all (λ c. not (c == b'.')) l ≡ true → (get_or l i 0 == b'.') ≡ false
get_or-dot [] i h = refl
get_or-dot (x ∷ xs) zero h = ground (arith, h)
get_or-dot (x ∷ xs) (suc i) h = get_or-dot xs i (ground (arith, h))

hash-full : (salt token : Text) → is_empty (sha256_salted_hex salt token) ≡ false
hash-full salt token = filled (sha256_salted_hex salt token) (sha256_salted_hex-shape salt token).0
  where
    filled : (t : Text) → length t ≡ 64 → is_empty t ≡ false
    filled [] h = absurd (omega arith)
    filled (c ∷ cs) h = refl

abbrev pub user_record : UserConfig → UserCall → (name email : Text) → Bool → UserRecord
user_record cfg c name email is_admin = record {
  user_id = make_shortid c.raw_shortid;
  os_username = os_username_of (make_shortid c.raw_shortid);
  name = name;
  email = email;
  is_admin = is_admin;
  token_hash = sha256_salted_hex cfg.global_token_salt (make_token c.raw_token);
  created_at = c.now;
}

shortid-shape :
    (raw : ℕ → ℕ)
    → (is_hidden (make_shortid raw ++ codes ".json") ≡ false)
      × (ends_with_json (make_shortid raw ++ codes ".json") ≡ true)
      × (is_empty (make_shortid raw) ≡ false)
unfolding make_shortid ends_with_json
shortid-shape raw = (get_or-dot alphabet (raw 0 / 8) refl, refl, refl)

read_fields_lem :
    (truncate : Text → ℤ) (shortid name email hash : Text) (is_admin : Bool) (now : ℤ)
    → is_empty shortid ≡ false
    → is_empty hash ≡ false
    → read_user_file truncate (some (obj (user_fields shortid name email is_admin hash now)))
      ≡ some (record {
        user_id = shortid;
        os_username = os_username_of shortid;
        name = name;
        email = email;
        is_admin = is_admin;
        token_hash = hash;
        created_at = now;
      })
unfolding read_user_file get
read_fields_lem truncate shortid name email hash is_admin now id full = rw (id, full) refl

module _ (o : Outside) (cfg : UserConfig) (c : UserCall) (name email : Text) (is_admin : Bool) where
  new_record :
      (text : Text)
      → o.parse text
        ≡ some (
            obj (
              user_fields
                (make_shortid c.raw_shortid)
                name
                email
                is_admin
                (sha256_salted_hex cfg.global_token_salt (make_token c.raw_token))
                c.now))
      → file_record o (make_shortid c.raw_shortid) text
        ≡ some (user_record cfg c name email is_admin)
  unfolding entry_record
  new_record text parsed =
      let shape = shortid-shape c.raw_shortid in
      rw (shape.0, shape.1, parsed)
        (read_fields_lem o.truncate (make_shortid c.raw_shortid) name email
          (sha256_salted_hex cfg.global_token_salt (make_token c.raw_token)) is_admin c.now shape.2
          (hash-full cfg.global_token_salt (make_token c.raw_token)))

module _ (o : Outside) (cfg : UserConfig) (c : UserCall) (w : UserWorld) where
  abbrev new_hash : Text
  new_hash = sha256_salted_hex cfg.global_token_salt (make_token c.raw_token)

  abbrev NoOther : Type 0
  NoOther =
      (other text : Text) (u : UserRecord)
      → Map.find w.records other ≡ some text
      → file_record o other text ≡ some u
      → u.token_hash ≢ new_hash

  holders :
      (text0 : Text) (u : UserRecord) (same : u.token_hash ≡ new_hash)
      → file_record o (make_shortid c.raw_shortid) text0 ≡ some u
      → NoOther
      → All
          (λ q. Holds o (make_shortid c.raw_shortid) new_hash u same q.0 q.1)
          (Map.to_list (Map.set w.records (make_shortid c.raw_shortid) text0))
  holders text0 u same new others =
      to_list-All (Holds o shortid new_hash u same) (Map.set w.records shortid text0)
        (λ name text found. record {
          here = λ e.
              let at_id : name ≡ shortid = text_eq→eq name shortid e in
              let one : text0 ≡ text = ground (
                arith,
                find-set w.records shortid name text0,
                found,
                eq→text_eq shortid name (sym at_id),
              ) in
              ap (λ t. file_record o t text) at_id ∙ ap (file_record o shortid) (sym one) ∙ new;
          elsewhere = λ r e f. text_eq_differ r.token_hash new_hash (
              others name text r
                (ground (
                  arith,
                  find-set w.records shortid name text0,
                  found,
                  text_eq_iff shortid name,
                  text_eq_iff name shortid,
                  e,
                ))
                f);
        })
    where
      shortid : Text
      shortid = make_shortid c.raw_shortid

  lookup_new :
      (text0 : Text) (u : UserRecord)
      → w.users.global_salt ≡ cfg.global_token_salt
      → u.token_hash ≡ new_hash
      → file_record o (make_shortid c.raw_shortid) text0 ≡ some u
      → NoOther
      → lookup_by_token
          (load_all o.truncate
            (some
              (dir_entries o (Map.to_list (Map.set w.records (make_shortid c.raw_shortid) text0))))
            w.users)
          (make_token c.raw_token)
        ≡ some u
  unfolding lookup_by_token load_all
  lookup_new text0 u salt same new others =
      ap
        (λ t.
          lookup_by_hash (load_all o.truncate (some es) w.users)
            (sha256_salted_hex t (make_token c.raw_token)))
        salt
      ∙ lookup-load_all o.truncate es w.users new_hash
      ∙ first_with-holder o shortid new_hash u same (Map.to_list m)
          (holders text0 u same new others)
          (keys_where-to_list (λ name text. true) m shortid
            ∙ rw (find-set w.records shortid shortid text0, eq→text_eq shortid shortid refl) refl)
    where
      shortid : Text
      shortid = make_shortid c.raw_shortid

      m : Map Text
      m = Map.set w.records shortid text0

      es : List DirEntry
      es = dir_entries o (Map.to_list m)

  listed_users :
      (is_listed : Bool) (v : UserWorld)
      → is_listed ≡ true
      → (reload o is_listed v).users
        ≡ load_all o.truncate (some (dir_entries o (Map.to_list v.records))) v.users
  unfolding reload
  listed_users is_listed v e = rw e refl

  -- The token of a user that user_create made is answered with the record of this user, if the index
  -- has the salt of the configuration, the directory can be opened, the parser reads the printed record
  -- back, and no other file has a record with the hash of this token.
  pub lookup_by_token-Created :
      (r : ToolResult × UserWorld) (v : Created o cfg c w r)
      → w.users.global_salt ≡ cfg.global_token_salt
      → c.is_listed ≡ true
      → o.parse (v.body ++ b'\n' ∷ [])
        ≡ some (
            obj (user_fields (make_shortid c.raw_shortid) v.name v.email v.is_admin new_hash c.now))
      → ((other text : Text) (u : UserRecord)
          → Map.find w.records other ≡ some text
          → file_record o other text ≡ some u
          → u.token_hash ≢ new_hash)
      → lookup_by_token r.1.users (make_token c.raw_token)
        ≡ some (user_record cfg c v.name v.email v.is_admin)
  lookup_by_token-Created r v salt listed back others =
      ap (λ t. lookup_by_token t.users (make_token c.raw_token)) v.world
      ∙ ap (λ t. lookup_by_token t (make_token c.raw_token)) (listed_users c.is_listed _ listed)
      ∙ lookup_new (v.body ++ b'\n' ∷ []) (user_record cfg c v.name v.email v.is_admin) salt refl
          (new_record o cfg c v.name v.email v.is_admin _ back) others
