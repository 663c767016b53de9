-- ===== src/Grants/Lifetime.antt =====
-- A history of requests, revocations and sweeps, from the start of the daemon on.
use server_mcp_bridge.Base.{
  ℕ, ◌≡◌, refl, sym, ◌∙◌, inl, inr, Bool, true, Option, none, some, List, [], ◌∷◌, arith, Text,
  is_among, ℤ, length, Bool-cases,
}
use server_mcp_bridge.Json.{Json}
use server_mcp_bridge.Map
use server_mcp_bridge.Map.{Map}
use server_mcp_bridge.GrantTemplate.{GrantTemplate}
use server_mcp_bridge.Grants.{
  Grant, WriteEnd, Spawn, PrivHelper, GrantManager, RevokeCall, RequestCall, expired_ids,
  is_expired, on_disk_grants,
}
use server_mcp_bridge.Grants.Operations.{
  request_grant, revoke_grant, sweep_expired, reconcile_at_startup, new_grant,
}
use server_mcp_bridge.Grants.Loads.{load_state_locked}
use server_mcp_bridge.Grants.Requests.{request_grant-RequestEnds, valid_grantid-make_grantid}
use server_mcp_bridge.Grants.Sweeps.{IsFiled}
use server_mcp_bridge.Grants.Startup.{
  is_there, file_of, live, on_disk_grants-is_among, reconcile_at_startup-find,
  reconcile_at_startup-kept,
}
use server_mcp_bridge.Grants.Histories.{
  load_state_locked-IsFiled, IsBacked, revoke_grant-IsBacked, revoke_each-IsBacked, issued-IsBacked,
  refused-IsBacked,
}

-- A call of the manager, with what it meets.
pub data Op (Call : Type 0) : Type 0 where
  request : RequestCall Call → (shortid template_name : Text) → Json → (ttl : ℤ) → Op Call
  revoke : RevokeCall Call → (grantid : Text) → Op Call
  sweep : (calls : ℕ → RevokeCall Call) → (now : ℕ) → Op Call

module _ {W Call : Type 0} (dump : Json → Option Text) (h : PrivHelper W Call)
    (match : (regex v : Text) → Option Bool) (templates : List GrantTemplate) where
  pub run_op : Op Call → GrantManager W → GrantManager W
  run_op (request c shortid template_name captured_args ttl) s =
      (request_grant dump h match templates c shortid template_name captured_args ttl s).1
  run_op (revoke c grantid) s = (revoke_grant dump h c grantid s).1
  run_op (sweep calls now) s = sweep_expired dump h calls now s

  pub run_ops : List (Op Call) → GrantManager W → GrantManager W
  run_ops [] s = s
  run_ops (op ∷ ops) s = run_ops ops (run_op op s)

  run_op-IsBacked :
      (op : Op Call) (s : GrantManager W) → IsBacked dump h s → IsBacked dump h (run_op op s)
  unfolding run_op sweep_expired
  run_op-IsBacked (request c shortid template_name captured_args ttl) s b =
      elim (request_grant-RequestEnds dump h match templates c shortid template_name captured_args
        ttl s) [
          | inl (spec, allowed, issued) ↦
              issued-IsBacked dump h (new_grant c shortid template_name captured_args ttl) spec s _
                (valid_grantid-make_grantid c.rd) issued b
          | inr refused ↦ refused-IsBacked dump h c _ _ s _ refused b
        ]
  run_op-IsBacked (revoke c grantid) s b = revoke_grant-IsBacked dump h c grantid s b
  run_op-IsBacked (sweep calls now) s b =
      revoke_each-IsBacked dump h calls 0 (expired_ids now (Map.to_list s.grants)) s b

  pub run_ops-IsBacked :
      (ops : List (Op Call)) (s : GrantManager W)
      → IsBacked dump h s
      → IsBacked dump h (run_ops ops s)
  unfolding run_ops
  run_ops-IsBacked [] s b = b
  run_ops-IsBacked (op ∷ ops) s b = run_ops-IsBacked ops (run_op op s) (run_op-IsBacked op s b)

  live_there :
      (now : ℕ) (on_disk : Bool) (found : Option Grant) (g : Grant)
      → live now on_disk found ≡ some g
      → (found ≡ some g) × (on_disk ≡ true)
  live_there now on_disk none g h = absurd (ground (arith, h))
  live_there now on_disk (some k) g h = elim (Bool-cases (is_expired now k)) [
    | inl e ↦ absurd (ground (arith, rw e at h))
    | inr e ↦ elim (Bool-cases on_disk) [
      | inr f ↦ absurd (ground (arith, rw (e, f) at h))
      | inl f ↦ (rw (e, f) at h, f)
    ]
  ]

  there_lem : (drop : Option Text) → is_there drop ≡ true → (t : Text) × (drop ≡ some t)
  there_lem none h = cc
  there_lem (some t) h = (t, refl)

  -- The names that the directory lists are those of its drop-ins.
  abbrev pub Lists : (names : List Text) (w : W) → Type 0
  Lists names w = (j : Text) → is_among (file_of j) names ≡ is_there (h.drop_in w j)

  reconcile-IsBacked :
      (calls : ℕ → Spawn Call) (ending : WriteEnd) (now : ℕ) (names : List Text)
      (s : GrantManager W)
      → IsFiled s.grants
      → Lists names s.outside
      → IsBacked dump h (reconcile_at_startup dump h calls ending now names s)
  reconcile-IsBacked calls ending now names s filed lists = record {
    filed = λ j g found. filed j g (was j g found).0;
    backed = λ j g found.
        let (old, on_disk) = was j g found in
        let size : length j ≡ 16 = ground (arith, (filed j g old).1) in
        let (t, e) =
          there_lem (h.drop_in s.outside j)
            (sym (on_disk_grants-is_among names j size ∙ lists j) ∙ on_disk) in
        (
          t,
          reconcile_at_startup-kept dump h calls ending now names s j g
                (sym (reconcile_at_startup-find dump h calls ending now names s j) ∙ found)
              ∙ e,
        );
  }
    where
      was :
          (j : Text) (g : Grant)
          → Map.find (reconcile_at_startup dump h calls ending now names s).grants j ≡ some g
          → (Map.find s.grants j ≡ some g) × (is_among j (on_disk_grants names) ≡ true)
      was j g found =
          live_there now (is_among j (on_disk_grants names)) (Map.find s.grants j) g
            (sym (reconcile_at_startup-find dump h calls ending now names s j) ∙ found)

  -- The daemon starts with an empty table, loads the file and reconciles; then comes any history.
  pub lifetime :
      (parse : Text → Option Json) (truncate : Text → ℤ) (calls : ℕ → Spawn Call)
      (ending : WriteEnd) (now : ℕ) (names : List Text) (ops : List (Op Call))
      → GrantManager W
      → GrantManager W
  lifetime parse truncate calls ending now names ops s = run_ops ops (
      reconcile_at_startup dump h calls ending now names
        (load_state_locked parse truncate (record s { grants = Map.empty })).1)

  -- At every point of a lifetime, every entry of the table stands under its own valid identifier and
  -- has a drop-in, whatever the files hold and whatever the clock, the random device, the writes and
  -- the helper answer, if at the start the names of the directory are those of its drop-ins.
  pub lifetime-IsBacked :
      (parse : Text → Option Json) (truncate : Text → ℤ) (calls : ℕ → Spawn Call)
      (ending : WriteEnd) (now : ℕ) (names : List Text) (ops : List (Op Call)) (s : GrantManager W)
      → Lists names s.outside
      → IsBacked dump h (lifetime parse truncate calls ending now names ops s)
  unfolding lifetime load_state_locked
  lifetime-IsBacked parse truncate calls ending now names ops s lists = run_ops-IsBacked ops _ (
      reconcile-IsBacked calls ending now names _
        (load_state_locked-IsFiled parse truncate (record s { grants = Map.empty }) none_filed)
        lists)
    where
      none_filed : IsFiled Map.empty
      none_filed id g found = absurd (ground (arith, found, Map.find-empty {V = Grant} id))
