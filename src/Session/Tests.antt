-- ===== src/Session/Tests.antt =====
-- The session store at concrete inputs.
use server_mcp_bridge.Base.{ℕ, ◌≡◌, refl, ◌↔◌, some, List, [], ◌∷◌, arith, codes}
use server_mcp_bridge.Crypto.{constant_time_equal}
use server_mcp_bridge.Map
use server_mcp_bridge.Session.{Session, SessionStore, new, gc_locked, issue, validate, invalidate}
use server_mcp_bridge.Session.Branches.{Accepts, validate_iff}
use server_mcp_bridge.Session.Binding.{
  Call, issues, validates, invalidates, run, owners, nobody, validate-owner,
}

abbrev hour : ℕ
hour = 3_600_000_000_000

-- One session issued at time 5 and looked up at time 10; another, issued and invalidated.
abbrev calls : List Call
calls =
    issues 5 (codes "s1") (codes "h1") (codes "ann")
    ∷ issues 6 (codes "s2") (codes "h2") (codes "bob")
    ∷ validates 10 (codes "s1") (codes "h1")
    ∷ invalidates (codes "s2")
    ∷ []

abbrev store : SessionStore
store = run (new hour 0) calls

abbrev ann_session : Session
ann_session = record {
  id = codes "s1";
  bearer_hash = codes "h1";
  user_id = codes "ann";
  created_at = 5;
  last_seen = 10;
}

abbrev ann_seen : Session
ann_seen = record ann_session { last_seen = 20 }

ann_found : Map.find store.sessions (codes "s1") ≡ some ann_session
unfolding run new issue gc_locked validate invalidate constant_time_equal Map.empty Map.set
    Map.erase Map.retain Map.find
ann_found = refl

store_ttl : store.idle_ttl ≡ hour
unfolding run new issue gc_locked validate invalidate constant_time_equal Map.empty Map.set
    Map.erase Map.retain Map.find
store_ttl = refl

ann_accepted : Accepts store 20 (codes "s1") (codes "h1") ann_seen
ann_accepted = record {
  stored = ann_session;
  found = ann_found;
  not_idle = omega (arith, store_ttl);
  same_bearer = refl;
  returned = refl;
}

validate_iff_example :
    ((validate store 20 (codes "s1") (codes "h1")).0 ≡ some ann_seen)
    ↔ Accepts store 20 (codes "s1") (codes "h1") ann_seen
validate_iff_example = validate_iff store 20 (codes "s1") (codes "h1") ann_seen

validate-owner_example :
    (ann_seen.id ≡ codes "s1")
    × (owners nobody calls (codes "s1")
        ≡ some (record { bearer_hash = codes "h1"; user_id = codes "ann" }))
validate-owner_example =
    validate-owner hour 0 calls 20 (codes "s1") (codes "h1") ann_seen
      (validate_iff_example.1 ann_accepted)
