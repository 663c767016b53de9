-- ===== src/Session.antt =====
-- src/core/session.cpp and .hpp: the store of MCP sessions, each bound to the hash of a bearer
-- token. The steady clock is an argument, a count of ticks of a nanosecond, and so is the identifier
-- that `make_uuid_v4` draws. The mutex makes each method one step.
pub mod Branches
pub mod Binding
mod Tests
use server_mcp_bridge.Base.{
  ℕ, ◌+◌, ◌*◌, ◌≡◌, Bool, not, Option, none, some, Text, ltb, if◌then◌else◌,
}
use server_mcp_bridge.Crypto.{constant_time_equal}
use server_mcp_bridge.Map
use server_mcp_bridge.Map.{Map}
use server_mcp_bridge.RateLimiter.{minutes}

pub record Session : Type 0 where
  pub id : Text
  pub bearer_hash : Text
  pub user_id : Text
  pub created_at : ℕ
  pub last_seen : ℕ

pub record SessionStore : Type 0 where
  pub idle_ttl : ℕ
  pub sessions : Map Session
  pub last_gc : ℕ

-- The constructor, at the time that `steady_clock::now()` returns.
unfoldable pub new : ℕ → ℕ → SessionStore
new idle_ttl now = record { idle_ttl = idle_ttl; sessions = Map.empty; last_gc = now }

-- `now - it->second.last_seen > idle_ttl_`.
abbrev pub idled_out : ℕ → ℕ → Session → Bool
idled_out idle_ttl now s = ltb (s.last_seen + idle_ttl) now

unfoldable pub gc_locked : SessionStore → ℕ → SessionStore
gc_locked st now = if ltb now (st.last_gc + minutes 5) then st else record st {
  sessions = Map.retain (λ s. not (idled_out st.idle_ttl now s)) st.sessions;
  last_gc = now;
}

-- `uuid` is what `make_uuid_v4` returns.
unfoldable pub issue :
    SessionStore → (now : ℕ) → (uuid bearer_hash user_id : Text) → Session × SessionStore
issue st now uuid bearer_hash user_id =
    let s = fresh in
    let st' = gc_locked st s.created_at in
    (s, record st' { sessions = Map.set st'.sessions s.id s })
  where
    fresh : Session
    fresh = record {
      id = uuid;
      bearer_hash = bearer_hash;
      user_id = user_id;
      created_at = now;
      last_seen = now;
    }

-- `validate` once the session is found.
check_found :
    SessionStore
    → (now : ℕ) → (session_id bearer_hash : Text) → Session
    → Option Session × SessionStore
check_found st now session_id bearer_hash s =
    if idled_out st.idle_ttl now s
    then (none, record st { sessions = Map.erase st.sessions session_id })
    else if not (constant_time_equal s.bearer_hash bearer_hash)
    then (none, st)
    else (some seen, record st { sessions = Map.set st.sessions session_id seen })
  where
    seen : Session
    seen = record s { last_seen = now }

unfoldable pub validate :
    SessionStore → (now : ℕ) → (session_id bearer_hash : Text) → Option Session × SessionStore
unfolding check_found
validate st now session_id bearer_hash = elim (Map.find st.sessions session_id) [
  | none ↦ (none, st)
  | some s ↦ check_found st now session_id bearer_hash s
]

unfoldable pub invalidate : SessionStore → Text → SessionStore
invalidate st session_id = record st { sessions = Map.erase st.sessions session_id }
