-- ===== src/RateLimiter.antt =====
-- src/core/rate_limiter.cpp and .hpp: the per-user rate limit with its sliding window of a minute
-- and its collection of idle buckets. The steady clock is an argument: a count of ticks of a
-- nanosecond. `now - d` of the source is compared by adding `d` to the other side, so nothing is
-- cut off at 0.
pub mod Window
pub mod History
pub mod Limit
mod Tests
use server_mcp_bridge.Base.{
  ℕ, ◌+◌, ◌*◌, Bool, true, false, not, ◌||◌, Option, none, some, List, [], ◌∷◌, ◌++◌, Text, ℤ, pos,
  ltℤ, ltb, length, select, if◌then◌else◌,
}
use server_mcp_bridge.Map
use server_mcp_bridge.Map.{Map}

-- `std::chrono::minutes(n)` in ticks.
abbrev pub minutes : ℕ → ℕ
minutes n = n * 60_000_000_000

pub record RateLimiter : Type 0 where
  pub max_rpm : ℤ
  pub requests : Map (List ℕ)
  pub last_gc : ℕ

-- The constructor, at the time that `steady_clock::now()` returns.
unfoldable pub new : ℤ → ℕ → RateLimiter
new max_rpm now = record { max_rpm = max_rpm; requests = Map.empty; last_gc = now }

-- What `requests_[key]` refers to: operator[] inserts an empty vector for a missing key.
abbrev pub or_empty : Option (List ℕ) → List ℕ
or_empty none = []
or_empty (some ts) = ts

abbrev pub bucket : RateLimiter → Text → List ℕ
bucket s key = or_empty (Map.find s.requests key)

-- The `remove_if` of the stamps `t < window`, with `window = now - minutes(1)`.
abbrev pub recent : ℕ → List ℕ → List ℕ
recent now = select (λ t. not (ltb (t + minutes 1) now))

-- `timestamps.empty() || timestamps.back() < stale`, with `stale = now - minutes(5)`.
unfoldable pub is_stale : ℕ → List ℕ → Bool
is_stale now [] = true
is_stale now (t ∷ []) = ltb (t + minutes 5) now
is_stale now (t ∷ u ∷ ts) = is_stale now (u ∷ ts)

-- The periodic collection at the end of `allow`.
unfoldable pub collect : RateLimiter → ℕ → RateLimiter
unfolding is_stale
collect s now =
    if ltb (s.last_gc + minutes 5) now
    then record s { requests = Map.retain (λ ts. not (is_stale now ts)) s.requests; last_gc = now }
    else s

unfoldable pub allow : RateLimiter → ℕ → Text → Bool × RateLimiter
unfolding collect
allow s now key =
    let timestamps = recent now (bucket s key) in
    let ok = ltℤ (pos (length timestamps)) s.max_rpm in
    let timestamps' = if ok then timestamps ++ now ∷ [] else timestamps in
    (ok, collect (record s { requests = Map.set s.requests key timestamps' }) now)
