-- ===== src/RateLimiter/Tests.antt =====
-- The rate limiter at concrete inputs.
use server_mcp_bridge.Base.{◌≤◌, ◌≡◌, refl, [], ◌∷◌, arith, codes, text_eq, pos, length, select}
use server_mcp_bridge.RateLimiter.{new}
use server_mcp_bridge.RateLimiter.History.{
  Calls, times, accepted, spec_accepted, accepted-eq-spec_accepted,
}
use server_mcp_bridge.RateLimiter.Limit.{in_minute, at_most, accepted-le}

-- Three calls of one user and one of another within a minute, and one when the minute is over.
abbrev burst : Calls
burst =
    (1, codes "ann")
    ∷ (2, codes "ann")
    ∷ (3, codes "ann")
    ∷ (4, codes "bob")
    ∷ (60_000_000_002, codes "ann")
    ∷ []

accepted-eq-spec_accepted_example : accepted (new (pos 2) 0) burst ≡ spec_accepted (pos 2) [] burst
accepted-eq-spec_accepted_example = accepted-eq-spec_accepted (pos 2) 0 burst (omega arith)

-- The third call is refused; the window is closed at both ends, so the last call still meets the
-- stamp of the second, and passes.
burst_accepted :
    spec_accepted (pos 2) [] burst
    ≡ (1, codes "ann") ∷ (2, codes "ann") ∷ (4, codes "bob") ∷ (60_000_000_002, codes "ann") ∷ []
unfolding spec_accepted text_eq
burst_accepted = refl

accepted-le_example :
    length (select (in_minute 1) (times (codes "ann") (accepted (new (pos 2) 0) burst)))
    ≤ at_most (pos 2)
accepted-le_example = accepted-le (pos 2) 0 burst 1 (codes "ann") (omega arith)
