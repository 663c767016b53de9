-- ===== src/RateLimiter/Limit.antt =====
-- The bound that the limiter promises, over every minute of every history.
use mathlib.Core.List.{append-nil, append_assoc}
use server_mcp_bridge.Base.{
  ℕ, suc, ◌+◌, ◌≤◌, ◌≡◌, inl, inr, Bool, true, ◌&&◌, List, [], ◌∷◌, ◌++◌, arith, Text, text_eq,
  text_eq→eq, ℤ, pos, negsuc, ltℤ, leb, length, length-append, select, select-append, Bool-cases,
}
use server_mcp_bridge.RateLimiter.{minutes, new, recent}
use server_mcp_bridge.RateLimiter.History.{
  Calls, Steady, times, times-append_self, times-append_ne, accepted, spec_accepted,
  accepted-eq-spec_accepted,
}

-- The closed minute from `start` on.
abbrev pub in_minute : ℕ → ℕ → Bool
in_minute start t = leb start t && leb t (start + minutes 1)

-- The greatest number of calls that the limit lets through: none if it is negative.
abbrev pub at_most : ℤ → ℕ
at_most (pos n) = n
at_most (negsuc n) = 0

minute-le-recent :
    (start now : ℕ) (ts : List ℕ)
    → now ≤ start + minutes 1
    → length (select (in_minute start) ts) ≤ length (recent now ts)
minute-le-recent start now [] h = omega arith
minute-le-recent start now (t ∷ ts) h = ground (arith, minute-le-recent start now ts h)

limit_lem : (n : ℕ) (max : ℤ) → ltℤ (pos n) max ≡ true → suc n ≤ at_most max
limit_lem n (pos m) h = ground arith
limit_lem n (negsuc m) h = cc

accept_hit :
    (max : ℤ) (ts : List ℕ) (now start : ℕ)
    → length (select (in_minute start) ts) ≤ at_most max
    → ltℤ (pos (length (recent now ts))) max ≡ true
    → length (select (in_minute start) ts ++ select (in_minute start) (now ∷ [])) ≤ at_most max
accept_hit max ts now start h e =
    rw (length-append (select (in_minute start) ts))
      (ground (arith, minute-le-recent start now ts, limit_lem (length (recent now ts)) max))

-- Adding one accepted call to a log that respects the limit.
accept_one :
    (max : ℤ) (log : Calls) (now start : ℕ) (key j : Text)
    → length (select (in_minute start) (times j log)) ≤ at_most max
    → ltℤ (pos (length (recent now (times key log)))) max ≡ true
    → length (select (in_minute start) (times j (log ++ (now, key) ∷ []))) ≤ at_most max
accept_one max log now start key j h e = elim (Bool-cases (text_eq key j)) [
  | inl hit ↦
      rw (← text_eq→eq key j hit, times-append_self, select-append)
        (accept_hit max (times key log) now start (rw (text_eq→eq key j hit) h) e)
  | inr miss ↦ rw (times-append_ne key j log now miss) h
]

-- No minute of the specification's log holds more calls of a key than the limit.
spec_accepted-le :
    (calls : Calls) (max : ℤ) (log : Calls) (start : ℕ) (j : Text)
    → length (select (in_minute start) (times j log)) ≤ at_most max
    → length (select (in_minute start) (times j (log ++ spec_accepted max log calls))) ≤ at_most max
unfolding spec_accepted
spec_accepted-le [] max log start j h = rw append-nil h
spec_accepted-le ((now, key) ∷ calls) max log start j h =
    elim (Bool-cases (ltℤ (pos (length (recent now (times key log)))) max)) [
      | inl e ↦
          rw (e, ← append_assoc log ((now, key) ∷ []))
            (spec_accepted-le calls max (log ++ (now, key) ∷ []) start j
              (accept_one max log now start key j h e))
      | inr e ↦ rw e (spec_accepted-le calls max log start j h)
    ]

-- Whatever the calls, no minute holds more accepted calls of a key than the limit.
pub accepted-le :
    (max : ℤ) (began : ℕ) (calls : Calls) (start : ℕ) (key : Text)
    → Steady began calls
    → length (select (in_minute start) (times key (accepted (new max began) calls))) ≤ at_most max
accepted-le max began calls start key st =
    rw (accepted-eq-spec_accepted max began calls st)
      (spec_accepted-le calls max [] start key (omega arith))
