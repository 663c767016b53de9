-- ===== src/RateLimiter/Window.antt =====
-- Lists of time stamps as `allow` keeps them: ascending, and cut at the window.
use server_mcp_bridge.Base.{
  ℕ, ◌≤◌, ◌≡◌, refl, Bool, true, List, [], ◌∷◌, ◌++◌, arith, All, All-append, All-select, select,
}
use server_mcp_bridge.RateLimiter.{recent, is_stale}

-- Each stamp is at most the ones that follow it.
abbrev pub Ascending : List ℕ → Type 0
Ascending [] = Unit {0}
Ascending (t ∷ ts) = All (λ u. t ≤ u) ts × Ascending ts

pub select-Ascending : (p : ℕ → Bool) (ts : List ℕ) → Ascending ts → Ascending (select p ts)
select-Ascending p [] h = tt
select-Ascending p (t ∷ ts) h =
    ground (arith, select-Ascending p ts h.1, All-select (λ u. t ≤ u) p ts h.0)

pub append-Ascending :
    (ts : List ℕ) (now : ℕ) → Ascending ts → All (λ u. u ≤ now) ts → Ascending (ts ++ now ∷ [])
append-Ascending [] now h k = (tt, tt)
append-Ascending (t ∷ ts) now h k =
    (All-append (λ u. t ≤ u) ts (now ∷ []) h.0 (k.0, tt), append-Ascending ts now h.1 k.1)

pub All-le_trans : (ts : List ℕ) (a b : ℕ) → a ≤ b → All (λ u. u ≤ a) ts → All (λ u. u ≤ b) ts
All-le_trans [] a b h k = tt
All-le_trans (t ∷ ts) a b h k = (omega arith, All-le_trans ts a b h k.1)

-- Cutting at a later time makes an earlier cut invisible.
pub recent-recent :
    (now later : ℕ) (ts : List ℕ) → now ≤ later → recent later (recent now ts) ≡ recent later ts
recent-recent now later [] h = refl
recent-recent now later (t ∷ ts) h = ground (arith, recent-recent now later ts h)

-- A stale bucket holds nothing that is still in the window, now or later.
pub recent-is_stale :
    (now later : ℕ) (ts : List ℕ)
    → Ascending ts
    → now ≤ later
    → is_stale now ts ≡ true
    → recent later ts ≡ []
unfolding is_stale
recent-is_stale now later [] a h e = refl
recent-is_stale now later (t ∷ []) a h e = ground arith
recent-is_stale now later (t ∷ u ∷ ts) a h e =
    ground (arith, recent-is_stale now later (u ∷ ts) a.1 h e)
