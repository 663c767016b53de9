-- ===== src/Priv/Retries.antt =====
-- The loop of retries of useradd ends, and what it returns is what its last attempt says.
use server_mcp_bridge.Base.{
  ℕ, zero, suc, ◌+◌, ◌*◌, ◌≤◌, ◌<◌, ◌≡◌, ◌≢◌, refl, ◌⊎◌, inl, inr, true, false, List, [], ◌∷◌,
  arith, ℤ, pos, negsuc, eqℤ, ltb, if◌then◌else◌, Bool-cases,
}
use server_mcp_bridge.Priv.{Attempt}
use server_mcp_bridge.Priv.Accounts.{looks_like_lock, Retried, waiting, useradd_loop}

pub sum : List ℕ → ℕ
sum [] = 0
sum (n ∷ ns) = n + sum ns

abbrev doubled : ℕ → ℕ
doubled backoff_ms = if ltb backoff_ms 2000 then backoff_ms * 2 else backoff_ms

-- The pauses of `left` attempts that all find the database locked.
budget : (left backoff_ms : ℕ) → ℕ
budget zero backoff_ms = 0
budget (suc left) backoff_ms = backoff_ms + budget left (doubled backoff_ms)

-- The exit code that the end of an attempt stands for.
abbrev pub exit_of : Attempt → ℕ
exit_of t = if eqℤ t.rc (pos 0) then 0 else if eqℤ t.rc (pos 9) then 14 else 11

-- `last` is the number of the attempt that ended the loop, at most `bound` - 1.
pub record Ends (attempts : ℕ → Attempt) (first bound wait : ℕ) (r : Retried) : Type 0 where
  pub last : ℕ
  pub tried : r.tried ≡ suc last
  pub low : first ≤ last
  pub high : suc last ≤ bound
  pub exit : r.exit ≡ exit_of (attempts last)
  pub busy : (i : ℕ) → first ≤ i → i < last → looks_like_lock (attempts i) ≡ true
  pub ended : (suc last ≡ bound) ⊎ (looks_like_lock (attempts last) ≡ false)
  pub waited : sum r.waits ≤ wait

module _ (attempts : ℕ → Attempt) where
  at_once :
      (first left backoff_ms code : ℕ)
      → code ≡ exit_of (attempts first)
      → looks_like_lock (attempts first) ≡ false
      → Ends attempts first
          (first + suc left)
          (budget (suc left) backoff_ms)
          (record { exit = code; tried = suc first; waits = [] })
  unfolding sum
  at_once first left backoff_ms code e f = record {
    last = first;
    tried = refl;
    low = omega arith;
    high = omega arith;
    exit = e;
    busy = λ i h k. absurd (omega (arith, h, k));
    ended = inr f;
    waited = omega arith;
  }

  busy_code : (t : Attempt) → looks_like_lock t ≡ true → eqℤ t.rc (pos 1) ≡ true
  unfolding looks_like_lock
  busy_code t h = ground (arith, h)

  other_code : (z : ℤ) (n : ℕ) → eqℤ z (pos 1) ≡ true → 1 ≢ n → eqℤ z (pos n) ≡ false
  other_code (pos m) n h k = ground arith
  other_code (negsuc m) n h k = refl

  busy_exit :
      (t : Attempt)
      → looks_like_lock t ≡ true
      → (eqℤ t.rc (pos 0) ≡ false) × (eqℤ t.rc (pos 9) ≡ false)
  busy_exit t h =
      let one = busy_code t h in
      (other_code t.rc 0 one (omega arith), other_code t.rc 9 one (omega arith))

  not_busy : (t : Attempt) (n : ℕ) → 1 ≢ n → eqℤ t.rc (pos n) ≡ true → looks_like_lock t ≡ false
  not_busy t n k e = elim (Bool-cases (looks_like_lock t)) [
    | inr f ↦ f
    | inl f ↦ absurd (ground (arith, e, other_code t.rc n (busy_code t f) k))
  ]

  -- The last attempt that is left.
  exhausted :
      (first backoff_ms : ℕ)
      → looks_like_lock (attempts first) ≡ true
      → Ends attempts first
          (first + 1)
          (budget 1 backoff_ms)
          (waiting backoff_ms (useradd_loop attempts (suc first) 0 (doubled backoff_ms)))
  unfolding useradd_loop sum budget
  exhausted first backoff_ms busy =
      let (zero_no, nine_no) = busy_exit (attempts first) busy in
      record {
        last = first;
        tried = refl;
        low = omega arith;
        high = omega arith;
        exit = rw (zero_no, nine_no) refl;
        busy = λ i h k. absurd (omega (arith, h, k));
        ended = inl (omega arith);
        waited = omega arith;
      }

  busy_before :
      (first last : ℕ)
      → looks_like_lock (attempts first) ≡ true
      → ((i : ℕ) → suc first ≤ i → i < last → looks_like_lock (attempts i) ≡ true)
      → (i : ℕ) → first ≤ i
      → i < last
      → looks_like_lock (attempts i) ≡ true
  busy_before first last now later i h k = elim (Bool-cases (ltb first i)) [
    | inl e ↦ later i (ground (arith, e)) k
    | inr e ↦ let same : first ≡ i = ground (arith, e, h) in rw (← same) now
  ]

  one_more :
      (first bound wait backoff_ms : ℕ) (r : Retried)
      → looks_like_lock (attempts first) ≡ true
      → Ends attempts (suc first) bound wait r
      → Ends attempts first bound (backoff_ms + wait) (waiting backoff_ms r)
  unfolding sum
  one_more first bound wait backoff_ms r now e = record {
    last = e.last;
    tried = e.tried;
    low = omega (arith, e.low);
    high = e.high;
    exit = e.exit;
    busy = busy_before first e.last now e.busy;
    ended = e.ended;
    waited = omega (arith, e.waited);
  }

  -- The part of the loop that makes an attempt, with the rest of the loop.
  attempted :
      (first left backoff_ms : ℕ) (again : Retried)
      → (looks_like_lock (attempts first) ≡ true
          → Ends attempts first
              (first + suc left)
              (budget (suc left) backoff_ms)
              (waiting backoff_ms again))
      → Ends attempts first (first + suc left) (budget (suc left) backoff_ms) (
          if eqℤ (attempts first).rc (pos 0)
          then record { exit = 0; tried = suc first; waits = [] }
          else if eqℤ (attempts first).rc (pos 9)
          then record { exit = 14; tried = suc first; waits = [] }
          else if looks_like_lock (attempts first)
          then waiting backoff_ms again
          else record { exit = 11; tried = suc first; waits = [] })
  attempted first left backoff_ms again h =
      let t = attempts first in
      elim (Bool-cases (eqℤ t.rc (pos 0))) [
        | inl e ↦ rw e (at_once first left backoff_ms 0 (rw e refl) (not_busy t 0 (omega arith) e))
        | inr e ↦ rw e (elim (Bool-cases (eqℤ t.rc (pos 9))) [
          | inl f ↦
              rw f
                (at_once first left backoff_ms 14 (rw (e, f) refl) (not_busy t 9 (omega arith) f))
          | inr f ↦ rw f (elim (Bool-cases (looks_like_lock t)) [
            | inl g ↦ rw g (h g)
            | inr g ↦ rw g (at_once first left backoff_ms 11 (rw (e, f) refl) g)
          ])
        ])
      ]

  useradd_loop_from :
      (first left backoff_ms : ℕ)
      → Ends attempts first
          (first + suc left)
          (budget (suc left) backoff_ms)
          (useradd_loop attempts first (suc left) backoff_ms)
  unfolding useradd_loop budget
  useradd_loop_from first zero backoff_ms =
      attempted first 0 backoff_ms _ (λ g. exhausted first backoff_ms g)
  useradd_loop_from first (suc left) backoff_ms =
      let rest = useradd_loop_from (suc first) left (doubled backoff_ms) in
      let same : suc first + suc left ≡ first + suc (suc left) = omega arith in
      attempted first (suc left) backoff_ms _ (λ g.
        one_more first (first + suc (suc left)) (budget (suc left) (doubled backoff_ms)) backoff_ms
          _ g (rw same at rest))

  -- useradd is run at most 60 times, with pauses of at most 182.2 seconds in all; every attempt but the
  -- last one met a locked database, and the exit code is what the last one stands for.
  pub useradd_loop-Ends : Ends attempts 0 60 182_200 (useradd_loop attempts 0 60 200)
  unfolding budget
  useradd_loop-Ends = useradd_loop_from 0 59 200
