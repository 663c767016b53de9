-- ===== src/RateLimiter/History.antt =====
-- The limiter against a log of all accepted calls, of which nothing is ever dropped.
use server_mcp_bridge.Base.{
  ℕ, ◌≤◌, ◌≡◌, refl, sym, ap, ◌∙◌, ◌⊎◌, inl, inr, true, false, not, List, [], ◌∷◌, ◌++◌, arith,
  Text, text_eq, text_eq_refl, text_eq→eq, ℤ, pos, ltℤ, length, All, All-append, All-select,
  select-append, Bool-cases, if◌then◌else◌,
}
use mathlib.Core.List.{append-nil}
use server_mcp_bridge.Map
use server_mcp_bridge.Map.{find-set, find-retain, find-empty}
use server_mcp_bridge.RateLimiter.{RateLimiter, new, bucket, recent, is_stale, collect, allow}
use server_mcp_bridge.RateLimiter.Window.{
  Ascending, select-Ascending, append-Ascending, All-le_trans, recent-recent, recent-is_stale,
}

-- A call of `allow` is the time and the key; a log of calls is oldest first.
abbrev pub Calls : Type 0
Calls = List (ℕ × Text)

-- Times of the calls with this key.
abbrev pub times : Text → Calls → List ℕ
times key [] = []
times key ((t, k) ∷ log) = let rest = times key log in if text_eq k key then t ∷ rest else rest

-- The calls that the limiter accepts.
pub accepted : RateLimiter → Calls → Calls
accepted s [] = []
accepted s ((now, key) ∷ calls) =
    let (ok, s') = allow s now key in
    let rest = accepted s' calls in if ok then (now, key) ∷ rest else rest

-- The specification: a call passes if fewer than `max` accepted calls of its key lie in the minute
-- up to it, both ends included. The log is that of the calls accepted before.
unfoldable pub spec_accepted : ℤ → Calls → Calls → Calls
spec_accepted max log [] = []
spec_accepted max log ((now, key) ∷ calls) =
    let ok = ltℤ (pos (length (recent now (times key log)))) max in
    let yes_rest = (now, key) ∷ spec_accepted max (log ++ (now, key) ∷ []) calls in
    let no_rest = spec_accepted max log calls in if ok then yes_rest else no_rest

-- The clock is steady: no call is earlier than one before it.
abbrev pub Steady : ℕ → Calls → Type 0
Steady last [] = Unit {0}
Steady last ((now, key) ∷ calls) = (last ≤ now) × Steady now calls

times-append :
    (key : Text) (log more : Calls) → times key (log ++ more) ≡ times key log ++ times key more
times-append key [] more = refl
times-append key ((t, k) ∷ log) more = ground (arith, times-append key log more)

-- The buckets show what the log shows, from the last call on.
record Tracks (s : RateLimiter) (log : Calls) (last : ℕ) : Type 0 where
  same :
      (key : Text) (later : ℕ)
      → last ≤ later
      → recent later (bucket s key) ≡ recent later (times key log)
  ascending : (key : Text) → Ascending (bucket s key)
  below : (key : Text) → All (λ t. t ≤ last) (bucket s key)

bucket-collect :
    (s : RateLimiter) (now : ℕ) (key : Text)
    → (bucket (collect s now) key ≡ bucket s key)
      ⊎ ((is_stale now (bucket s key) ≡ true) × (bucket (collect s now) key ≡ []))
unfolding collect
bucket-collect s now key = ground (arith, find-retain (λ ts. not (is_stale now ts)) s.requests key)

max-collect : (s : RateLimiter) (now : ℕ) → (collect s now).max_rpm ≡ s.max_rpm
unfolding collect
max-collect s now = ground arith

collect-Tracks :
    (s : RateLimiter) (log : Calls) (now : ℕ) → Tracks s log now → Tracks (collect s now) log now
collect-Tracks s log now v = record {
  same = λ key later h. elim (bucket-collect s now key) [
    | inl e ↦ rw e (v.same key later h)
    | inr (st, e) ↦
        rw e (sym (recent-is_stale now later _ (v.ascending key) h st) ∙ v.same key later h)
  ];
  ascending = λ key. elim (bucket-collect s now key) [
    | inl e ↦ rw e (v.ascending key)
    | inr (st, e) ↦ rw e tt
  ];
  below =
      λ key. elim (bucket-collect s now key) [ inl e ↦ rw e (v.below key) | inr (st, e) ↦ rw e tt ];
}

bucket-set :
    (s : RateLimiter) (key j : Text) (ts : List ℕ)
    → bucket (record s { requests = Map.set s.requests key ts }) j
      ≡ (if text_eq key j then ts else bucket s j)
bucket-set s key j ts = ground (arith, find-set s.requests key j ts)

write-Tracks :
    (s : RateLimiter) (log log' : Calls) (last now : ℕ) (key : Text) (ts : List ℕ)
    → Tracks s log last
    → last ≤ now
    → ((later : ℕ) → now ≤ later → recent later ts ≡ recent later (times key log'))
    → ((j : Text) → text_eq key j ≡ false → times j log' ≡ times j log)
    → Ascending ts
    → All (λ t. t ≤ now) ts
    → Tracks (record s { requests = Map.set s.requests key ts }) log' now
write-Tracks s log log' last now key ts v le shown others asc bel = record {
  same = λ j later h. elim (Bool-cases (text_eq key j)) [
    | inl e ↦ rw (bucket-set, e, ← text_eq→eq key j e) (shown later h)
    | inr e ↦ rw (bucket-set, e, others j e) (v.same j later (omega arith))
  ];
  ascending = λ j. elim (Bool-cases (text_eq key j)) [
    | inl e ↦ rw (bucket-set, e) asc
    | inr e ↦ rw (bucket-set, e) (v.ascending j)
  ];
  below = λ j. elim (Bool-cases (text_eq key j)) [
    | inl e ↦ rw (bucket-set, e) bel
    | inr e ↦ rw (bucket-set, e) (All-le_trans _ last now le (v.below j))
  ];
}

pub times-append_self :
    (key : Text) (log : Calls) (now : ℕ)
    → times key (log ++ (now, key) ∷ []) ≡ times key log ++ now ∷ []
times-append_self key log now = rw (times-append, text_eq_refl key)

pub times-append_ne :
    (key j : Text) (log : Calls) (now : ℕ)
    → text_eq key j ≡ false
    → times j (log ++ (now, key) ∷ []) ≡ times j log
times-append_ne key j log now e = rw (times-append, e, append-nil)

module _ (s : RateLimiter) (log : Calls) (last now : ℕ) (key : Text) (v : Tracks s log last)
    (le : last ≤ now) where
  cut_below : All (λ t. t ≤ now) (recent now (bucket s key))
  cut_below = All-select _ _ _ (All-le_trans _ last now le (v.below key))

  cut_same :
      (later : ℕ)
      → now ≤ later
      → recent later (recent now (bucket s key)) ≡ recent later (times key log)
  cut_same later h = recent-recent now later (bucket s key) h ∙ v.same key later (omega arith)

  accept-Tracks :
      Tracks
        (record s { requests = Map.set s.requests key (recent now (bucket s key) ++ now ∷ []) })
        (log ++ (now, key) ∷ [])
        now
  accept-Tracks =
      write-Tracks s log _ last now key _ v le
        (λ later h.
          rw (times-append_self, select-append, select-append _ (times key log), cut_same later h))
        (λ j e. times-append_ne key j log now e)
        (append-Ascending _ now (select-Ascending _ _ (v.ascending key)) cut_below)
        (All-append _ _ (now ∷ []) cut_below (omega arith, tt))

  reject-Tracks :
      Tracks (record s { requests = Map.set s.requests key (recent now (bucket s key)) }) log now
  reject-Tracks =
      write-Tracks s log log last now key _ v le cut_same (λ j e. refl)
        (select-Ascending _ _ (v.ascending key)) cut_below

-- From states that track the log, the limiter and the specification accept the same calls.
accepted-Tracks :
    (calls : Calls) (s : RateLimiter) (log : Calls) (last : ℕ)
    → Tracks s log last
    → Steady last calls
    → accepted s calls ≡ spec_accepted s.max_rpm log calls
unfolding accepted spec_accepted allow
accepted-Tracks [] s log last v st = refl
accepted-Tracks ((now, key) ∷ calls) s log last v st =
    rw (← v.same key now st.0)
      (elim (Bool-cases (ltℤ (pos (length (recent now (bucket s key)))) s.max_rpm)) [
        | inl e ↦ rw e (
            ap (λ rest. (now, key) ∷ rest)
              (accepted-Tracks calls _ (log ++ (now, key) ∷ []) now
                  (collect-Tracks _ _ now (accept-Tracks s log last now key v st.0)) st.1
                ∙ ap (λ m. spec_accepted m (log ++ (now, key) ∷ []) calls) (max-collect _ now)))
        | inr e ↦ rw e (
            accepted-Tracks calls _ log now
              (collect-Tracks _ _ now (reject-Tracks s log last now key v st.0)) st.1
            ∙ ap (λ m. spec_accepted m log calls) (max-collect _ now))
      ])

-- The decisions of the limiter are those of the specification.
pub accepted-eq-spec_accepted :
    (max : ℤ) (start : ℕ) (calls : Calls)
    → Steady start calls
    → accepted (new max start) calls ≡ spec_accepted max [] calls
unfolding new
accepted-eq-spec_accepted max start calls st =
    accepted-Tracks calls (new max start) [] start
      (record {
        same = λ key later h. ground (arith, find-empty {V = List ℕ} key);
        ascending = λ key. ground (arith, find-empty {V = List ℕ} key);
        below = λ key. ground (arith, find-empty {V = List ℕ} key);
      })
      st
