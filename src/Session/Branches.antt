-- ===== src/Session/Branches.antt =====
-- What `validate` and the collection do, branch by branch.
use server_mcp_bridge.Base.{
  ℕ, ◌+◌, ◌≤◌, ◌≡◌, refl, ◌≢◌, ◌↔◌, inl, inr, not, Option, none, some, arith, Text, text_eq,
  text_eq_iff, text_eq_refl, Option-cases, if◌then◌else◌,
}
use server_mcp_bridge.Crypto.{constant_time_equal}
use server_mcp_bridge.Crypto.Compare.{constant_time_equal-eq-text_eq}
use server_mcp_bridge.Map
use server_mcp_bridge.Map.{find-set, find-erase, find-retain}
use server_mcp_bridge.Session.{Session, SessionStore, idled_out, gc_locked, validate}

-- The session that a successful `validate` returns: the stored one, seen now.
abbrev pub seen_at : ℕ → Session → Session
seen_at now s = record s { last_seen = now }

-- Why `validate` may return a session.
pub record Accepts (st : SessionStore) (now : ℕ) (id bearer : Text) (r : Session) : Type 0 where
  pub stored : Session
  pub found : Map.find st.sessions id ≡ some stored
  pub not_idle : now ≤ stored.last_seen + st.idle_ttl
  pub same_bearer : stored.bearer_hash ≡ bearer
  pub returned : r ≡ seen_at now stored

module _ (st : SessionStore) (now : ℕ) (id bearer : Text) where
  Accepts-if_found :
      (s r : Session)
      → Map.find st.sessions id ≡ some s
      → (validate st now id bearer).0 ≡ some r
      → Accepts st now id bearer r
  unfolding validate
  Accepts-if_found s r e h = record {
    stored = s;
    found = e;
    not_idle = ground arith;
    same_bearer = ground (
      arith,
      constant_time_equal-eq-text_eq s.bearer_hash bearer,
      text_eq_iff s.bearer_hash bearer,
    );
    returned = ground arith;
  }

  none_if_missing : Map.find st.sessions id ≡ none → (validate st now id bearer).0 ≡ none
  unfolding validate
  none_if_missing e = ground arith

  some_if_Accepts :
      (r : Session) → Accepts st now id bearer r → (validate st now id bearer).0 ≡ some r
  unfolding validate
  some_if_Accepts r v = ground (
    arith,
    constant_time_equal-eq-text_eq v.stored.bearer_hash bearer,
    text_eq_iff v.stored.bearer_hash bearer,
  )

  -- `validate` returns a session exactly when the store has one under the identifier, it has not
  -- been idle for longer than the limit, and it is bound to the bearer hash supplied. It then
  -- returns the stored session with `last_seen` set to now.
  pub validate_iff :
      (r : Session) → ((validate st now id bearer).0 ≡ some r) ↔ Accepts st now id bearer r
  validate_iff r = (forth, some_if_Accepts r)
    where
      forth : (validate st now id bearer).0 ≡ some r → Accepts st now id bearer r
      forth h = elim (Option-cases (Map.find st.sessions id)) [
        | inl e ↦ cc (none_if_missing e, h)
        | inr (s, e) ↦ Accepts-if_found s r e h
      ]

  -- Whatever `validate` answers, the sessions under other identifiers stay as they are.
  pub find-validate_ne :
      (j : Text)
      → id ≢ j
      → Map.find (validate st now id bearer).1.sessions j ≡ Map.find st.sessions j
  unfolding validate
  find-validate_ne j ne = elim (Option-cases (Map.find st.sessions id)) [
    | inl e ↦ rw (e, validate)
    | inr (s, e) ↦
        rw (e, validate)
          (ground (
            arith,
            find-erase st.sessions id j,
            find-set st.sessions id j (seen_at now s),
            text_eq_iff id j,
          ))
  ]

  -- Under its own identifier it leaves what it returned, nothing if the session had idled out, and
  -- the session untouched if the bearer differs.
  pub find-validate_self :
      Map.find (validate st now id bearer).1.sessions id ≡ (elim (Map.find st.sessions id) [
        | none ↦ none
        | some s ↦
            if idled_out st.idle_ttl now s
            then none
            else if text_eq s.bearer_hash bearer
            then some (seen_at now s)
            else some s
      ])
  unfolding validate
  find-validate_self = elim (Option-cases (Map.find st.sessions id)) [
    | inl e ↦ rw (e, validate) e
    | inr (s, e) ↦
        rw (e, validate)
          (ground (
            arith,
            e,
            constant_time_equal-eq-text_eq s.bearer_hash bearer,
            find-erase st.sessions id id,
            find-set st.sessions id id (seen_at now s),
            text_eq_refl id,
          ))
  ]

-- The answer of `validate` depends only on what is stored under the identifier.
answer_of : (ttl now : ℕ) (bearer : Text) → Option Session → Option Session
answer_of ttl now bearer none = none
answer_of ttl now bearer (some s) =
    if idled_out ttl now s
    then none
    else if not (constant_time_equal s.bearer_hash bearer)
    then none
    else some (seen_at now s)

answer_lem :
    (st : SessionStore) (now : ℕ) (id bearer : Text)
    → (validate st now id bearer).0 ≡ answer_of st.idle_ttl now bearer (Map.find st.sessions id)
unfolding validate answer_of
answer_lem st now id bearer = ground arith

answer_kept :
    (ttl now later : ℕ) (bearer : Text) (o : Option Session)
    → now ≤ later
    → answer_of ttl later bearer (Map.keep_if (λ s. not (idled_out ttl now s)) o)
      ≡ answer_of ttl later bearer o
unfolding answer_of
answer_kept ttl now later bearer none h = refl
answer_kept ttl now later bearer (some s) h = ground arith

-- The collection of idle sessions cannot be observed: from its time on, every `validate` answers
-- as it would have without it.
pub validate-gc_locked :
    (st : SessionStore) (now later : ℕ) (id bearer : Text)
    → now ≤ later
    → (validate (gc_locked st now) later id bearer).0 ≡ (validate st later id bearer).0
unfolding gc_locked
validate-gc_locked st now later id bearer h =
    rw (answer_lem, answer_lem st later id bearer)
      (ground (
        arith,
        find-retain (λ s. not (idled_out st.idle_ttl now s)) st.sessions id,
        answer_kept st.idle_ttl now later bearer (Map.find st.sessions id) h,
      ))
