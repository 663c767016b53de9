-- ===== src/Session/Binding.antt =====
-- Whose session it is, over whole histories of calls.
use mathlib.Core.Path.{subst}
use server_mcp_bridge.Base.{
  ℕ, ◌≡◌, sym, ◌∙◌, inl, inr, not, Option, none, some, List, [], ◌∷◌, arith, Text, text_eq,
  text_eq_iff, text_eq→eq, Bool-cases, Option-cases, if◌then◌else◌,
}
use server_mcp_bridge.Map
use server_mcp_bridge.Map.{find-empty, find-set, find-erase, find-retain}
use server_mcp_bridge.Session.{
  Session, SessionStore, new, idled_out, gc_locked, issue, validate, invalidate,
}
use server_mcp_bridge.Session.Branches.{validate_iff, find-validate_ne, find-validate_self}

-- A call of a method, with the time at which it runs.
pub data Call : Type 0 where
  issues : (now : ℕ) (uuid bearer_hash user_id : Text) → Call
  validates : (now : ℕ) (session_id bearer_hash : Text) → Call
  invalidates : (session_id : Text) → Call

unfoldable pub after : SessionStore → Call → SessionStore
after st (issues now uuid bearer_hash user_id) = (issue st now uuid bearer_hash user_id).1
after st (validates now id bearer_hash) = (validate st now id bearer_hash).1
after st (invalidates id) = invalidate st id

unfoldable pub run : SessionStore → List Call → SessionStore
unfolding after
run st [] = st
run st (c ∷ cs) = run (after st c) cs

-- The bearer hash and the user that an identifier stands for.
pub record Owner : Type 0 where
  pub bearer_hash : Text
  pub user_id : Text

abbrev pub Owners : Type 0
Owners = Text → Option Owner

abbrev pub nobody : Owners
nobody id = none

-- The specification: an identifier belongs to whom it was last issued, until it is invalidated.
unfoldable pub record_call : Owners → Call → Owners
record_call o (issues now uuid bearer user) id =
    if text_eq uuid id then some (record { bearer_hash = bearer; user_id = user }) else o id
record_call o (validates now _ _) id = o id
record_call o (invalidates gone) id = if text_eq gone id then none else o id

unfoldable pub owners : Owners → List Call → Owners
owners o [] = o
owners o (c ∷ cs) = owners (record_call o c) cs

abbrev pub owner_of : Session → Owner
owner_of s = record { bearer_hash = s.bearer_hash; user_id = s.user_id }

-- Every stored session carries its own identifier and its owner.
abbrev pub Bound : Owners → SessionStore → Type 0
Bound o st =
    (id : Text) (s : Session)
    → Map.find st.sessions id ≡ some s
    → (s.id ≡ id) × (o id ≡ some (owner_of s))

gc-Bound : (o : Owners) (st : SessionStore) (now : ℕ) → Bound o st → Bound o (gc_locked st now)
unfolding gc_locked
gc-Bound o st now b id s e =
    ground (arith, b id s, find-retain (λ s. not (idled_out st.idle_ttl now s)) st.sessions id)

issue-Bound :
    (o : Owners) (st : SessionStore) (now : ℕ) (uuid bearer user : Text)
    → Bound o st
    → Bound (record_call o (issues now uuid bearer user)) (issue st now uuid bearer user).1
unfolding issue record_call
issue-Bound o st now uuid bearer user b id s e = ground (
  arith,
  gc-Bound o st now b id s,
  find-set (gc_locked st now).sessions uuid id (issue st now uuid bearer user).0,
  text_eq_iff uuid id,
)

validate_self-Bound :
    (o : Owners) (st : SessionStore) (now : ℕ) (id bearer : Text) (s : Session)
    → Bound o st
    → Map.find (validate st now id bearer).1.sessions id ≡ some s
    → (s.id ≡ id) × (o id ≡ some (owner_of s))
validate_self-Bound o st now id bearer s b e = elim (Option-cases (Map.find st.sessions id)) [
  | inl missing ↦ ground (arith, find-validate_self st now id bearer)
  | inr (t, found) ↦ ground (arith, find-validate_self st now id bearer, b id t found)
]

validate-Bound :
    (o : Owners) (st : SessionStore) (now : ℕ) (sid bearer : Text)
    → Bound o st
    → Bound o (validate st now sid bearer).1
validate-Bound o st now sid bearer b id s e = elim (Bool-cases (text_eq sid id)) [
  | inl same ↦ validate_self-Bound o st now id bearer s b (
      subst (λ k. Map.find (validate st now k bearer).1.sessions id ≡ some s)
        (text_eq→eq sid id same) e)
  | inr differ ↦
      b id s (
        sym (find-validate_ne st now sid bearer id (λ q. cc (differ, (text_eq_iff sid id).1 q)))
        ∙ e)
]

invalidate-Bound :
    (o : Owners) (st : SessionStore) (gone : Text)
    → Bound o st
    → Bound (record_call o (invalidates gone)) (invalidate st gone)
unfolding invalidate record_call
invalidate-Bound o st gone b id s e = ground (arith, b id s, find-erase st.sessions gone id)

after-Bound :
    (o : Owners) (st : SessionStore) (c : Call) → Bound o st → Bound (record_call o c) (after st c)
unfolding after
after-Bound o st (issues now uuid bearer user) b = issue-Bound o st now uuid bearer user b
after-Bound o st (validates now id bearer) b =
    unfold record_call in validate-Bound o st now id bearer b
after-Bound o st (invalidates id) b = invalidate-Bound o st id b

run-Bound :
    (cs : List Call) (o : Owners) (st : SessionStore) → Bound o st → Bound (owners o cs) (run st cs)
unfolding run owners
run-Bound [] o st b = b
run-Bound (c ∷ cs) o st b = run-Bound cs (record_call o c) (after st c) (after-Bound o st c b)

new-Bound : (ttl start : ℕ) → Bound nobody (new ttl start)
unfolding new
new-Bound ttl start id s e = cc (e, find-empty {V = Session} id)

-- After any history, a session that `validate` returns carries the identifier asked for, and the
-- bearer hash supplied and its user are those to which the identifier was last issued, with no
-- `invalidate` since.
pub validate-owner :
    (ttl start : ℕ) (cs : List Call) (now : ℕ) (id bearer : Text) (r : Session)
    → (validate (run (new ttl start) cs) now id bearer).0 ≡ some r
    → (r.id ≡ id)
      × (owners nobody cs id ≡ some (record { bearer_hash = bearer; user_id = r.user_id }))
validate-owner ttl start cs now id bearer r h =
    let v = (validate_iff _ now id bearer r).0 h in
    let b = run-Bound cs nobody (new ttl start) (new-Bound ttl start) id v.stored v.found in
    ground (arith, v.same_bearer, v.returned, b)
