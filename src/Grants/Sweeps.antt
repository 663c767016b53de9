-- ===== src/Grants/Sweeps.antt =====
-- What revoking and sweeping do to the table and to the drop-ins.
use server_mcp_bridge.Base.{
  ℕ, suc, ◌≡◌, refl, ap, ◌∙◌, ◌⊎◌, inl, inr, Bool, true, ◌&&◌, Option, none, some, List, [], ◌∷◌,
  arith, Text, text_eq, text_eq_iff, is_among, ℤ, pos, if◌then◌else◌, Bool-cases, Option-cases,
}
use server_mcp_bridge.Json.{Json}
use server_mcp_bridge.Map
use server_mcp_bridge.Map.{Map, keys_where, passes, keys_where-to_list}
use server_mcp_bridge.Grants.{
  Grant, valid_grantid, WriteEnd, Spawn, PrivHelper, GrantManager, RevokeCall, is_expired,
  expired_ids,
}
use server_mcp_bridge.Grants.Operations.{
  run_spawn, without, erased, revoke_grant, revoke_each, sweep_expired,
}
use server_mcp_bridge.Grants.Tables.{persist-KeepsTable, HasDropIn, RevokeEnds, spawn-RevokeEnds}

-- Every entry has a valid identifier, and stands under it.
abbrev pub IsFiled : Map Grant → Type 0
IsFiled grants =
    (id : Text) (g : Grant)
    → Map.find grants id ≡ some g
    → (g.grantid ≡ id) × (valid_grantid id ≡ true)

pub expired_ids-keys :
    (now : ℕ) (pairs : List (Text × Grant))
    → expired_ids now pairs ≡ keys_where (λ id g. is_expired now g) pairs
unfolding expired_ids keys_where
expired_ids-keys now [] = refl
expired_ids-keys now ((id, g) ∷ pairs) = rw (expired_ids-keys now pairs) refl

abbrev pub unexpired : (now : ℕ) → Option Grant → Option Grant
unexpired now none = none
unexpired now (some g) = if is_expired now g then none else some g

-- Whether an identifier has an expired entry.
abbrev pub has_expired : (now : ℕ) (id : Text) → Option Grant → Bool
has_expired now = passes (λ id g. is_expired now g)

module _ {W Call : Type 0} (dump : Json → Option Text) (h : PrivHelper W Call) where
  erased-find :
      (ending : WriteEnd) (grantid : Text) (s : GrantManager W) (j : Text)
      → Map.find (erased dump h ending grantid s).1.grants j
        ≡ (if text_eq grantid j then none else Map.find s.grants j)
  erased-find ending grantid s j = elim (Option-cases (Map.find s.grants grantid)) [
    | inl e ↦
        rw (e, erased)
          (elim (Bool-cases (text_eq grantid j)) [
            | inl f ↦ rw f (rw ((text_eq_iff grantid j).0 f) at e)
            | inr f ↦ rw f refl
          ])
    | inr (g, e) ↦
        rw (e, erased)
          (ap (λ m. Map.find m j) (persist-KeepsTable dump ending (without grantid s)).grants
            ∙ Map.find-erase s.grants grantid j)
  ]

  erased-outside :
      (ending : WriteEnd) (grantid : Text) (s : GrantManager W)
      → (erased dump h ending grantid s).1.outside ≡ s.outside
  erased-outside ending grantid s = elim (Option-cases (Map.find s.grants grantid)) [
    | inl e ↦ rw (e, erased) refl
    | inr (g, e) ↦ rw (e, erased) (persist-KeepsTable dump ending (without grantid s)).outside
  ]

  -- Revoking a valid identifier takes its entry out, whatever the helper and the file answer.
  pub revoke_grant-find :
      (c : RevokeCall Call) (grantid : Text) (s : GrantManager W) (j : Text)
      → Map.find (revoke_grant dump h c grantid s).1.grants j
        ≡ (if text_eq grantid j && valid_grantid grantid then none else Map.find s.grants j)
  unfolding revoke_grant
  revoke_grant-find c grantid s j = elim (Bool-cases (valid_grantid grantid)) [
    | inr e ↦ rw e (ground arith)
    | inl e ↦
        let w =
          (run_spawn c.spawn (λ k. h.revoke_grant k grantid) (λ k n. h.killed_revoke k n grantid)
            s.outside).1 in
        rw e (erased-find c.ending grantid (record s { outside = w }) j ∙ ground arith)
  ]

  gone_or :
      (grantid : Text) (w v : W) (j : Text)
      → HasDropIn h grantid none w v
      → (h.drop_in v j ≡ h.drop_in w j) ⊎ ((grantid ≡ j) × (h.drop_in v j ≡ none))
  gone_or grantid w v j files = elim (Bool-cases (text_eq grantid j)) [
    | inl e ↦ inr ((text_eq_iff grantid j).0 e, rw (files j, e) refl)
    | inr e ↦ inl (rw (files j, e) refl)
  ]

  revoked_or :
      (grantid : Text) (w : W) (r : ℤ × W) (j : Text)
      → RevokeEnds h grantid w r
      → (h.drop_in r.1 j ≡ h.drop_in w j) ⊎ ((grantid ≡ j) × (h.drop_in r.1 j ≡ none))
  revoked_or grantid w r j (inr (code, inl same)) = inl (same j)
  revoked_or grantid w r j (inr (code, inr files)) = gone_or grantid w r.1 j files
  revoked_or grantid w r j (inl (ok, files)) = gone_or grantid w r.1 j files

  -- A drop-in is as it was, or it is the one that is revoked, and gone.
  pub revoke_grant-drop_in :
      (c : RevokeCall Call) (grantid : Text) (s : GrantManager W) (j : Text)
      → (h.drop_in (revoke_grant dump h c grantid s).1.outside j ≡ h.drop_in s.outside j)
        ⊎ ((grantid ≡ j) × (h.drop_in (revoke_grant dump h c grantid s).1.outside j ≡ none))
  unfolding revoke_grant
  revoke_grant-drop_in c grantid s j = elim (Bool-cases (valid_grantid grantid)) [
    | inr e ↦ rw e (inl refl)
    | inl e ↦
        let r =
          run_spawn c.spawn (λ k. h.revoke_grant k grantid) (λ k n. h.killed_revoke k n grantid)
            s.outside in
        rw (e, erased-outside c.ending grantid (record s { outside = r.1 }))
          (revoked_or grantid s.outside r j (spawn-RevokeEnds h c.spawn grantid s.outside))
  ]

  -- If the helper exits with 0, the drop-in is gone and the others are as they were.
  pub revoke_grant-revoked :
      (c : RevokeCall Call) (grantid : Text) (s : GrantManager W) (j : Text)
      → (valid_grantid grantid ≡ true
          → (run_spawn c.spawn
              (λ k. h.revoke_grant k grantid)
              (λ k n. h.killed_revoke k n grantid)
              s.outside).0
            ≡ pos 0)
      → h.drop_in (revoke_grant dump h c grantid s).1.outside j
        ≡ (if text_eq grantid j && valid_grantid grantid then none else h.drop_in s.outside j)
  unfolding revoke_grant
  revoke_grant-revoked c grantid s j ok = elim (Bool-cases (valid_grantid grantid)) [
    | inr e ↦ rw e (ground arith)
    | inl e ↦
        let r =
          run_spawn c.spawn (λ k. h.revoke_grant k grantid) (λ k n. h.killed_revoke k n grantid)
            s.outside in
        elim (spawn-RevokeEnds h c.spawn grantid s.outside) [
          | inr (code, same) ↦ absurd (code (ok e))
          | inl (code, files) ↦
              rw (e, erased-outside c.ending grantid (record s { outside = r.1 }), files j)
                (ground arith)
        ]
  ]

  abbrev gone {ℓ} : {A : Type ℓ} → (ids : List Text) (j : Text) → Option A → Option A
  gone ids j found = if is_among j ids && valid_grantid j then none else found

  gone_next {ℓ} :
      {A : Type ℓ} (id : Text) (ids : List Text) (j : Text) (found : Option A)
      → gone ids j (if text_eq id j && valid_grantid id then none else found)
        ≡ gone (id ∷ ids) j found
  unfolding is_among
  gone_next id ids j found = elim (Bool-cases (text_eq id j)) [
    | inr e ↦ rw e refl
    | inl e ↦ let same : id ≡ j = (text_eq_iff id j).0 e in rw (e, same) (ground arith)
  ]

  revoke_each-find :
      (calls : ℕ → RevokeCall Call) (i : ℕ) (ids : List Text) (s : GrantManager W) (j : Text)
      → Map.find (revoke_each dump h calls i ids s).grants j ≡ gone ids j (Map.find s.grants j)
  unfolding revoke_each is_among
  revoke_each-find calls i [] s j = refl
  revoke_each-find calls i (id ∷ ids) s j =
      revoke_each-find calls (suc i) ids (revoke_grant dump h (calls i) id s).1 j
      ∙ ap (gone ids j) (revoke_grant-find (calls i) id s j)
      ∙ gone_next id ids j (Map.find s.grants j)

  -- Every run of the helper exits with 0.
  abbrev pub AllSucceed : (calls : ℕ → Spawn Call) → Type 0
  AllSucceed calls =
      (i : ℕ) (id : Text) (w : W)
      → valid_grantid id ≡ true
      → (run_spawn (calls i) (λ k. h.revoke_grant k id) (λ k n. h.killed_revoke k n id) w).0 ≡ pos 0

  revoke_each-revoked :
      (calls : ℕ → RevokeCall Call) (i : ℕ) (ids : List Text) (s : GrantManager W) (j : Text)
      → AllSucceed (λ k. (calls k).spawn)
      → h.drop_in (revoke_each dump h calls i ids s).outside j ≡ gone ids j (h.drop_in s.outside j)
  unfolding revoke_each is_among
  revoke_each-revoked calls i [] s j ok = refl
  revoke_each-revoked calls i (id ∷ ids) s j ok =
      revoke_each-revoked calls (suc i) ids (revoke_grant dump h (calls i) id s).1 j ok
      ∙ ap (gone ids j) (revoke_grant-revoked (calls i) id s j (λ valid. ok i id s.outside valid))
      ∙ gone_next id ids j (h.drop_in s.outside j)

  expired_among :
      (now : ℕ) (grants : Map Grant) (j : Text)
      → is_among j (expired_ids now (Map.to_list grants)) ≡ has_expired now j (Map.find grants j)
  expired_among now grants j =
      ap (is_among j) (expired_ids-keys now (Map.to_list grants))
      ∙ keys_where-to_list (λ id g. is_expired now g) grants j

  swept_lem :
      (now : ℕ) (j : Text) (found : Option Grant)
      → ((g : Grant) → found ≡ some g → valid_grantid j ≡ true)
      → (if has_expired now j found && valid_grantid j then none else found) ≡ unexpired now found
  swept_lem now j none h = ground arith
  swept_lem now j (some g) h = rw (h g refl) (ground arith)

  -- After a sweep the entries are exactly those that have not expired, whatever the helper answers
  -- and whether the file could be written.
  pub sweep_expired-find :
      (calls : ℕ → RevokeCall Call) (now : ℕ) (s : GrantManager W) (j : Text)
      → IsFiled s.grants
      → Map.find (sweep_expired dump h calls now s).grants j ≡ unexpired now (Map.find s.grants j)
  unfolding sweep_expired
  sweep_expired-find calls now s j filed =
      revoke_each-find calls 0 (expired_ids now (Map.to_list s.grants)) s j
      ∙ rw (expired_among now s.grants j)
          (swept_lem now j (Map.find s.grants j) (λ g found. (filed j g found).1))

  -- If the helper succeeds too, the drop-ins of the expired entries are gone, and no others.
  pub sweep_expired-drop_in :
      (calls : ℕ → RevokeCall Call) (now : ℕ) (s : GrantManager W) (j : Text)
      → IsFiled s.grants
      → AllSucceed (λ k. (calls k).spawn)
      → h.drop_in (sweep_expired dump h calls now s).outside j
        ≡ (if has_expired now j (Map.find s.grants j) then none else h.drop_in s.outside j)
  unfolding sweep_expired
  sweep_expired-drop_in calls now s j filed ok =
      revoke_each-revoked calls 0 (expired_ids now (Map.to_list s.grants)) s j ok
      ∙ rw (expired_among now s.grants j) (
          valid_lem now j (Map.find s.grants j) (h.drop_in s.outside j)
            (λ g found. (filed j g found).1))
    where
      valid_lem :
          (now : ℕ) (j : Text) (found : Option Grant) (drop : Option Text)
          → ((g : Grant) → found ≡ some g → valid_grantid j ≡ true)
          → (if has_expired now j found && valid_grantid j then none else drop)
            ≡ (if has_expired now j found then none else drop)
      valid_lem now j none drop h = refl
      valid_lem now j (some g) drop h = rw (h g refl) (ground arith)
