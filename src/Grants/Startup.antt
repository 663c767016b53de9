-- ===== src/Grants/Startup.antt =====
-- After the reconciliation at the start, the entries and the drop-ins agree.
use server_mcp_bridge.Base.{
  ℕ, suc, ◌≡◌, refl, sym, ap, ◌∙◌, inl, inr, Bool, true, false, not, ◌&&◌, ◌||◌, Option, none, some,
  List, [], ◌∷◌, ◌++◌, arith, Text, codes, text_eq, text_eq_iff, text_eq-append, is_among, pos,
  ◌==◌, length, append-take-drop, take, drop, and_true, if◌then◌else◌, Bool-cases, Option-cases,
  ◌⊎◌,
}
use server_mcp_bridge.Json.{Json}
use server_mcp_bridge.Map
use server_mcp_bridge.Map.{Map, keys_where, passes, keys_where-to_list}
use server_mcp_bridge.Grants.{
  Grant, valid_grantid, WriteEnd, Spawn, PrivHelper, GrantManager, is_expired, on_disk_grants,
  orphans, stale_ids, dropped_ids, erase_all,
}
use server_mcp_bridge.Grants.Operations.{
  run_spawn, persist_state_locked, revoke_on_disk, reconcile_at_startup,
}
use server_mcp_bridge.Grants.Tables.{persist-KeepsTable, Unchanged, HasDropIn, spawn-RevokeEnds}
use server_mcp_bridge.Grants.Sweeps.{AllSucceed}

abbrev pub is_there {ℓ} : {A : Type ℓ} → Option A → Bool
is_there none = false
is_there (some a) = true

-- The file name of a drop-in.
abbrev pub file_of : (grantid : Text) → Text
file_of grantid = codes "mcp_grant_" ++ grantid

-- A name counts if it is that of a drop-in of an identifier of 16 characters.
name_lem :
    (n j : Text)
    → (text_eq (take 10 n) (codes "mcp_grant_") && (length n == 26)) ≡ true
    → text_eq n (file_of j) ≡ text_eq (drop 10 n) j
name_lem n j h =
    let prefix : take 10 n ≡ codes "mcp_grant_" =
      (text_eq_iff _ _).0 (and_true (text_eq (take 10 n) (codes "mcp_grant_")) _ h).0 in
    let whole : n ≡ codes "mcp_grant_" ++ drop 10 n =
      sym (append-take-drop 10 n) ∙ ap (λ t. t ++ drop 10 n) prefix in
    ap (λ t. text_eq t (file_of j)) whole ∙ text_eq-append (codes "mcp_grant_") (drop 10 n) j

other_lem :
    (n j : Text)
    → (text_eq (take 10 n) (codes "mcp_grant_") && (length n == 26)) ≡ false
    → length j ≡ 16
    → text_eq n (file_of j) ≡ false
unfolding text_eq
other_lem n j h size = elim (Bool-cases (text_eq n (file_of j))) [
  | inr e ↦ e
  | inl e ↦
      let same : n ≡ file_of j = (text_eq_iff n (file_of j)).0 e in
      absurd (ground (arith, rw same at h, size))
]

pub on_disk_grants-is_among :
    (names : List Text) (j : Text)
    → length j ≡ 16
    → is_among j (on_disk_grants names) ≡ is_among (file_of j) names
unfolding on_disk_grants is_among
on_disk_grants-is_among [] j size = refl
on_disk_grants-is_among (n ∷ names) j size =
    elim (Bool-cases (text_eq (take 10 n) (codes "mcp_grant_") && (length n == 26))) [
      | inl e ↦ rw e (rw (name_lem n j e, on_disk_grants-is_among names j size) refl)
      | inr e ↦ rw (e, other_lem n j e size) (on_disk_grants-is_among names j size)
    ]

-- The test of the entries that the first loop erases, and of those that it erases from the disk.
abbrev is_dropped : (now : ℕ) (on_disk : List Text) → Text → Grant → Bool
is_dropped now on_disk id g = is_expired now g || not (is_among id on_disk)

abbrev is_stale_entry : (now : ℕ) (on_disk : List Text) → Text → Grant → Bool
is_stale_entry now on_disk id g = is_expired now g && is_among id on_disk

dropped_ids-keys :
    (now : ℕ) (on_disk : List Text) (pairs : List (Text × Grant))
    → dropped_ids now on_disk pairs ≡ keys_where (is_dropped now on_disk) pairs
unfolding dropped_ids keys_where
dropped_ids-keys now on_disk [] = refl
dropped_ids-keys now on_disk ((id, g) ∷ pairs) = rw (dropped_ids-keys now on_disk pairs) refl

stale_ids-keys :
    (now : ℕ) (on_disk : List Text) (pairs : List (Text × Grant))
    → stale_ids now on_disk pairs ≡ keys_where (is_stale_entry now on_disk) pairs
unfolding stale_ids keys_where
stale_ids-keys now on_disk [] = refl
stale_ids-keys now on_disk ((id, g) ∷ pairs) = rw (stale_ids-keys now on_disk pairs) refl

erase_all-find :
    (ids : List Text) (m : Map Grant) (j : Text)
    → Map.find (erase_all ids m) j ≡ (if is_among j ids then none else Map.find m j)
unfolding erase_all is_among
erase_all-find [] m j = refl
erase_all-find (id ∷ ids) m j =
    erase_all-find ids (Map.erase m id) j ∙ rw Map.find-erase (ground arith)

is_among-append :
    (j : Text) (xs ys : List Text) → is_among j (xs ++ ys) ≡ (is_among j xs || is_among j ys)
unfolding is_among
is_among-append j [] ys = refl
is_among-append j (x ∷ xs) ys = ground (arith, is_among-append j xs ys)

orphans-is_among :
    (m : Map Grant) (ids : List Text) (j : Text)
    → is_among j (orphans m ids) ≡ (is_among j ids && not (is_there (Map.find m j)))
unfolding orphans is_among
orphans-is_among m [] j = refl
orphans-is_among m (id ∷ ids) j = elim (Bool-cases (text_eq id j)) [
  | inl f ↦
      let same : id ≡ j = (text_eq_iff id j).0 f in
      elim (Option-cases (Map.find m id)) [
        | inl e ↦ rw (e, orphans, f, rw same at e) refl
        | inr (g, e) ↦
            rw (e, orphans, f, rw same at e)
              (orphans-is_among m ids j ∙ rw (rw same at e) (ground arith))
      ]
  | inr f ↦ elim (Option-cases (Map.find m id)) [
    | inl e ↦ rw (e, orphans, f) (orphans-is_among m ids j)
    | inr (g, e) ↦ rw (e, orphans, f) (orphans-is_among m ids j)
  ]
]

-- An entry that stays: it has not expired, and it is on disk.
abbrev pub live : (now : ℕ) (on_disk : Bool) → Option Grant → Option Grant
live now on_disk none = none
live now on_disk (some g) = if is_expired now g || not on_disk then none else some g

live_lem :
    (now : ℕ) (on_disk : List Text) (j : Text) (found : Option Grant)
    → (if passes (is_dropped now on_disk) j found then none else found)
      ≡ live now (is_among j on_disk) found
live_lem now on_disk j none = refl
live_lem now on_disk j (some g) = refl

-- The entry stays exactly if its drop-in does.
agree_lem :
    (now : ℕ) (on_disk : List Text) (j : Text) (found : Option Grant) (drop : Option Text)
    → is_among j on_disk ≡ is_there drop
    → is_there (
        if passes (is_stale_entry now on_disk) j found
          || (is_among j on_disk && not (is_there (live now (is_among j on_disk) found)))
        then none
        else drop)
      ≡ is_there (live now (is_among j on_disk) found)
agree_lem now on_disk j none none e = ground arith
agree_lem now on_disk j none (some t) e = ground arith
agree_lem now on_disk j (some g) none e = ground arith
agree_lem now on_disk j (some g) (some t) e = ground arith

abbrev kept_of : (now : ℕ) (on_disk : List Text) → Map Grant → Map Grant
kept_of now on_disk grants = erase_all (dropped_ids now on_disk (Map.to_list grants)) grants

kept_find :
    (now : ℕ) (on_disk : List Text) (grants : Map Grant) (j : Text)
    → Map.find (kept_of now on_disk grants) j ≡ live now (is_among j on_disk) (Map.find grants j)
kept_find now on_disk grants j =
    let dropped = dropped_ids now on_disk (Map.to_list grants) in
    let among : is_among j dropped ≡ passes (is_dropped now on_disk) j (Map.find grants j) =
      ap (is_among j) (dropped_ids-keys now on_disk (Map.to_list grants))
      ∙ keys_where-to_list (is_dropped now on_disk) grants j in
    erase_all-find dropped grants j ∙ rw among (live_lem now on_disk j (Map.find grants j))

-- What is revoked at the end.
revoked_among :
    (now : ℕ) (on_disk : List Text) (grants : Map Grant) (j : Text)
    → is_among j
        (stale_ids now on_disk (Map.to_list grants) ++ orphans (kept_of now on_disk grants) on_disk)
      ≡ (passes (is_stale_entry now on_disk) j (Map.find grants j)
          || (is_among j on_disk
              && not (is_there (live now (is_among j on_disk) (Map.find grants j)))))
revoked_among now on_disk grants j =
    let stale : is_among j (stale_ids now on_disk (Map.to_list grants))
        ≡ passes (is_stale_entry now on_disk) j (Map.find grants j) =
      ap (is_among j) (stale_ids-keys now on_disk (Map.to_list grants))
      ∙ keys_where-to_list (is_stale_entry now on_disk) grants j in
    is_among-append j (stale_ids now on_disk (Map.to_list grants)) _
    ∙ rw
        (
          stale,
          orphans-is_among (kept_of now on_disk grants) on_disk j,
          kept_find now on_disk grants j,
        )
        refl

stays_lem :
    (now : ℕ) (on_disk : List Text) (j : Text) (found : Option Grant) (g : Grant)
    → live now (is_among j on_disk) found ≡ some g
    → (passes (is_stale_entry now on_disk) j found
        || (is_among j on_disk && not (is_there (live now (is_among j on_disk) found))))
      ≡ false
stays_lem now on_disk j none g h = absurd (ground (arith, h))
stays_lem now on_disk j (some k) g h = elim (Bool-cases (is_expired now k)) [
  | inl e ↦ absurd (ground (arith, rw e at h))
  | inr e ↦ elim (Bool-cases (is_among j on_disk)) [
    | inl f ↦ rw (e, f) refl
    | inr f ↦ absurd (ground (arith, rw (e, f) at h))
  ]
]

module _ {W Call : Type 0} (dump : Json → Option Text) (h : PrivHelper W Call) where
  -- Of a run that fails, the other drop-ins are as they were.
  untouched :
      (id : Text) (w v : W) (j : Text)
      → Unchanged h w v ⊎ HasDropIn h id none w v
      → text_eq id j ≡ false
      → h.drop_in v j ≡ h.drop_in w j
  untouched id w v j (inl same) e = same j
  untouched id w v j (inr files) e = files j ∙ rw e refl

  one_drop_in :
      (spawn : Spawn Call) (id : Text) (w : W) (j : Text)
      → (valid_grantid id ≡ true
          → (run_spawn spawn (λ k. h.revoke_grant k id) (λ k n. h.killed_revoke k n id) w).0
            ≡ pos 0)
      → valid_grantid j ≡ true
      → h.drop_in (run_spawn spawn (λ k. h.revoke_grant k id) (λ k n. h.killed_revoke k n id) w).1 j
        ≡ (if text_eq id j then none else h.drop_in w j)
  one_drop_in spawn id w j ok valid = elim (spawn-RevokeEnds h spawn id w) [
    | inl (code, files) ↦ files j
    | inr (code, files) ↦ elim (Bool-cases (text_eq id j)) [
      | inr e ↦ rw e (untouched id w _ j files e)
      | inl e ↦ let same : id ≡ j = (text_eq_iff id j).0 e in absurd (code (ok (rw same valid)))
    ]
  ]

  revoke_on_disk-drop_in :
      (calls : ℕ → Spawn Call) (i : ℕ) (ids : List Text) (w : W) (j : Text)
      → valid_grantid j ≡ true
      → AllSucceed dump h calls
      → h.drop_in (revoke_on_disk dump h calls i ids w) j
        ≡ (if is_among j ids then none else h.drop_in w j)
  unfolding revoke_on_disk is_among
  revoke_on_disk-drop_in calls i [] w j valid ok = refl
  revoke_on_disk-drop_in calls i (id ∷ ids) w j valid ok =
      revoke_on_disk-drop_in calls (suc i) ids _ j valid ok
      ∙ rw (one_drop_in (calls i) id w j (λ v. ok i id w v) valid) (ground arith)

  -- After reconcile_at_startup an identifier of 16 characters has an entry exactly if it had one
  -- that has not expired and whose drop-in is on disk, whatever the helper answers.
  pub reconcile_at_startup-find :
      (calls : ℕ → Spawn Call) (ending : WriteEnd) (now : ℕ) (names : List Text)
      (s : GrantManager W) (j : Text)
      → Map.find (reconcile_at_startup dump h calls ending now names s).grants j
        ≡ live now (is_among j (on_disk_grants names)) (Map.find s.grants j)
  unfolding reconcile_at_startup
  reconcile_at_startup-find calls ending now names s j =
      let on_disk = on_disk_grants names in
      ap (λ m. Map.find m j)
        (persist-KeepsTable dump ending (record s { grants = kept_of now on_disk s.grants })).grants
      ∙ kept_find now on_disk s.grants j

  -- If the names are those of the directory and every run of the helper exits with 0, then after
  -- reconcile_at_startup a valid identifier has a drop-in exactly if it has an entry.
  pub reconcile_at_startup-agrees :
      (calls : ℕ → Spawn Call) (ending : WriteEnd) (now : ℕ) (names : List Text)
      (s : GrantManager W) (j : Text)
      → valid_grantid j ≡ true
      → is_among (file_of j) names ≡ is_there (h.drop_in s.outside j)
      → AllSucceed dump h calls
      → is_there (h.drop_in (reconcile_at_startup dump h calls ending now names s).outside j)
        ≡ is_there (Map.find (reconcile_at_startup dump h calls ending now names s).grants j)
  unfolding reconcile_at_startup
  reconcile_at_startup-agrees calls ending now names s j valid listed ok =
      let on_disk = on_disk_grants names in
      let ids : List Text =
        stale_ids now on_disk (Map.to_list s.grants)
        ++ orphans (kept_of now on_disk s.grants) on_disk in
      let kept : GrantManager W = record s { grants = kept_of now on_disk s.grants } in
      let saved = persist-KeepsTable dump ending kept in
      let size : length j ≡ 16 = ground (arith, valid) in
      let on : is_among j on_disk ≡ is_there (h.drop_in s.outside j) =
        on_disk_grants-is_among names j size ∙ listed in
      ap is_there (
        revoke_on_disk-drop_in calls 0 ids (persist_state_locked dump ending kept).1.outside j valid
          ok)
      ∙ rw
          (
            saved.outside,
            revoked_among now on_disk s.grants j,
            reconcile_at_startup-find calls ending now names s j,
          )
          (agree_lem now on_disk j (Map.find s.grants j) (h.drop_in s.outside j) on)

  -- A run of the helper leaves the other drop-ins alone.
  one_other :
      (spawn : Spawn Call) (id : Text) (w : W) (j : Text)
      → text_eq id j ≡ false
      → h.drop_in (run_spawn spawn (λ k. h.revoke_grant k id) (λ k n. h.killed_revoke k n id) w).1 j
        ≡ h.drop_in w j
  one_other spawn id w j other = elim (spawn-RevokeEnds h spawn id w) [
    | inl (code, files) ↦ files j ∙ rw other refl
    | inr (code, files) ↦ untouched id w _ j files other
  ]

  revoke_on_disk-other :
      (calls : ℕ → Spawn Call) (i : ℕ) (ids : List Text) (w : W) (j : Text)
      → is_among j ids ≡ false
      → h.drop_in (revoke_on_disk dump h calls i ids w) j ≡ h.drop_in w j
  unfolding revoke_on_disk is_among
  revoke_on_disk-other calls i [] w j out = refl
  revoke_on_disk-other calls i (id ∷ ids) w j out =
      revoke_on_disk-other calls (suc i) ids _ j (ground (arith, out))
      ∙ one_other (calls i) id w j (ground (arith, out))

  -- The drop-in of an entry that stays is not touched, whatever the helper answers.
  pub reconcile_at_startup-kept :
      (calls : ℕ → Spawn Call) (ending : WriteEnd) (now : ℕ) (names : List Text)
      (s : GrantManager W) (j : Text) (g : Grant)
      → live now (is_among j (on_disk_grants names)) (Map.find s.grants j) ≡ some g
      → h.drop_in (reconcile_at_startup dump h calls ending now names s).outside j
        ≡ h.drop_in s.outside j
  unfolding reconcile_at_startup
  reconcile_at_startup-kept calls ending now names s j g stays =
      let on_disk = on_disk_grants names in
      let ids : List Text =
        stale_ids now on_disk (Map.to_list s.grants)
        ++ orphans (kept_of now on_disk s.grants) on_disk in
      let kept : GrantManager W = record s { grants = kept_of now on_disk s.grants } in
      let saved = persist-KeepsTable dump ending kept in
      revoke_on_disk-other calls 0 ids (persist_state_locked dump ending kept).1.outside j (
        revoked_among now on_disk s.grants j
        ∙ stays_lem now on_disk j (Map.find s.grants j) g stays)
      ∙ ap (λ w. h.drop_in w j) saved.outside
