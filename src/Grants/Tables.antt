-- ===== src/Grants/Tables.antt =====
-- What the parts of an operation do to the table, to the drop-ins and to the file.
use server_mcp_bridge.Base.{
  ◌≡◌, ◌≢◌, refl, ◌⊎◌, inl, inr, Bool, false, Option, none, some, [], ◌∷◌, ◌++◌, arith, Text,
  text_eq, ℤ, pos, eqℤ, eqℤ_iff, if◌then◌else◌, Bool-cases, Option-cases, true,
}
use server_mcp_bridge.Json.{Json, arr}
use server_mcp_bridge.Map
use server_mcp_bridge.Map.{Map}
use server_mcp_bridge.Grants.{
  WriteEnd, written, failed, lost, Spawn, not_spawned, ran, killed, PrivHelper, GrantManager,
  RequestCall, grants_json,
}
use server_mcp_bridge.Grants.Operations.{
  write_file, run_spawn, was_killed, after_helper, persist_state_locked, install_grant_via_helper,
}

-- Only the file and the spec files differ.
pub record KeepsTable {W : Type 0} (s s' : GrantManager W) : Type 0 where
  pub grants : s'.grants ≡ s.grants
  pub outside : s'.outside ≡ s.outside

module _ {W : Type 0} (dump : Json → Option Text) where
  write_file-KeepsTable :
      (ending : WriteEnd) (text : Option Text) (s : GrantManager W)
      → KeepsTable s (write_file ending text s).1
  write_file-KeepsTable ending none s = record { grants = refl; outside = refl }
  write_file-KeepsTable written (some text) s = record { grants = refl; outside = refl }
  write_file-KeepsTable (failed what) (some text) s = record { grants = refl; outside = refl }
  write_file-KeepsTable (lost what) (some text) s = record { grants = refl; outside = refl }

  pub persist-KeepsTable :
      (ending : WriteEnd) (s : GrantManager W) → KeepsTable s (persist_state_locked dump ending s).1
  unfolding persist_state_locked
  persist-KeepsTable ending s = write_file-KeepsTable ending _ s

  -- The file holds what the JSON library prints for the table.
  pub record IsSaved (s : GrantManager W) : Type 0 where
    pub text : Text
    pub dumped : dump (arr (grants_json (Map.to_list s.grants))) ≡ some text
    pub on_file : s.file ≡ some (text ++ b'\n' ∷ [])

  write_file-IsSaved :
      (ending : WriteEnd) (t : Option Text) (s : GrantManager W)
      → dump (arr (grants_json (Map.to_list s.grants))) ≡ t
      → (write_file ending t s).0 ≡ none
      → IsSaved (write_file ending t s).1
  write_file-IsSaved ending none s e h = absurd (ground arith)
  write_file-IsSaved written (some t) s e h = record { text = t; dumped = e; on_file = refl }
  write_file-IsSaved (failed what) (some t) s e h = absurd (ground arith)
  write_file-IsSaved (lost what) (some t) s e h = absurd (ground arith)

  pub persist-IsSaved :
      (ending : WriteEnd) (s : GrantManager W)
      → (persist_state_locked dump ending s).0 ≡ none
      → IsSaved (persist_state_locked dump ending s).1
  unfolding persist_state_locked
  persist-IsSaved ending s h = write_file-IsSaved ending _ s refl h

module _ {W Call : Type 0} (h : PrivHelper W Call) where
  abbrev pub Unchanged : (w v : W) → Type 0
  Unchanged w v = (j : Text) → h.drop_in v j ≡ h.drop_in w j

  abbrev pub HasDropIn : (grantid : Text) → Option Text → (w v : W) → Type 0
  HasDropIn grantid t w v =
      (j : Text) → h.drop_in v j ≡ (if text_eq grantid j then t else h.drop_in w j)

  -- With exit code 0 the drop-in is installed, else all drop-ins are as they were, but that a helper
  -- that a signal killed may have installed it.
  abbrev pub InstallEnds : (cut : Bool) (grantid spec : Text) (w : W) → ℤ × W → Type 0
  InstallEnds cut grantid spec w r =
      ((r.0 ≡ pos 0) × HasDropIn grantid (some spec) w r.1)
      ⊎ ((r.0 ≢ pos 0) × (Unchanged w r.1 ⊎ ((cut ≡ true) × HasDropIn grantid (some spec) w r.1)))

  abbrev pub RevokeEnds : (grantid : Text) (w : W) → ℤ × W → Type 0
  RevokeEnds grantid w r =
      ((r.0 ≡ pos 0) × HasDropIn grantid none w r.1)
      ⊎ ((r.0 ≢ pos 0) × (Unchanged w r.1 ⊎ HasDropIn grantid none w r.1))

  eqℤ-false : (z : ℤ) → eqℤ z (pos 0) ≡ false → z ≢ pos 0
  eqℤ-false z e same = ground (arith, e, (eqℤ_iff z (pos 0)).1 same)

  pub spawn-InstallEnds :
      (spawn : Spawn Call) (grantid spec : Text) (w : W)
      → InstallEnds (was_killed spawn) grantid spec w (
          run_spawn spawn
            (λ k. h.install_grant k grantid spec)
            (λ k n. h.killed_install k n grantid spec)
            w)
  spawn-InstallEnds (not_spawned err) grantid spec w = inr (ground arith, inl (λ j. refl))
  spawn-InstallEnds (ran k err) grantid spec w =
      elim (Bool-cases (eqℤ (h.install_grant k grantid spec w).0 (pos 0))) [
        | inl e ↦ let ok = (eqℤ_iff _ _).0 e in inl (ok, h.installed k grantid spec w ok)
        | inr e ↦
            let nonzero = eqℤ-false _ e in
            inr (nonzero, inl (h.not_installed k grantid spec w nonzero))
      ]
  spawn-InstallEnds (killed k n err) grantid spec w = inr (
    ground arith,
    elim (h.half_installed k n grantid spec w) [
      | inl same ↦ inl same
      | inr files ↦ inr (refl, files)
    ],
  )

  pub spawn-RevokeEnds :
      (spawn : Spawn Call) (grantid : Text) (w : W)
      → RevokeEnds grantid w
          (run_spawn spawn (λ k. h.revoke_grant k grantid) (λ k n. h.killed_revoke k n grantid) w)
  spawn-RevokeEnds (not_spawned err) grantid w = inr (ground arith, inl (λ j. refl))
  spawn-RevokeEnds (ran k err) grantid w =
      elim (Bool-cases (eqℤ (h.revoke_grant k grantid w).0 (pos 0))) [
        | inl e ↦ let ok = (eqℤ_iff _ _).0 e in inl (ok, h.revoked k grantid w ok)
        | inr e ↦
            let nonzero = eqℤ-false _ e in inr (nonzero, inl (h.not_revoked k grantid w nonzero))
      ]
  spawn-RevokeEnds (killed k n err) grantid w = inr (ground arith, h.half_revoked k n grantid w)

  -- Installing through the helper leaves the table and its file alone.
  pub record ViaHelper (cut : Bool) (grantid spec : Text) (s : GrantManager W)
      (r : ℤ × GrantManager W) : Type 0 where
    pub grants : r.1.grants ≡ s.grants
    pub file : r.1.file ≡ s.file
    pub ends : InstallEnds cut grantid spec s.outside (r.0, r.1.outside)

  after_helper-ViaHelper :
      (c : RequestCall Call) (cut : Bool) (grantid spec : Text) (s : GrantManager W) (r : ℤ × W)
      → InstallEnds cut grantid spec s.outside r
      → ViaHelper cut grantid spec s (after_helper c grantid s r)
  after_helper-ViaHelper c cut grantid spec s (rc, w) ends = elim (Bool-cases (eqℤ rc (pos 0))) [
    | inr e ↦ rw e (record { grants = refl; file = refl; ends = ends })
    | inl e ↦ rw e (elim (Bool-cases c.unlinked) [
      | inl f ↦ rw f (record { grants = refl; file = refl; ends = ends })
      | inr f ↦ rw f (record { grants = refl; file = refl; ends = ends })
    ])
  ]

  pub install-ViaHelper :
      (dump : Json → Option Text) (c : RequestCall Call) (grantid spec : Text) (s : GrantManager W)
      → ViaHelper
          (was_killed c.spawn)
          grantid
          spec
          s
          (install_grant_via_helper dump h c grantid spec s)
  unfolding install_grant_via_helper
  install-ViaHelper dump c grantid spec s = elim (Option-cases c.spec_fault) [
    | inr (what, e) ↦
        rw e (record { grants = refl; file = refl; ends = inr (ground arith, inl (λ j. refl)) })
    | inl e ↦
        let s' : GrantManager W = record s { specs = Map.set s.specs grantid spec } in
        let v =
          after_helper-ViaHelper c (was_killed c.spawn) grantid spec s' _
            (spawn-InstallEnds c.spawn grantid spec s.outside) in
        rw e (record { grants = v.grants; file = v.file; ends = v.ends })
  ]
