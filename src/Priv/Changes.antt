-- ===== src/Priv/Changes.antt =====
-- What one call of the helper changes in /etc/sudoers.d: a file that it manages is gone or of a checked
-- line, or everything that sudo reads is as it was.
use server_mcp_bridge.Base.{
  ℕ, ◌≡◌, refl, ◌⊎◌, inl, inr, Bool, true, false, not, Option, none, some, List, [], ◌∷◌, arith,
  Text, codes, text_eq, text_eq_iff, ℤ, pos, eqℤ, take, is_empty, if◌then◌else◌, ◌||◌, Bool-cases,
  Option-cases, if_both, ◌==◌,
}
use server_mcp_bridge.Map
use server_mcp_bridge.Map.{Map, map_laws}
use server_mcp_bridge.GrantRecord.{holds}
use server_mcp_bridge.Priv.{valid_shortid, valid_grantid, Account, Owned, Machine, Exit, Answers}
use server_mcp_bridge.Priv.Spec.{spec_well_formed}
use server_mcp_bridge.Priv.Sudoers.{
  exists, tmp_of_grant, final_of_grant, read_spec, system_admin_spec, unlink_file,
  cmd_install_grant, cmd_revoke_grant, cmd_install_system_admin, cmd_revoke_system_admin,
}
use server_mcp_bridge.Priv.Accounts.{
  useradd_loop, acquire_passwddb_serial_lock, username_of, cmd_useradd, cmd_userdel,
}
use server_mcp_bridge.Priv.States.{
  lookup_account, prepare_crons, cmd_prepare_user_state, cmd_cleanup_user_state, cmd_write_runtime,
}
use server_mcp_bridge.Priv.Main.{subcommand, priv_main}
use server_mcp_bridge.Priv.Installs.{
  IsOnlyTmp, Installed, install_file-InstallOutcome, read_spec-Reads,
  install_grant_spec-GrantOutcome, system_admin_spec-checked, cmd_install_system_admin_lem,
}

-- sudo skips the files of its directory whose name holds a dot.
abbrev pub is_active : (name : Text) → Bool
is_active name = not (holds b'.' name)

-- The names that the helper gives to its drop-ins begin with `mcp_`.
abbrev pub is_managed : (name : Text) → Bool
is_managed name = text_eq (take 4 name) (codes "mcp_")

module _ (visudo : Text → ℤ) where
  abbrev pub IsChecked : Option Text → Type 0
  IsChecked none = Unit
  IsChecked (some t) = (spec_well_formed t ≡ true) × (visudo t ≡ pos 0)

  -- A file is as it was, or it is managed and gone or of a checked line.
  abbrev pub Changed : (name : Text) (old new : Option Text) → Type 0
  Changed name old new = (new ≡ old) ⊎ ((is_managed name ≡ true) × IsChecked new)

  abbrev pub Changes : (dir dir' : Map Text) → Type 0
  Changes dir dir' =
      (name : Text) → is_active name ≡ true → Changed name (Map.find dir name) (Map.find dir' name)

  same_Changes : (dir : Map Text) → Changes dir dir
  same_Changes dir name active = inl refl

  -- A change to a file that sudo does not read.
  only_tmp-Changes :
      (tmp_path : Text) (dir dir' : Map Text)
      → is_active tmp_path ≡ false
      → IsOnlyTmp tmp_path dir dir'
      → Changes dir dir'
  only_tmp-Changes tmp_path dir dir' hidden only name active =
      elim (Bool-cases (text_eq tmp_path name)) [
        | inr other ↦ inl (only name other)
        | inl same ↦
            let e : tmp_path ≡ name = (text_eq_iff tmp_path name).0 same in
            absurd (ground (arith, rw e at hidden, active))
      ]

  Installed-Changes :
      (tmp_path final_path buf : Text) (dir dir' : Map Text)
      → is_active tmp_path ≡ false
      → is_managed final_path ≡ true
      → spec_well_formed buf ≡ true
      → Installed visudo tmp_path final_path buf dir dir'
      → Changes dir dir'
  Installed-Changes tmp_path final_path buf dir dir' hidden managed checked i name active =
      elim (Bool-cases (text_eq final_path name)) [
        | inl same ↦
            let e : final_path ≡ name = (text_eq_iff final_path name).0 same in
            rw (i.files, same) (inr (rw (← e) managed, (checked, i.accepted)))
        | inr other ↦ elim (Bool-cases (text_eq tmp_path name)) [
          | inr g ↦ rw (i.files, other, g) (inl refl)
          | inl g ↦
              let e : tmp_path ≡ name = (text_eq_iff tmp_path name).0 g in
              absurd (ground (arith, rw e at hidden, active))
        ]
      ]

  unlinked-Changes :
      (denied : Bool) (path : Text) (dir : Map Text)
      → is_managed path ≡ true
      → Changes dir (unlink_file denied path dir).1
  unfolding unlink_file
  unlinked-Changes denied path dir managed = elim (Bool-cases (exists dir path)) [
    | inr e ↦ rw e (same_Changes dir)
    | inl e ↦ rw e (elim (Bool-cases denied) [
      | inl f ↦ rw f (same_Changes dir)
      | inr f ↦ rw f (λ name active. elim (Bool-cases (text_eq path name)) [
        | inr g ↦ rw (Map.find-erase, g) (inl refl)
        | inl g ↦
            let same : path ≡ name = (text_eq_iff path name).0 g in
            rw (Map.find-erase, g) (inr (rw (← same) managed, tt))
      ])
    ])
  ]

  grant-Changes :
      (a : Answers) (argv : List Text) (m : Machine)
      → Changes m.sudoers (cmd_install_grant visudo a argv m).machine.sudoers
  unfolding cmd_install_grant holds text_eq
  grant-Changes a [] m = same_Changes m.sudoers
  grant-Changes a (grantid ∷ arg ∷ argv) m = same_Changes m.sudoers
  grant-Changes a (grantid ∷ []) m = elim (Bool-cases (valid_grantid grantid)) [
    | inr e ↦ rw e (same_Changes m.sudoers)
    | inl e ↦
        rw e
          (elim (install_grant_spec-GrantOutcome visudo a.staging grantid m.sudoers a.spec_file
            (read_spec a.spec_file) (read_spec-Reads a.spec_file)) [
              | inl (zero_code, g) ↦
                  Installed-Changes (tmp_of_grant grantid) (final_of_grant grantid) g.buf m.sudoers
                    _ refl refl g.checked g.installed
              | inr (code, only) ↦ only_tmp-Changes (tmp_of_grant grantid) m.sudoers _ refl only
            ])
  ]

  admin-Changes :
      (a : Answers) (argv : List Text) (m : Machine)
      → Changes m.sudoers (cmd_install_system_admin visudo a argv m).machine.sudoers
  unfolding cmd_install_system_admin
  admin-Changes a [] m = same_Changes m.sudoers
  admin-Changes a (shortid ∷ arg ∷ argv) m = same_Changes m.sudoers
  admin-Changes a (shortid ∷ []) m = elim (Bool-cases (valid_shortid shortid)) [
    | inr e ↦ rw e (same_Changes m.sudoers)
    | inl e ↦
        rw (cmd_install_system_admin_lem visudo a shortid m e)
          (elim (install_file-InstallOutcome visudo a.staging (codes ".mcp_system_admin.tmp")
            (codes "mcp_system_admin") m.sudoers (system_admin_spec shortid)) [
              | inl (zero_code, i) ↦
                  Installed-Changes (codes ".mcp_system_admin.tmp") (codes "mcp_system_admin")
                    (system_admin_spec shortid) m.sudoers _ (unfold holds in refl)
                    (unfold text_eq in refl) (system_admin_spec-checked shortid e).1 i
              | inr (code, only) ↦
                  only_tmp-Changes (codes ".mcp_system_admin.tmp") m.sudoers _
                    (unfold holds in refl) only
            ])
  ]

  revoke-Changes :
      (a : Answers) (argv : List Text) (m : Machine)
      → Changes m.sudoers (cmd_revoke_grant a argv m).machine.sudoers
  unfolding cmd_revoke_grant text_eq
  revoke-Changes a [] m = same_Changes m.sudoers
  revoke-Changes a (grantid ∷ arg ∷ argv) m = same_Changes m.sudoers
  revoke-Changes a (grantid ∷ []) m = elim (Bool-cases (valid_grantid grantid)) [
    | inr e ↦ rw e (same_Changes m.sudoers)
    | inl e ↦ rw e (unlinked-Changes a.unlink_denied (final_of_grant grantid) m.sudoers refl)
  ]

  revoke_admin-Changes :
      (a : Answers) (argv : List Text) (m : Machine)
      → Changes m.sudoers (cmd_revoke_system_admin a argv m).machine.sudoers
  unfolding cmd_revoke_system_admin text_eq
  revoke_admin-Changes a [] m =
      unlinked-Changes a.unlink_denied (codes "mcp_system_admin") m.sudoers refl
  revoke_admin-Changes a (arg ∷ argv) m = same_Changes m.sudoers

  record Leaves (m : Machine) (r : Exit) : Type 0 where
    same : r.machine.sudoers ≡ m.sudoers

  pub record ChangesIn (m : Machine) (r : Exit) : Type 0 where
    pub changes : Changes m.sudoers r.machine.sudoers

  left :
      (m m' : Machine) (code : ℕ)
      → m'.sudoers ≡ m.sudoers
      → Leaves m (record { code = code; machine = m' })
  left m m' code e = record { same = e }

  -- The other commands do not touch the directory.
  useradd_lem : (a : Answers) (argv : List Text) (m : Machine) → Leaves m (cmd_useradd a argv m)
  unfolding cmd_useradd
  useradd_lem a [] m = left m m 10 refl
  useradd_lem a (shortid ∷ arg ∷ argv) m = left m m 10 refl
  useradd_lem a (shortid ∷ []) m =
      let r = useradd_loop a.attempts 0 60 200 in
      if_both (Leaves m) (not (valid_shortid shortid)) (left m m 10 refl) (
        if_both (Leaves m) (not (acquire_passwddb_serial_lock a)) (left m m 11 refl)
          (if_both (Leaves m) (r.exit == 0) (left m _ 0 refl) (left m m r.exit refl)))

  userdel_lem : (a : Answers) (argv : List Text) (m : Machine) → Leaves m (cmd_userdel a argv m)
  unfolding cmd_userdel
  userdel_lem a [] m = left m m 10 refl
  userdel_lem a (shortid ∷ arg ∷ argv) m = left m m 10 refl
  userdel_lem a (shortid ∷ []) m =
      if_both (Leaves m) (not (valid_shortid shortid)) (left m m 10 refl) (
        if_both (Leaves m) (not (acquire_passwddb_serial_lock a)) (left m m 11 refl) (
          if_both (Leaves m) (eqℤ a.userdel_rc (pos 0)) (left m _ 0 refl)
            (if_both (Leaves m) (eqℤ a.userdel_rc (pos 6)) (left m m 0 refl) (left m m 11 refl))))

  crons_lem :
      (a : Answers) (user_dir : Text) (who : Account) (m : Machine) (r : Bool × Map Owned)
      → (prepare_crons a user_dir who m r).machine.sudoers ≡ m.sudoers
  crons_lem a user_dir who m (true, states) = refl
  crons_lem a user_dir who m (false, states) = refl

  prepare_lem :
      (a : Answers) (argv : List Text) (m : Machine)
      → (cmd_prepare_user_state a argv m).machine.sudoers ≡ m.sudoers
  unfolding cmd_prepare_user_state
  prepare_lem a [] m = refl
  prepare_lem a (shortid ∷ arg ∷ argv) m = refl
  prepare_lem a (shortid ∷ []) m = elim (Bool-cases (valid_shortid shortid)) [
    | inr e ↦ rw e refl
    | inl e ↦ rw e (elim (Option-cases (lookup_account a (username_of shortid) m)) [
      | inl f ↦ rw f refl
      | inr (who, f) ↦ rw f (elim (Bool-cases a.top_made) [
        | inr g ↦ rw g refl
        | inl g ↦ rw g (crons_lem a (username_of shortid) who m _)
      ])
    ])
  ]

  cleanup_lem :
      (a : Answers) (argv : List Text) (m : Machine)
      → (cmd_cleanup_user_state a argv m).machine.sudoers ≡ m.sudoers
  unfolding cmd_cleanup_user_state
  cleanup_lem a [] m = refl
  cleanup_lem a (shortid ∷ arg ∷ argv) m = refl
  cleanup_lem a (shortid ∷ []) m = ground arith

  runtime_lem :
      (a : Answers) (argv : List Text) (m : Machine)
      → (cmd_write_runtime a argv m).machine.sudoers ≡ m.sudoers
  unfolding cmd_write_runtime
  runtime_lem a [] m = refl
  runtime_lem a (shortid ∷ []) m = refl
  runtime_lem a (shortid ∷ b64 ∷ arg ∷ argv) m = refl
  runtime_lem a (shortid ∷ b64 ∷ []) m =
      elim (Bool-cases (not (valid_shortid shortid) || is_empty b64)) [
        | inl e ↦ rw e refl
        | inr e ↦ rw e (elim (Option-cases (lookup_account a (username_of shortid) m)) [
          | inl f ↦ rw f refl
          | inr (who, f) ↦ rw f refl
        ])
      ]

  changing : (m : Machine) (r : Exit) → Changes m.sudoers r.machine.sudoers → ChangesIn m r
  changing m r c = record { changes = c }

  kept : (m : Machine) (r : Exit) → r.machine.sudoers ≡ m.sudoers → ChangesIn m r
  kept m r e = changing m r (rw e (same_Changes m.sudoers))

  unchanged : (m : Machine) (code : ℕ) → ChangesIn m (record { code = code; machine = m })
  unchanged m code = changing m _ (same_Changes m.sudoers)

  next :
      (m : Machine) (b : Bool) {x y : Exit}
      → ChangesIn m x
      → ChangesIn m y
      → ChangesIn m (if b then x else y)
  next m b h k = if_both (ChangesIn m) b h k

  subcommand-Changes :
      (a : Answers) (name : Text) (argv : List Text) (m : Machine)
      → ChangesIn m (subcommand visudo a name argv m)
  unfolding subcommand
  subcommand-Changes a name argv m =
      next m (text_eq name (codes "useradd"))
        (kept m (cmd_useradd a argv m) (useradd_lem a argv m).same)
        (next m (text_eq name (codes "userdel"))
          (kept m (cmd_userdel a argv m) (userdel_lem a argv m).same)
          (next m (text_eq name (codes "install-grant"))
            (changing m (cmd_install_grant visudo a argv m) (grant-Changes a argv m))
            (next m (text_eq name (codes "revoke-grant"))
              (changing m (cmd_revoke_grant a argv m) (revoke-Changes a argv m))
              (next m (text_eq name (codes "install-system-admin"))
                (changing m (cmd_install_system_admin visudo a argv m) (admin-Changes a argv m))
                (next m (text_eq name (codes "revoke-system-admin"))
                  (changing m (cmd_revoke_system_admin a argv m) (revoke_admin-Changes a argv m))
                  (next m (text_eq name (codes "prepare-user-state"))
                    (kept m (cmd_prepare_user_state a argv m) (prepare_lem a argv m))
                    (next m (text_eq name (codes "cleanup-user-state"))
                      (kept m (cmd_cleanup_user_state a argv m) (cleanup_lem a argv m))
                      (next m (text_eq name (codes "write-runtime"))
                        (kept m (cmd_write_runtime a argv m) (runtime_lem a argv m))
                        (unchanged m 10)))))))))

  pub priv_main-Changes :
      (a : Answers) (args : List Text) (m : Machine) → ChangesIn m (priv_main visudo a args m)
  unfolding priv_main
  priv_main-Changes a [] m = unchanged m 10
  priv_main-Changes a (name ∷ argv) m =
      next m (not a.euid_root) (unchanged m 11)
        (next m (not a.setuid_done) (unchanged m 11) (subcommand-Changes a name argv m))
