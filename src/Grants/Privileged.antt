-- ===== src/Grants/Privileged.antt =====
-- The helper of src/priv/main.c is what the daemon relies on: the interface of Grants is filled by
-- the commands of Priv.
use server_mcp_bridge.Base.{
  ℕ, zero, suc, ◌≤◌, ◌≡◌, ◌≢◌, refl, sym, ap, ◌∙◌, ◌⊎◌, inl, inr, Bool, true, false, not, ◌||◌,
  Option, none, some, [], ◌∷◌, arith, Text, codes, text_eq, text_eq-append, text_eq_iff, ℤ, pos,
  ltb, ltb→ge, if_both, is_empty, length, take, if◌then◌else◌, Bool-cases,
}
use server_mcp_bridge.Map
use server_mcp_bridge.Map.{Map}
use server_mcp_bridge.Priv
use server_mcp_bridge.Priv.{Machine, Exit, SpecFile, opened, Answers}
use server_mcp_bridge.Priv.Spec.{spec_well_formed}
use server_mcp_bridge.Priv.Sudoers.{
  tmp_of_grant, final_of_grant, read_spec, exists, unlink_file, with_sudoers, cmd_install_grant,
  cmd_revoke_grant,
}
use server_mcp_bridge.Priv.Main.{priv_main}
use server_mcp_bridge.Priv.Installs.{GrantOutcome, cmd_install_grant-GrantOutcome, exists-none}
use server_mcp_bridge.Grants.{Kill, at_start, part_way, at_end, PrivHelper}

-- The spec file that the daemon wrote for a run of install-grant.
abbrev pub given_spec : Answers → (spec : Text) → Answers
given_spec a spec = record a { spec_file = opened true (length spec) (some spec) }

abbrev pub as_rc : Exit → ℤ × Machine
as_rc r = (pos r.code, r.machine)

abbrev pub drop_in_of : Machine → (grantid : Text) → Option Text
drop_in_of m grantid = Map.find m.sudoers (final_of_grant grantid)

take_short : (n : ℕ) (t : Text) → length t ≤ n → take n t ≡ t
take_short zero [] h = refl
take_short zero (c ∷ t) h = absurd (omega (arith, h))
take_short (suc n) [] h = refl
take_short (suc n) (c ∷ t) h = ap (λ r. c ∷ r) (take_short n t (omega (arith, h)))

abbrev picked : (refused bad passed : Bool) (t : Text) → ℕ ⊎ Text
picked refused bad passed t =
    if refused then inl 13 else if bad then inl 13 else if not passed then inl 13 else inr t

pick_lem :
    (refused bad passed : Bool) (t buf : Text)
    → picked refused bad passed t ≡ inr buf
    → (refused ≡ false) × (t ≡ buf)
pick_lem true bad passed t buf h = absurd (ground (arith, h))
pick_lem false true passed t buf h = absurd (ground (arith, h))
pick_lem false false false t buf h = absurd (ground (arith, h))
pick_lem false false true t buf h = (refl, ground (arith, h))

-- What is read is what was written.
read_lem :
    (spec buf : Text) → read_spec (opened true (length spec) (some spec)) ≡ inr buf → buf ≡ spec
unfolding read_spec
read_lem spec buf h =
    let (small, same) =
      pick_lem (ltb 4096 (length spec)) (is_empty (take 4096 spec))
        (spec_well_formed (take 4096 spec)) (take 4096 spec) buf h in
    sym same ∙ take_short 4096 spec (ltb→ge 4096 (length spec) small)

-- A drop-in is no temporary file, and the drop-ins of different identifiers are different files.
tmp_lem : (grantid j : Text) → text_eq (tmp_of_grant grantid) (final_of_grant j) ≡ false
unfolding text_eq
tmp_lem grantid j = refl

final_lem :
    (grantid j : Text) → text_eq (final_of_grant grantid) (final_of_grant j) ≡ text_eq grantid j
final_lem grantid j = text_eq-append (codes "mcp_grant_") grantid j

module _ (visudo : Text → ℤ) where
  abbrev pub run_install : Answers → (grantid spec : Text) → Machine → Exit
  run_install a grantid spec m =
      priv_main visudo (given_spec a spec) (codes "install-grant" ∷ grantid ∷ []) m

  abbrev pub run_revoke : Answers → (grantid : Text) → Machine → Exit
  run_revoke a grantid m = priv_main visudo a (codes "revoke-grant" ∷ grantid ∷ []) m

  -- The drop-ins after a run of the helper that installs.
  abbrev pub InstallRun : (grantid spec : Text) (m : Machine) → Exit → Type 0
  InstallRun grantid spec m r =
      ((r.code ≡ 0)
        × ((j : Text)
            → drop_in_of r.machine j ≡ (if text_eq grantid j then some spec else drop_in_of m j)))
      ⊎ ((r.code ≢ 0) × ((j : Text) → drop_in_of r.machine j ≡ drop_in_of m j))

  outcome-InstallRun :
      (a : Answers) (grantid spec : Text) (m : Machine) (r : Exit)
      → GrantOutcome visudo a.staging grantid m.sudoers
          (read_spec (opened true (length spec) (some spec)))
          (r.code, r.machine.sudoers)
      → InstallRun grantid spec m r
  outcome-InstallRun a grantid spec m r (inr (code, only)) =
      inr (code, λ j. only (final_of_grant j) (tmp_lem grantid j))
  outcome-InstallRun a grantid spec m r (inl (code, g)) = inl (
    code,
    λ j.
        rw
          (
            g.installed.files (final_of_grant j),
            final_lem grantid j,
            tmp_lem grantid j,
            read_lem spec g.buf g.is_read,
          )
          refl,
  )

  install_cmd :
      (a : Answers) (grantid spec : Text) (m : Machine)
      → InstallRun grantid spec m (cmd_install_grant visudo (given_spec a spec) (grantid ∷ []) m)
  unfolding cmd_install_grant
  install_cmd a grantid spec m = elim (Bool-cases (Priv.valid_grantid grantid)) [
    | inr e ↦ rw e (inr (ground arith, λ j. refl))
    | inl e ↦
        outcome-InstallRun a grantid spec m
          (cmd_install_grant visudo (given_spec a spec) (grantid ∷ []) m)
          (cmd_install_grant-GrantOutcome visudo (given_spec a spec) grantid m e)
  ]

  -- main lets a command run, or exits with 11.
  pub InstallRun-main :
      (a : Answers) (grantid spec : Text) (m : Machine)
      → InstallRun grantid spec m (run_install a grantid spec m)
  unfolding priv_main text_eq
  InstallRun-main a grantid spec m =
      if_both (InstallRun grantid spec m) (not a.euid_root) (inr (ground arith, λ j. refl)) (
        if_both (InstallRun grantid spec m) (not a.setuid_done) (inr (ground arith, λ j. refl))
          (install_cmd a grantid spec m))

  -- The directory if a signal kills install-grant before its rename: it may have opened its
  -- temporary file and written a part of the line.
  abbrev pub part_dir : Answers → (n : ℕ) (grantid : Text) → ℕ ⊎ Text → Map Text → Map Text
  part_dir a n grantid (inl code) dir = dir
  part_dir a n grantid (inr buf) dir =
      if exists dir (final_of_grant grantid)
      then dir
      else if not a.staging.tmp_opened
      then dir
      else Map.set dir (tmp_of_grant grantid) (take n buf)

  abbrev pub killed_installing : Answers → Kill → (grantid spec : Text) → Machine → Machine
  killed_installing a at_start grantid spec m = m
  killed_installing a (part_way n) grantid spec m =
      if not a.euid_root || not a.setuid_done || not (Priv.valid_grantid grantid)
      then m
      else record m {
        sudoers =
            part_dir a n grantid (read_spec (opened true (length spec) (some spec))) m.sudoers;
      }
  killed_installing a at_end grantid spec m = (run_install a grantid spec m).machine

  -- revoke-grant makes one change.
  abbrev pub killed_revoking : Answers → Kill → (grantid : Text) → Machine → Machine
  killed_revoking a at_start grantid m = m
  killed_revoking a (part_way n) grantid m = m
  killed_revoking a at_end grantid m = (run_revoke a grantid m).machine

  part_lem :
      (a : Answers) (n : ℕ) (grantid : Text) (line : ℕ ⊎ Text) (dir : Map Text) (j : Text)
      → Map.find (part_dir a n grantid line dir) (final_of_grant j)
        ≡ Map.find dir (final_of_grant j)
  part_lem a n grantid (inl code) dir j = refl
  part_lem a n grantid (inr buf) dir j =
      if_both (λ d. Map.find d (final_of_grant j) ≡ Map.find dir (final_of_grant j))
        (exists dir (final_of_grant grantid)) refl
        (if_both (λ d. Map.find d (final_of_grant j) ≡ Map.find dir (final_of_grant j))
          (not a.staging.tmp_opened) refl (rw (Map.find-set, tmp_lem grantid j) refl))

  abbrev pub Half : (grantid : Text) → Option Text → (m m' : Machine) → Type 0
  Half grantid t m m' =
      ((j : Text) → drop_in_of m' j ≡ drop_in_of m j)
      ⊎ ((j : Text) → drop_in_of m' j ≡ (if text_eq grantid j then t else drop_in_of m j))

  pub killed_installing-Half :
      (a : Answers) (k : Kill) (grantid spec : Text) (m : Machine)
      → Half grantid (some spec) m (killed_installing a k grantid spec m)
  killed_installing-Half a at_start grantid spec m = inl (λ j. refl)
  killed_installing-Half a (part_way n) grantid spec m = inl (λ j.
      if_both (λ v. drop_in_of v j ≡ drop_in_of m j)
        (not a.euid_root || not a.setuid_done || not (Priv.valid_grantid grantid)) refl
        (part_lem a n grantid _ m.sudoers j))
  killed_installing-Half a at_end grantid spec m = elim (InstallRun-main a grantid spec m) [
    | inl (code, files) ↦ inr files
    | inr (code, files) ↦ inl files
  ]

  -- The drop-ins after a run of the helper that revokes.
  abbrev pub RevokeRun : (grantid : Text) (m : Machine) → Exit → Type 0
  RevokeRun grantid m r =
      ((r.code ≡ 0)
        × ((j : Text)
            → drop_in_of r.machine j ≡ (if text_eq grantid j then none else drop_in_of m j)))
      ⊎ ((r.code ≢ 0) × ((j : Text) → drop_in_of r.machine j ≡ drop_in_of m j))

  absent_lem :
      (dir : Map Text) (grantid j : Text)
      → Map.find dir (final_of_grant grantid) ≡ none
      → Map.find dir (final_of_grant j)
        ≡ (if text_eq grantid j then none else Map.find dir (final_of_grant j))
  absent_lem dir grantid j h = elim (Bool-cases (text_eq grantid j)) [
    | inr e ↦ rw e refl
    | inl e ↦ let same : grantid ≡ j = (text_eq_iff grantid j).0 e in rw e (rw same at h)
  ]

  unlink_RevokeRun :
      (denied : Bool) (grantid : Text) (m : Machine)
      → RevokeRun grantid m (with_sudoers m (unlink_file denied (final_of_grant grantid) m.sudoers))
  unfolding unlink_file
  unlink_RevokeRun denied grantid m =
      elim (Bool-cases (exists m.sudoers (final_of_grant grantid))) [
        | inr e ↦ rw e (inl (refl, λ j. absent_lem m.sudoers grantid j (exists-none m.sudoers _ e)))
        | inl e ↦ rw e (elim (Bool-cases denied) [
          | inl f ↦ rw f (inr (ground arith, λ j. refl))
          | inr f ↦ rw f (inl (refl, λ j. rw (Map.find-erase, final_lem grantid j) refl))
        ])
      ]

  revoke_cmd :
      (a : Answers) (grantid : Text) (m : Machine)
      → RevokeRun grantid m (cmd_revoke_grant a (grantid ∷ []) m)
  unfolding cmd_revoke_grant
  revoke_cmd a grantid m =
      if_both (RevokeRun grantid m) (not (Priv.valid_grantid grantid))
        (inr (ground arith, λ j. refl)) (unlink_RevokeRun a.unlink_denied grantid m)

  pub RevokeRun-main :
      (a : Answers) (grantid : Text) (m : Machine) → RevokeRun grantid m (run_revoke a grantid m)
  unfolding priv_main text_eq
  RevokeRun-main a grantid m =
      if_both (RevokeRun grantid m) (not a.euid_root) (inr (ground arith, λ j. refl)) (
        if_both (RevokeRun grantid m) (not a.setuid_done) (inr (ground arith, λ j. refl))
          (revoke_cmd a grantid m))

  pub killed_revoking-Half :
      (a : Answers) (k : Kill) (grantid : Text) (m : Machine)
      → Half grantid none m (killed_revoking a k grantid m)
  killed_revoking-Half a at_start grantid m = inl (λ j. refl)
  killed_revoking-Half a (part_way n) grantid m = inl (λ j. refl)
  killed_revoking-Half a at_end grantid m = elim (RevokeRun-main a grantid m) [
    | inl (code, files) ↦ inr files
    | inr (code, files) ↦ inl files
  ]

  pub code_lem : (n : ℕ) → (pos n ≡ pos 0) → n ≡ 0
  code_lem n h = ground (arith, h)

  -- The helper of the repository as the daemon sees it.
  unfoldable pub priv_helper : PrivHelper Machine Answers
  priv_helper = record {
    install_grant = λ a grantid spec m. as_rc (run_install a grantid spec m);
    revoke_grant = λ a grantid m. as_rc (run_revoke a grantid m);
    killed_install = killed_installing;
    killed_revoke = killed_revoking;
    drop_in = drop_in_of;
    installed = λ a grantid spec m ok j. elim (InstallRun-main a grantid spec m) [
      | inl (code, files) ↦ files j
      | inr (code, files) ↦ absurd (code (code_lem _ ok))
    ];
    not_installed = λ a grantid spec m bad j. elim (InstallRun-main a grantid spec m) [
      | inl (code, files) ↦ absurd (bad (ap pos code))
      | inr (code, files) ↦ files j
    ];
    revoked = λ a grantid m ok j. elim (RevokeRun-main a grantid m) [
      | inl (code, files) ↦ files j
      | inr (code, files) ↦ absurd (code (code_lem _ ok))
    ];
    not_revoked = λ a grantid m bad j. elim (RevokeRun-main a grantid m) [
      | inl (code, files) ↦ absurd (bad (ap pos code))
      | inr (code, files) ↦ files j
    ];
    half_installed = killed_installing-Half;
    half_revoked = killed_revoking-Half;
  }
