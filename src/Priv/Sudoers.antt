-- ===== src/Priv/Sudoers.antt =====
-- The commands of src/priv/main.c that change /etc/sudoers.d: install-grant, revoke-grant,
-- install-system-admin and revoke-system-admin.
use server_mcp_bridge.Base.{
  ℕ, zero, suc, ◌⊎◌, inl, inr, Bool, true, false, not, ◌||◌, Option, none, some, List, [], ◌∷◌,
  ◌++◌, Text, codes, ℤ, pos, eqℤ, ltb, leb, length, is_empty, take, drop, if◌then◌else◌,
}
use server_mcp_bridge.Map
use server_mcp_bridge.Map.{Map}
use server_mcp_bridge.Priv.{
  valid_shortid, valid_grantid, Machine, Exit, SpecFile, not_opened, opened, Staging, Answers,
}
use server_mcp_bridge.Priv.Spec.{spec_well_formed}

-- What a loop over `write` comes to, with the file that it leaves.
pub data Written : Type 0 where
  wrote : (file : Text) → Written
  write_failed : (file : Text) → Written
  unfinished : (file : Text) → Written

-- `while (off < n)`: `left` is the buffer from `off` on. `fuel` bounds the calls.
unfoldable pub write_loop : (write : ℕ → Option ℕ) (fuel call : ℕ) (left file : Text) → Written
write_loop write fuel call [] file = wrote file
write_loop write zero call (c ∷ left) file = unfinished file
write_loop write (suc fuel) call (c ∷ left) file = elim (write call) [
  | none ↦ write_failed file
  | some w ↦
      write_loop write fuel (suc call) (drop (suc w) (c ∷ left)) (file ++ take (suc w) (c ∷ left))
]

-- `unlink(tmp_path)`, whose result is ignored.
abbrev pub unlink_tmp : Staging → (tmp_path : Text) → Map Text → Map Text
unlink_tmp s tmp_path dir = if s.tmp_unlinked then Map.erase dir tmp_path else dir

-- The files of the machine replaced, with an exit code.
abbrev pub with_sudoers : Machine → ℕ × Map Text → Exit
with_sudoers m (code, dir) = record { code = code; machine = record m { sudoers = dir } }

abbrev pub exists : Map Text → Text → Bool
exists dir name = elim (Map.find dir name) [ none ↦ false | some t ↦ true ]

abbrev pub tmp_of_grant : (grantid : Text) → Text
tmp_of_grant grantid = codes ".mcp_grant_" ++ (grantid ++ codes ".tmp")

abbrev pub final_of_grant : (grantid : Text) → Text
final_of_grant grantid = codes "mcp_grant_" ++ grantid

abbrev pub system_admin_spec : (shortid : Text) → Text
system_admin_spec shortid =
    codes "mcp_user_" ++ (shortid ++ (codes " ALL=(ALL) NOPASSWD: ALL" ++ 10 ∷ []))

-- From the spec file to the buffer that passed the check, or an exit code.
unfoldable pub read_spec : SpecFile → ℕ ⊎ Text
unfolding spec_well_formed
read_spec not_opened = inl 11
read_spec (opened regular size none) = inl 13
read_spec (opened regular size (some bytes)) =
    if not regular || ltb 4096 size
    then inl 13
    else if is_empty (take 4096 bytes)
    then inl 13
    else if not (spec_well_formed (take 4096 bytes))
    then inl 13
    else inr (take 4096 bytes)

-- `unlink(path)`: a missing file is no error.
unfoldable pub unlink_file : (denied : Bool) (path : Text) → Map Text → ℕ × Map Text
unlink_file denied path dir =
    if not (exists dir path)
    then (0, dir)
    else if denied
    then (11, dir)
    else (0, Map.erase dir path)

unfoldable pub cmd_revoke_grant : Answers → (argv : List Text) → Machine → Exit
unfolding unlink_file
cmd_revoke_grant a (grantid ∷ []) m =
    if not (valid_grantid grantid)
    then record { code = 10; machine = m }
    else with_sudoers m (unlink_file a.unlink_denied (final_of_grant grantid) m.sudoers)
cmd_revoke_grant a _ m = record { code = 10; machine = m }

unfoldable pub cmd_revoke_system_admin : Answers → (argv : List Text) → Machine → Exit
unfolding unlink_file
cmd_revoke_system_admin a [] m =
    with_sudoers m (unlink_file a.unlink_denied (codes "mcp_system_admin") m.sudoers)
cmd_revoke_system_admin a (arg ∷ argv) m = record { code = 10; machine = m }

-- `visudo t` is the exit code of `visudo -cf` on a file of content `t`, -1 if it did not run.
module _ (visudo : Text → ℤ) where
  -- From `fsync` on, with the file that was written.
  unfoldable pub finish_file :
      Staging → (tmp_path final_path : Text) → Written → Map Text → ℕ × Map Text
  finish_file s tmp_path final_path (write_failed file) dir =
      (11, unlink_tmp s tmp_path (Map.set dir tmp_path file))
  finish_file s tmp_path final_path (unfinished file) dir = (11, Map.set dir tmp_path file)
  finish_file s tmp_path final_path (wrote file) dir =
      let staged = Map.set dir tmp_path file in
      if not s.synced || not s.chowned
      then (11, unlink_tmp s tmp_path staged)
      else if not (eqℤ (visudo file) (pos 0))
      then (13, unlink_tmp s tmp_path staged)
      else if not s.renamed
      then (11, unlink_tmp s tmp_path staged)
      else (0, Map.set (Map.erase staged tmp_path) final_path file)

  -- The part that both install commands end with: write, fsync, chown, visudo, rename.
  unfoldable pub install_file : Staging → (tmp_path final_path buf : Text) → Map Text → ℕ × Map Text
  unfolding write_loop finish_file
  install_file s tmp_path final_path buf dir =
      if not s.tmp_opened
      then (11, dir)
      else finish_file s tmp_path final_path (write_loop s.write (length buf) 0 buf []) dir

  unfoldable pub install_grant_spec :
      Staging → (grantid : Text) → ℕ ⊎ Text → Map Text → ℕ × Map Text
  unfolding install_file
  install_grant_spec s grantid (inl code) dir = (code, dir)
  install_grant_spec s grantid (inr buf) dir =
      if exists dir (final_of_grant grantid)
      then (14, dir)
      else install_file s (tmp_of_grant grantid) (final_of_grant grantid) buf dir

  unfoldable pub cmd_install_grant : Answers → (argv : List Text) → Machine → Exit
  unfolding read_spec install_grant_spec
  cmd_install_grant a (grantid ∷ []) m =
      if not (valid_grantid grantid)
      then record { code = 10; machine = m }
      else with_sudoers m (install_grant_spec a.staging grantid (read_spec a.spec_file) m.sudoers)
  cmd_install_grant a _ m = record { code = 10; machine = m }

  unfoldable pub cmd_install_system_admin : Answers → (argv : List Text) → Machine → Exit
  unfolding install_file spec_well_formed
  cmd_install_system_admin a (shortid ∷ []) m =
      if not (valid_shortid shortid)
      then record { code = 10; machine = m }
      else if leb 64 (length (system_admin_spec shortid))
      then record { code = 11; machine = m }
      else if not (spec_well_formed (system_admin_spec shortid))
      then record { code = 13; machine = m }
      else with_sudoers m (
          install_file a.staging (codes ".mcp_system_admin.tmp") (codes "mcp_system_admin")
            (system_admin_spec shortid) m.sudoers)
  cmd_install_system_admin a _ m = record { code = 10; machine = m }
