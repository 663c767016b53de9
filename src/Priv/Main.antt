-- ===== src/Priv/Main.antt =====
-- main of src/priv/main.c: the gate of privileges and the table of commands.
use server_mcp_bridge.Base.{not, List, [], ◌∷◌, Text, codes, text_eq, ℤ, if◌then◌else◌}
use server_mcp_bridge.Priv.{Machine, Exit, Answers}
use server_mcp_bridge.Priv.Sudoers.{
  cmd_install_grant, cmd_revoke_grant, cmd_install_system_admin, cmd_revoke_system_admin,
}
use server_mcp_bridge.Priv.Accounts.{cmd_useradd, cmd_userdel}
use server_mcp_bridge.Priv.States.{
  cmd_prepare_user_state, cmd_cleanup_user_state, cmd_write_runtime,
}

module _ (visudo : Text → ℤ) where
  -- The comparisons of `argv[1]`.
  unfoldable pub subcommand : Answers → (name : Text) (argv : List Text) → Machine → Exit
  unfolding text_eq
  subcommand a name argv m =
      if text_eq name (codes "useradd")
      then cmd_useradd a argv m
      else if text_eq name (codes "userdel")
      then cmd_userdel a argv m
      else if text_eq name (codes "install-grant")
      then cmd_install_grant visudo a argv m
      else if text_eq name (codes "revoke-grant")
      then cmd_revoke_grant a argv m
      else if text_eq name (codes "install-system-admin")
      then cmd_install_system_admin visudo a argv m
      else if text_eq name (codes "revoke-system-admin")
      then cmd_revoke_system_admin a argv m
      else if text_eq name (codes "prepare-user-state")
      then cmd_prepare_user_state a argv m
      else if text_eq name (codes "cleanup-user-state")
      then cmd_cleanup_user_state a argv m
      else if text_eq name (codes "write-runtime")
      then cmd_write_runtime a argv m
      else record { code = 10; machine = m }

  -- `args` are the arguments from `argv[1]` on.
  unfoldable pub priv_main : Answers → (args : List Text) → Machine → Exit
  unfolding subcommand
  priv_main a [] m = record { code = 10; machine = m }
  priv_main a (name ∷ argv) m =
      if not a.euid_root
      then record { code = 11; machine = m }
      else if not a.setuid_done
      then record { code = 11; machine = m }
      else subcommand a name argv m
