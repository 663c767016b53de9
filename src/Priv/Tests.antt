-- ===== src/Priv/Tests.antt =====
-- Runs of the helper, and instances of the theorems about it.
use server_mcp_bridge.Base.{◌≡◌, refl, true, false, some, List, [], ◌∷◌, ◌++◌, arith, Text, codes}
use server_mcp_bridge.Map
use server_mcp_bridge.Map.{Map}
use server_mcp_bridge.GrantTemplate.{spec_is_well_formed}
use server_mcp_bridge.Base64.{base64_encode}
use server_mcp_bridge.Priv.{opened, Answers}
use server_mcp_bridge.Priv.Samples.{
  user, grantid, line, smooth, busy_twice, account, quiet, fresh, visudo,
}
use server_mcp_bridge.Priv.Spec.{spec_well_formed, spec_well_formed-eq-spec_is_well_formed}
use server_mcp_bridge.Priv.Sudoers.{read_spec, cmd_install_grant}
use server_mcp_bridge.Priv.Accounts.{useradd_loop, username_of}
use server_mcp_bridge.Priv.States.{lookup_account, cmd_write_runtime}
use server_mcp_bridge.Priv.Main.{priv_main}
use server_mcp_bridge.Priv.Installs.{GrantOutcome, cmd_install_grant-GrantOutcome}
use server_mcp_bridge.Priv.Guard.{IsGuarded, run_all, run_all-IsGuarded}
use server_mcp_bridge.Priv.Retries.{Ends, useradd_loop-Ends}
use server_mcp_bridge.Priv.Runtime.{Stored, cmd_write_runtime-Stored}

retries_run :
    useradd_loop busy_twice 0 60 200 ≡ record { exit = 0; tried = 3; waits = 200 ∷ 400 ∷ [] }
unfolding useradd_loop
retries_run = refl

install_run :
    Map.find
      (priv_main visudo quiet (codes "install-grant" ∷ grantid ∷ []) fresh).machine.sudoers
      (codes "mcp_grant_0123456789abcdef")
    ≡ some line
unfolding priv_main cmd_install_grant Map.find Map.set Map.erase Map.empty
install_run = refl

-- A second line in the spec file.
two_lines_refused : spec_well_formed (line ++ line) ≡ false
unfolding spec_well_formed
two_lines_refused = refl

unprivileged_run :
    (priv_main visudo (record quiet { euid_root = false }) (codes "useradd" ∷ user ∷ []) fresh).code
    ≡ 11
unfolding priv_main
unprivileged_run = refl

spec_well_formed-eq-spec_is_well_formed_example : spec_well_formed line ≡ spec_is_well_formed line
spec_well_formed-eq-spec_is_well_formed_example = spec_well_formed-eq-spec_is_well_formed line

cmd_install_grant-GrantOutcome_example :
    GrantOutcome visudo smooth grantid fresh.sudoers (read_spec (opened true 47 (some line))) (
      (cmd_install_grant visudo quiet (grantid ∷ []) fresh).code,
      (cmd_install_grant visudo quiet (grantid ∷ []) fresh).machine.sudoers,
    )
cmd_install_grant-GrantOutcome_example =
    cmd_install_grant-GrantOutcome visudo quiet grantid fresh refl

fresh-IsGuarded : IsGuarded visudo fresh.sudoers
fresh-IsGuarded name t active managed found =
    absurd (ground (arith, found, Map.find-empty {V = Text} name))

abbrev calls : List (List Text × Answers)
calls =
    (codes "install-grant" ∷ grantid ∷ [], quiet)
    ∷ (codes "install-system-admin" ∷ user ∷ [], quiet)
    ∷ (codes "revoke-grant" ∷ grantid ∷ [], quiet)
    ∷ []

run_all-IsGuarded_example : IsGuarded visudo (run_all visudo calls fresh).sudoers
run_all-IsGuarded_example = run_all-IsGuarded visudo calls fresh fresh-IsGuarded

useradd_loop-Ends_example : Ends busy_twice 0 60 182_200 (useradd_loop busy_twice 0 60 200)
useradd_loop-Ends_example = useradd_loop-Ends busy_twice

cmd_write_runtime-Stored_example :
    Stored (username_of user ++ codes "/runtime.json") account (codes "{}") fresh.states (
      (cmd_write_runtime quiet (user ∷ base64_encode (codes "{}") ∷ []) fresh).code,
      (cmd_write_runtime quiet (user ∷ base64_encode (codes "{}") ∷ []) fresh).machine.states,
    )
cmd_write_runtime-Stored_example =
    cmd_write_runtime-Stored quiet user account b'{' (b'}' ∷ []) fresh refl found
      (omega arith, (omega arith, tt)) (omega arith)
  where
    found : lookup_account quiet (username_of user) fresh ≡ some account
    found = Map.find-set_self Map.empty (username_of user) account
