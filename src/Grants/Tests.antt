-- ===== src/Grants/Tests.antt =====
-- Runs of the manager with the helper of the repository, and instances of the theorems.
use server_mcp_bridge.Base.{
  ℕ, ◌+◌, ◌≡◌, refl, inl, inr, Bool, true, Option, none, some, List, [], ◌∷◌, arith, Text, codes, ℤ,
  pos, is_among, Bool-cases, text_eq, text_eq→eq, if◌then◌else◌, negsuc,
}
use server_mcp_bridge.Json.{Json, null}
use server_mcp_bridge.Map
use server_mcp_bridge.Map.{Map}
use server_mcp_bridge.GrantTemplate.{render_full_admin_spec}
use server_mcp_bridge.Priv.{Machine, Answers}
use server_mcp_bridge.Priv.Samples.{user, grantid, quiet, fresh, visudo}
use server_mcp_bridge.Priv.Main.{priv_main}
use server_mcp_bridge.Priv.Sudoers.{cmd_install_grant, cmd_revoke_grant, unlink_file, exists}
use server_mcp_bridge.Grants.{
  Grant, written, failed, Spawn, ran, killed, at_end, Result, returned, threw, helper_failed,
  GrantManager, RevokeCall, RequestCall, request_spec, make_grantid, PrivHelper,
}
use server_mcp_bridge.Grants.Operations.{
  request_grant, sweep_expired, reconcile_at_startup, new_grant,
}
use server_mcp_bridge.Grants.Requests.{RequestEnds, request_grant-RequestEnds}
use server_mcp_bridge.Grants.Sweeps.{
  IsFiled, AllSucceed, unexpired, has_expired, sweep_expired-find, sweep_expired-drop_in,
}
use server_mcp_bridge.Grants.Startup.{file_of, is_there, reconcile_at_startup-agrees}
use server_mcp_bridge.Grants.Privileged.{priv_helper}
use server_mcp_bridge.Grants.Histories.{IsBacked}
use server_mcp_bridge.Grants.Lifetime.{Op, request, sweep, lifetime, lifetime-IsBacked}

abbrev dump : Json → Option Text
dump v = some (codes "[]")

abbrev parse : Text → Option Json
parse t = none

abbrev truncate : Text → ℤ
truncate t = pos 0

abbrev match : (regex v : Text) → Option Bool
match regex v = some true

abbrev helper : PrivHelper Machine Answers
helper = priv_helper visudo

abbrev empty_state : GrantManager Machine
empty_state = record { grants = Map.empty; file = none; specs = Map.empty; outside = fresh }

abbrev a_request : RequestCall Answers
a_request = record {
  rd = λ k. k;
  now = 1000;
  first_ending = written;
  spec_fault = none;
  spawn = ran quiet [];
  unlinked = true;
  second_ending = written;
}

grantid_run : make_grantid (λ k. k + 250) ≡ codes "fafbfcfdfeff0001"
unfolding make_grantid
grantid_run = refl

-- The answer of a request for full administration, and the state after it.
abbrev answer : Result Grant × GrantManager Machine
answer =
    request_grant dump helper match [] a_request user (codes "full_admin") null (pos 60) empty_state

request_run :
    answer.0
    ≡ returned (record {
      grantid = codes "0001020304050607";
      shortid = user;
      template_name = codes "full_admin";
      captured_args = null;
      expires_at = pos 1060;
    })
unfolding request_grant render_full_admin_spec priv_helper priv_main cmd_install_grant Map.find
    Map.empty
request_run = refl

request_grant-RequestEnds_example :
    RequestEnds dump helper a_request
      (new_grant a_request user (codes "full_admin") null (pos 60))
      (pos 60)
      (request_spec match [] user (codes "full_admin") null)
      empty_state
      answer
request_grant-RequestEnds_example =
    request_grant-RequestEnds dump helper match [] a_request user (codes "full_admin") null (pos 60)
      empty_state

-- A signal kills the helper after its rename: the request throws, and the drop-in stays.
abbrev cut_answer : Result Grant × GrantManager Machine
cut_answer =
    request_grant dump helper match [] (record a_request { spawn = killed quiet at_end [] }) user
      (codes "full_admin") null (pos 60) empty_state

cut_run :
    (cut_answer.0 ≡ threw (helper_failed (negsuc 0) []))
    × (helper.drop_in cut_answer.1.outside (codes "0001020304050607")
        ≡ helper.drop_in answer.1.outside (codes "0001020304050607"))
unfolding request_grant render_full_admin_spec priv_helper priv_main cmd_install_grant Map.find
    Map.empty
cut_run = (refl, refl)

-- An entry that expires at 1060, with its drop-in on the machine.
abbrev an_entry : Grant
an_entry = record {
  grantid = grantid;
  shortid = user;
  template_name = codes "full_admin";
  captured_args = null;
  expires_at = pos 1060;
}

abbrev with_entry : GrantManager Machine
with_entry = record empty_state {
  grants = Map.set Map.empty grantid an_entry;
  outside = record fresh { sudoers = Map.set Map.empty (file_of grantid) (codes "line") };
}

with_entry-IsFiled : IsFiled with_entry.grants
with_entry-IsFiled id g found = elim (Bool-cases (text_eq grantid id)) [
  | inr e ↦ absurd (
      ground (
        arith,
        e,
        found,
        Map.find-set Map.empty grantid id an_entry,
        Map.find-empty {V = Grant} id,
      ))
  | inl e ↦
      let same : grantid ≡ id = text_eq→eq grantid id e in
      let new : an_entry ≡ g =
        ground (arith, e, found, Map.find-set Map.empty grantid id an_entry) in
      (rw (← new) same, rw (← same) refl)
]

abbrev spawns : ℕ → Spawn Answers
spawns i = ran quiet []

abbrev revokes : ℕ → RevokeCall Answers
revokes i = record { spawn = ran quiet []; ending = failed (codes "disk full") }

-- Nothing stands in the way of a revocation.
spawns-AllSucceed : AllSucceed dump helper spawns
unfolding priv_helper priv_main cmd_revoke_grant unlink_file text_eq
spawns-AllSucceed i id m valid =
    rw valid
      (elim (Bool-cases (exists m.sudoers (file_of id))) [ inl e ↦ rw e refl | inr e ↦ rw e refl ])

sweep_expired-find_example :
    Map.find (sweep_expired dump helper revokes 1060 with_entry).grants grantid
    ≡ unexpired 1060 (Map.find with_entry.grants grantid)
sweep_expired-find_example =
    sweep_expired-find dump helper revokes 1060 with_entry grantid with_entry-IsFiled

sweep_expired-drop_in_example :
    helper.drop_in (sweep_expired dump helper revokes 1060 with_entry).outside grantid ≡ (
      if has_expired 1060 grantid (Map.find with_entry.grants grantid)
      then none
      else helper.drop_in with_entry.outside grantid)
sweep_expired-drop_in_example =
    sweep_expired-drop_in dump helper revokes 1060 with_entry grantid with_entry-IsFiled
      spawns-AllSucceed

-- The directory lists the drop-in and a file of somebody else.
abbrev names : List Text
names = codes "README" ∷ file_of grantid ∷ []

reconcile_at_startup-agrees_example :
    is_there (
      helper.drop_in
        (reconcile_at_startup dump helper spawns written 1060 names with_entry).outside
        grantid)
    ≡ is_there (
        Map.find
          (reconcile_at_startup dump helper spawns written 1060 names with_entry).grants
          grantid)
reconcile_at_startup-agrees_example =
    reconcile_at_startup-agrees dump helper spawns written 1060 names with_entry grantid refl listed
      spawns-AllSucceed
  where
    listed : is_among (file_of grantid) names ≡ is_there (helper.drop_in with_entry.outside grantid)
    listed = unfold is_among priv_helper Map.find Map.set Map.erase Map.empty in refl

abbrev ops : List (Op Answers)
ops = request a_request user (codes "full_admin") null (pos 60) ∷ sweep revokes 1030 ∷ []

lifetime-IsBacked_example :
    IsBacked dump helper
      (lifetime dump helper match [] parse truncate spawns written 1000 [] ops empty_state)
lifetime-IsBacked_example =
    lifetime-IsBacked dump helper match [] parse truncate spawns written 1000 [] ops empty_state
      lists
  where
    lists : (j : Text) → is_among (file_of j) [] ≡ is_there (helper.drop_in empty_state.outside j)
    lists j = unfold is_among priv_helper Map.find Map.empty in refl
