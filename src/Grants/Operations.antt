-- ===== src/Grants/Operations.antt =====
-- The operations of GrantManager: load, persist, request, revoke, sweep and reconcile. The printer and
-- the parser of vendor/json.hpp are parameters; the audit log is left out.
use server_mcp_bridge.Base.{
  ℕ, suc, Bool, true, false, not, ◌||◌, Option, none, some, List, [], ◌∷◌, ◌++◌, Text, codes, ℤ,
  pos, negsuc, ltℤ, eqℤ, if◌then◌else◌,
}
use server_mcp_bridge.Json.{Json, arr}
use server_mcp_bridge.Map
use server_mcp_bridge.Map.{Map}
use server_mcp_bridge.GrantTemplate
use server_mcp_bridge.GrantTemplate.{GrantTemplate, spec_is_well_formed}
use server_mcp_bridge.Grants.{
  Grant, make_grantid, valid_grantid, WriteEnd, written, failed, lost, Failure, message,
  helper_failed, Result, returned, threw, Spawn, not_spawned, ran, killed, Kill, PrivHelper,
  GrantManager, RevokeCall, RequestCall, grants_json, expiry, on_disk_grants, expired_ids,
  request_spec, orphans, stale_ids, dropped_ids, erase_all,
}

abbrev pub err_of : {Call : Type 0} → Spawn Call → Text
err_of (not_spawned err) = err
err_of (ran c err) = err
err_of (killed c k err) = err

-- `!WIFEXITED(status)`.
abbrev pub was_killed : {Call : Type 0} → Spawn Call → Bool
was_killed (not_spawned err) = false
was_killed (ran c err) = false
was_killed (killed c k err) = true

abbrev pub install_err : {Call : Type 0} → RequestCall Call → Text
install_err c = elim c.spec_fault [ some what ↦ what | none ↦ err_of c.spawn ]

abbrev pub new_grant :
    {Call : Type 0} → RequestCall Call → (shortid template_name : Text) → Json → (ttl : ℤ) → Grant
new_grant c shortid template_name captured_args ttl = record {
  grantid = make_grantid c.rd;
  shortid = shortid;
  template_name = template_name;
  captured_args = captured_args;
  expires_at = expiry c.now ttl;
}

module _ {W : Type 0} where
  -- atomic_write of the table; `dump` throws on a text that is not UTF-8.
  abbrev pub write_file :
      WriteEnd → (text : Option Text) → GrantManager W → Option Failure × GrantManager W
  write_file ending none s = (some (message (codes "invalid UTF-8")), s)
  write_file written (some text) s = (none, record s { file = some (text ++ b'\n' ∷ []) })
  write_file (failed what) (some text) s = (some (message what), s)
  write_file (lost what) (some text) s = (some (message what), record s { file = none })

  -- The exit code of the helper, -1 if it did not start or if a signal killed it on its way.
  abbrev pub run_spawn :
      {Call : Type 0} → Spawn Call → (Call → W → ℤ × W) → (Call → Kill → W → W) → W → ℤ × W
  run_spawn (not_spawned err) op cut w = (negsuc 0, w)
  run_spawn (ran c err) op cut w = op c w
  run_spawn (killed c k err) op cut w = (negsuc 0, cut c k w)

  -- `unlink(spec_path)`, once the helper is done.
  abbrev pub unlink_spec : (unlinked : Bool) (grantid : Text) → GrantManager W → GrantManager W
  unlink_spec unlinked grantid s =
      if unlinked then record s { specs = Map.erase s.specs grantid } else s

  abbrev pub after_helper :
      {Call : Type 0}
      → RequestCall Call
      → (grantid : Text) → GrantManager W
      → ℤ × W
      → ℤ × GrantManager W
  after_helper c grantid s (rc, w) =
      let s' = record s { outside = w } in
      if not (eqℤ rc (pos 0)) then (rc, s') else (rc, unlink_spec c.unlinked grantid s')

  abbrev pub without : (grantid : Text) → GrantManager W → GrantManager W
  without grantid s = record s { grants = Map.erase s.grants grantid }

  module _ (dump : Json → Option Text) where
    unfoldable pub persist_state_locked :
        WriteEnd → GrantManager W → Option Failure × GrantManager W
    unfolding grants_json
    persist_state_locked ending s =
        write_file ending (dump (arr (grants_json (Map.to_list s.grants)))) s

    module _ {Call : Type 0} (h : PrivHelper W Call) where
      -- The exit code, the text of the error, and the state after it.
      unfoldable pub install_grant_via_helper :
          RequestCall Call → (grantid spec : Text) → GrantManager W → ℤ × GrantManager W
      install_grant_via_helper c grantid spec s = elim c.spec_fault [
        | some what ↦ (negsuc 0, s)
        | none ↦
            after_helper c grantid (record s { specs = Map.set s.specs grantid spec })
              (run_spawn c.spawn (λ k. h.install_grant k grantid spec)
                (λ k n. h.killed_install k n grantid spec) s.outside)
      ]

      -- After the helper: a failed grant is taken out of the table again.
      abbrev pub conclude_request :
          RequestCall Call → Grant → ℤ × GrantManager W → Result Grant × GrantManager W
      conclude_request c g (rc, s) =
          if not (eqℤ rc (pos 0))
          then (
            threw (helper_failed rc (install_err c)),
            (persist_state_locked c.second_ending (without g.grantid s)).1,
          )
          else (returned g, s)

      abbrev pub after_persist :
          RequestCall Call
          → Grant
          → (spec : Text) → Option Failure × GrantManager W
          → Result Grant × GrantManager W
      after_persist c g spec (some what, s) = (threw what, without g.grantid s)
      after_persist c g spec (none, s) =
          conclude_request c g (install_grant_via_helper c g.grantid spec s)

      -- From the insertion into the table on.
      unfoldable pub issue_grant :
          RequestCall Call → Grant → (spec : Text) → GrantManager W → Result Grant × GrantManager W
      unfolding persist_state_locked install_grant_via_helper
      issue_grant c g spec s =
          after_persist c g spec (
            persist_state_locked c.first_ending
              (record s { grants = Map.set s.grants g.grantid g }))

      abbrev pub checked_spec :
          RequestCall Call
          → Grant
          → GrantTemplate.Result
          → GrantManager W
          → Result Grant × GrantManager W
      checked_spec c g (GrantTemplate.threw what) s = (threw (message what), s)
      checked_spec c g (GrantTemplate.returned spec) s =
          if not (spec_is_well_formed spec)
          then (threw (message (codes "grants: rendered spec failed shape check")), s)
          else issue_grant c g spec s

      unfoldable pub request_grant :
          (match : (regex v : Text) → Option Bool)
          → List GrantTemplate
          → RequestCall Call
          → (shortid template_name : Text) → Json
          → (ttl : ℤ) → GrantManager W
          → Result Grant × GrantManager W
      unfolding make_grantid request_spec issue_grant spec_is_well_formed
      request_grant match templates c shortid template_name captured_args ttl s =
          if ltℤ ttl (pos 1) || ltℤ (pos 86400) ttl
          then (threw (message (codes "grants: ttl must be between 1 and 86400 seconds")), s)
          else checked_spec c (new_grant c shortid template_name captured_args ttl)
              (request_spec match templates shortid template_name captured_args) s

      -- The erasure and the write that follows it if there was an entry.
      abbrev pub erased :
          WriteEnd → (grantid : Text) → GrantManager W → Result (Unit {0}) × GrantManager W
      erased ending grantid s = elim (Map.find s.grants grantid) [
        | none ↦ (returned tt, s)
        | some g ↦
            let (fault, s') = persist_state_locked ending (without grantid s) in
            (elim fault [ none ↦ returned tt | some what ↦ threw what ], s')
      ]

      unfoldable pub revoke_grant :
          RevokeCall Call → (grantid : Text) → GrantManager W → Result (Unit {0}) × GrantManager W
      unfolding persist_state_locked
      revoke_grant c grantid s =
          let (rc, w) =
            run_spawn c.spawn (λ k. h.revoke_grant k grantid) (λ k n. h.killed_revoke k n grantid)
              s.outside in
          if not (valid_grantid grantid)
          then (threw (message (codes "grants: invalid grantid")), s)
          else erased c.ending grantid (record s { outside = w })

      -- The second loop of sweep_expired, which catches what revoke_grant throws.
      unfoldable pub revoke_each :
          (calls : ℕ → RevokeCall Call) (i : ℕ) → List Text → GrantManager W → GrantManager W
      unfolding revoke_grant
      revoke_each calls i [] s = s
      revoke_each calls i (id ∷ ids) s =
          revoke_each calls (suc i) ids (revoke_grant (calls i) id s).1

      unfoldable pub sweep_expired :
          (calls : ℕ → RevokeCall Call) (now : ℕ) → GrantManager W → GrantManager W
      unfolding expired_ids revoke_each
      sweep_expired calls now s = revoke_each calls 0 (expired_ids now (Map.to_list s.grants)) s

      -- The last loop of reconcile_at_startup.
      unfoldable pub revoke_on_disk : (calls : ℕ → Spawn Call) (i : ℕ) → List Text → W → W
      revoke_on_disk calls i [] w = w
      revoke_on_disk calls i (id ∷ ids) w =
          revoke_on_disk calls (suc i) ids
            (run_spawn (calls i) (λ k. h.revoke_grant k id) (λ k n. h.killed_revoke k n id) w).1

      -- `names` are those of the entries of the directory of sudoers.
      unfoldable pub reconcile_at_startup :
          (calls : ℕ → Spawn Call)
          → WriteEnd
          → (now : ℕ) (names : List Text) → GrantManager W
          → GrantManager W
      unfolding on_disk_grants dropped_ids stale_ids orphans erase_all revoke_on_disk
          persist_state_locked
      reconcile_at_startup calls ending now names s =
          let on_disk = on_disk_grants names in
          let pairs = Map.to_list s.grants in
          let kept = erase_all (dropped_ids now on_disk pairs) s.grants in
          let s' = (persist_state_locked ending (record s { grants = kept })).1 in
          record s' {
            outside =
                revoke_on_disk calls 0 (stale_ids now on_disk pairs ++ orphans kept on_disk)
                  s'.outside;
          }
