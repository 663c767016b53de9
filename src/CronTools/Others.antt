-- ===== src/CronTools/Others.antt =====
-- What each cron tool does in steps of its account, so that the jobs and the crontabs of other
-- accounts stay.
use server_mcp_bridge.Base.{
  ◌≡◌, ◌≢◌, refl, inl, inr, Option, none, some, List, [], ◌∷◌, Text, codes, All, is_empty,
  Bool-cases, Option-cases,
}
use server_mcp_bridge.Json.{Fields, get, string_value, string_at}
use server_mcp_bridge.Auth.{RequestContext}
use server_mcp_bridge.Registry.{ToolResult}
use server_mcp_bridge.CronFile
use server_mcp_bridge.CronFile.{CronJob, CronStore, Outside}
use server_mcp_bridge.CronStore.Writes.{IsFiled}
use server_mcp_bridge.CronStore.Commits.{Operation, add_job, update_job, remove_job, run}
use server_mcp_bridge.CronStore.Owners.{caller}
use server_mcp_bridge.Crontab.{validate_schedule}
use server_mcp_bridge.CronTools.{
  CronWorld, Processes, CronCall, delete_with, update_rest, optional_arg, schedule_error,
  write_user_crontab, rebuild_user_schedule, write_meta, remove_per_job_meta, then_rebuild,
  apply_job_install, after_install, after_add, create_with, cron_create, cron_list, after_update,
  update_with, cron_update, after_remove, cron_delete,
}
use server_mcp_bridge.CronTools.Steps.{
  Reaches, stays, calls, writes, goes, Reaches-IsFiled, Keeps, Keeps-refl, Keeps-trans,
  Reaches-Keeps,
}

module _ (o : Outside) (runner_path : Text) (os : Text) where
  write_user_crontab-Reaches :
      (p : Processes) (text : Text) (w : CronWorld)
      → Reaches o os w (write_user_crontab p os text w).1
  write_user_crontab-Reaches p text w = elim (Option-cases p.crontab_fault) [
    | inl e ↦ rw e (writes text refl refl)
    | inr (what, e) ↦ rw e (stays refl refl)
  ]

  rebuild_user_schedule-Reaches :
      (p : Processes) (w : CronWorld)
      → Reaches o os w (rebuild_user_schedule o runner_path p os w).1
  unfolding rebuild_user_schedule
  rebuild_user_schedule-Reaches p w = write_user_crontab-Reaches p _ w

  write_meta-Reaches :
      (p : Processes) (j : CronJob) (body : Option Text) (w : CronWorld)
      → Reaches o os w (write_meta o runner_path p j body w).1
  write_meta-Reaches p j none w = stays refl refl
  write_meta-Reaches p j (some body) w = elim (Option-cases p.meta_fault) [
    | inl e ↦ rw e (stays refl refl)
    | inr (what, e) ↦ rw e (stays refl refl)
  ]

  then_rebuild-Reaches :
      (p : Processes) (w : CronWorld) (a : Option Text × CronWorld)
      → Reaches o os w a.1
      → Reaches o os w (then_rebuild o runner_path p os a).1
  then_rebuild-Reaches p w (some what, v) h = h
  then_rebuild-Reaches p w (none, v) h = goes h (rebuild_user_schedule-Reaches p v)

  apply_job_install-Reaches :
      (p : Processes) (j : CronJob) (w : CronWorld)
      → Reaches o os w (apply_job_install o runner_path p j os w).1
  unfolding apply_job_install
  apply_job_install-Reaches p j w = then_rebuild-Reaches p w _ (write_meta-Reaches p j _ w)

  after_install-Reaches :
      (c : CronCall) (j : CronJob) (w : CronWorld) (a : Option Text × CronWorld)
      → Reaches o os w a.1
      → Reaches o os w (after_install o runner_path c j os a).1
  after_install-Reaches c j w (none, v) h = h
  after_install-Reaches c j w (some what, v) h =
      goes h (calls (remove_job c.undo_fault j.job_id os) refl refl refl)

  after_add-Reaches :
      (c : CronCall) (op : Operation) (w : CronWorld) (r : CronFile.Result CronJob × CronStore)
      → caller op ≡ os
      → r.1 ≡ (run o op w.store).1
      → Reaches o os w (after_add o runner_path c os w r).1
  after_add-Reaches c op w (CronFile.threw what, s) own h = calls op own h refl
  after_add-Reaches c op w (CronFile.returned j, s) own h =
      after_install-Reaches c j w _
        (goes (calls op own h refl) (apply_job_install-Reaches c.processes j _))

  after_update-Reaches :
      (c : CronCall) (op : Operation) (w : CronWorld) (r : CronFile.Result CronJob × CronStore)
      → caller op ≡ os
      → r.1 ≡ (run o op w.store).1
      → Reaches o os w (after_update o runner_path c os w r).1
  after_update-Reaches c op w (CronFile.threw what, s) own h = calls op own h refl
  after_update-Reaches c op w (CronFile.returned j, s) own h =
      goes (calls op own h refl) (apply_job_install-Reaches c.processes j _)

  remove_per_job_meta-Reaches :
      (p : Processes) (j : CronJob) (w : CronWorld)
      → Reaches o os w (remove_per_job_meta o runner_path p j w)
  remove_per_job_meta-Reaches p j w = elim (Option-cases p.meta_fault) [
    | inl e ↦ rw e (stays refl refl)
    | inr (what, e) ↦ rw e (stays refl refl)
  ]

  after_remove-Reaches :
      (c : CronCall) (op : Operation) (w : CronWorld) (r : CronFile.Result CronJob × CronStore)
      → caller op ≡ os
      → r.1 ≡ (run o op w.store).1
      → Reaches o os w (after_remove o runner_path c os w r).1
  after_remove-Reaches c op w (CronFile.threw what, s) own h = calls op own h refl
  after_remove-Reaches c op w (CronFile.returned j, s) own h =
      goes (goes (calls op own h refl) (remove_per_job_meta-Reaches c.processes j _))
        (rebuild_user_schedule-Reaches c.processes _)

pub data CronTool : Type 0 where
  create_tool : CronTool
  list_tool : CronTool
  update_tool : CronTool
  delete_tool : CronTool

-- A call of one of the four tools, with what the system answers it.
pub record CronToolCall : Type 0 where
  pub tool : CronTool
  pub answers : CronCall
  pub ctx : RequestContext
  pub args : Fields

module _ (o : Outside) (runner_path : Text) where
  abbrev pub run_tool :
      CronTool → CronCall → RequestContext → Fields → CronWorld → ToolResult × CronWorld
  run_tool create_tool c ctx args w = cron_create o runner_path c ctx args w
  run_tool list_tool c ctx args w = cron_list o runner_path ctx args w
  run_tool update_tool c ctx args w = cron_update o runner_path c ctx args w
  run_tool delete_tool c ctx args w = cron_delete o runner_path c ctx args w

  -- The world after a history of calls.
  abbrev pub run_tools : List CronToolCall → CronWorld → CronWorld
  run_tools [] w = w
  run_tools (t ∷ ts) w = run_tools ts (run_tool t.tool t.answers t.ctx t.args w).1

  create_with-Reaches :
      (c : CronCall) (ctx : RequestContext) (schedule command description context_id : Option Text)
      (w : CronWorld)
      → Reaches o ctx.os_username w
          (create_with o runner_path c ctx schedule command description context_id w).1
  create_with-Reaches c ctx (some schedule) (some command) (some description) (some context_id) w =
      elim (Bool-cases (is_empty (validate_schedule schedule))) [
        | inl e ↦ rw e (
            after_add-Reaches o runner_path ctx.os_username c
              (add_job c.rd c.now c.fault ctx.user_id ctx.os_username schedule command description
                context_id)
              w _ refl refl)
        | inr e ↦ rw e (stays refl refl)
      ]
  create_with-Reaches c ctx none _ _ _ w = stays refl refl
  create_with-Reaches c ctx (some _) none _ _ w = stays refl refl
  create_with-Reaches c ctx (some _) (some _) none _ w = stays refl refl
  create_with-Reaches c ctx (some _) (some _) (some _) none w = stays refl refl

  update_rest-Reaches :
      (c : CronCall) (ctx : RequestContext) (job_id : Text) (schedule : Option Text)
      (command description context_id : Option (Option Text)) (w : CronWorld)
      → Reaches o ctx.os_username w
          (update_rest o runner_path c ctx job_id schedule command description context_id w).1
  update_rest-Reaches c ctx job_id schedule (some command) (some description) (some context_id) w =
      after_update-Reaches o runner_path ctx.os_username c
        (update_job c.now c.fault job_id ctx.os_username schedule command description context_id) w
        _ refl refl
  update_rest-Reaches c ctx job_id schedule none _ _ w = stays refl refl
  update_rest-Reaches c ctx job_id schedule (some _) none _ w = stays refl refl
  update_rest-Reaches c ctx job_id schedule (some _) (some _) none w = stays refl refl

  update_with-Reaches :
      (c : CronCall) (ctx : RequestContext) (job_id : Option Text)
      (schedule command description context_id : Option (Option Text)) (w : CronWorld)
      → Reaches o ctx.os_username w
          (update_with o runner_path c ctx job_id schedule command description context_id w).1
  update_with-Reaches c ctx none _ _ _ _ w = stays refl refl
  update_with-Reaches c ctx (some _) none _ _ _ w = stays refl refl
  update_with-Reaches c ctx (some job_id) (some schedule) command description context_id w =
      elim (Bool-cases (is_empty (schedule_error schedule))) [
        | inl e ↦ rw e (update_rest-Reaches c ctx job_id schedule command description context_id w)
        | inr e ↦ rw e (stays refl refl)
      ]

  pub run_tool-Reaches :
      (tool : CronTool) (c : CronCall) (ctx : RequestContext) (args : Fields) (w : CronWorld)
      → Reaches o ctx.os_username w (run_tool tool c ctx args w).1
  unfolding cron_create cron_list cron_update cron_delete
  run_tool-Reaches create_tool c ctx args w = elim (Bool-cases (is_empty ctx.os_username)) [
    | inl e ↦ rw e (stays refl refl)
    | inr e ↦ rw e (
        create_with-Reaches c ctx (string_at (get (codes "schedule") args))
          (string_at (get (codes "command") args)) (string_value (get (codes "description") args))
          (string_value (get (codes "context_id") args)) w)
  ]
  run_tool-Reaches list_tool c ctx args w = elim (Bool-cases (is_empty ctx.os_username)) [
    | inl e ↦ rw e (stays refl refl)
    | inr e ↦ rw e (stays refl refl)
  ]
  run_tool-Reaches update_tool c ctx args w = elim (Bool-cases (is_empty ctx.os_username)) [
    | inl e ↦ rw e (stays refl refl)
    | inr e ↦ rw e (
        update_with-Reaches c ctx (string_at (get (codes "job_id") args))
          (optional_arg (codes "schedule") args) (optional_arg (codes "command") args)
          (optional_arg (codes "description") args) (optional_arg (codes "context_id") args) w)
  ]
  run_tool-Reaches delete_tool c ctx args w = elim (Bool-cases (is_empty ctx.os_username)) [
    | inl e ↦ rw e (stays refl refl)
    | inr e ↦ rw e (deleted (string_at (get (codes "job_id") args)))
  ]
    where
      deleted :
          (job_id : Option Text)
          → Reaches o ctx.os_username w (delete_with o runner_path c ctx job_id w).1
      deleted none = stays refl refl
      deleted (some id) =
          after_remove-Reaches o runner_path ctx.os_username c
            (remove_job c.fault id ctx.os_username) w _ refl refl

  -- However often the cron tools run for other accounts, whatever their arguments are and the calls
  -- answer, an account finds its crontab and its jobs as they were and no others, and every job
  -- still stands under its own valid identifier, if every job does before.
  pub run_tools-Keeps :
      (ts : List CronToolCall) (w : CronWorld) (mine : Text)
      → IsFiled w.store
      → All (λ t. mine ≢ t.ctx.os_username) ts
      → IsFiled (run_tools ts w).store × Keeps o mine w (run_tools ts w)
  run_tools-Keeps [] w mine filed h = (filed, Keeps-refl o mine w)
  run_tools-Keeps (t ∷ ts) w mine filed (other, others) =
      let step = run_tool-Reaches t.tool t.answers t.ctx t.args w in
      let next = (run_tool t.tool t.answers t.ctx t.args w).1 in
      let filed' = Reaches-IsFiled o t.ctx.os_username w next step filed in
      let rest = run_tools-Keeps ts next mine filed' others in
      (
        rest.0,
        Keeps-trans o mine w next (run_tools ts next)
            (Reaches-Keeps o t.ctx.os_username mine w next other step filed) rest.1,
      )
