-- ===== src/CronTools.antt =====
-- The cron tools of src/tools/scheduling/cron_ops.cpp over the store and the backend of Linux
-- (cron_backend_linux.cpp): handlers of the registry. What the random device, the clock, the writes of
-- the store and the processes that run as the user answer is an argument of a call.
pub mod Listed
pub mod Created
pub mod Steps
pub mod Others
mod Tests
use server_mcp_bridge.Base.{
  ℕ, Bool, true, false, not, Option, none, some, List, [], ◌∷◌, ◌++◌, Text, codes, ℤ, pos, length,
  is_empty, if◌then◌else◌,
}
use server_mcp_bridge.Json.{
  Json, boolean, integer, str, arr, obj, Items, nil, cons, Fields, end, field, get, contains,
  string_value, string_at,
}
use server_mcp_bridge.Map
use server_mcp_bridge.Map.{Map}
use server_mcp_bridge.Auth.{RequestContext}
use server_mcp_bridge.Registry.{ToolResult, returned, threw}
use server_mcp_bridge.CronFile
use server_mcp_bridge.CronFile.{CronJob, CronStore, Outside}
use server_mcp_bridge.CronStore
use server_mcp_bridge.CronStore.{add, update, list_for_user}
use server_mcp_bridge.Crontab.{build_crontab_text, validate_schedule}

-- The store, the crontabs of the accounts, and the files `<os_username>/crons/<job_id>.json`.
pub record CronWorld : Type 0 where
  pub store : CronStore
  pub crontabs : Map Text
  pub metas : Map Text

-- What the processes of an installation answer; a failure has the message of its exception. If
-- `crontab -l` fails, its output is empty.
pub record Processes : Type 0 where
  pub meta_fault : Option Text
  pub list_failed : Bool
  pub crontab_fault : Option Text

pub record CronCall : Type 0 where
  pub rd : ℕ → ℕ
  pub now : ℤ
  pub fault : Option Text
  pub processes : Processes
  pub undo_fault : Option Text

abbrev pub job_to_json : CronJob → Json
job_to_json j = obj (
    field (codes "job_id") (str j.job_id) (
      field (codes "user_id") (str j.user_id) (
        field (codes "schedule") (str j.schedule) (
          field (codes "command") (str j.command) (
            field (codes "description") (str j.description) (
              field (codes "context_id") (str j.context_id) (
                field (codes "created_at") (integer j.created_at)
                  (field (codes "updated_at") (integer j.updated_at) end))))))))

unfoldable pub jobs_to_json : List CronJob → Items
jobs_to_json [] = nil
jobs_to_json (j ∷ jobs) = cons (job_to_json j) (jobs_to_json jobs)

abbrev pub meta_json : CronJob → Json
meta_json j = obj (
    field (codes "job_id") (str j.job_id) (
      field (codes "user_id") (str j.user_id) (
        field (codes "schedule") (str j.schedule) (
          field (codes "command") (str j.command) (
            field (codes "description") (str j.description)
              (field (codes "context_id") (str j.context_id) end))))))

abbrev pub meta_path : CronJob → Text
meta_path j = j.os_username ++ (codes "/crons/" ++ (j.job_id ++ codes ".json"))

-- `crontab -l`, of a user without a crontab too.
abbrev pub crontab_of : (os_username : Text) → CronWorld → Text
crontab_of os_username w = elim (Map.find w.crontabs os_username) [ none ↦ [] | some t ↦ t ]

abbrev pub read_user_crontab : Processes → (os_username : Text) → CronWorld → Text
read_user_crontab p os_username w = if p.list_failed then [] else crontab_of os_username w

-- A step returns or throws, and changes the world.
abbrev pub write_user_crontab :
    Processes → (os_username text : Text) → CronWorld → Option Text × CronWorld
write_user_crontab p os_username text w = elim p.crontab_fault [
  | some what ↦ (some what, w)
  | none ↦ (none, record w { crontabs = Map.set w.crontabs os_username text })
]

-- `throw` of the message of a call of the store.
abbrev pub args_error : ToolResult
args_error = threw (codes "type_error")

-- An optional argument of cron_update: absent, given, or of another type.
abbrev pub optional_arg : (name : Text) → Fields → Option (Option Text)
optional_arg name args = elim (get name args) [
  | none ↦ some none
  | some v ↦ elim (string_at (some v)) [ none ↦ none | some t ↦ some (some t) ]
]

abbrev pub schedule_error : Option Text → Text
schedule_error none = []
schedule_error (some schedule) = validate_schedule schedule

module _ (o : Outside) (runner_path : Text) where
  unfoldable pub rebuild_user_schedule :
      Processes → (os_username : Text) → CronWorld → Option Text × CronWorld
  unfolding build_crontab_text
  rebuild_user_schedule p os_username w =
      write_user_crontab p os_username
        (build_crontab_text (read_user_crontab p os_username w) (list_for_user os_username w.store)
          runner_path)
        w

  abbrev pub write_meta : Processes → CronJob → Option Text → CronWorld → Option Text × CronWorld
  write_meta p j none w = (some (codes "invalid UTF-8"), w)
  write_meta p j (some body) w = elim p.meta_fault [
    | some what ↦ (some what, w)
    | none ↦ (none, record w { metas = Map.set w.metas (meta_path j) (body ++ b'\n' ∷ []) })
  ]

  abbrev pub write_per_job_meta : Processes → CronJob → CronWorld → Option Text × CronWorld
  write_per_job_meta p j w = write_meta p j (o.dump (meta_json j)) w

  -- A failure is a log line only.
  abbrev pub remove_per_job_meta : Processes → CronJob → CronWorld → CronWorld
  remove_per_job_meta p j w = elim p.meta_fault [
    | some what ↦ w
    | none ↦ record w { metas = Map.erase w.metas (meta_path j) }
  ]

  abbrev pub then_rebuild :
      Processes → (os_username : Text) → Option Text × CronWorld → Option Text × CronWorld
  then_rebuild p os_username (some what, w) = (some what, w)
  then_rebuild p os_username (none, w) = rebuild_user_schedule p os_username w

  unfoldable pub apply_job_install :
      Processes → CronJob → (os_username : Text) → CronWorld → Option Text × CronWorld
  unfolding rebuild_user_schedule
  apply_job_install p j os_username w = then_rebuild p os_username (write_per_job_meta p j w)

  -- The end of cron_create: a failure takes the job out of the store again.
  abbrev pub after_install :
      CronCall → CronJob → (os_username : Text) → Option Text × CronWorld → ToolResult × CronWorld
  after_install c j os_username (none, w) = (returned (job_to_json j), w)
  after_install c j os_username (some what, w) =
      let (ignored, store) = CronStore.remove o c.undo_fault j.job_id os_username w.store in
      (threw what, record w { store = store })

  abbrev pub after_add :
      CronCall
      → (os_username : Text) → CronWorld
      → CronFile.Result CronJob × CronStore
      → ToolResult × CronWorld
  after_add c os_username w (CronFile.threw what, store) = (threw what, record w { store = store })
  after_add c os_username w (CronFile.returned j, store) =
      after_install c j os_username
        (apply_job_install c.processes j os_username (record w { store = store }))

  abbrev pub create_with :
      CronCall
      → RequestContext
      → (schedule command description context_id : Option Text) → CronWorld
      → ToolResult × CronWorld
  create_with c ctx (some schedule) (some command) (some description) (some context_id) w =
      if not (is_empty (validate_schedule schedule))
      then (threw (codes "cron_create: " ++ validate_schedule schedule), w)
      else after_add c ctx.os_username w (
          add o c.rd c.now c.fault ctx.user_id ctx.os_username schedule command description
            context_id w.store)
  create_with c ctx _ _ _ _ w = (args_error, w)

  unfoldable pub cron_create :
      CronCall → RequestContext → Fields → CronWorld → ToolResult × CronWorld
  unfolding validate_schedule add apply_job_install
  cron_create c ctx args w =
      if is_empty ctx.os_username
      then (threw (codes "cron_create: request has no bound os_username"), w)
      else create_with c ctx (string_at (get (codes "schedule") args))
          (string_at (get (codes "command") args)) (string_value (get (codes "description") args))
          (string_value (get (codes "context_id") args)) w

  unfoldable pub cron_list : RequestContext → Fields → CronWorld → ToolResult × CronWorld
  unfolding jobs_to_json
  cron_list ctx args w =
      let jobs = list_for_user ctx.os_username w.store in
      if is_empty ctx.os_username
      then (threw (codes "cron_list: request has no bound os_username"), w)
      else (
        returned (
            obj (
              field (codes "jobs") (arr (jobs_to_json jobs))
                (field (codes "count") (integer (pos (length jobs))) end))),
        w,
      )

  -- The end of cron_update: a failure is thrown, and the store keeps the change.
  abbrev pub after_update :
      CronCall
      → (os_username : Text) → CronWorld
      → CronFile.Result CronJob × CronStore
      → ToolResult × CronWorld
  after_update c os_username w (CronFile.threw what, store) =
      (threw what, record w { store = store })
  after_update c os_username w (CronFile.returned j, store) =
      let (fault, w') = apply_job_install c.processes j os_username (record w { store = store }) in
      (elim fault [ none ↦ returned (job_to_json j) | some what ↦ threw what ], w')

  abbrev pub update_rest :
      CronCall
      → RequestContext
      → (job_id : Text) (schedule : Option Text)
        (command description context_id : Option (Option Text))
      → CronWorld
      → ToolResult × CronWorld
  update_rest c ctx job_id schedule (some command) (some description) (some context_id) w =
      after_update c ctx.os_username w (
        update o c.now c.fault job_id ctx.os_username schedule command description context_id
          w.store)
  update_rest c ctx job_id schedule _ _ _ w = (args_error, w)

  abbrev pub update_with :
      CronCall
      → RequestContext
      → (job_id : Option Text) → (schedule command description context_id : Option (Option Text))
      → CronWorld
      → ToolResult × CronWorld
  update_with c ctx (some job_id) (some schedule) command description context_id w =
      if not (is_empty (schedule_error schedule))
      then (threw (codes "cron_update: " ++ schedule_error schedule), w)
      else update_rest c ctx job_id schedule command description context_id w
  update_with c ctx _ _ _ _ _ w = (args_error, w)

  unfoldable pub cron_update :
      CronCall → RequestContext → Fields → CronWorld → ToolResult × CronWorld
  unfolding validate_schedule update apply_job_install
  cron_update c ctx args w =
      if is_empty ctx.os_username
      then (threw (codes "cron_update: request has no bound os_username"), w)
      else update_with c ctx (string_at (get (codes "job_id") args))
          (optional_arg (codes "schedule") args) (optional_arg (codes "command") args)
          (optional_arg (codes "description") args) (optional_arg (codes "context_id") args) w

  -- The end of cron_delete.
  abbrev pub after_remove :
      CronCall
      → (os_username : Text) → CronWorld
      → CronFile.Result CronJob × CronStore
      → ToolResult × CronWorld
  after_remove c os_username w (CronFile.threw what, store) =
      (threw what, record w { store = store })
  after_remove c os_username w (CronFile.returned j, store) =
      let (fault, w') =
        rebuild_user_schedule c.processes os_username
          (remove_per_job_meta c.processes j (record w { store = store })) in
      (
        elim fault [
          | none ↦ returned (
              obj (
                field (codes "job_id") (str j.job_id) (field (codes "deleted") (boolean true) end)))
          | some what ↦ threw what
        ],
        w',
      )

  abbrev pub delete_with :
      CronCall → RequestContext → (job_id : Option Text) → CronWorld → ToolResult × CronWorld
  delete_with c ctx none w = (args_error, w)
  delete_with c ctx (some job_id) w =
      after_remove c ctx.os_username w (CronStore.remove o c.fault job_id ctx.os_username w.store)

  unfoldable pub cron_delete :
      CronCall → RequestContext → Fields → CronWorld → ToolResult × CronWorld
  unfolding CronStore.remove rebuild_user_schedule
  cron_delete c ctx args w =
      if is_empty ctx.os_username
      then (threw (codes "cron_delete: request has no bound os_username"), w)
      else delete_with c ctx (string_at (get (codes "job_id") args)) w
