-- ===== src/CronFile.antt =====
-- CronJob of src/core/cron_store.hpp, and how src/core/cron_store.cpp writes the jobs to
-- `<state_dir>/crons.json` and loads them. The text of the file is part of the state. The printer and
-- the parser of vendor/json.hpp are parameters, and the outcome of the system calls is an argument.
use server_mcp_bridge.Base.{
  not, Option, none, some, List, [], ◌∷◌, ◌++◌, Text, codes, ℤ, if◌then◌else◌,
}
use server_mcp_bridge.CronSyntax.{valid_jobid}
use server_mcp_bridge.Json.{
  Json, integer, str, arr, obj, Items, nil, cons, Fields, end, field, get, string_value, int_value,
}
use server_mcp_bridge.Map
use server_mcp_bridge.Map.{Map}

pub record CronJob : Type 0 where
  pub job_id : Text
  pub user_id : Text
  pub os_username : Text
  pub schedule : Text
  pub command : Text
  pub description : Text
  pub context_id : Text
  pub created_at : ℤ
  pub updated_at : ℤ

pub record CronStore : Type 0 where
  pub jobs : Map CronJob
  pub file : Option Text

-- A call returns, or throws a std::exception with a message.
pub data Result (A : Type 0) : Type 0 where
  returned : A → Result A
  threw : Text → Result A

-- What the files and the JSON library answer: `dump` throws (`none`) on a text that is not UTF-8.
pub record Outside : Type 0 where
  pub dump : Json → Option Text
  pub parse : Text → Option Json
  pub truncate : Text → ℤ

-- The fields of the element of the array that `persist_locked` writes for a job.
abbrev pub job_fields : CronJob → Fields
job_fields c = field (codes "job_id") (str c.job_id) (
    field (codes "user_id") (str c.user_id) (
      field (codes "os_username") (str c.os_username) (
        field (codes "schedule") (str c.schedule) (
          field (codes "command") (str c.command) (
            field (codes "description") (str c.description) (
              field (codes "context_id") (str c.context_id) (
                field (codes "created_at") (integer c.created_at)
                  (field (codes "updated_at") (integer c.updated_at) end))))))))

unfoldable pub jobs_json : List (Text × CronJob) → Items
jobs_json [] = nil
jobs_json ((id, c) ∷ cs) = cons (obj (job_fields c)) (jobs_json cs)

-- `atomic_write`: a system call that fails leaves the file as it was, and throws.
abbrev pub atomic_write : (fault : Option Text) → Text → CronStore → Result (Unit {0}) × CronStore
atomic_write none text s = (returned tt, record s { file = some text })
atomic_write (some what) text s = (threw what, s)

abbrev pub write_text :
    (fault : Option Text) → Option Text → CronStore → Result (Unit {0}) × CronStore
write_text fault none s = (threw (codes "invalid UTF-8"), s)
write_text fault (some text) s = atomic_write fault (text ++ b'\n' ∷ []) s

infixl 5 ◌>>=◌
abbrev ◌>>=◌ : {A B : Type 0} → Option A → (A → Option B) → Option B
none >>= f = none
some a >>= f = f a

module _ (o : Outside) where
  unfoldable pub persist_locked : (fault : Option Text) → CronStore → Result (Unit {0}) × CronStore
  unfolding jobs_json
  persist_locked fault s = write_text fault (o.dump (arr (jobs_json (Map.to_list s.jobs)))) s

  -- The job of an element of the array; `none` where `value` throws.
  unfoldable pub read_job : Fields → Option CronJob
  read_job j = do
    job_id ← string_value (get (codes "job_id") j)
    user_id ← string_value (get (codes "user_id") j)
    os_username ← string_value (get (codes "os_username") j)
    schedule ← string_value (get (codes "schedule") j)
    command ← string_value (get (codes "command") j)
    description ← string_value (get (codes "description") j)
    context_id ← string_value (get (codes "context_id") j)
    created_at ← int_value o.truncate (get (codes "created_at") j)
    updated_at ← int_value o.truncate (get (codes "updated_at") j)
    some (record {
      job_id = job_id;
      user_id = user_id;
      os_username = os_username;
      schedule = schedule;
      command = command;
      description = description;
      context_id = context_id;
      created_at = created_at;
      updated_at = updated_at;
    })

  -- The loop of `load_locked`. A field of another type makes `value` throw, out of `load`.
  unfoldable pub load_items : Items → Map CronJob → Result (Unit {0}) × Map CronJob
  load_items nil jobs = (returned tt, jobs)
  load_items (cons (obj j) items) jobs = elim (read_job j) [
    | none ↦ (threw (codes "type_error"), jobs)
    | some c ↦
        load_items items (if not (valid_jobid c.job_id) then jobs else Map.set jobs c.job_id c)
  ]
  load_items (cons _ items) jobs = load_items items jobs

  abbrev pub load_doc : Option Json → Map CronJob → Result (Unit {0}) × Map CronJob
  load_doc (some (arr items)) jobs = load_items items jobs
  load_doc _ jobs = (returned tt, jobs)

  abbrev pub parsed : Option Text → Option Json
  parsed none = none
  parsed (some text) = o.parse text

  unfoldable pub load : CronStore → Result (Unit {0}) × CronStore
  unfolding load_items
  load s = let (r, jobs) = load_doc (parsed s.file) s.jobs in (r, record s { jobs = jobs })
