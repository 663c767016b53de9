-- ===== src/CronStore.antt =====
-- add, update, remove, list_for_user and find of src/core/cron_store.cpp. What the random device
-- and the clock return, and the failure of a write, are arguments of a call.
pub mod Writes
pub mod Commits
pub mod Owners
pub mod Loads
pub mod Restart
mod Tests
use server_mcp_bridge.Base.{
  ℕ, zero, suc, ◌+◌, ◌*◌, ◌%◌, Bool, true, false, not, ◌&&◌, ◌||◌, Option, none, some, List, [],
  ◌∷◌, ◌++◌, Text, codes, text_eq, ℤ, pos, ltb, leb, ◌==◌, length, is_empty, all, if◌then◌else◌,
}
use server_mcp_bridge.CronSyntax.{make_jobid, valid_jobid, valid_schedule}
use server_mcp_bridge.CronFile.{
  CronJob, CronStore, Result, returned, threw, Outside, persist_locked,
}
use server_mcp_bridge.Map
use server_mcp_bridge.Map.{Map}

-- `try { persist_locked(); } catch (...) { <restore>; throw; }`, and the value returned.
abbrev pub persist_or :
    CronJob → (CronStore → CronStore) → Result (Unit {0}) × CronStore → Result CronJob × CronStore
persist_or c restore (returned u, s) = (returned c, s)
persist_or c restore (threw what, s) = (threw what, restore s)

-- The loop over the attempts: the first identifier that no job has.
unfoldable pub allocate : Map CronJob → (ℕ → ℕ) → (attempt left : ℕ) → Option Text
allocate jobs rd attempt zero = none
allocate jobs rd attempt (suc left) =
    let rest = allocate jobs rd (suc attempt) left in
    let id = make_jobid rd attempt in elim (Map.find jobs id) [ none ↦ some id | some c ↦ rest ]

abbrev given : Option Text → Text → Text
given none old = old
given (some new) old = new

-- `it->second` with the fields that are given, at the time `now`.
unfoldable pub changed :
    (now : ℤ) (schedule command description context_id : Option Text) → CronJob → CronJob
changed now schedule command description context_id c = record c {
  schedule = given schedule c.schedule;
  command = given command c.command;
  description = given description c.description;
  context_id = given context_id c.context_id;
  updated_at = now;
}

-- What `update` and `remove` do with the job that the identifier names, if the caller owns it.
unfoldable pub with_owned :
    (job_id os_username : Text)
    → (CronJob → CronStore → Result CronJob × CronStore)
    → CronStore
    → Result CronJob × CronStore
unfolding text_eq
with_owned job_id os_username act s = elim (Map.find s.jobs job_id) [
  | none ↦ (threw (codes "cron_store: job_id not found"), s)
  | some c ↦
      if not (text_eq c.os_username os_username)
      then (threw (codes "cron_store: job_id does not belong to this user"), s)
      else act c s
]

-- `schedule && !valid_schedule(*schedule)` and `command && command->empty()`.
abbrev pub bad_schedule : Option Text → Bool
bad_schedule none = false
bad_schedule (some t) = not (valid_schedule t)

abbrev pub bad_command : Option Text → Bool
bad_command none = false
bad_command (some t) = is_empty t

-- The loop of `list_for_user`.
unfoldable pub owned_by : (os_username : Text) → List (Text × CronJob) → List CronJob
unfolding text_eq
owned_by os_username [] = []
owned_by os_username ((id, c) ∷ cs) =
    let rest = owned_by os_username cs in
    if text_eq c.os_username os_username then c ∷ rest else rest

abbrev pub list_for_user : (os_username : Text) → CronStore → List CronJob
list_for_user os_username s = owned_by os_username (Map.to_list s.jobs)

abbrev pub find : (job_id : Text) → CronStore → Option CronJob
find job_id s = Map.find s.jobs job_id

module _ (o : Outside) where
  pub store_new : (fault : Option Text) → CronJob → CronStore → Result CronJob × CronStore
  unfolding persist_locked
  store_new fault c s =
      persist_or c (λ t. record t { jobs = Map.erase t.jobs c.job_id })
        (persist_locked o fault (record s { jobs = Map.set s.jobs c.job_id c }))

  unfoldable pub add :
      (rd : ℕ → ℕ) (now : ℤ) (fault : Option Text)
      → (user_id os_username schedule command description context_id : Text) → CronStore
      → Result CronJob × CronStore
  unfolding store_new
  add rd now fault user_id os_username schedule command description context_id s =
      if not (valid_schedule schedule)
      then (threw (codes "cron_store: invalid schedule"), s)
      else if is_empty command
      then (threw (codes "cron_store: command must not be empty"), s)
      else elim (allocate s.jobs rd 0 4) [
        | none ↦ (threw (codes "cron_store: could not allocate job_id"), s)
        | some id ↦
            store_new fault
              (record {
                job_id = id;
                user_id = user_id;
                os_username = os_username;
                schedule = schedule;
                command = command;
                description = description;
                context_id = context_id;
                created_at = now;
                updated_at = now;
              })
              s
      ]

  pub store_changed :
      (fault : Option Text) (job_id : Text) (prev c : CronJob)
      → CronStore
      → Result CronJob × CronStore
  unfolding persist_locked
  store_changed fault job_id prev c s =
      persist_or c (λ t. record t { jobs = Map.set t.jobs job_id prev })
        (persist_locked o fault (record s { jobs = Map.set s.jobs job_id c }))

  pub store_removed :
      (fault : Option Text) (job_id : Text) → CronJob → CronStore → Result CronJob × CronStore
  unfolding persist_locked
  store_removed fault job_id removed s =
      persist_or removed (λ t. record t { jobs = Map.set t.jobs removed.job_id removed })
        (persist_locked o fault (record s { jobs = Map.erase s.jobs job_id }))

  unfoldable pub update :
      (now : ℤ) (fault : Option Text) (job_id os_username : Text)
      → (schedule command description context_id : Option Text) → CronStore
      → Result CronJob × CronStore
  unfolding with_owned store_changed changed
  update now fault job_id os_username schedule command description context_id s =
      if not (valid_jobid job_id)
      then (threw (codes "cron_store: invalid job_id"), s)
      else if bad_schedule schedule
      then (threw (codes "cron_store: invalid schedule"), s)
      else if bad_command command
      then (threw (codes "cron_store: command must not be empty"), s)
      else with_owned job_id os_username
          (λ prev.
            store_changed fault job_id prev
              (changed now schedule command description context_id prev))
          s

  unfoldable pub remove :
      (fault : Option Text) (job_id os_username : Text) → CronStore → Result CronJob × CronStore
  unfolding with_owned store_removed
  remove fault job_id os_username s =
      if not (valid_jobid job_id)
      then (threw (codes "cron_store: invalid job_id"), s)
      else with_owned job_id os_username (store_removed fault job_id) s
