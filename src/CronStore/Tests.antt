-- ===== src/CronStore/Tests.antt =====
-- A store with a job of alice, and calls of bob.
use server_mcp_bridge.Base.{
  ◌≡◌, ◌≢◌, refl, sym, ap, arith, none, some, [], ◌∷◌, ◌++◌, Text, codes, pos, text_eq, text_eq→eq,
  Bool-cases, inl, inr,
}
use server_mcp_bridge.Json.{arr}
use server_mcp_bridge.Map
use server_mcp_bridge.Map.{find-set, find-empty, put_all}
use server_mcp_bridge.CronSyntax.{valid_jobid}
use server_mcp_bridge.CronFile.{
  CronJob, CronStore, Outside, returned, load, jobs_json, read_job, job_fields,
}
use server_mcp_bridge.CronStore.{find}
use server_mcp_bridge.CronStore.Writes.{IsFiled}
use server_mcp_bridge.CronStore.Commits.{Operation, add_job, remove_job, Decided}
use server_mcp_bridge.CronStore.Owners.{runs, run-Decided, runs-other}
use server_mcp_bridge.CronStore.Restart.{restarted, load-restarted-find}
use server_mcp_bridge.CronStore.Loads.{read_job-job_fields}

abbrev outside : Outside
outside = record { dump = λ v. some (codes "[]"); parse = λ t. none; truncate = λ t. pos 0 }

abbrev id : Text
id = codes "0123456789abcdef"

abbrev job : CronJob
job = record {
  job_id = id;
  user_id = codes "a1";
  os_username = codes "alice";
  schedule = codes "* * * * *";
  command = codes "true";
  description = [];
  context_id = [];
  created_at = pos 5;
  updated_at = pos 5;
}

abbrev store : CronStore
store = record { jobs = Map.set Map.empty id job; file = none }

find-job : find id store ≡ some job
unfolding Map.find Map.set Map.empty
find-job = refl

store-IsFiled : IsFiled store
store-IsFiled j c found = elim (Bool-cases (text_eq id j)) [
  | inl e ↦
      let same : id ≡ j = text_eq→eq id j e in
      let one : job ≡ c = ground (arith, find-set Map.empty id j job, found, e) in
      (rw (← one) same, ap valid_jobid (sym same))
  | inr e ↦
      absurd (ground (arith, find-set Map.empty id j job, find-empty {V = CronJob} j, found, e))
]

abbrev adding : Operation
adding =
    add_job (λ i. i) (pos 7) none (codes "b1") (codes "bob") (codes "*/5 * * * *") (codes "ls") []
      []

abbrev removing : Operation
removing = remove_job none id (codes "bob")

run-Decided_example : Decided outside store adding
run-Decided_example = run-Decided outside adding store store-IsFiled

alice-ne-bob : codes "alice" ≢ codes "bob"
alice-ne-bob e = absurd (ground arith)

runs-other_example : find id (runs outside (adding ∷ removing ∷ []) store) ≡ some job
runs-other_example =
    runs-other outside (adding ∷ removing ∷ []) store id job store-IsFiled find-job
      (alice-ne-bob, (alice-ne-bob, tt))

job_read_back : read_job outside (job_fields job) ≡ some job
job_read_back = read_job-job_fields outside job

-- The same JSON library, which reads the one text that it prints as the array of the job.
abbrev reading : Outside
reading = record outside { parse = λ t. some (arr (jobs_json (Map.to_list store.jobs))) }

abbrev stored : CronStore
stored = record store { file = some (codes "[]" ++ b'\n' ∷ []) }

load-restarted-find_example :
    ((load reading (restarted stored)).0 ≡ returned tt)
    × ((j : Text) → find j (load reading (restarted stored)).1 ≡ find j stored)
load-restarted-find_example =
    load-restarted-find reading stored store-IsFiled
      (record { text = codes "[]"; dumped = refl; written = refl }) refl
