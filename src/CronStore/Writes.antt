-- ===== src/CronStore/Writes.antt =====
-- What a write does to the store and to the file, and which identifier a new job gets.
use server_mcp_bridge.Base.{
  ℕ, zero, suc, ◌≡◌, refl, ◌⊎◌, inl, inr, true, Option, none, some, [], ◌∷◌, ◌++◌, arith, Text,
  text_eq, if◌then◌else◌, Option-cases,
}
use server_mcp_bridge.Json.{arr}
use server_mcp_bridge.Map
use server_mcp_bridge.Map.{Map, map_laws}
use server_mcp_bridge.CronSyntax.{make_jobid, valid_jobid}
use server_mcp_bridge.CronSyntax.Jobid.{valid_jobid-make_jobid}
use server_mcp_bridge.CronFile.{
  CronJob, CronStore, Result, returned, threw, Outside, jobs_json, write_text, persist_locked,
}
use server_mcp_bridge.CronStore.{persist_or, allocate, find}

-- A job stands under its own identifier, which is a valid one.
abbrev pub IsFiled : CronStore → Type 0
IsFiled s =
    (id : Text) (c : CronJob) → find id s ≡ some c → (c.job_id ≡ id) × (valid_jobid id ≡ true)

-- No job and no byte of the file differs.
abbrev pub IsUntouched : CronStore → CronStore → Type 0
IsUntouched s s' = ((id : Text) → find id s' ≡ find id s) × (s'.file ≡ s.file)

-- The jobs are as they were, but for the one of `id`, which is now `v`.
abbrev pub Assigns : Text → Option CronJob → CronStore → CronStore → Type 0
Assigns id v s s' = (j : Text) → find j s' ≡ (if text_eq id j then v else find j s)

-- The first identifier that is free is valid and free.
pub allocate-free :
    (jobs : Map CronJob) (rd : ℕ → ℕ) (attempt left : ℕ) (id : Text)
    → allocate jobs rd attempt left ≡ some id
    → (Map.find jobs id ≡ none) × (valid_jobid id ≡ true)
unfolding allocate
allocate-free jobs rd attempt zero id h = cc
allocate-free jobs rd attempt (suc left) id h =
    elim (Option-cases (Map.find jobs (make_jobid rd attempt))) [
      | inl e ↦
          let same : make_jobid rd attempt ≡ id = ground (arith, e, h) in
          (rw same at e, rw same at (valid_jobid-make_jobid rd attempt))
      | inr (c, e) ↦ allocate-free jobs rd (suc attempt) left id (ground (arith, e, h))
    ]

pub record Restored (s : CronStore) (r : Result CronJob × CronStore) : Type 0 where
  pub what : Text
  pub result : r.0 ≡ threw what
  pub store : r.1 ≡ s

module _ (o : Outside) where
  -- The file holds what the JSON library prints for the jobs.
  pub record Saved (s : CronStore) : Type 0 where
    pub text : Text
    pub dumped : o.dump (arr (jobs_json (Map.to_list s.jobs))) ≡ some text
    pub written : s.file ≡ some (text ++ b'\n' ∷ [])

  -- Either the file is written, or the restored store is kept.
  pub record Wrote (c : CronJob) (s : CronStore) (r : Result CronJob × CronStore) : Type 0 where
    pub result : r.0 ≡ returned c
    pub saved : Saved r.1
    pub jobs : r.1.jobs ≡ s.jobs

  text-Wrote :
      (fault : Option Text) (c : CronJob) (restore : CronStore → CronStore) (s : CronStore)
      (t : Option Text)
      → o.dump (arr (jobs_json (Map.to_list s.jobs))) ≡ t
      → Wrote c s (persist_or c restore (write_text fault t s))
        ⊎ Restored (restore s) (persist_or c restore (write_text fault t s))
  text-Wrote fault c restore s none h = inr (record { what = _; result = refl; store = refl })
  text-Wrote (some what) c restore s (some t) h =
      inr (record { what = what; result = refl; store = refl })
  text-Wrote none c restore s (some t) h = inl (record {
    result = refl;
    saved = record { text = t; dumped = h; written = refl };
    jobs = refl;
  })

  pub persist-Wrote :
      (fault : Option Text) (c : CronJob) (restore : CronStore → CronStore) (s : CronStore)
      → Wrote c s (persist_or c restore (persist_locked o fault s))
        ⊎ Restored (restore s) (persist_or c restore (persist_locked o fault s))
  unfolding persist_locked
  persist-Wrote fault c restore s = text-Wrote fault c restore s _ refl
