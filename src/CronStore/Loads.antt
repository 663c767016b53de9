-- ===== src/CronStore/Loads.antt =====
-- Loading keeps the jobs under their identifiers, whatever the file holds.
use server_mcp_bridge.Base.{
  ◌≡◌, refl, ap, ◌∙◌, inl, inr, true, not, Option, none, some, List, [], ◌∷◌, All, arith, Text,
  text_eq, text_eq→eq, if◌then◌else◌, Bool-cases, Option-cases,
}
use server_mcp_bridge.Json.{get, Json, null, arr, obj, Items, nil, cons}
use server_mcp_bridge.Map
use server_mcp_bridge.Map.{Map, find-set}
use server_mcp_bridge.CronSyntax.{valid_jobid}
use server_mcp_bridge.CronFile.{
  CronJob, CronStore, Outside, read_job, load_items, load_doc, load, parsed, job_fields, jobs_json,
  returned,
}
use server_mcp_bridge.CronStore.Writes.{IsFiled}

abbrev HasOwnId : Map CronJob → Type 0
HasOwnId jobs =
    (id : Text) (c : CronJob)
    → Map.find jobs id ≡ some c
    → (c.job_id ≡ id) × (valid_jobid id ≡ true)

put_job-HasOwnId :
    (jobs : Map CronJob) (c : CronJob)
    → HasOwnId jobs
    → HasOwnId (if not (valid_jobid c.job_id) then jobs else Map.set jobs c.job_id c)
put_job-HasOwnId jobs c own = elim (Bool-cases (valid_jobid c.job_id)) [
  | inr e ↦ rw e own
  | inl e ↦ rw e (λ j d found. elim (Bool-cases (text_eq c.job_id j)) [
    | inr f ↦ own j d (ground (arith, find-set jobs c.job_id j c, found, f))
    | inl f ↦
        let at_id : c.job_id ≡ j = text_eq→eq _ j f in
        let new : c ≡ d = ground (arith, find-set jobs c.job_id j c, found, f) in
        (rw (← new) at_id, rw (← at_id) e)
  ])
]

module _ (o : Outside) where
  load_items-HasOwnId :
      (items : Items) (jobs : Map CronJob) → HasOwnId jobs → HasOwnId (load_items o items jobs).1
  unfolding load_items
  load_items-HasOwnId nil jobs own = own
  load_items-HasOwnId (cons (obj j) items) jobs own = elim (Option-cases (read_job o j)) [
    | inl e ↦ rw (e, load_items) own
    | inr (c, e) ↦ rw (e, load_items) (load_items-HasOwnId items _ (put_job-HasOwnId jobs c own))
  ]
  load_items-HasOwnId (cons null items) jobs own = load_items-HasOwnId items jobs own
  load_items-HasOwnId (cons _ items) jobs own = load_items-HasOwnId items jobs own

  load_doc-HasOwnId :
      (doc : Option Json) (jobs : Map CronJob) → HasOwnId jobs → HasOwnId (load_doc o doc jobs).1
  load_doc-HasOwnId none jobs own = own
  load_doc-HasOwnId (some (arr items)) jobs own = load_items-HasOwnId items jobs own
  load_doc-HasOwnId (some _) jobs own = own

  -- Whatever text the file has, loading it leaves every job under its own identifier, a valid one,
  -- if that was so before.
  pub load-IsFiled : (s : CronStore) → IsFiled s → IsFiled (load o s).1
  unfolding load
  load-IsFiled s filed = load_doc-HasOwnId (parsed o s.file) s.jobs filed

  -- A job that is written is read back as it was, every field of it.
  pub read_job-job_fields : (c : CronJob) → read_job o (job_fields c) ≡ some c
  unfolding read_job get
  read_job-job_fields c = refl

  -- Loading the array that is written for a list of jobs, each under its own valid identifier, returns
  -- and puts those jobs into the map one by one.
  pub load_items-jobs_json :
      (pairs : List (Text × CronJob)) (jobs : Map CronJob)
      → All (λ p. (p.1.job_id ≡ p.0) × (valid_jobid p.0 ≡ true)) pairs
      → load_items o (jobs_json pairs) jobs ≡ (returned tt, Map.put_all pairs jobs)
  unfolding load_items jobs_json Map.put_all
  load_items-jobs_json [] jobs h = refl
  load_items-jobs_json ((id, c) ∷ pairs) jobs ((same, valid), h) =
      let own : valid_jobid c.job_id ≡ true = rw same valid in
      rw (read_job-job_fields c, own, load_items)
        (load_items-jobs_json pairs (Map.set jobs c.job_id c) h
          ∙ ap (λ key. (returned tt, Map.put_all pairs (Map.set jobs key c))) same)
