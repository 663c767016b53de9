-- ===== src/CronStore/Restart.antt =====
-- What a new process finds in the file that a call left.
use server_mcp_bridge.Base.{◌≡◌, ◌∙◌, ap, true, some, [], ◌∷◌, ◌++◌, All, Text}
use server_mcp_bridge.Json.{arr}
use server_mcp_bridge.Map
use server_mcp_bridge.Map.{Map, find-put_all, to_list-All}
use server_mcp_bridge.CronSyntax.{valid_jobid}
use server_mcp_bridge.CronFile.{CronStore, returned, Outside, jobs_json, load_doc, parsed, load}
use server_mcp_bridge.CronStore.{find}
use server_mcp_bridge.CronStore.Writes.{IsFiled, Saved}
use server_mcp_bridge.CronStore.Loads.{load_items-jobs_json}

-- A new store, before it loads the file of `s`.
abbrev pub restarted : CronStore → CronStore
restarted s = record { jobs = Map.empty; file = s.file }

module _ (o : Outside) (s : CronStore) where
  load-restarted :
      IsFiled s
      → (saved : Saved o s)
      → o.parse (saved.text ++ b'\n' ∷ []) ≡ some (arr (jobs_json (Map.to_list s.jobs)))
      → load o (restarted s)
        ≡ (returned tt, record { jobs = Map.put_all (Map.to_list s.jobs) Map.empty; file = s.file })
  unfolding load
  load-restarted filed saved reads =
      let doc : parsed o s.file ≡ some (arr (jobs_json (Map.to_list s.jobs))) =
        ap (parsed o) saved.written ∙ reads in
      let own : All (λ q. (q.1.job_id ≡ q.0) × (valid_jobid q.0 ≡ true)) (Map.to_list s.jobs) =
        to_list-All (λ k c. (c.job_id ≡ k) × (valid_jobid k ≡ true)) s.jobs filed in
      ap (λ r. (r.0, record { jobs = r.1; file = s.file }))
        (ap (λ d. load_doc o d Map.empty) doc
          ∙ load_items-jobs_json o (Map.to_list s.jobs) Map.empty own)

  -- If the file is the print of the jobs, as a call that returns leaves it, every job stands under its
  -- own valid identifier, and the parser reads that print back, then a new store that loads the file
  -- returns and finds under every identifier what this one finds.
  pub load-restarted-find :
      IsFiled s
      → (saved : Saved o s)
      → o.parse (saved.text ++ b'\n' ∷ []) ≡ some (arr (jobs_json (Map.to_list s.jobs)))
      → ((load o (restarted s)).0 ≡ returned tt)
        × ((id : Text) → find id (load o (restarted s)).1 ≡ find id s)
  load-restarted-find filed saved reads =
      let whole = load-restarted filed saved reads in
      (ap (λ r. r.0) whole, λ id. ap (λ r. find id r.1) whole ∙ find-put_all s.jobs id)
