-- ===== src/CronStore/Owners.antt =====
-- Histories of calls: the identifiers stay in order, and nobody touches a job of somebody else.
use server_mcp_bridge.Base.{
  ◌≡◌, ◌≢◌, refl, sym, ◌∙◌, ap, inl, inr, true, false, Option, none, some, List, [], ◌∷◌, arith,
  Text, text_eq, text_eq_iff, text_eq→eq, ℤ, All, Bool-cases,
}
use server_mcp_bridge.CronSyntax.{valid_jobid}
use server_mcp_bridge.CronFile.{CronJob, CronStore, Outside}
use server_mcp_bridge.CronStore.{changed, find}
use server_mcp_bridge.CronStore.Writes.{IsFiled, Assigns}
use server_mcp_bridge.CronStore.Commits.{
  Operation, add_job, update_job, remove_job, run, Commits, added, updated, removed, Decided,
  add-Decided, update-Decided, remove-Decided,
}

-- The account for which a call is made.
abbrev pub caller : Operation → Text
caller (add_job rd now fault user_id os_username schedule command description context_id) =
    os_username
caller (update_job now fault job_id os_username schedule command description context_id) =
    os_username
caller (remove_job fault job_id os_username) = os_username

pub changed-job_id :
    (now : ℤ) (schedule command description context_id : Option Text) (c : CronJob)
    → ((changed now schedule command description context_id c).job_id ≡ c.job_id)
      × ((changed now schedule command description context_id c).os_username ≡ c.os_username)
unfolding changed
changed-job_id now schedule command description context_id c = (refl, refl)

set-IsFiled :
    (s s' : CronStore) (id : Text) (c : CronJob)
    → IsFiled s
    → Assigns id (some c) s s'
    → c.job_id ≡ id
    → valid_jobid id ≡ true
    → IsFiled s'
set-IsFiled s s' id c filed h same valid j d found = elim (Bool-cases (text_eq id j)) [
  | inl e ↦
      let at_id : id ≡ j = text_eq→eq id j e in
      let new : c ≡ d = ground (arith, h j, found, e) in
      (rw (← new) same ∙ at_id, rw (← at_id) valid)
  | inr e ↦ filed j d (ground (arith, h j, found, e))
]

erase-IsFiled : (s s' : CronStore) (id : Text) → IsFiled s → Assigns id none s s' → IsFiled s'
erase-IsFiled s s' id filed h j d found = filed j d (ground (arith, h j, found))

pub Commits-IsFiled :
    (s s' : CronStore) (op : Operation) (c : CronJob) → IsFiled s → Commits s op c s' → IsFiled s'
Commits-IsFiled s s' op c filed (added v f valid free h) = set-IsFiled s s' _ _ filed h refl valid
Commits-IsFiled s s' op c filed (updated {job_id = id} {prev = prev} valid f g found owner h) =
    set-IsFiled s s' id _ filed h ((changed-job_id _ _ _ _ _ prev).0 ∙ (filed id prev found).0)
      valid
Commits-IsFiled s s' op c filed (removed valid found owner h) = erase-IsFiled s s' _ filed h

-- Jobs with different owners have different identifiers.
apart :
    (s : CronStore) (id j os_username : Text) (prev d : CronJob)
    → find id s ≡ some prev
    → prev.os_username ≡ os_username
    → find j s ≡ some d
    → d.os_username ≢ os_username
    → text_eq id j ≡ false
apart s id j os_username prev d found owner there other = elim (Bool-cases (text_eq id j)) [
  | inr e ↦ e
  | inl e ↦
      let same : id ≡ j = text_eq→eq id j e in
      let one : prev ≡ d = ground (arith, found, there, same) in
      absurd (other (ap (λ c. c.os_username) (sym one) ∙ owner))
]

-- A job of somebody else stays.
Commits-other :
    (s s' : CronStore) (op : Operation) (c : CronJob) (j : Text) (d : CronJob)
    → find j s ≡ some d
    → d.os_username ≢ caller op
    → Commits s op c s'
    → find j s' ≡ some d
Commits-other s s' op c j d there other (added {id = id} v f valid free h) =
    ground (arith, h j, there, free, text_eq_iff id j)
Commits-other s s' op c j d there other
      (updated {job_id = id} {prev = prev} valid f g found owner h) =
    rw (h j, apart s id j _ prev d found owner there other) there
Commits-other s s' op c j d there other (removed {job_id = id} {c = prev} valid found owner h) =
    rw (h j, apart s id j _ prev d found owner there other) there

module _ (o : Outside) where
  -- If every job of the store stands under its own valid identifier, a call of add, update or remove
  -- on every branch either throws and leaves the jobs and the file as they were, or returns the job
  -- after exactly the change that it is for, and the file is then the print of the jobs.
  pub run-Decided : (op : Operation) (s : CronStore) → IsFiled s → Decided o s op
  run-Decided (add_job rd now fault user_id os_username schedule command description context_id) s
        filed =
      add-Decided o s rd now fault user_id os_username schedule command description context_id
  run-Decided (update_job now fault job_id os_username schedule command description context_id) s
        filed =
      update-Decided o s now fault job_id os_username schedule command description context_id
  run-Decided (remove_job fault job_id os_username) s filed =
      remove-Decided o s fault job_id os_username filed

  pub run-IsFiled : (op : Operation) (s : CronStore) → IsFiled s → IsFiled (run o op s).1
  run-IsFiled op s filed = elim (run-Decided op s filed) [
    | inl v ↦ λ j d found. filed j d (sym (v.untouched.0 j) ∙ found)
    | inr v ↦ Commits-IsFiled s _ op v.job filed v.commits
  ]

  pub run-other :
      (op : Operation) (s : CronStore) (j : Text) (d : CronJob)
      → IsFiled s
      → find j s ≡ some d
      → d.os_username ≢ caller op
      → find j (run o op s).1 ≡ some d
  run-other op s j d filed there other = elim (run-Decided op s filed) [
    | inl v ↦ v.untouched.0 j ∙ there
    | inr v ↦ Commits-other s _ op v.job j d there other v.commits
  ]

  -- The store after a history of calls.
  abbrev pub runs : List Operation → CronStore → CronStore
  runs [] s = s
  runs (op ∷ ops) s = runs ops (run o op s).1

  pub runs-IsFiled : (ops : List Operation) (s : CronStore) → IsFiled s → IsFiled (runs ops s)
  runs-IsFiled [] s filed = filed
  runs-IsFiled (op ∷ ops) s filed = runs-IsFiled ops _ (run-IsFiled op s filed)

  -- However many calls other accounts make, and whatever they are and meet, a job is found as it was,
  -- if every job of the store stands under its own valid identifier at first.
  pub runs-other :
      (ops : List Operation) (s : CronStore) (j : Text) (d : CronJob)
      → IsFiled s
      → find j s ≡ some d
      → All (λ op. d.os_username ≢ caller op) ops
      → find j (runs ops s) ≡ some d
  runs-other [] s j d filed there others = there
  runs-other (op ∷ ops) s j d filed there (other, others) =
      runs-other ops _ j d (run-IsFiled op s filed) (run-other op s j d filed there other) others
