-- ===== src/CronTools/Steps.antt =====
-- What the cron tools do to the world, as a relation of steps of one account on the store and on its
-- own crontab.
use server_mcp_bridge.Base.{
  ◌≡◌, ◌≢◌, refl, sym, ◌∙◌, ap, inl, inr, some, arith, Text, text_eq, text_eq_differ, Bool-cases,
}
use server_mcp_bridge.Map
use server_mcp_bridge.Map.{find-set}
use server_mcp_bridge.CronFile.{CronJob, CronStore, Outside}
use server_mcp_bridge.CronStore.{find}
use server_mcp_bridge.CronStore.Writes.{IsFiled, Assigns}
use server_mcp_bridge.CronStore.Commits.{Operation, run, Commits, added, updated, removed}
use server_mcp_bridge.CronStore.Owners.{caller, changed-job_id, run-Decided, run-IsFiled, run-other}
use server_mcp_bridge.CronTools.{CronWorld}

module _ (o : Outside) where
  -- What the tools of the account `os` do, in steps. A file of a job's data may differ in each.
  pub data Reaches (os : Text) : CronWorld → CronWorld → Type 0 where
    stays : {w w' : CronWorld} → w'.store ≡ w.store → w'.crontabs ≡ w.crontabs → Reaches os w w'
    calls :
        {w w' : CronWorld} (op : Operation)
        → caller op ≡ os
        → w'.store ≡ (run o op w.store).1
        → w'.crontabs ≡ w.crontabs
        → Reaches os w w'
    writes :
        {w w' : CronWorld} (text : Text)
        → w'.store ≡ w.store
        → w'.crontabs ≡ Map.set w.crontabs os text
        → Reaches os w w'
    goes : {w v u : CronWorld} → Reaches os w v → Reaches os v u → Reaches os w u

  pub Reaches-IsFiled :
      (os : Text) (w w' : CronWorld) → Reaches os w w' → IsFiled w.store → IsFiled w'.store
  Reaches-IsFiled os w w' (stays same crontabs) filed =
      λ j c found. filed j c (ap (find j) (sym same) ∙ found)
  Reaches-IsFiled os w w' (calls op own same crontabs) filed =
      λ j c found. run-IsFiled o op w.store filed j c (ap (find j) (sym same) ∙ found)
  Reaches-IsFiled os w w' (writes text same crontabs) filed =
      λ j c found. filed j c (ap (find j) (sym same) ∙ found)
  Reaches-IsFiled os w w' (goes {v = v} h k) filed =
      Reaches-IsFiled os v w' k (Reaches-IsFiled os w v h filed)

  -- What another account's job is not is the one that is set.
  not_set :
      (s s' : CronStore) (id j : Text) (c d : CronJob)
      → Assigns id (some c) s s'
      → d.os_username ≢ c.os_username
      → find j s' ≡ some d
      → find j s ≡ some d
  not_set s s' id j c d h other there = elim (Bool-cases (text_eq id j)) [
    | inl e ↦
        let one : c ≡ d = ground (arith, h j, e, there) in
        absurd (other (ap (λ t. t.os_username) (sym one)))
    | inr e ↦ ground (arith, h j, e, there)
  ]

  -- A job of another account that is found after a call was there before it.
  Commits-not_new :
      (s s' : CronStore) (op : Operation) (c : CronJob) (j : Text) (d : CronJob)
      → find j s' ≡ some d
      → d.os_username ≢ caller op
      → Commits s op c s'
      → find j s ≡ some d
  Commits-not_new s s' op c j d there other (added {id = id} v f valid free h) =
      not_set s s' id j c d h other there
  Commits-not_new s s' op c j d there other
        (updated {job_id = id} {prev = prev} valid f g found owner h) =
      not_set s s' id j c d h (λ e. other (e ∙ (changed-job_id _ _ _ _ _ prev).1 ∙ owner)) there
  Commits-not_new s s' op c j d there other (removed {job_id = id} valid found owner h) =
      ground (arith, h j, there)

  run-not_new :
      (op : Operation) (s : CronStore) (j : Text) (d : CronJob)
      → IsFiled s
      → find j (run o op s).1 ≡ some d
      → d.os_username ≢ caller op
      → find j s ≡ some d
  run-not_new op s j d filed there other = elim (run-Decided o op s filed) [
    | inl v ↦ sym (v.untouched.0 j) ∙ there
    | inr v ↦ Commits-not_new s _ op v.job j d there other v.commits
  ]

  -- An account finds its crontab and its jobs as they were, and no others.
  pub record Keeps (mine : Text) (w w' : CronWorld) : Type 0 where
    pub crontab : Map.find w'.crontabs mine ≡ Map.find w.crontabs mine
    pub jobs :
        (j : Text) (d : CronJob)
        → d.os_username ≡ mine
        → (find j w.store ≡ some d → find j w'.store ≡ some d)
          × (find j w'.store ≡ some d → find j w.store ≡ some d)

  pub Keeps-refl : (mine : Text) (w : CronWorld) → Keeps mine w w
  Keeps-refl mine w = record { crontab = refl; jobs = λ j d own. (λ h. h, λ h. h) }

  pub Keeps-trans :
      (mine : Text) (w v u : CronWorld) → Keeps mine w v → Keeps mine v u → Keeps mine w u
  Keeps-trans mine w v u first second = record {
    crontab = second.crontab ∙ first.crontab;
    jobs = λ j d own. (
      λ e. (second.jobs j d own).0 ((first.jobs j d own).0 e),
      λ e. (first.jobs j d own).1 ((second.jobs j d own).1 e),
    );
  }

  pub Reaches-Keeps :
      (os mine : Text) (w w' : CronWorld)
      → mine ≢ os
      → Reaches os w w'
      → IsFiled w.store
      → Keeps mine w w'
  Reaches-Keeps os mine w w' other (stays same crontabs) filed = record {
    crontab = ap (λ m. Map.find m mine) crontabs;
    jobs = λ j d own. (λ h. ap (find j) same ∙ h, λ h. ap (find j) (sym same) ∙ h);
  }
  Reaches-Keeps os mine w w' other (calls op by same crontabs) filed = record {
    crontab = ap (λ m. Map.find m mine) crontabs;
    jobs = λ j d own.
        let apart : d.os_username ≢ caller op = λ e. other (sym own ∙ e ∙ by) in
        (
          λ h. ap (find j) same ∙ run-other o op w.store j d filed h apart,
          λ h. run-not_new op w.store j d filed (ap (find j) (sym same) ∙ h) apart,
        );
  }
  Reaches-Keeps os mine w w' other (writes text same crontabs) filed = record {
    crontab =
        ap (λ m. Map.find m mine) crontabs
        ∙ find-set w.crontabs os mine text
        ∙ rw (text_eq_differ os mine (λ e. other (sym e))) refl;
    jobs = λ j d own. (λ h. ap (find j) same ∙ h, λ h. ap (find j) (sym same) ∙ h);
  }
  Reaches-Keeps os mine w w' other (goes {v = v} h k) filed =
      Keeps-trans mine w v w' (Reaches-Keeps os mine w v other h filed)
        (Reaches-Keeps os mine v w' other k (Reaches-IsFiled os w v h filed))
