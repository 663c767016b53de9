-- ===== src/CronStore/Commits.antt =====
-- What add, update and remove do to the jobs and to the file, on every branch.
use server_mcp_bridge.Base.{
  ℕ, ◌≡◌, refl, ◌∙◌, ap, ◌⊎◌, inl, inr, true, false, Option, none, some, Text, text_eq, text_eq→eq,
  ℤ, is_empty, Bool-cases, Option-cases,
}
use server_mcp_bridge.Map
use server_mcp_bridge.Map.{
  Map, map_laws, find-set, find-erase, find-erase_added, find-set_back, find-set_erased,
}
use server_mcp_bridge.CronSyntax.{valid_jobid, valid_schedule}
use server_mcp_bridge.CronFile.{CronJob, CronStore, Result, returned, threw, Outside}
use server_mcp_bridge.CronStore.{
  allocate, changed, with_owned, bad_schedule, bad_command, find, store_new, store_changed,
  store_removed, add, update, remove,
}
use server_mcp_bridge.CronStore.Writes.{
  IsFiled, IsUntouched, Assigns, allocate-free, Saved, Wrote, Restored, persist-Wrote,
}

-- A call of one of the three operations, with what the system answers it.
pub data Operation : Type 0 where
  add_job :
      (rd : ℕ → ℕ) (now : ℤ) (fault : Option Text)
      (user_id os_username schedule command description context_id : Text)
      → Operation
  update_job :
      (now : ℤ) (fault : Option Text) (job_id os_username : Text)
      (schedule command description context_id : Option Text)
      → Operation
  remove_job : (fault : Option Text) (job_id os_username : Text) → Operation

abbrev pub run : Outside → Operation → CronStore → Result CronJob × CronStore
run o (add_job rd now fault user_id os_username schedule command description context_id) s =
    add o rd now fault user_id os_username schedule command description context_id s
run o (update_job now fault job_id os_username schedule command description context_id) s =
    update o now fault job_id os_username schedule command description context_id s
run o (remove_job fault job_id os_username) s = remove o fault job_id os_username s

-- What a call that returns does to the jobs.
pub data Commits (s : CronStore) : Operation → CronJob → CronStore → Type 0 where
  added :
      {rd : ℕ → ℕ} {now : ℤ} {fault : Option Text}
      {user_id os_username schedule command description context_id id : Text} {s' : CronStore}
      → valid_schedule schedule ≡ true
      → is_empty command ≡ false
      → valid_jobid id ≡ true
      → find id s ≡ none
      → Assigns id
          (some (record {
            job_id = id;
            user_id = user_id;
            os_username = os_username;
            schedule = schedule;
            command = command;
            description = description;
            context_id = context_id;
            created_at = now;
            updated_at = now;
          }))
          s
          s'
      → Commits s
          (add_job rd now fault user_id os_username schedule command description context_id)
          (record {
            job_id = id;
            user_id = user_id;
            os_username = os_username;
            schedule = schedule;
            command = command;
            description = description;
            context_id = context_id;
            created_at = now;
            updated_at = now;
          })
          s'
  updated :
      {now : ℤ} {fault : Option Text} {job_id os_username : Text}
      {schedule command description context_id : Option Text} {prev : CronJob} {s' : CronStore}
      → valid_jobid job_id ≡ true
      → bad_schedule schedule ≡ false
      → bad_command command ≡ false
      → find job_id s ≡ some prev
      → prev.os_username ≡ os_username
      → Assigns job_id (some (changed now schedule command description context_id prev)) s s'
      → Commits s
          (update_job now fault job_id os_username schedule command description context_id)
          (changed now schedule command description context_id prev)
          s'
  removed :
      {fault : Option Text} {job_id os_username : Text} {c : CronJob} {s' : CronStore}
      → valid_jobid job_id ≡ true
      → find job_id s ≡ some c
      → c.os_username ≡ os_username
      → Assigns job_id none s s'
      → Commits s (remove_job fault job_id os_username) c s'

-- Either it throws, and nothing is different.
pub record Refused (s : CronStore) (r : Result CronJob × CronStore) : Type 0 where
  pub what : Text
  pub result : r.0 ≡ threw what
  pub untouched : IsUntouched s r.1

-- Or it returns a job, having done what it is for, and the file is that of the jobs.
pub record Done (o : Outside) (op : Operation) (s : CronStore) (r : Result CronJob × CronStore)
    : Type 0 where
  pub job : CronJob
  pub result : r.0 ≡ returned job
  pub commits : Commits s op job r.1
  pub saved : Saved o r.1

refused : (what : Text) (s : CronStore) → Refused s (threw what, s)
refused what s = record { what = what; result = refl; untouched = (λ id. refl, refl) }

undone :
    (s restored : CronStore) (r : Result CronJob × CronStore)
    → IsUntouched s restored
    → Restored restored r
    → Refused s r
undone s restored r h v = record {
  what = v.what;
  result = v.result;
  untouched = (λ id. ap (find id) v.store ∙ h.0 id, ap (λ t. t.file) v.store ∙ h.1);
}

module _ (o : Outside) (s : CronStore) where
  Wrote-Done :
      (op : Operation) (c : CronJob) (t : CronStore) (r : Result CronJob × CronStore)
      → Commits s op c r.1
      → Wrote o c t r
      → Done o op s r
  Wrote-Done op c t r h w = record { job = c; result = w.result; commits = h; saved = w.saved }

  stored_new :
      (fault : Option Text) (c : CronJob)
      → find c.job_id s ≡ none
      → Refused s (store_new o fault c s)
        ⊎ Wrote o c (record s { jobs = Map.set s.jobs c.job_id c }) (store_new o fault c s)
  unfolding store_new
  stored_new fault c free =
      elim (persist-Wrote o fault c _ (record s { jobs = Map.set s.jobs c.job_id c })) [
        | inl w ↦ inr w
        | inr v ↦ inl (undone s _ _ (λ id. find-erase_added s.jobs c.job_id id c free, refl) v)
      ]

  stored_changed :
      (fault : Option Text) (job_id : Text) (prev c : CronJob)
      → find job_id s ≡ some prev
      → Refused s (store_changed o fault job_id prev c s)
        ⊎ Wrote o c
            (record s { jobs = Map.set s.jobs job_id c })
            (store_changed o fault job_id prev c s)
  unfolding store_changed
  stored_changed fault job_id prev c found =
      elim (persist-Wrote o fault c _ (record s { jobs = Map.set s.jobs job_id c })) [
        | inl w ↦ inr w
        | inr v ↦ inl (undone s _ _ (λ id. find-set_back s.jobs job_id id prev c found, refl) v)
      ]

  stored_removed :
      (fault : Option Text) (job_id : Text) (c : CronJob)
      → find job_id s ≡ some c
      → c.job_id ≡ job_id
      → Refused s (store_removed o fault job_id c s)
        ⊎ Wrote o c (record s { jobs = Map.erase s.jobs job_id }) (store_removed o fault job_id c s)
  unfolding store_removed
  stored_removed fault job_id c found filed =
      elim (persist-Wrote o fault c _ (record s { jobs = Map.erase s.jobs job_id })) [
        | inl w ↦ inr w
        | inr v ↦ inl (
            undone s _ _
              (
                λ id.
                    ap (λ key. Map.find (Map.set (Map.erase s.jobs job_id) key c) id) filed
                    ∙ find-set_erased s.jobs job_id id c found,
                refl,
              )
              v)
      ]

  set-Assigns :
      (r : Result CronJob × CronStore) (id : Text) (c : CronJob)
      → Wrote o c (record s { jobs = Map.set s.jobs id c }) r
      → Assigns id (some c) s r.1
  set-Assigns r id c w j = ap (λ m. Map.find m j) w.jobs ∙ find-set s.jobs id j c

  erase-Assigns :
      (r : Result CronJob × CronStore) (id : Text) (c : CronJob)
      → Wrote o c (record s { jobs = Map.erase s.jobs id }) r
      → Assigns id none s r.1
  erase-Assigns r id c w j = ap (λ m. Map.find m j) w.jobs ∙ find-erase s.jobs id j

  abbrev pub Decided : Operation → Type 0
  Decided op = Refused s (run o op s) ⊎ Done o op s (run o op s)

  pub add-Decided :
      (rd : ℕ → ℕ) (now : ℤ) (fault : Option Text)
      (user_id os_username schedule command description context_id : Text)
      → Decided (add_job rd now fault user_id os_username schedule command description context_id)
  unfolding add
  add-Decided rd now fault user_id os_username schedule command description context_id =
      elim (Bool-cases (valid_schedule schedule)) [
        | inr e ↦ inl (rw e (refused _ s))
        | inl e ↦ elim (Bool-cases (is_empty command)) [
          | inl f ↦ inl (rw (e, f) (refused _ s))
          | inr f ↦ elim (Option-cases (allocate s.jobs rd 0 4)) [
            | inl g ↦ inl (rw (e, f, g) (refused _ s))
            | inr (id, g) ↦
                let free = allocate-free s.jobs rd 0 4 id g in
                rw (e, f, g)
                  (elim (stored_new fault _ free.0) [
                    | inl v ↦ inl v
                    | inr w ↦
                        inr (Wrote-Done _ _ _ _ (added e f free.1 free.0 (set-Assigns _ id _ w)) w)
                  ])
          ]
        ]
      ]

  owned-Decided :
      (op : Operation) (job_id os_username : Text)
      (act : CronJob → CronStore → Result CronJob × CronStore)
      → ((c : CronJob)
          → find job_id s ≡ some c
          → c.os_username ≡ os_username
          → Refused s (act c s) ⊎ Done o op s (act c s))
      → Refused s (with_owned job_id os_username act s)
        ⊎ Done o op s (with_owned job_id os_username act s)
  unfolding with_owned
  owned-Decided op job_id os_username act k = elim (Option-cases (find job_id s)) [
    | inl e ↦ inl (rw (e, with_owned) (refused _ s))
    | inr (c, e) ↦ elim (Bool-cases (text_eq c.os_username os_username)) [
      | inr f ↦ inl (rw (e, f, with_owned) (refused _ s))
      | inl f ↦ rw (e, f, with_owned) (k c e (text_eq→eq _ _ f))
    ]
  ]

  pub update-Decided :
      (now : ℤ) (fault : Option Text) (job_id os_username : Text)
      (schedule command description context_id : Option Text)
      → Decided (update_job now fault job_id os_username schedule command description context_id)
  unfolding update
  update-Decided now fault job_id os_username schedule command description context_id =
      elim (Bool-cases (valid_jobid job_id)) [
        | inr e ↦ inl (rw e (refused _ s))
        | inl e ↦ elim (Bool-cases (bad_schedule schedule)) [
          | inl f ↦ inl (rw (e, f) (refused _ s))
          | inr f ↦ elim (Bool-cases (bad_command command)) [
            | inl g ↦ inl (rw (e, f, g) (refused _ s))
            | inr g ↦
                rw (e, f, g)
                  (owned-Decided _ job_id os_username
                    (λ prev.
                      store_changed o fault job_id prev
                        (changed now schedule command description context_id prev))
                    (λ prev found owner. elim (stored_changed fault job_id prev _ found) [
                      | inl v ↦ inl v
                      | inr w ↦ inr (
                          Wrote-Done _ _ _ _ (updated e f g found owner (set-Assigns _ job_id _ w))
                            w)
                    ]))
          ]
        ]
      ]

  pub remove-Decided :
      (fault : Option Text) (job_id os_username : Text)
      → IsFiled s
      → Decided (remove_job fault job_id os_username)
  unfolding remove
  remove-Decided fault job_id os_username filed = elim (Bool-cases (valid_jobid job_id)) [
    | inr e ↦ inl (rw e (refused _ s))
    | inl e ↦ rw e (
        owned-Decided _ job_id os_username (store_removed o fault job_id) (λ c found owner.
          elim (stored_removed fault job_id c found (filed job_id c found).0) [
            | inl v ↦ inl v
            | inr w ↦
                inr (Wrote-Done _ _ _ _ (removed e found owner (erase-Assigns _ job_id _ w)) w)
          ]))
  ]
