-- ===== src/CronTools/Created.antt =====
-- How cron_create ends: its job is in the store and in the crontab, or the job is taken back.
use mathlib.Core.Path.{subst}
use server_mcp_bridge.Base.{
  ◌≡◌, refl, sym, ◌∙◌, ◌⊎◌, inl, inr, Option, none, some, [], ◌∷◌, ◌++◌, Text, codes, text_eq,
  text_eq→eq, eq→text_eq, is_empty, Bool-cases, Option-cases,
}
use server_mcp_bridge.Json.{Fields, get, string_value, string_at}
use server_mcp_bridge.Map
use server_mcp_bridge.Auth.{RequestContext}
use server_mcp_bridge.Registry.{ToolResult, returned, threw}
use server_mcp_bridge.CronFile
use server_mcp_bridge.CronFile.{CronJob, CronStore, Outside}
use server_mcp_bridge.CronStore
use server_mcp_bridge.CronStore.{find, add, owned_by, list_for_user}
use server_mcp_bridge.CronStore.Writes.{IsFiled, Assigns, Saved}
use server_mcp_bridge.CronStore.Commits.{
  Operation, add_job, remove_job, Commits, added, removed, Refused, Done, add-Decided,
  remove-Decided,
}
use server_mcp_bridge.CronStore.Owners.{Commits-IsFiled}
use server_mcp_bridge.Crontab.{build_crontab_text, validate_schedule}
use server_mcp_bridge.Crontab.Entries.{HasEntry, KeepsLines, build_crontab_text-KeepsLines}
use server_mcp_bridge.CronTools.Listed.{listed-HasEntry}
use server_mcp_bridge.CronTools.{
  CronWorld, CronCall, meta_path, job_to_json, read_user_crontab, rebuild_user_schedule, write_meta,
  then_rebuild, apply_job_install, after_install, after_add, create_with, cron_create,
}

-- Taking a new job back leaves every job as it was.
taken_back :
    (s s' s'' : CronStore) (id : Text) (c : CronJob)
    → find id s ≡ none
    → Assigns id (some c) s s'
    → Assigns id none s' s''
    → (j : Text) → find j s'' ≡ find j s
taken_back s s' s'' id c free h h' j = elim (Bool-cases (text_eq id j)) [
  | inl e ↦
      let at_id : id ≡ j = text_eq→eq id j e in
      let gone : find j s ≡ none = rw (← at_id) free in rw (h' j, e, gone) refl
  | inr e ↦ rw (h' j, e, h j, e) refl
]

-- What the arguments of a call ask for; `none` is one that is missing or of another type.
pub record Asked : Type 0 where
  pub schedule : Option Text
  pub command : Option Text
  pub description : Option Text
  pub context_id : Option Text

abbrev pub asked_of : Fields → Asked
asked_of args = record {
  schedule = string_at (get (codes "schedule") args);
  command = string_at (get (codes "command") args);
  description = string_value (get (codes "description") args);
  context_id = string_value (get (codes "context_id") args);
}

-- A job is what was asked for.
pub record IsAsked (asked : Asked) (j : CronJob) : Type 0 where
  pub schedule : asked.schedule ≡ some j.schedule
  pub command : asked.command ≡ some j.command
  pub description : asked.description ≡ some j.description
  pub context_id : asked.context_id ≡ some j.context_id

module _ (o : Outside) (runner_path : Text) (c : CronCall) (ctx : RequestContext)
    (w : CronWorld) where
  -- The crontab of the account after a rebuild for the jobs of a store.
  abbrev rebuilt : CronStore → Text
  rebuilt s =
      build_crontab_text (read_user_crontab c.processes ctx.os_username w)
        (list_for_user ctx.os_username s) runner_path

  -- A crontab has an entry for every job of the account in a store, and the lines of the user that were
  -- read before.
  pub record IsInstalled (s : CronStore) (text : Text) : Type 0 where
    pub entries :
        (id : Text) (d : CronJob)
        → find id s ≡ some d
        → d.os_username ≡ ctx.os_username
        → HasEntry runner_path d text
    pub user_lines : KeepsLines (read_user_crontab c.processes ctx.os_username w) text

  -- The job is new, is of the caller, and is in the store, in its file and in the new crontab.
  pub record Installed (asked : Asked) (r : ToolResult × CronWorld) : Type 0 where
    pub job : CronJob
    pub result : r.0 ≡ returned (job_to_json job)
    pub is_asked : IsAsked asked job
    pub owner : (job.user_id ≡ ctx.user_id) × (job.os_username ≡ ctx.os_username)
    pub free : find job.job_id w.store ≡ none
    pub jobs : Assigns job.job_id (some job) w.store r.1.store
    pub saved : Saved o r.1.store
    pub text : Text
    pub crontabs : r.1.crontabs ≡ Map.set w.crontabs ctx.os_username text
    pub scheduled : HasEntry runner_path job text
    pub installed : IsInstalled r.1.store text

  -- The job stays in the store, since the call that takes it back threw as well.
  pub record Kept (s : CronStore) : Type 0 where
    pub job : CronJob
    pub jobs : Assigns job.job_id (some job) w.store s
    pub before : CronStore
    pub reason : Text
    pub undo :
        (CronStore.remove o c.undo_fault job.job_id ctx.os_username before).0
        ≡ CronFile.threw reason
    pub same : (id : Text) → find id s ≡ find id before

  pub record Failed (r : ToolResult × CronWorld) : Type 0 where
    pub what : Text
    pub result : r.0 ≡ threw what
    pub crontabs : r.1.crontabs ≡ w.crontabs
    pub jobs : ((id : Text) → find id r.1.store ≡ find id w.store) ⊎ Kept r.1.store

  -- An installation writes the crontab, or fails and leaves it.
  record Applied (s : CronStore) (a : Option Text × CronWorld) : Type 0 where
    store : a.1.store ≡ s
    end :
        ((a.0 ≡ none) × (a.1.crontabs ≡ Map.set w.crontabs ctx.os_username (rebuilt s)))
        ⊎ ((what : Text) × (a.0 ≡ some what) × (a.1.crontabs ≡ w.crontabs))

  rebuilt-Applied :
      (s : CronStore) (metas : Map.Map Text)
      → Applied s (
          rebuild_user_schedule o runner_path c.processes ctx.os_username
            (record w { store = s; metas = metas }))
  unfolding rebuild_user_schedule
  rebuilt-Applied s metas = elim (Option-cases c.processes.crontab_fault) [
    | inl e ↦ rw e (record { store = refl; end = inl (refl, refl) })
    | inr (what, e) ↦ rw e (record { store = refl; end = inr (what, refl, refl) })
  ]

  apply_job_install-Applied :
      (j : CronJob) (s : CronStore)
      → Applied s
          (apply_job_install o runner_path c.processes j ctx.os_username (record w { store = s }))
  unfolding apply_job_install
  apply_job_install-Applied j s = written _
    where
      written :
          (body : Option Text)
          → Applied s (
              then_rebuild o runner_path c.processes ctx.os_username
                (write_meta o runner_path c.processes j body (record w { store = s })))
      written none = record { store = refl; end = inr (_, refl, refl) }
      written (some body) = with_meta body c.processes.meta_fault
        where
          with_meta :
              (body : Text) (fault : Option Text)
              → Applied s (
                  then_rebuild o runner_path c.processes ctx.os_username (elim fault [
                    | some what ↦ (some what, record w { store = s })
                    | none ↦ (
                      none,
                      record w {
                        store = s;
                        metas = Map.set w.metas (meta_path j) (body ++ b'\n' ∷ []);
                      },
                    )
                  ]))
          with_meta body none = rebuilt-Applied s _
          with_meta body (some what) = record { store = refl; end = inr (what, refl, refl) }

  unchanged :
      (what : Text) (s : CronStore)
      → ((id : Text) → find id s ≡ find id w.store)
      → Failed (threw what, record w { store = s })
  unchanged what s h = record { what = what; result = refl; crontabs = refl; jobs = inl h }

  -- A failure after the store has the job.
  undone-Failed :
      (j : CronJob) (what : Text) (v : CronWorld)
      → IsFiled v.store
      → find j.job_id w.store ≡ none
      → Assigns j.job_id (some j) w.store v.store
      → v.crontabs ≡ w.crontabs
      → Failed (after_install o runner_path c j ctx.os_username (some what, v))
  undone-Failed j what v filed free h crontabs = record {
    what = what;
    result = refl;
    crontabs = crontabs;
    jobs = elim (remove-Decided o v.store c.undo_fault j.job_id ctx.os_username filed) [
      | inl x ↦ inr (record {
        job = j;
        jobs = λ id. x.untouched.0 id ∙ h id;
        before = v.store;
        reason = x.what;
        undo = x.result;
        same = x.untouched.0;
      })
      | inr x ↦ inl (gone x.job _ x.commits)
    ];
  }
    where
      gone :
          (d : CronJob) (s : CronStore)
          → Commits v.store (remove_job c.undo_fault j.job_id ctx.os_username) d s
          → (id : Text) → find id s ≡ find id w.store
      gone d s (removed valid found owner h') = taken_back w.store v.store s j.job_id j free h h'

  abbrev pub Ends : Asked → ToolResult × CronWorld → Type 0
  Ends asked r = Installed asked r ⊎ Failed r

  rebuilt-IsInstalled : (s : CronStore) → IsInstalled s (rebuilt s)
  rebuilt-IsInstalled s = record {
    entries = λ id d found own. listed-HasEntry ctx.os_username _ runner_path s id d found own;
    user_lines = build_crontab_text-KeepsLines _ (list_for_user ctx.os_username s) runner_path;
  }

  at_new :
      (j : CronJob) (s : CronStore)
      → Assigns j.job_id (some j) w.store s
      → j.os_username ≡ ctx.os_username
      → HasEntry runner_path j (rebuilt s)
  at_new j s h own =
      listed-HasEntry ctx.os_username _ runner_path s j.job_id j
        (h j.job_id ∙ rw (eq→text_eq j.job_id j.job_id refl) refl) own

  -- The installation of a job that the store has, and its end.
  ended_after :
      (asked : Asked) (j : CronJob) (s : CronStore) (a : Option Text × CronWorld)
      → Applied s a
      → IsAsked asked j
      → IsFiled s
      → (j.user_id ≡ ctx.user_id) × (j.os_username ≡ ctx.os_username)
      → find j.job_id w.store ≡ none
      → Assigns j.job_id (some j) w.store s
      → Saved o s
      → Ends asked (after_install o runner_path c j ctx.os_username a)
  ended_after asked j s (fault, v) x is_asked filed owner free h saved = elim x.end [
    | inl (e, f) ↦ rw e (
        inl (record {
          job = j;
          result = refl;
          is_asked = is_asked;
          owner = owner;
          free = free;
          jobs = subst (λ t. Assigns j.job_id (some j) w.store t) (sym x.store) h;
          saved = subst (Saved o) (sym x.store) saved;
          text = rebuilt s;
          crontabs = f;
          scheduled = at_new j s h owner.1;
          installed = subst (λ t. IsInstalled t (rebuilt s)) (sym x.store) (rebuilt-IsInstalled s);
        }))
    | inr (what, e, f) ↦ rw e (
        inr (
          undone-Failed j what v (subst IsFiled (sym x.store) filed) free
            (subst (λ t. Assigns j.job_id (some j) w.store t) (sym x.store) h) f))
  ]

  after_add-Ends :
      (schedule command description context_id : Text)
      → IsFiled w.store
      → Ends
          (record {
            schedule = some schedule;
            command = some command;
            description = some description;
            context_id = some context_id;
          })
          (after_add o runner_path c ctx.os_username w (
            add o c.rd c.now c.fault ctx.user_id ctx.os_username schedule command description
              context_id w.store))
  after_add-Ends schedule command description context_id filed =
      elim (add-Decided o w.store c.rd c.now c.fault ctx.user_id ctx.os_username schedule command
        description context_id) [ inl x ↦ ended _ (inl x) | inr x ↦ ended _ (inr x) ]
    where
      asked : Asked
      asked = record {
        schedule = some schedule;
        command = some command;
        description = some description;
        context_id = some context_id;
      }

      op : Operation
      op =
          add_job c.rd c.now c.fault ctx.user_id ctx.os_username schedule command description
            context_id

      ended :
          (r : CronFile.Result CronJob × CronStore)
          → Refused w.store r ⊎ Done o op w.store r
          → Ends asked (after_add o runner_path c ctx.os_username w r)
      ended (r, s) (inl x) = rw x.result (inr (unchanged x.what s x.untouched.0))
      ended (r, s) (inr x) = rw x.result (stored x.job s x.commits x.saved)
        where
          stored :
              (j : CronJob) (s : CronStore)
              → Commits w.store op j s
              → Saved o s
              → Ends asked (after_add o runner_path c ctx.os_username w (CronFile.returned j, s))
          stored j s (added v f valid free h) saved =
              ended_after asked _ s _ (apply_job_install-Applied _ s)
                (record { schedule = refl; command = refl; description = refl; context_id = refl })
                (Commits-IsFiled w.store s op _ filed (added v f valid free h)) (refl, refl) free h
                saved

  create_with-Ends :
      (schedule command description context_id : Option Text)
      → IsFiled w.store
      → Ends
          (record {
            schedule = schedule;
            command = command;
            description = description;
            context_id = context_id;
          })
          (create_with o runner_path c ctx schedule command description context_id w)
  create_with-Ends (some schedule) (some command) (some description) (some context_id) filed =
      elim (Bool-cases (is_empty (validate_schedule schedule))) [
        | inl e ↦ rw e (after_add-Ends schedule command description context_id filed)
        | inr e ↦ rw e (inr (unchanged _ w.store (λ id. refl)))
      ]
  create_with-Ends none _ _ _ filed = inr (unchanged _ w.store (λ id. refl))
  create_with-Ends (some _) none _ _ filed = inr (unchanged _ w.store (λ id. refl))
  create_with-Ends (some _) (some _) none _ filed = inr (unchanged _ w.store (λ id. refl))
  create_with-Ends (some _) (some _) (some _) none filed = inr (unchanged _ w.store (λ id. refl))

  -- If every job of the store stands under its own valid identifier, cron_create ends in one of two
  -- ways, whatever its arguments are and the calls answer. It returns a new job of the caller, of
  -- the schedule, command, description and context asked for, that is in the store and in its file, and no other job differs; and the account has a new crontab, in
  -- which every job of the account has its entry, with the mark, the schedule and the runner, after
  -- the lines of the user that were read. Or it throws, no crontab differs, and no job does, unless
  -- the call that takes the new job back threw too, which leaves it in the store.
  pub cron_create-Ends :
      (args : Fields)
      → IsFiled w.store
      → Ends (asked_of args) (cron_create o runner_path c ctx args w)
  unfolding cron_create
  cron_create-Ends args filed = elim (Bool-cases (is_empty ctx.os_username)) [
    | inl e ↦ rw e (inr (unchanged _ w.store (λ id. refl)))
    | inr e ↦ rw e (
        create_with-Ends (string_at (get (codes "schedule") args))
          (string_at (get (codes "command") args)) (string_value (get (codes "description") args))
          (string_value (get (codes "context_id") args)) filed)
  ]
