-- ===== src/CronTools/Listed.antt =====
-- The jobs that list_for_user gives have their entries in the crontab that is built for them.
use mathlib.Core.Path.{subst}
use server_mcp_bridge.Base.{
  ◌≡◌, refl, sym, ap, ◌∙◌, inl, inr, some, List, [], ◌∷◌, ◌++◌, Text, text_eq, eq→text_eq,
  Bool-cases,
}
use server_mcp_bridge.Map
use server_mcp_bridge.CronFile.{CronJob, CronStore}
use server_mcp_bridge.CronStore.{find, owned_by, list_for_user}
use server_mcp_bridge.Crontab.{build_crontab_text}
use server_mcp_bridge.Crontab.Entries.{HasEntry, build_crontab_text-HasEntry}

owned_by-split :
    (os_username : Text) (before after : List (Text × CronJob)) (id : Text) (d : CronJob)
    → d.os_username ≡ os_username
    → owned_by os_username (before ++ (id, d) ∷ after)
      ≡ owned_by os_username before ++ d ∷ owned_by os_username after
unfolding owned_by
owned_by-split os_username [] after id d own = rw (eq→text_eq d.os_username os_username own) refl
owned_by-split os_username ((j, e) ∷ before) after id d own =
    elim (Bool-cases (text_eq e.os_username os_username)) [
      | inl h ↦ rw h (ap (λ l. e ∷ l) (owned_by-split os_username before after id d own))
      | inr h ↦ rw h (owned_by-split os_username before after id d own)
    ]

-- A crontab that is built for the jobs of an account has an entry for each of them.
pub listed-HasEntry :
    (os_username existing runner_path : Text) (s : CronStore) (id : Text) (d : CronJob)
    → find id s ≡ some d
    → d.os_username ≡ os_username
    → HasEntry runner_path d (build_crontab_text existing (list_for_user os_username s) runner_path)
listed-HasEntry os_username existing runner_path s id d found own =
    let (before, after, j, split) = Map.to_list-split s.jobs id d found in
    subst (λ jobs. HasEntry runner_path d (build_crontab_text existing jobs runner_path))
      (sym (ap (owned_by os_username) split ∙ owned_by-split os_username before after j d own))
      (build_crontab_text-HasEntry existing (owned_by os_username before) d
        (owned_by os_username after) runner_path)
