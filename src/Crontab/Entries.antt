-- ===== src/Crontab/Entries.antt =====
-- What stands in a crontab that build_crontab_text made, as text: an entry for every job, and the lines
-- of the user before them.
use server_mcp_bridge.Base.{
  ◌≡◌, refl, sym, ap, ◌∙◌, ◌⊎◌, inl, inr, false, List, [], ◌∷◌, ◌++◌, Text, codes, append_assoc,
}
use server_mcp_bridge.CronFile.{CronJob}
use server_mcp_bridge.Crontab.{
  get_lines, kept_lines, out_lines, block_lines, tag_line, schedule_line, build_crontab_text,
  has_newline,
}
use server_mcp_bridge.Crontab.Blocks.{get_lines-IsLine, kept_lines-IsLine}
use server_mcp_bridge.Crontab.Lines.{
  Splits, OwnLines, get_lines-Splits, out_lines-Splits, kept_lines-OwnLines,
}
use server_mcp_bridge.Crontab.Rebuilt.{out_lines-append}

abbrev pub AtLineStart : (before : Text) → Type 0
AtLineStart before = (before ≡ []) ⊎ ((t : Text) × (before ≡ t ++ 10 ∷ []))

-- The mark with the identifier of the job, a line feed, its schedule, the runner with the identifier,
-- and a line feed.
abbrev pub entry : (runner_path : Text) → CronJob → Text
entry runner_path j =
    codes "# mcp_bridge:job_id="
    ++ (j.job_id
        ++ (codes "\n"
            ++ (j.schedule
                ++ (codes " " ++ (runner_path ++ (codes " " ++ (j.job_id ++ codes "\n")))))))

-- The text has the entry of the job, from the beginning of a line on.
pub record HasEntry (runner_path : Text) (j : CronJob) (text : Text) : Type 0 where
  pub before : Text
  pub after : Text
  pub starts : AtLineStart before
  pub is_there : text ≡ before ++ (entry runner_path j ++ after)

-- The lines of the user in `existing` come first in `text`, in their order.
pub record KeepsLines (existing text : Text) : Type 0 where
  pub lines : List Text
  pub own : List Text
  pub front : Text
  pub after : Text
  pub splits : Splits existing lines
  pub owned : OwnLines lines own
  pub front_splits : Splits front own
  pub is_there : text ≡ front ++ after

out_lines-AtLineStart : (lines : List Text) → AtLineStart (out_lines lines)
unfolding out_lines
out_lines-AtLineStart [] = inl refl
out_lines-AtLineStart (line ∷ lines) = elim (out_lines-AtLineStart lines) [
  | inl e ↦ inr (line, ap (λ t. line ++ 10 ∷ t) e)
  | inr (t, e) ↦
      inr (line ++ 10 ∷ t, ap (λ t. line ++ 10 ∷ t) e ∙ sym (append_assoc line (10 ∷ t) (10 ∷ [])))
]

block_lines-append :
    (runner_path : Text) (a b : List CronJob)
    → block_lines runner_path (a ++ b) ≡ block_lines runner_path a ++ block_lines runner_path b
unfolding block_lines
block_lines-append runner_path [] b = refl
block_lines-append runner_path (j ∷ a) b =
    ap (λ t. tag_line j ∷ schedule_line runner_path j ∷ t) (block_lines-append runner_path a b)

entry_lem :
    (runner_path : Text) (j : CronJob) (jobs : List CronJob)
    → out_lines (block_lines runner_path (j ∷ jobs))
      ≡ entry runner_path j ++ out_lines (block_lines runner_path jobs)
unfolding out_lines block_lines
entry_lem runner_path j jobs = simp append_assoc

pub build_crontab_text-HasEntry :
    (existing : Text) (a : List CronJob) (j : CronJob) (b : List CronJob) (runner_path : Text)
    → HasEntry runner_path j (build_crontab_text existing (a ++ j ∷ b) runner_path)
unfolding build_crontab_text has_newline
build_crontab_text-HasEntry existing a j b runner_path =
    let own = kept_lines false (get_lines existing []) in
    record {
      before = out_lines (own ++ block_lines runner_path a);
      after = out_lines (block_lines runner_path b);
      starts = out_lines-AtLineStart (own ++ block_lines runner_path a);
      is_there =
          ap (λ t. out_lines own ++ out_lines t) (block_lines-append runner_path a (j ∷ b))
          ∙ ap (λ t. out_lines own ++ t)
              (out_lines-append (block_lines runner_path a) (block_lines runner_path (j ∷ b))
                ∙ ap (λ t. out_lines (block_lines runner_path a) ++ t) (entry_lem runner_path j b))
          ∙ sym (
              append_assoc (out_lines own) (out_lines (block_lines runner_path a))
                (entry runner_path j ++ out_lines (block_lines runner_path b)))
          ∙ ap (λ t. t ++ (entry runner_path j ++ out_lines (block_lines runner_path b)))
              (sym (out_lines-append own (block_lines runner_path a)));
    }

pub build_crontab_text-KeepsLines :
    (existing : Text) (jobs : List CronJob) (runner_path : Text)
    → KeepsLines existing (build_crontab_text existing jobs runner_path)
unfolding build_crontab_text has_newline
build_crontab_text-KeepsLines existing jobs runner_path =
    let lines = get_lines existing [] in
    record {
      lines = lines;
      own = kept_lines false lines;
      front = out_lines (kept_lines false lines);
      after = out_lines (block_lines runner_path jobs);
      splits = get_lines-Splits existing [] refl;
      owned = kept_lines-OwnLines lines;
      front_splits =
          out_lines-Splits (kept_lines false lines)
            (kept_lines-IsLine false lines (get_lines-IsLine existing [] refl));
      is_there = refl;
    }
