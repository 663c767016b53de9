-- ===== src/Crontab/Rebuilt.antt =====
-- Rebuilding a crontab replaces the blocks of the bridge, and keeps the lines of the user.
use mathlib.Core.Path.{subst}
use server_mcp_bridge.Base.{
  ℕ, suc, ◌≡◌, refl, sym, ap, ◌∙◌, Bool, true, false, List, [], ◌∷◌, ◌++◌, arith, Text, All,
  All-append, append_assoc, append-empty,
}
use server_mcp_bridge.CronFile.{CronJob}
use server_mcp_bridge.CronSyntax.{scan_fields, valid_schedule}
use server_mcp_bridge.Crontab.{
  get_lines, kept_lines, out_lines, block_lines, build_crontab_text, has_newline, count_fields,
  validate_schedule,
}
use server_mcp_bridge.Crontab.Blocks.{
  IsLine, OnLines, get_lines-IsLine, kept_lines-Untagged, kept_lines-append, kept_lines-block_lines,
  kept_lines-IsLine, block_lines-IsLine,
}
use server_mcp_bridge.Crontab.Lines.{
  Splits, OwnLines, IsBlocks, get_lines-Splits, out_lines-Splits, kept_lines-OwnLines,
  block_lines-IsBlocks,
}

pub out_lines-append : (a b : List Text) → out_lines (a ++ b) ≡ out_lines a ++ out_lines b
unfolding out_lines
out_lines-append [] b = refl
out_lines-append (line ∷ a) b =
    ap (λ t. line ++ 10 ∷ t) (out_lines-append a b)
    ∙ sym (append_assoc line (10 ∷ out_lines a) (out_lines b))

-- A crontab `new` is made of `existing`: the lines of the user are the same, in their order, and after
-- them come the two lines of each job, and nothing else.
pub record Rebuilds (existing new : Text) (jobs : List CronJob) (runner_path : Text) : Type 0 where
  pub lines : List Text
  pub own : List Text
  pub blocks : List Text
  pub splits : Splits existing lines
  pub owned : OwnLines lines own
  pub is_blocks : IsBlocks runner_path jobs blocks
  pub new_splits : Splits new (own ++ blocks)
  pub new_owned : OwnLines (own ++ blocks) own

-- A rebuilt crontab has the lines of the user in their order, which are all but the marked lines and
-- the line after each, then the mark and the schedule of every job, and nothing else; and when it is
-- read again, the lines of the user are the same. The path of the runner and the identifiers and
-- schedules of the jobs stand on one line.
pub build_crontab_text-Rebuilds :
    (existing : Text) (jobs : List CronJob) (runner_path : Text)
    → IsLine runner_path
    → All OnLines jobs
    → Rebuilds existing (build_crontab_text existing jobs runner_path) jobs runner_path
unfolding build_crontab_text has_newline
build_crontab_text-Rebuilds existing jobs runner_path one h =
    let lines = get_lines existing [] in
    let own = kept_lines false lines in
    let blocks = block_lines runner_path jobs in
    let again : kept_lines false (own ++ blocks) ≡ own =
      kept_lines-append own blocks (kept_lines-Untagged false lines)
      ∙ ap (λ t. own ++ t) (kept_lines-block_lines runner_path jobs)
      ∙ append-empty own in
    let all_lines : All IsLine (own ++ blocks) =
      All-append IsLine own blocks
        (kept_lines-IsLine false lines (get_lines-IsLine existing [] refl))
        (block_lines-IsLine runner_path jobs one h) in
    record {
      lines = lines;
      own = own;
      blocks = blocks;
      splits = get_lines-Splits existing [] refl;
      owned = kept_lines-OwnLines lines;
      is_blocks = block_lines-IsBlocks runner_path jobs;
      new_splits =
          subst (λ t. Splits t (own ++ blocks)) (out_lines-append own blocks)
            (out_lines-Splits (own ++ blocks) all_lines);
      new_owned = subst (OwnLines (own ++ blocks)) again (kept_lines-OwnLines (own ++ blocks));
    }

-- The scan of the store counts the fields that the backend counts, and lets no line feed through.
mutual
  unfolding scan_fields count_fields

  scan-inside : (n : ℕ) (s : Text) → scan_fields n true s ≡ true → count_fields n true s ≡ 5
  scan-inside n [] h = ground (arith, h)
  scan-inside n (c ∷ cs) h = ground (arith, h, scan-inside n cs, scan-outside n cs)

  scan-outside :
      (n : ℕ) (s : Text) → scan_fields (suc n) false s ≡ true → count_fields n false s ≡ 5
  scan-outside n [] h = absurd (ground (arith, h))
  scan-outside n (c ∷ cs) h = ground (arith, h, scan-inside (suc n) cs, scan-outside n cs)

scan-IsLine : (n : ℕ) (in_field : Bool) (s : Text) → scan_fields n in_field s ≡ true → IsLine s
unfolding scan_fields has_newline
scan-IsLine n in_field [] h = refl
scan-IsLine n true (c ∷ cs) h =
    ground (arith, h, scan-IsLine (suc n) false cs, scan-IsLine n true cs)
scan-IsLine n false (c ∷ cs) h = ground (arith, h, scan-IsLine n false cs, scan-IsLine n true cs)

-- A schedule that the store accepts is accepted here too, and stands on one line.
pub validate_schedule-valid_schedule :
    (schedule : Text)
    → valid_schedule schedule ≡ true
    → (validate_schedule schedule ≡ []) × IsLine schedule
unfolding valid_schedule validate_schedule
validate_schedule-valid_schedule [] h = cc
validate_schedule-valid_schedule (c ∷ cs) h =
    let scanned : scan_fields 1 false (c ∷ cs) ≡ true = ground (arith, h) in
    let one = scan-IsLine 1 false (c ∷ cs) scanned in
    let five = scan-outside 0 (c ∷ cs) scanned in (rw (one, five) refl, one)
