-- ===== src/Crontab/Lines.antt =====
-- A specification of crontabs, apart from the loops of the backend: the lines of a text, which of them
-- are the user's, and which are the bridge's.
use mathlib.Core.Path.{subst}
use server_mcp_bridge.Base.{
  ◌≡◌, refl, sym, ap, ◌∙◌, inl, inr, true, false, List, [], ◌∷◌, ◌++◌, arith, Text, codes, ◌==◌,
  text_eq→eq, is_empty, take, drop, append-take-drop, All, append_assoc, append-empty, Bool-cases,
}
use server_mcp_bridge.CronFile.{CronJob}
use server_mcp_bridge.Crontab.{get_lines, is_tag, kept_lines, out_lines, block_lines, has_newline}
use server_mcp_bridge.Crontab.Blocks.{IsLine, has_newline-append}

-- A text is its lines, each ended by a line feed, but perhaps the last, which is then not empty.
pub data Splits : Text → List Text → Type 0 where
  no_line : Splits [] []
  last_line : (line : Text) → IsLine line → is_empty line ≡ false → Splits line (line ∷ [])
  one_line :
      (line rest : Text) (lines : List Text)
      → IsLine line
      → Splits rest lines
      → Splits (line ++ 10 ∷ rest) (line ∷ lines)

-- A line that begins with the mark of the bridge.
abbrev pub IsTag : Text → Type 0
IsTag line = (id : Text) × (line ≡ codes "# mcp_bridge:job_id=" ++ id)

-- The lines of a crontab, and those of them that are the user's: a mark and the line after it are not.
pub data OwnLines : List Text → List Text → Type 0 where
  no_lines : OwnLines [] []
  cut_block : (tag : Text) → IsTag tag → OwnLines (tag ∷ []) []
  block :
      (tag schedule : Text) (lines own : List Text)
      → IsTag tag
      → OwnLines lines own
      → OwnLines (tag ∷ schedule ∷ lines) own
  own_line :
      (line : Text) (lines own : List Text)
      → ¬ IsTag line
      → OwnLines lines own
      → OwnLines (line ∷ lines) (line ∷ own)

-- Two lines for each job, in order: the mark with its identifier, and its schedule with the call of
-- the runner.
pub data IsBlocks (runner_path : Text) : List CronJob → List Text → Type 0 where
  no_job : IsBlocks runner_path [] []
  one_job :
      (j : CronJob) (jobs : List CronJob) (lines : List Text)
      → IsBlocks runner_path jobs lines
      → IsBlocks runner_path (j ∷ jobs) (
          (codes "# mcp_bridge:job_id=" ++ j.job_id)
          ∷ (j.schedule ++ (codes " " ++ (runner_path ++ (codes " " ++ j.job_id))))
          ∷ lines)

is_tag-IsTag : (line : Text) → is_tag line ≡ true → IsTag line
unfolding is_tag
is_tag-IsTag line h = (
  drop 20 line,
  sym (append-take-drop 20 line)
      ∙ ap (λ t. t ++ drop 20 line) (text_eq→eq (take 20 line) (codes "# mcp_bridge:job_id=") h),
)

IsTag-is_tag : (line : Text) → IsTag line → is_tag line ≡ true
unfolding is_tag
IsTag-is_tag line (id, e) = rw e refl

pub get_lines-Splits :
    (text current : Text) → IsLine current → Splits (current ++ text) (get_lines text current)
unfolding get_lines has_newline
get_lines-Splits [] [] h = no_line
get_lines-Splits [] (c ∷ current) h = rw (append-empty current) (last_line (c ∷ current) h refl)
get_lines-Splits (c ∷ cs) current h = elim (Bool-cases (c == 10)) [
  | inl e ↦
      let same : c ≡ 10 = ground (arith, e) in
      rw same (one_line current cs (get_lines cs []) h (get_lines-Splits cs [] refl))
  | inr e ↦
      let rest =
        get_lines-Splits cs (current ++ c ∷ [])
          (has_newline-append current (c ∷ []) ∙ rw (h, e) refl) in
      rw e (
        subst (λ t. Splits t (get_lines cs (current ++ c ∷ []))) (append_assoc current (c ∷ []) cs)
          rest)
]

pub out_lines-Splits : (lines : List Text) → All IsLine lines → Splits (out_lines lines) lines
unfolding out_lines
out_lines-Splits [] h = no_line
out_lines-Splits (line ∷ lines) (one, h) =
    one_line line (out_lines lines) lines one (out_lines-Splits lines h)

mutual
  unfolding kept_lines

  pub kept_lines-OwnLines : (lines : List Text) → OwnLines lines (kept_lines false lines)
  kept_lines-OwnLines [] = no_lines
  kept_lines-OwnLines (line ∷ lines) = elim (Bool-cases (is_tag line)) [
    | inl e ↦ rw e (after_tag line lines (is_tag-IsTag line e))
    | inr e ↦ rw e (
        own_line line lines _ (λ t. absurd (ground (arith, e, IsTag-is_tag line t)))
          (kept_lines-OwnLines lines))
  ]

  after_tag :
      (tag : Text) (lines : List Text) → IsTag tag → OwnLines (tag ∷ lines) (kept_lines true lines)
  after_tag tag [] t = cut_block tag t
  after_tag tag (schedule ∷ lines) t = block tag schedule lines _ t (kept_lines-OwnLines lines)

pub block_lines-IsBlocks :
    (runner_path : Text) (jobs : List CronJob)
    → IsBlocks runner_path jobs (block_lines runner_path jobs)
unfolding block_lines
block_lines-IsBlocks runner_path [] = no_job
block_lines-IsBlocks runner_path (j ∷ jobs) =
    one_job j jobs _ (block_lines-IsBlocks runner_path jobs)
