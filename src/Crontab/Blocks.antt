-- ===== src/Crontab/Blocks.antt =====
-- Lines and texts: reading back the lines that were written, and what the loop keeps of them.
use server_mcp_bridge.Base.{
  ◌≡◌, refl, sym, ap, ◌∙◌, inl, inr, Bool, true, false, ◌||◌, List, [], ◌∷◌, ◌++◌, arith, Text,
  ◌==◌, is_empty, All, append_assoc, append-empty, if_both, Bool-cases,
}
use server_mcp_bridge.CronFile.{CronJob}
use server_mcp_bridge.Crontab.{get_lines, is_tag, kept_lines, out_lines, block_lines, has_newline}

-- A text that stands on one line.
abbrev pub IsLine : Text → Type 0
IsLine t = has_newline t ≡ false

get_lines-line :
    (line rest current : Text)
    → IsLine line
    → get_lines (line ++ 10 ∷ rest) current ≡ (current ++ line) ∷ get_lines rest []
unfolding get_lines has_newline
get_lines-line [] rest current h = ap (λ t. t ∷ get_lines rest []) (sym (append-empty current))
get_lines-line (c ∷ line) rest current h = elim (Bool-cases (c == 10)) [
  | inl e ↦ absurd (ground (arith, h, e))
  | inr e ↦ rw e (
      get_lines-line line rest (current ++ c ∷ []) (ground (arith, h, e))
      ∙ ap (λ t. t ∷ get_lines rest []) (append_assoc current (c ∷ []) line))
]

-- Reading gives the lines that were written.
pub get_lines-out_lines :
    (lines : List Text) (rest : Text)
    → All IsLine lines
    → get_lines (out_lines lines ++ rest) [] ≡ lines ++ get_lines rest []
unfolding out_lines
get_lines-out_lines [] rest h = refl
get_lines-out_lines (line ∷ lines) rest (one, h) =
    ap (λ t. get_lines t []) (append_assoc line (10 ∷ out_lines lines) rest)
    ∙ get_lines-line line (out_lines lines ++ rest) [] one
    ∙ ap (λ ls. line ∷ ls) (get_lines-out_lines lines rest h)

pub has_newline-append : (a b : Text) → has_newline (a ++ b) ≡ (has_newline a || has_newline b)
unfolding has_newline
has_newline-append [] b = refl
has_newline-append (c ∷ a) b = ground (arith, has_newline-append a b)

pub get_lines-IsLine : (text current : Text) → IsLine current → All IsLine (get_lines text current)
unfolding get_lines has_newline
get_lines-IsLine [] current h = if_both (All IsLine) (is_empty current) tt (h, tt)
get_lines-IsLine (c ∷ cs) current h = elim (Bool-cases (c == 10)) [
  | inl e ↦ rw e (h, get_lines-IsLine cs [] refl)
  | inr e ↦ rw e (
      get_lines-IsLine cs (current ++ c ∷ [])
        (has_newline-append current (c ∷ []) ∙ rw (h, e) refl))
]

abbrev Untagged : List Text → Type 0
Untagged lines = All (λ line. is_tag line ≡ false) lines

pub kept_lines-Untagged :
    (skip_next : Bool) (lines : List Text) → Untagged (kept_lines skip_next lines)
unfolding kept_lines
kept_lines-Untagged true [] = tt
kept_lines-Untagged false [] = tt
kept_lines-Untagged true (line ∷ lines) = kept_lines-Untagged false lines
kept_lines-Untagged false (line ∷ lines) = elim (Bool-cases (is_tag line)) [
  | inl e ↦ rw e (kept_lines-Untagged true lines)
  | inr e ↦ rw e (e, kept_lines-Untagged false lines)
]

-- Of lines without a tag, and of what follows them, nothing is dropped before it is reached.
pub kept_lines-append :
    (lines rest : List Text)
    → Untagged lines
    → kept_lines false (lines ++ rest) ≡ lines ++ kept_lines false rest
unfolding kept_lines
kept_lines-append [] rest h = refl
kept_lines-append (line ∷ lines) rest (one, h) =
    rw one (ap (λ ls. line ∷ ls) (kept_lines-append lines rest h))

-- The blocks of jobs are dropped.
pub kept_lines-block_lines :
    (runner_path : Text) (jobs : List CronJob)
    → kept_lines false (block_lines runner_path jobs) ≡ []
unfolding kept_lines block_lines is_tag
kept_lines-block_lines runner_path [] = refl
kept_lines-block_lines runner_path (j ∷ jobs) = kept_lines-block_lines runner_path jobs

pub kept_lines-IsLine :
    (skip_next : Bool) (lines : List Text)
    → All IsLine lines
    → All IsLine (kept_lines skip_next lines)
unfolding kept_lines
kept_lines-IsLine true [] h = tt
kept_lines-IsLine false [] h = tt
kept_lines-IsLine true (line ∷ lines) (one, h) = kept_lines-IsLine false lines h
kept_lines-IsLine false (line ∷ lines) (one, h) = elim (Bool-cases (is_tag line)) [
  | inl e ↦ rw e (kept_lines-IsLine true lines h)
  | inr e ↦ rw e (one, kept_lines-IsLine false lines h)
]

-- A job whose texts stand on one line.
abbrev pub OnLines : CronJob → Type 0
OnLines j = IsLine j.job_id × IsLine j.schedule

pub block_lines-IsLine :
    (runner_path : Text) (jobs : List CronJob)
    → IsLine runner_path
    → All OnLines jobs
    → All IsLine (block_lines runner_path jobs)
unfolding block_lines has_newline
block_lines-IsLine runner_path [] r h = tt
block_lines-IsLine runner_path (j ∷ jobs) r ((id_line, schedule_one), h) = (
  id_line,
  (
    has_newline-append j.schedule (b' ' ∷ (runner_path ++ b' ' ∷ j.job_id))
        ∙ rw (schedule_one, has_newline-append runner_path (b' ' ∷ j.job_id), r, id_line) refl,
    block_lines-IsLine runner_path jobs r h,
  ),
)
