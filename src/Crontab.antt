-- ===== src/Crontab.antt =====
-- The text of a user's crontab: build_crontab_text and validate_schedule of
-- src/tools/scheduling/cron_backend_linux.cpp.
pub mod Blocks
pub mod Lines
pub mod Rebuilt
pub mod Entries
mod Tests
use server_mcp_bridge.Base.{
  ℕ, zero, suc, Bool, true, false, not, ◌&&◌, ◌||◌, List, [], ◌∷◌, ◌++◌, Text, codes, text_eq, ltb,
  ◌==◌, length, is_empty, take, if◌then◌else◌,
}
use server_mcp_bridge.CronFile.{CronJob}

-- `std::getline` until it fails, with the line that is being read. A line feed at the end does not
-- begin another line.
unfoldable pub get_lines : (text current : Text) → List Text
get_lines [] current = if is_empty current then [] else current ∷ []
get_lines (c ∷ cs) current =
    let next = get_lines cs [] in
    let more = get_lines cs (current ++ c ∷ []) in if c == 10 then current ∷ next else more

abbrev pub tag_prefix : Text
tag_prefix = codes "# mcp_bridge:job_id="

-- `line.compare(0, strlen(kBlockTagPrefix), kBlockTagPrefix) == 0`.
unfoldable pub is_tag : Text → Bool
unfolding text_eq
is_tag line = text_eq (take 20 line) tag_prefix

-- The loop over the lines: a tag line is dropped with the line after it.
unfoldable pub kept_lines : (skip_next : Bool) → List Text → List Text
unfolding is_tag
kept_lines skip_next [] = []
kept_lines true (line ∷ lines) = kept_lines false lines
kept_lines false (line ∷ lines) =
    let skipped = kept_lines true lines in
    let rest = kept_lines false lines in if is_tag line then skipped else line ∷ rest

-- `out += line; out += '\n';` for each line.
unfoldable pub out_lines : List Text → Text
out_lines [] = []
out_lines (line ∷ lines) = line ++ 10 ∷ out_lines lines

abbrev pub tag_line : CronJob → Text
tag_line j = tag_prefix ++ j.job_id

abbrev pub schedule_line : (runner_path : Text) → CronJob → Text
schedule_line runner_path j = j.schedule ++ b' ' ∷ (runner_path ++ b' ' ∷ j.job_id)

-- The lines of the second loop.
unfoldable pub block_lines : (runner_path : Text) → List CronJob → List Text
block_lines runner_path [] = []
block_lines runner_path (j ∷ jobs) =
    tag_line j ∷ schedule_line runner_path j ∷ block_lines runner_path jobs

unfoldable pub build_crontab_text :
    (existing : Text) (jobs : List CronJob) (runner_path : Text) → Text
unfolding get_lines kept_lines out_lines block_lines
build_crontab_text existing jobs runner_path =
    out_lines (kept_lines false (get_lines existing [])) ++ out_lines (block_lines runner_path jobs)

-- `schedule.find('\n') != npos`.
unfoldable pub has_newline : Text → Bool
has_newline [] = false
has_newline (c ∷ cs) = let rest = has_newline cs in (c == 10) || rest

-- The loop that counts the fields.
unfoldable pub count_fields : (fields : ℕ) (in_field : Bool) → Text → ℕ
count_fields fields in_field [] = fields
count_fields fields in_field (c ∷ cs) =
    let outside = count_fields fields false cs in
    let started = count_fields (suc fields) true cs in
    let inside = count_fields fields true cs in
    if (c == b' ') || (c == 9) then outside else if in_field then inside else started

-- The reason for a refusal, or the empty text.
unfoldable pub validate_schedule : Text → Text
unfolding has_newline count_fields
validate_schedule schedule =
    if is_empty schedule
    then codes "schedule is empty"
    else if has_newline schedule
    then codes "schedule has newline"
    else if ltb (count_fields 0 false schedule) 5
    then codes "schedule must have at least 5 fields"
    else []
