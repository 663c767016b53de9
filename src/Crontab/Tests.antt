-- ===== src/Crontab/Tests.antt =====
-- Runs on crontabs, and instances of the theorems.
use server_mcp_bridge.Base.{◌≡◌, refl, [], ◌∷◌, All, Text, codes, pos}
use server_mcp_bridge.CronFile.{CronJob}
use server_mcp_bridge.Crontab.{build_crontab_text, has_newline, validate_schedule}
use server_mcp_bridge.Crontab.Blocks.{IsLine, OnLines}
use server_mcp_bridge.Crontab.Rebuilt.{Rebuilds, build_crontab_text-Rebuilds}

abbrev job : Text → Text → CronJob
job id when = record {
  job_id = id;
  user_id = codes "abcdefg2";
  os_username = codes "mcp_user_abcdefg2";
  schedule = when;
  command = codes "true";
  description = [];
  context_id = [];
  created_at = pos 0;
  updated_at = pos 0;
}

abbrev nightly : CronJob
nightly = job (codes "00112233445566aa") (codes "0 3 * * *")

abbrev hourly : CronJob
hourly = job (codes "00112233445566bb") (codes "0 * * * *")

-- A line of the user, without a line feed at its end.
abbrev own : Text
own = codes "MAILTO=root"

abbrev runner : Text
runner = codes "/usr/lib/mcp_bridge/cron_runner"

build_run :
    build_crontab_text own (nightly ∷ []) (codes "/run")
    ≡ codes "MAILTO=root\n# mcp_bridge:job_id=00112233445566aa\n0 3 * * * /run 00112233445566aa\n"
unfolding build_crontab_text
build_run = refl

too_few : validate_schedule (codes "* * *") ≡ codes "schedule must have at least 5 fields"
unfolding validate_schedule
too_few = refl

runner-IsLine : IsLine runner
runner-IsLine = unfold has_newline in refl

nightly-OnLines : All OnLines (nightly ∷ [])
nightly-OnLines = unfold has_newline in ((refl, refl), tt)

-- A crontab with a block of the bridge between lines of the user.
abbrev mixed : Text
mixed =
    codes
      "MAILTO=root\n# mcp_bridge:job_id=00112233445566bb\n0 * * * * /run 00112233445566bb\n5 4 * * * own"

build_crontab_text-Rebuilds_example :
    Rebuilds mixed (build_crontab_text mixed (nightly ∷ []) runner) (nightly ∷ []) runner
build_crontab_text-Rebuilds_example =
    build_crontab_text-Rebuilds mixed (nightly ∷ []) runner runner-IsLine nightly-OnLines
