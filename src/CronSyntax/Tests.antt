-- ===== src/CronSyntax/Tests.antt =====
-- Schedules and identifiers at concrete inputs.
use server_mcp_bridge.Base.{◌≡◌, ◌↔◌, refl, true, false, codes}
use server_mcp_bridge.CronSyntax.{valid_schedule}
use server_mcp_bridge.CronSyntax.Fields.{IsSchedule, valid_schedule_iff}

every_five_minutes : valid_schedule (codes "*/5 0-23/2 1,15 * *") ≡ true
unfolding valid_schedule
every_five_minutes = refl

blank_at_the_end : valid_schedule (codes "* * * * * ") ≡ false
unfolding valid_schedule
blank_at_the_end = refl

no_names : valid_schedule (codes "0 0 * * SUN") ≡ false
unfolding valid_schedule
no_names = refl

valid_schedule_iff_example :
    (valid_schedule (codes "*/5 * * * *") ≡ true) ↔ IsSchedule (codes "*/5 * * * *")
valid_schedule_iff_example = valid_schedule_iff (codes "*/5 * * * *")
