-- ===== src/CronTools/Tests.antt =====
-- A user with a crontab and no jobs, and calls of cron_create.
use server_mcp_bridge.Base.{
  ◌≡◌, ◌≢◌, refl, false, List, Option, none, some, [], ◌∷◌, arith, Text, codes, pos,
}
use server_mcp_bridge.Json.{str, Fields, end, field, get}
use server_mcp_bridge.Map
use server_mcp_bridge.Map.{find-empty}
use server_mcp_bridge.Auth.{RequestContext}
use server_mcp_bridge.Registry.{threw}
use server_mcp_bridge.Crypto.{to_hex}
use server_mcp_bridge.CronSyntax.{valid_schedule}
use server_mcp_bridge.CronStore.{allocate, owned_by}
use server_mcp_bridge.CronFile.{CronJob, CronStore, Outside}
use server_mcp_bridge.CronStore.Writes.{IsFiled}
use server_mcp_bridge.CronTools.{CronWorld, CronCall, crontab_of, cron_create}
use server_mcp_bridge.CronTools.Created.{asked_of, Ends, cron_create-Ends}
use server_mcp_bridge.CronTools.Steps.{Keeps}
use server_mcp_bridge.CronTools.Others.{
  CronToolCall, create_tool, list_tool, run_tools, run_tools-Keeps,
}

abbrev outside : Outside
outside = record { dump = λ v. some (codes "[]"); parse = λ t. none; truncate = λ t. pos 0 }

abbrev runner : Text
runner = codes "/run"

abbrev bob : RequestContext
bob = record {
  user_id = codes "b1";
  os_username = codes "bob";
  is_admin = false;
  session_id = [];
  bearer_hash = [];
  client_ip = [];
}

abbrev call : Option Text → CronCall
call crontab_fault = record {
  rd = λ i. 0;
  now = pos 7;
  fault = none;
  processes = record { meta_fault = none; list_failed = false; crontab_fault = crontab_fault };
  undo_fault = none;
}

abbrev args : Fields
args =
    field (codes "schedule") (str (codes "0 3 * * *"))
      (field (codes "command") (str (codes "true")) end)

abbrev empty_store : CronStore
empty_store = record { jobs = Map.empty; file = none }

abbrev world : CronWorld
world = record {
  store = empty_store;
  crontabs = Map.set Map.empty (codes "bob") (codes "MAILTO=root\n");
  metas = Map.empty;
}

created :
    crontab_of (codes "bob") (cron_create outside runner (call none) bob args world).1
    ≡ codes "MAILTO=root\n# mcp_bridge:job_id=0000000000000000\n0 3 * * * /run 0000000000000000\n"
unfolding cron_create Map.find get valid_schedule allocate Map.empty Map.set owned_by Map.to_list
    to_hex
created = refl

-- `crontab` fails, and the job is taken back.
rolled_back :
    (cron_create outside runner (call (some (codes "exit=1"))) bob args world).0
    ≡ threw (codes "exit=1")
unfolding cron_create get valid_schedule allocate Map.find Map.empty
rolled_back = refl

empty_store-IsFiled : IsFiled empty_store
empty_store-IsFiled j c found = absurd (ground (arith, find-empty {V = CronJob} j, found))

cron_create-Ends_example :
    Ends outside runner
      (call none)
      bob
      world
      (asked_of args)
      (cron_create outside runner (call none) bob args world)
cron_create-Ends_example =
    cron_create-Ends outside runner (call none) bob world args empty_store-IsFiled

abbrev alice : RequestContext
alice = record bob { user_id = codes "a1"; os_username = codes "alice" }

abbrev history : List CronToolCall
history =
    record { tool = create_tool; answers = call none; ctx = alice; args = args }
    ∷ record { tool = list_tool; answers = call none; ctx = alice; args = end }
    ∷ []

bob-ne-alice : codes "bob" ≢ codes "alice"
bob-ne-alice e = absurd (ground arith)

run_tools-Keeps_example :
    IsFiled (run_tools outside runner history world).store
    × Keeps outside (codes "bob") world (run_tools outside runner history world)
run_tools-Keeps_example =
    run_tools-Keeps outside runner history world (codes "bob") empty_store-IsFiled
      (bob-ne-alice, (bob-ne-alice, tt))
