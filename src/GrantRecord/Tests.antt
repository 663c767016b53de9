-- ===== src/GrantRecord/Tests.antt =====
-- Records for concrete grants.
use server_mcp_bridge.Base.{
  ◌≡◌, ◌↔◌, refl, true, arith, Option, some, [], ◌∷◌, Bool, Text, codes, pos,
}
use server_mcp_bridge.Json.{Json, obj, end}
use server_mcp_bridge.Map
use server_mcp_bridge.GrantTemplate.{GrantTemplate}
use server_mcp_bridge.GrantRecord.{rendered, grant_record, render_windows_grant_record}
use server_mcp_bridge.GrantRecord.Checks.{IsCommandRecord, render_windows_grant_record_iff}

abbrev match : Text → Text → Option Bool
match regex v = some true

abbrev grantid : Text
grantid = codes "0123456789abcdef"

abbrev shortid : Text
shortid = codes "abcdefgh"

abbrev sid : Text
sid = codes "S-1-5-21-7"

abbrev admin_record : Json
admin_record = grant_record grantid shortid sid (codes "full_admin") (codes "*") (pos 9)

abbrev flush : GrantTemplate
flush = record {
  name = codes "flush";
  description = [];
  binary = codes "/bin/flush";
  argv = codes "all" ∷ [];
  params = Map.empty;
}

abbrev flush_record : Json
flush_record = grant_record grantid shortid sid (codes "flush") (codes "/bin/flush all") (pos 9)

render_windows_grant_record_iff_example :
    (render_windows_grant_record match grantid shortid sid flush (obj end) (pos 9)
      ≡ rendered flush_record)
    ↔ IsCommandRecord match flush
        (codes "bin/flush")
        grantid
        shortid
        sid
        (obj end)
        (pos 9)
        flush_record
render_windows_grant_record_iff_example =
    render_windows_grant_record_iff match flush (codes "bin/flush") grantid shortid sid (obj end)
      (pos 9) flush_record refl refl refl (ground arith)
