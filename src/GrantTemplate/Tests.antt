-- ===== src/GrantTemplate/Tests.antt =====
-- A template with a placeholder, whose expression matches everything.
use server_mcp_bridge.Base.{
  ◌≡◌, ◌↔◌, refl, true, arith, Option, some, [], ◌∷◌, ◌++◌, All, Bool, Text, codes,
}
use server_mcp_bridge.Json.{Json, arr, obj, nil, cons, end, field, lit, get}
use server_mcp_bridge.Map
use server_mcp_bridge.GrantTemplate.{
  GrantTemplate, returned, render_command, render_sudoers_spec, render_full_admin_spec,
  spec_is_well_formed, valid_template_name,
}
use server_mcp_bridge.GrantTemplate.Words.{IsCommand, render_command_iff}
use server_mcp_bridge.GrantTemplate.Specs.{spec_is_well_formed-render_sudoers_spec}
use server_mcp_bridge.GrantTemplate.Parse.{
  IsSound, parsed, parse_templates, parse_templates-IsSound,
}

abbrev match : Text → Text → Option Bool
match regex v = some true

abbrev install : GrantTemplate
install = record {
  name = codes "apt_install";
  description = [];
  binary = codes "/usr/bin/apt";
  argv = codes "install" ∷ codes "{package}" ∷ [];
  params = Map.set Map.empty (codes "package") (codes "[a-z]+");
}

abbrev nginx : Json
nginx = obj (field (codes "package") (lit "nginx") end)

abbrev line : Text
line = codes "mcp_user_abcdefgh ALL=(root) NOPASSWD: /usr/bin/apt install nginx" ++ 10 ∷ []

rendered : render_sudoers_spec match (codes "abcdefgh") install nginx ≡ returned line
unfolding render_sudoers_spec get Map.set Map.find Map.empty
rendered = refl

render_command_iff_example :
    (render_command match install nginx ≡ returned (codes "/usr/bin/apt install nginx"))
    ↔ IsCommand match install nginx (codes "/usr/bin/apt install nginx")
render_command_iff_example =
    render_command_iff match install nginx (codes "/usr/bin/apt install nginx")

spec_is_well_formed-render_sudoers_spec_example : spec_is_well_formed line ≡ true
spec_is_well_formed-render_sudoers_spec_example =
    spec_is_well_formed-render_sudoers_spec match install (codes "usr/bin/apt") (codes "abcdefgh")
      line nginx refl refl (ground arith) rendered

abbrev admin_line : Text
admin_line = codes "mcp_user_abcdefgh ALL=(ALL) NOPASSWD: ALL" ++ 10 ∷ []

admin_rendered : render_full_admin_spec (codes "abcdefgh") ≡ returned admin_line
unfolding render_full_admin_spec
admin_rendered = refl

abbrev doc : Json
doc =
    arr (
      cons (obj (field (codes "name") (lit "ls") (field (codes "binary") (lit "/bin/ls") end))) nil)

abbrev ls : GrantTemplate
ls = record {
  name = codes "ls";
  description = [];
  binary = codes "/bin/ls";
  argv = [];
  params = Map.empty;
}

doc_parsed : parse_templates doc ≡ parsed (ls ∷ [])
unfolding parse_templates get valid_template_name Map.empty
doc_parsed = refl

parse_templates-IsSound_example : All IsSound (ls ∷ [])
parse_templates-IsSound_example = parse_templates-IsSound doc (ls ∷ []) doc_parsed

-- A comma in a value starts a second command for sudoers, and the characters allow it.
abbrev two : Json
two = obj (field (codes "package") (lit "a,/bin/sh") end)

comma_rendered :
    render_command match install two ≡ returned (codes "/usr/bin/apt install a,/bin/sh")
unfolding render_command get Map.set Map.find Map.empty
comma_rendered = refl
