-- ===== src/UserTools/Tests.antt =====
-- A directory without users, and calls of user_create.
use server_mcp_bridge.Base.{
  ◌≡◌, ◌≢◌, refl, ◌⊎◌, inl, true, false, none, some, [], arith, Text, codes, pos,
}
use server_mcp_bridge.Json.{Json, str, obj, Fields, end, field, get}
use server_mcp_bridge.Map
use server_mcp_bridge.Map.{find-empty}
use server_mcp_bridge.Auth.{RequestContext}
use server_mcp_bridge.Crypto.{sha256_salted_hex}
use server_mcp_bridge.CronFile.{Outside}
use server_mcp_bridge.Shortid.{make_shortid, make_token}
use server_mcp_bridge.UserStore.{UserRecord, lookup_by_token}
use server_mcp_bridge.UserTools.{
  UserWorld, UserConfig, UserCall, is_email_ish, user_fields, user_create,
}
use server_mcp_bridge.UserTools.Changes.{user_update}
use server_mcp_bridge.UserTools.Kept.{Updated, user_update-Updated}
use server_mcp_bridge.UserTools.Created.{Created, Unchanged, user_create-Created}
use server_mcp_bridge.UserTools.Tokens.{file_record, user_record, lookup_by_token-Created}

abbrev cfg : UserConfig
cfg = record { global_token_salt = codes "5a"; users_dir = codes "/etc/mcp_bridge/users" }

abbrev call : UserCall
call = record {
  raw_shortid = λ i. 0;
  raw_token = λ i. 1;
  now = pos 7;
  helper_exit = pos 0;
  state_exit = pos 0;
  runtime_written = true;
  file_fault = none;
  is_listed = true;
}

abbrev admin : RequestContext
admin = record {
  user_id = codes "a1";
  os_username = codes "alice";
  is_admin = true;
  session_id = [];
  bearer_hash = [];
  client_ip = [];
}

abbrev args : Fields
args =
    field (codes "name") (str (codes "Bob")) (field (codes "email") (str (codes "bob@ex.org")) end)

abbrev world : UserWorld
world = record {
  records = Map.empty;
  users = record { global_salt = codes "5a"; by_hash = Map.empty };
}

abbrev hash : Text
hash = sha256_salted_hex (codes "5a") (make_token call.raw_token)

abbrev document : Json
document = obj (
    user_fields (make_shortid call.raw_shortid) (codes "Bob") (codes "bob@ex.org") false hash
      (pos 7))

abbrev outside : Outside
outside = record {
  dump = λ v. some (codes "{}");
  parse = λ t. some document;
  truncate = λ t. pos 0;
}

plain_email : is_email_ish (codes "bob@ex.org") ≡ true
unfolding is_email_ish
plain_email = refl

no_domain : is_email_ish (codes "bob@ex") ≡ false
unfolding is_email_ish
no_domain = refl

user_create-Created_example :
    (admin.is_admin ≡ true)
      × Created outside cfg call world (user_create outside cfg call admin args world)
    ⊎ Unchanged outside cfg call world (user_create outside cfg call admin args world)
user_create-Created_example = user_create-Created outside cfg call world admin args

created : Created outside cfg call world (user_create outside cfg call admin args world)
unfolding user_create get Map.find Map.empty
created = record {
  name = codes "Bob";
  email = codes "bob@ex.org";
  is_admin = false;
  well_formed = (refl, refl);
  provisioned = inl refl;
  prepared = refl;
  free = refl;
  body = codes "{}";
  dumped = refl;
  result = refl;
  world = refl;
}

no_other :
    (other text : Text) (u : UserRecord)
    → Map.find world.records other ≡ some text
    → file_record outside other text ≡ some u
    → u.token_hash ≢ hash
no_other other text u found h = absurd (ground (arith, find-empty {V = Text} other, found))

lookup_by_token-Created_example :
    lookup_by_token
      (user_create outside cfg call admin args world).1.users
      (make_token call.raw_token)
    ≡ some (user_record cfg call created.name created.email created.is_admin)
lookup_by_token-Created_example =
    lookup_by_token-Created outside cfg call world (user_create outside cfg call admin args world)
      created refl refl (unfold created in refl) no_other

abbrev shortid : Text
shortid = codes "aaaaaaaa"

abbrev renaming : Fields
renaming = field (codes "shortid") (str shortid) (field (codes "name") (str (codes "Rob")) end)

abbrev with_bob : UserWorld
with_bob = record world { records = Map.set Map.empty shortid (codes "{}") }

user_update-Updated_example :
    ((user_update outside cfg call admin renaming with_bob).1 ≡ with_bob)
    ⊎ Updated outside cfg call with_bob (user_update outside cfg call admin renaming with_bob)
user_update-Updated_example = user_update-Updated outside cfg call with_bob admin renaming
