-- ===== src/UserStore/Tests.antt =====
-- A users directory with a record, a second one with the same hash, and files that are skipped.
use server_mcp_bridge.Base.{◌≡◌, refl, true, false, some, List, [], ◌∷◌, Text, codes, ℤ, pos}
use server_mcp_bridge.Json.{str, obj, end, field, lit, get}
use server_mcp_bridge.Map
use server_mcp_bridge.UserStore.{UserRecord, UserStore, DirEntry, load_all, lookup_by_hash}
use server_mcp_bridge.UserStore.Loaded.{first_with, entry_records, lookup-load_all}

abbrev truncate : Text → ℤ
truncate t = pos 0

abbrev user_file : Text → Text → DirEntry
user_file name user_id = record {
  d_name = name;
  is_regular = true;
  content =
      some
        (obj (field (codes "user_id") (str user_id) (field (codes "token_hash") (lit "beef") end)));
}

abbrev entries : List DirEntry
entries =
    user_file (codes ".json") (codes "hidden")
    ∷ user_file (codes "note.txt") (codes "note")
    ∷ user_file (codes "a.json") (codes "alice")
    ∷ user_file (codes "b.json") (codes "bob")
    ∷ []

abbrev store : UserStore
store = record { global_salt = []; by_hash = Map.empty }

abbrev alice : UserRecord
alice = record {
  user_id = codes "alice";
  os_username = [];
  name = [];
  email = [];
  is_admin = false;
  token_hash = codes "beef";
  created_at = pos 0;
}

alice_loaded : lookup_by_hash (load_all truncate (some entries) store) (codes "beef") ≡ some alice
unfolding lookup_by_hash load_all get Map.empty Map.find Map.set
alice_loaded = refl

lookup-load_all_example :
    lookup_by_hash (load_all truncate (some entries) store) (codes "beef")
    ≡ first_with (codes "beef") (entry_records truncate entries)
lookup-load_all_example = lookup-load_all truncate entries store (codes "beef")
