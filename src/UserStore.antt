-- ===== src/UserStore.antt =====
-- src/core/user_store.cpp and .hpp: the index of user records by the hash of their token. A directory
-- is what the system shows of it: its entries in order, with what reading them gives. Opening,
-- `stat` and the JSON parser are not under src/, so their results are part of that input, and so is
-- the conversion of a fractional number to an integer.
pub mod Loaded
mod Tests
use server_mcp_bridge.Base.{
  ℕ, ◌+◌, ◌-◌, ◌≤◌, Bool, true, false, not, ◌&&◌, ◌||◌, Option, none, some, List, [], ◌∷◌, ◌++◌,
  Text, codes, text_eq, ℤ, pos, ltb, ◌==◌, length, is_empty, drop, if◌then◌else◌,
}
use server_mcp_bridge.Crypto.{sha256_salted_hex}
use server_mcp_bridge.Json.{
  string_value, bool_value, int_value, string_at, Json, boolean, integer, real, str, obj, Fields,
  get,
}
use server_mcp_bridge.Map
use server_mcp_bridge.Map.{Map}

pub record UserRecord : Type 0 where
  pub user_id : Text
  pub os_username : Text
  pub name : Text
  pub email : Text
  pub is_admin : Bool
  pub token_hash : Text
  pub created_at : ℤ

pub record UserStore : Type 0 where
  pub global_salt : Text
  pub by_hash : Map UserRecord

-- An entry of the users directory; `content` is `none` if the file cannot be opened or parsed.
pub record DirEntry : Type 0 where
  pub d_name : Text
  pub is_regular : Bool
  pub content : Option Json

-- `name.size() > 5 && name.compare(name.size() - 5, 5, ".json") == 0`.
unfoldable pub ends_with_json : Text → Bool
unfolding text_eq
ends_with_json name = ltb 5 (length name) && text_eq (drop (length name - 5) name) (codes ".json")

infixl 5 ◌>>=◌
abbrev ◌>>=◌ {ℓ κ} : {A : Type ℓ} {B : Type κ} → Option A → (A → Option B) → Option B
none >>= f = none
some a >>= f = f a

-- `if (r.user_id.empty() || r.token_hash.empty()) return std::nullopt;`.
unless_empty : UserRecord → Option UserRecord
unless_empty r = if is_empty r.user_id || is_empty r.token_hash then none else some r

read_fields : (Text → ℤ) → Fields → Option UserRecord
unfolding unless_empty
read_fields truncate doc = do
  user_id ← string_at (get (codes "user_id") doc)
  os_username ← string_value (get (codes "os_username") doc)
  name ← string_value (get (codes "name") doc)
  email ← string_value (get (codes "email") doc)
  is_admin ← bool_value (get (codes "is_admin") doc)
  token_hash ← string_at (get (codes "token_hash") doc)
  created_at ← int_value truncate (get (codes "created_at") doc)
  unless_empty (record {
    user_id = user_id;
    os_username = os_username;
    name = name;
    email = email;
    is_admin = is_admin;
    token_hash = token_hash;
    created_at = created_at;
  })

unfoldable pub read_user_file : (Text → ℤ) → Option Json → Option UserRecord
unfolding read_fields
read_user_file truncate (some (obj doc)) = read_fields truncate doc
read_user_file truncate _ = none

-- `entry->d_name[0] == '.'`; the name of an entry is never empty.
abbrev pub is_hidden : Text → Bool
is_hidden [] = false
is_hidden (c ∷ cs) = c == b'.'

-- `next.emplace(key, value)`: a key that is there keeps its value.
unfoldable pub emplace : Map UserRecord → Text → UserRecord → Map UserRecord
emplace m k v = elim (Map.find m k) [ none ↦ Map.set m k v | some w ↦ m ]

-- The record that an entry of the directory gives, if any.
unfoldable pub entry_record : (Text → ℤ) → DirEntry → Option UserRecord
unfolding ends_with_json read_user_file
entry_record truncate e =
    if is_hidden e.d_name
    then none
    else if not (ends_with_json e.d_name)
    then none
    else if not e.is_regular
    then none
    else read_user_file truncate e.content

add_record : Map UserRecord → Option UserRecord → Map UserRecord
unfolding emplace
add_record m none = m
add_record m (some r) = emplace m r.token_hash r

-- The loop over the directory.
unfoldable pub load_entries : (Text → ℤ) → Map UserRecord → List DirEntry → Map UserRecord
unfolding add_record entry_record
load_entries truncate m [] = m
load_entries truncate m (e ∷ es) = load_entries truncate (add_record m (entry_record truncate e)) es

-- `load_all`, which is `reload` too; `none` is a directory that cannot be opened.
unfoldable pub load_all : (Text → ℤ) → Option (List DirEntry) → UserStore → UserStore
unfolding load_entries
load_all truncate none s = record s { by_hash = Map.empty }
load_all truncate (some es) s = record s { by_hash = load_entries truncate Map.empty es }

unfoldable pub lookup_by_hash : UserStore → Text → Option UserRecord
lookup_by_hash s token_hash = Map.find s.by_hash token_hash

unfoldable pub lookup_by_token : UserStore → Text → Option UserRecord
unfolding lookup_by_hash
lookup_by_token s bearer_token = lookup_by_hash s (sha256_salted_hex s.global_salt bearer_token)
