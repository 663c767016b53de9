-- ===== src/UserTools.antt =====
-- The tools on users of src/tools/admin/user_ops.cpp, over the files of the users directory and the
-- index of user_store. What the random device, the helper, the clock and the system calls on a file
-- answer is an argument of a call; std::regex_match on the one expression of the file is a scan.
pub mod Changes
pub mod Created
pub mod Tokens
pub mod Kept
mod Tests
use server_mcp_bridge.Base.{
  ℕ, suc, Bool, true, false, not, ◌&&◌, ◌||◌, Option, none, some, List, [], ◌∷◌, ◌++◌, Text, codes,
  text_eq, ℤ, pos, negsuc, eqℤ, leb, ◌==◌, is_empty, all, drop, if◌then◌else◌,
}
use server_mcp_bridge.Json.{
  Json, boolean, integer, str, obj, Fields, end, field, get, put, contains, string_value,
  bool_value, int_value, string_at,
}
use server_mcp_bridge.Map
use server_mcp_bridge.Map.{Map}
use server_mcp_bridge.Crypto.{sha256_salted_hex}
use server_mcp_bridge.Auth.{RequestContext}
use server_mcp_bridge.Registry.{ToolResult, returned, threw}
use server_mcp_bridge.CronFile.{Outside}
use server_mcp_bridge.Schtasks.{to_string}
use server_mcp_bridge.Shortid.{make_shortid, make_token, valid_shortid}
use server_mcp_bridge.UserStore.{UserStore, DirEntry, load_all}

-- `[^\s@]`.
abbrev pub is_plain : ℕ → Bool
is_plain c = not ((c == b' ') || (leb 9 c && leb c 13) || (c == b'@'))

-- `\.[^\s@]+$` at some place, in a text of plain characters.
abbrev pub has_dot : Text → Bool
has_dot [] = false
has_dot (c ∷ cs) = let rest = has_dot cs in ((c == b'.') && not (is_empty cs)) || rest

-- `[^\s@]+\.[^\s@]+$`.
abbrev pub is_domain : Text → Bool
is_domain s = all is_plain s && has_dot (drop 1 s)

-- `[^\s@]+@`, then a domain.
abbrev pub local_part : (started : Bool) → Text → Bool
local_part started [] = false
local_part started (c ∷ cs) =
    let rest = local_part true cs in
    if c == b'@' then started && is_domain cs else is_plain c && rest

unfoldable pub is_email_ish : Text → Bool
is_email_ish s = local_part false s

-- The files `<users_dir>/<name>.json` by their name, and the index of the daemon.
pub record UserWorld : Type 0 where
  pub records : Map Text
  pub users : UserStore

pub record UserConfig : Type 0 where
  pub global_token_salt : Text
  pub users_dir : Text

-- What a call of a tool meets: the bytes of the random device, the exit codes of the helper, the
-- failure of writing or removing a file, and whether the directory can be opened again.
pub record UserCall : Type 0 where
  pub raw_shortid : ℕ → ℕ
  pub raw_token : ℕ → ℕ
  pub now : ℤ
  pub helper_exit : ℤ
  pub state_exit : ℤ
  pub runtime_written : Bool
  pub file_fault : Option Text
  pub is_listed : Bool

abbrev pub exit_text : ℤ → Text
exit_text (pos n) = to_string n
exit_text (negsuc n) = b'-' ∷ to_string (suc n)

abbrev pub user_path : UserConfig → (shortid : Text) → Text
user_path cfg shortid = cfg.users_dir ++ b'/' ∷ (shortid ++ codes ".json")

abbrev pub os_username_of : (shortid : Text) → Text
os_username_of shortid = codes "mcp_user_" ++ shortid

abbrev pub user_fields : (shortid name email : Text) → Bool → (hash : Text) → (now : ℤ) → Fields
user_fields shortid name email is_admin hash now = field (codes "user_id") (str shortid) (
    field (codes "os_username") (str (os_username_of shortid)) (
      field (codes "name") (str name) (
        field (codes "email") (str email) (
          field (codes "is_admin") (boolean is_admin) (
            field (codes "token_hash") (str hash)
              (field (codes "created_at") (integer now) end))))))

module _ (o : Outside) where
  unfoldable pub dir_entries : List (Text × Text) → List DirEntry
  dir_entries [] = []
  dir_entries ((name, text) ∷ files) =
      record { d_name = name ++ codes ".json"; is_regular = true; content = o.parse text }
      ∷ dir_entries files

  -- `Server::users().reload()`.
  unfoldable pub reload : (is_listed : Bool) → UserWorld → UserWorld
  unfolding dir_entries load_all
  reload is_listed w = record w {
    users =
        load_all o.truncate (if is_listed then some (dir_entries (Map.to_list w.records)) else none)
          w.users;
  }

  -- `atomic_write_excl`, which fails on a file that exists.
  abbrev pub atomic_write_excl :
      UserConfig → UserCall → (shortid text : Text) → UserWorld → Option Text × UserWorld
  atomic_write_excl cfg c shortid text w = elim (Map.find w.records shortid) [
    | some old ↦ (some (codes "open " ++ (user_path cfg shortid ++ codes ": File exists")), w)
    | none ↦ elim c.file_fault [
      | some what ↦ (some what, w)
      | none ↦ (none, record w { records = Map.set w.records shortid text })
    ]
  ]

  -- `reload`, and the answer, unless the write threw.
  abbrev pub after_write :
      UserCall → (answer : Json) → Option Text × UserWorld → ToolResult × UserWorld
  after_write c answer (some what, w) = (threw what, w)
  after_write c answer (none, w) = (returned answer, reload c.is_listed w)

  abbrev pub write_record :
      UserConfig
      → UserCall
      → (answer : Json) → (shortid : Text) → Option Text
      → UserWorld
      → ToolResult × UserWorld
  write_record cfg c answer shortid none w = (threw (codes "invalid UTF-8"), w)
  write_record cfg c answer shortid (some body) w =
      after_write c answer (atomic_write_excl cfg c shortid (body ++ b'\n' ∷ []) w)

  abbrev pub create_answer : UserCall → (name email : Text) → Bool → (shortid token : Text) → Json
  create_answer c name email is_admin shortid token = obj (
      field (codes "user_id") (str shortid) (
        field (codes "os_username") (str (os_username_of shortid)) (
          field (codes "name") (str name) (
            field (codes "email") (str email) (
              field (codes "is_admin") (boolean is_admin) (
                field (codes "token") (str token) (
                  field (codes "os_provisioned") (boolean true) (
                    field (codes "helper_exit") (integer c.helper_exit) (
                      field (codes "state_dir_prepared") (boolean true)
                        (field (codes "runtime_written") (boolean c.runtime_written) end))))))))))

  -- From the call of useradd on; 14 is an account that exists.
  abbrev pub provision :
      UserConfig
      → UserCall
      → (name email : Text) → Bool
      → (shortid token : Text) → UserWorld
      → ToolResult × UserWorld
  provision cfg c name email is_admin shortid token w =
      if not (eqℤ c.helper_exit (pos 0) || eqℤ c.helper_exit (pos 14))
      then (
        threw (
            codes "user_create: OS account provisioning failed (helper_exit="
            ++ (exit_text c.helper_exit ++ b')' ∷ [])),
        w,
      )
      else if not (eqℤ c.state_exit (pos 0))
      then (
        threw (
            codes "user_create: prepare-user-state failed (helper_exit="
            ++ (exit_text c.state_exit ++ b')' ∷ [])),
        w,
      )
      else write_record cfg c (create_answer c name email is_admin shortid token) shortid
          (o.dump (
            obj (
              user_fields shortid name email is_admin
                (sha256_salted_hex cfg.global_token_salt token) c.now)))
          w

  abbrev pub create_user :
      UserConfig
      → UserCall
      → (name email : Option Text) → Option Bool
      → UserWorld
      → ToolResult × UserWorld
  create_user cfg c (some name) (some email) (some is_admin) w =
      if is_empty name
      then (threw (codes "name is required"), w)
      else if not (is_email_ish email)
      then (threw (codes "email is not well-formed"), w)
      else if is_empty cfg.global_token_salt
      then (threw (codes "server missing global_token_salt"), w)
      else provision cfg c name email is_admin (make_shortid c.raw_shortid) (make_token c.raw_token)
          w
  create_user cfg c _ _ _ w = (threw (codes "type_error"), w)

  unfoldable pub user_create :
      UserConfig → UserCall → RequestContext → Fields → UserWorld → ToolResult × UserWorld
  unfolding is_email_ish make_shortid reload
  user_create cfg c ctx args w =
      if not ctx.is_admin
      then (threw (codes "admin only"), w)
      else create_user cfg c (string_at (get (codes "name") args))
          (string_at (get (codes "email") args)) (bool_value (get (codes "is_admin") args)) w
