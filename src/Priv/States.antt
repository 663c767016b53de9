-- ===== src/Priv/States.antt =====
-- prepare-user-state, cleanup-user-state and write-runtime of src/priv/main.c.
use server_mcp_bridge.Base.{
  ℕ, Bool, true, false, not, ◌||◌, Option, none, some, List, [], ◌∷◌, ◌++◌, Text, codes, pos, eqℤ,
  length, is_empty, if◌then◌else◌,
}
use server_mcp_bridge.Map
use server_mcp_bridge.Map.{Map}
use server_mcp_bridge.Base64.{base64_decode}
use server_mcp_bridge.Priv.{
  valid_shortid, Account, Owned, Machine, Exit, Staging, DirCalls, Answers,
}
use server_mcp_bridge.Priv.Sudoers.{Written, wrote, write_failed, unfinished, write_loop}
use server_mcp_bridge.Priv.Accounts.{username_of}

abbrev root : Account
root = record { uid = 0; gid = 0 }

-- The directory that `mkdir` leaves: the old one if the path exists.
abbrev pub made_dir : (path : Text) (mode : ℕ) → Map Owned → Map Owned
made_dir path mode states = elim (Map.find states path) [
  | none ↦ Map.set states path (record { owner = root; mode = mode; content = [] })
  | some d ↦ states
]

abbrev pub chown_path : (path : Text) → Account → Map Owned → Map Owned
chown_path path who states = elim (Map.find states path) [
  | none ↦ states
  | some d ↦ Map.set states path (record d { owner = who })
]

abbrev pub chmod_path : (path : Text) (mode : ℕ) → Map Owned → Map Owned
chmod_path path mode states = elim (Map.find states path) [
  | none ↦ states
  | some d ↦ Map.set states path (record d { mode = mode })
]

-- Whether it returned 0.
unfoldable pub ensure_owned_dir :
    DirCalls → (path : Text) → Account → (mode : ℕ) → Map Owned → Bool × Map Owned
ensure_owned_dir calls path who mode states =
    let made = made_dir path mode states in
    let owned = chown_path path who made in
    if not calls.made
    then (false, states)
    else if not calls.dir_chowned
    then (false, made)
    else if not calls.dir_chmodded
    then (false, owned)
    else (true, chmod_path path mode owned)

abbrev pub with_states : Machine → (code : ℕ) → Map Owned → Exit
with_states m code states = record { code = code; machine = record m { states = states } }

abbrev pub crons_of : (user_dir : Text) → Text
crons_of user_dir = user_dir ++ codes "/crons"

-- The directory `crons`, once that of the user is there or not.
abbrev pub prepare_crons : Answers → (user_dir : Text) → Account → Machine → Bool × Map Owned → Exit
prepare_crons a user_dir who m (false, states) = with_states m 11 states
prepare_crons a user_dir who m (true, states) =
    let (ensured, states') =
      ensure_owned_dir a.crons_dir_calls (crons_of user_dir) who 0o700 states in
    with_states m (if ensured then 0 else 11) states'

-- `getpwnam_r`.
abbrev pub lookup_account : Answers → (username : Text) → Machine → Option Account
lookup_account a username m = if a.lookup_failed then none else Map.find m.accounts username

unfoldable pub cmd_prepare_user_state : Answers → (argv : List Text) → Machine → Exit
unfolding ensure_owned_dir
cmd_prepare_user_state a (shortid ∷ []) m =
    let user_dir = username_of shortid in
    if not (valid_shortid shortid)
    then record { code = 10; machine = m }
    else elim (lookup_account a user_dir m) [
      | none ↦ record { code = 12; machine = m }
      | some who ↦
          if not a.top_made
          then record { code = 11; machine = m }
          else prepare_crons a user_dir who m
              (ensure_owned_dir a.user_dir_calls user_dir who 0o700 m.states)
    ]
cmd_prepare_user_state a _ m = record { code = 10; machine = m }

-- `rm -rf` of a user's directory, of what the helper puts there.
abbrev pub removed_dir : (user_dir : Text) → Map Owned → Map Owned
removed_dir user_dir states =
    Map.erase
      (Map.erase (Map.erase (Map.erase states user_dir) (crons_of user_dir))
        (user_dir ++ codes "/runtime.json"))
      (user_dir ++ codes "/runtime.json.tmp")

unfoldable pub cmd_cleanup_user_state : Answers → (argv : List Text) → Machine → Exit
cmd_cleanup_user_state a (shortid ∷ []) m =
    let user_dir = username_of shortid in
    if not (valid_shortid shortid)
    then record { code = 10; machine = m }
    else if a.lstat_failed
    then record { code = 11; machine = m }
    else elim (Map.find m.states user_dir) [
      | none ↦ record { code = 0; machine = m }
      | some d ↦
          if eqℤ a.rm_rc (pos 0)
          then with_states m 0 (removed_dir user_dir m.states)
          else with_states m 11 a.rm_leaves
    ]
cmd_cleanup_user_state a _ m = record { code = 10; machine = m }

-- `unlink(tmp_path)`, whose result is ignored.
abbrev pub unlink_state : Staging → (tmp_path : Text) → Map Owned → Map Owned
unlink_state s tmp_path states = if s.tmp_unlinked then Map.erase states tmp_path else states

-- `rename`: the file moves with its owner and its mode.
abbrev pub rename_path : (old_path new_path : Text) → Map Owned → Map Owned
rename_path old_path new_path states = elim (Map.find states old_path) [
  | none ↦ states
  | some d ↦ Map.set (Map.erase states old_path) new_path d
]

-- What `open` with O_CREAT and the mode 0600 makes, once it is written.
abbrev pub created_file : (file : Text) → Owned
created_file file = record { owner = root; mode = 0o600; content = file }

-- The temporary file with what was written: a file that is there keeps its owner and its mode.
abbrev pub written_tmp : (tmp_path file : Text) → Map Owned → Map Owned
written_tmp tmp_path file states = elim (Map.find states tmp_path) [
  | none ↦ Map.set states tmp_path (created_file file)
  | some d ↦ Map.set states tmp_path (record d { content = file })
]

-- From `fsync` on.
unfoldable pub finish_runtime :
    Staging → (tmp_path runtime_path : Text) → Account → Written → Map Owned → ℕ × Map Owned
finish_runtime s tmp_path runtime_path who (write_failed file) states =
    (11, unlink_state s tmp_path (written_tmp tmp_path file states))
finish_runtime s tmp_path runtime_path who (unfinished file) states =
    (11, written_tmp tmp_path file states)
finish_runtime s tmp_path runtime_path who (wrote file) states =
    let written = written_tmp tmp_path file states in
    let owned = chown_path tmp_path who written in
    if not s.synced || not s.chowned
    then (11, unlink_state s tmp_path written)
    else if not s.chmodded
    then (11, unlink_state s tmp_path owned)
    else if not s.renamed
    then (11, unlink_state s tmp_path (chmod_path tmp_path 0o600 owned))
    else (0, rename_path tmp_path runtime_path (chmod_path tmp_path 0o600 owned))

abbrev pub store_runtime :
    Staging → (tmp_path runtime_path : Text) → Account → Option Text → Map Owned → ℕ × Map Owned
store_runtime s tmp_path runtime_path who none states = (11, states)
store_runtime s tmp_path runtime_path who (some decoded) states =
    if not s.tmp_opened
    then (11, states)
    else finish_runtime s tmp_path runtime_path who
        (write_loop s.write (length decoded) 0 decoded []) states

abbrev pub runtime_in : Answers → (user_dir b64 : Text) → Account → Bool × Map Owned → ℕ × Map Owned
runtime_in a user_dir b64 who (false, states) = (11, states)
runtime_in a user_dir b64 who (true, states) =
    store_runtime a.staging (user_dir ++ codes "/runtime.json.tmp")
      (user_dir ++ codes "/runtime.json") who (base64_decode 4096 b64) states

unfoldable pub cmd_write_runtime : Answers → (argv : List Text) → Machine → Exit
unfolding ensure_owned_dir base64_decode write_loop finish_runtime
cmd_write_runtime a (shortid ∷ b64 ∷ []) m =
    let user_dir = username_of shortid in
    if not (valid_shortid shortid) || is_empty b64
    then record { code = 10; machine = m }
    else elim (lookup_account a user_dir m) [
      | none ↦ record { code = 12; machine = m }
      | some who ↦
          let (code, states) =
            runtime_in a user_dir b64 who
              (ensure_owned_dir a.user_dir_calls user_dir who 0o700 m.states) in
          with_states m code states
    ]
cmd_write_runtime a _ m = record { code = 10; machine = m }
