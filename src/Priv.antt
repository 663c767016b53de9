-- ===== src/Priv.antt =====
-- src/priv/main.c: the setuid helper of the daemon on Linux. The files, directories and accounts that
-- it changes are a machine; what the system calls and the programs it runs answer is an argument of a
-- call, so a theorem for all answers covers every failure.
pub mod Spec
pub mod Sudoers
pub mod Accounts
pub mod States
pub mod Main
pub mod Writes
pub mod Installs
pub mod Changes
pub mod Guard
pub mod Retries
pub mod Runtime
pub mod Samples
mod Tests
use server_mcp_bridge.Base.{
  ℕ, Bool, true, false, not, ◌&&◌, ◌||◌, Option, Text, ℤ, leb, ◌==◌, length, all, if◌then◌else◌,
}
use server_mcp_bridge.Map.{Map}

abbrev pub is_base32 : ℕ → Bool
is_base32 c = (leb b'a' c && leb c b'z') || (leb b'2' c && leb c b'7')

abbrev pub valid_shortid : Text → Bool
valid_shortid s = if not (length s == 8) then false else all is_base32 s

abbrev pub is_hex_digit : ℕ → Bool
is_hex_digit c = (leb b'0' c && leb c b'9') || (leb b'a' c && leb c b'f')

abbrev pub valid_grantid : Text → Bool
valid_grantid s = if not (length s == 16) then false else all is_hex_digit s

-- `pw_uid` and `pw_gid`.
pub record Account : Type 0 where
  pub uid : ℕ
  pub gid : ℕ

-- A directory or a file of a user's state.
pub record Owned : Type 0 where
  pub owner : Account
  pub mode : ℕ
  pub content : Text

-- `sudoers` holds the files of MCP_SUDOERS_DIR by name; `states` what lies under
-- MCP_USERS_STATE_DIR by path.
pub record Machine : Type 0 where
  pub sudoers : Map Text
  pub accounts : Map Account
  pub states : Map Owned

-- An exit code, and the machine after the call.
pub record Exit : Type 0 where
  pub code : ℕ
  pub machine : Machine

-- `open` and `fstat` of a spec file, and what `read` gives.
pub data SpecFile : Type 0 where
  not_opened : SpecFile
  opened : (regular : Bool) (size : ℕ) (bytes : Option Text) → SpecFile

-- What the calls that write a file through a temporary one answer. `write k` is the answer of the
-- k-th `write`: an error, or `some w` for w + 1 bytes, since a write of a positive count to a regular
-- file writes at least one byte; more than what is asked for counts as all of it.
pub record Staging : Type 0 where
  pub tmp_opened : Bool
  pub write : ℕ → Option ℕ
  pub synced : Bool
  pub chowned : Bool
  pub chmodded : Bool
  pub renamed : Bool
  pub tmp_unlinked : Bool

-- A run of useradd: its exit code or -1, its output, and whether a lock of the database was held.
pub record Attempt : Type 0 where
  pub rc : ℤ
  pub err : Text
  pub db_locked : Bool

pub data Flock : Type 0 where
  locked : Flock
  would_block : Flock
  lock_error : Flock

-- `mkdir` counts as done if the directory exists.
pub record DirCalls : Type 0 where
  pub made : Bool
  pub dir_chowned : Bool
  pub dir_chmodded : Bool

pub record Answers : Type 0 where
  pub euid_root : Bool
  pub setuid_done : Bool
  pub spec_file : SpecFile
  pub staging : Staging
  pub unlink_denied : Bool
  pub lock_opened : Bool
  pub flock : ℕ → Flock
  pub attempts : ℕ → Attempt
  pub new_account : Account
  pub userdel_rc : ℤ
  pub lookup_failed : Bool
  pub top_made : Bool
  pub user_dir_calls : DirCalls
  pub crons_dir_calls : DirCalls
  pub lstat_failed : Bool
  pub rm_rc : ℤ
  pub rm_leaves : Map Owned
