-- ===== src/Priv/Accounts.antt =====
-- useradd and userdel of src/priv/main.c, with their lock and the loop of retries.
use server_mcp_bridge.Base.{
  ℕ, zero, suc, ◌*◌, Bool, true, false, not, ◌&&◌, ◌||◌, List, [], ◌∷◌, ◌++◌, Text, codes, text_eq,
  pos, eqℤ, ltb, ◌==◌, length, take, if◌then◌else◌,
}
use server_mcp_bridge.Map
use server_mcp_bridge.Priv.{
  valid_shortid, Machine, Exit, Attempt, Flock, locked, would_block, lock_error, Answers,
}

abbrev pub username_of : (shortid : Text) → Text
username_of shortid = codes "mcp_user_" ++ shortid

-- `strstr(hay, needle) != NULL`.
unfoldable pub strstr : (needle hay : Text) → Bool
unfolding text_eq
strstr needle [] = text_eq needle []
strstr needle (c ∷ hay) =
    let later = strstr needle hay in text_eq (take (length needle) (c ∷ hay)) needle || later

unfoldable pub looks_like_lock : Attempt → Bool
unfolding strstr
looks_like_lock t =
    eqℤ t.rc (pos 1)
    && (t.db_locked
        || (strstr (codes "cannot lock") t.err || strstr (codes "try again later") t.err))

-- What the loop of retries did: the exit code, the attempts made and the pauses between them.
pub record Retried : Type 0 where
  pub exit : ℕ
  pub tried : ℕ
  pub waits : List ℕ

abbrev pub waiting : ℕ → Retried → Retried
waiting ms r = record r { waits = ms ∷ r.waits }

-- `for (attempt = 0; attempt < 60; ++attempt)`, with `left` attempts to go.
unfoldable pub useradd_loop : (attempts : ℕ → Attempt) (attempt left backoff_ms : ℕ) → Retried
unfolding looks_like_lock
useradd_loop attempts attempt zero backoff_ms = record { exit = 11; tried = attempt; waits = [] }
useradd_loop attempts attempt (suc left) backoff_ms =
    let t = attempts attempt in
    let again =
      useradd_loop attempts (suc attempt) left
        (if ltb backoff_ms 2000 then backoff_ms * 2 else backoff_ms) in
    if eqℤ t.rc (pos 0)
    then record { exit = 0; tried = suc attempt; waits = [] }
    else if eqℤ t.rc (pos 9)
    then record { exit = 14; tried = suc attempt; waits = [] }
    else if looks_like_lock t
    then waiting backoff_ms again
    else record { exit = 11; tried = suc attempt; waits = [] }

-- The loop of acquire_passwddb_serial_lock over `flock`, every pause 500 ms.
unfoldable pub acquire_loop : (flock : ℕ → Flock) (attempt left : ℕ) → Bool
acquire_loop flock attempt zero = false
acquire_loop flock attempt (suc left) = elim (flock attempt) [
  | locked ↦ true
  | lock_error ↦ false
  | would_block ↦ acquire_loop flock (suc attempt) left
]

unfoldable pub acquire_passwddb_serial_lock : Answers → Bool
unfolding acquire_loop
acquire_passwddb_serial_lock a = if not a.lock_opened then false else acquire_loop a.flock 0 60

unfoldable pub cmd_useradd : Answers → (argv : List Text) → Machine → Exit
unfolding acquire_passwddb_serial_lock useradd_loop
cmd_useradd a (shortid ∷ []) m =
    let r = useradd_loop a.attempts 0 60 200 in
    if not (valid_shortid shortid)
    then record { code = 10; machine = m }
    else if not (acquire_passwddb_serial_lock a)
    then record { code = 11; machine = m }
    else if r.exit == 0
    then record {
      code = 0;
      machine = record m { accounts = Map.set m.accounts (username_of shortid) a.new_account };
    }
    else record { code = r.exit; machine = m }
cmd_useradd a _ m = record { code = 10; machine = m }

unfoldable pub cmd_userdel : Answers → (argv : List Text) → Machine → Exit
unfolding acquire_passwddb_serial_lock
cmd_userdel a (shortid ∷ []) m =
    if not (valid_shortid shortid)
    then record { code = 10; machine = m }
    else if not (acquire_passwddb_serial_lock a)
    then record { code = 11; machine = m }
    else if eqℤ a.userdel_rc (pos 0)
    then record {
      code = 0;
      machine = record m { accounts = Map.erase m.accounts (username_of shortid) };
    }
    else if eqℤ a.userdel_rc (pos 6)
    then record { code = 0; machine = m }
    else record { code = 11; machine = m }
cmd_userdel a _ m = record { code = 10; machine = m }
