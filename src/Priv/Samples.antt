-- ===== src/Priv/Samples.antt =====
-- Values for the tests: a user, a grant, a machine, and answers of a system on which all goes well.
use server_mcp_bridge.Base.{ℕ, zero, suc, true, false, some, [], ◌∷◌, ◌++◌, Text, codes, ℤ, pos}
use server_mcp_bridge.Map
use server_mcp_bridge.Map.{Map}
use server_mcp_bridge.Priv.{Account, Machine, opened, Staging, Attempt, locked, DirCalls, Answers}
use server_mcp_bridge.Priv.Accounts.{username_of}

abbrev pub user : Text
user = codes "abcdefg2"

abbrev pub grantid : Text
grantid = codes "0123456789abcdef"

abbrev pub line : Text
line = codes "mcp_user_abcdefg2 ALL=(root) NOPASSWD: /bin/ls" ++ 10 ∷ []

abbrev pub smooth : Staging
smooth = record {
  tmp_opened = true;
  write = λ k. some 6;
  synced = true;
  chowned = true;
  chmodded = true;
  renamed = true;
  tmp_unlinked = true;
}

-- A database that is locked at the first two attempts.
abbrev pub busy_twice : ℕ → Attempt
busy_twice zero = record {
  rc = pos 1;
  err = codes "useradd: cannot lock /etc/passwd";
  db_locked = false;
}
busy_twice (suc zero) = record { rc = pos 1; err = []; db_locked = true }
busy_twice (suc (suc k)) = record { rc = pos 0; err = []; db_locked = false }

abbrev pub done : DirCalls
done = record { made = true; dir_chowned = true; dir_chmodded = true }

abbrev pub account : Account
account = record { uid = 990; gid = 980 }

abbrev pub quiet : Answers
quiet = record {
  euid_root = true;
  setuid_done = true;
  spec_file = opened true 47 (some line);
  staging = smooth;
  unlink_denied = false;
  lock_opened = true;
  flock = λ k. locked;
  attempts = busy_twice;
  new_account = account;
  userdel_rc = pos 0;
  lookup_failed = false;
  top_made = true;
  user_dir_calls = done;
  crons_dir_calls = done;
  lstat_failed = false;
  rm_rc = pos 0;
  rm_leaves = Map.empty;
}

abbrev pub fresh : Machine
fresh = record {
  sudoers = Map.empty;
  accounts = Map.set Map.empty (username_of user) account;
  states = Map.empty;
}

abbrev pub visudo : Text → ℤ
visudo t = pos 0
