-- ===== src/Grants.antt =====
-- GrantManager of src/core/grants.cpp on Linux: the table of time-limited grants, its file, and the
-- privileged helper, which the daemon knows by its commands and exit codes.
pub mod Operations
pub mod Loads
pub mod Requests
pub mod Tables
pub mod Sweeps
pub mod Startup
pub mod Histories
pub mod Lifetime
pub mod Privileged
mod Tests
use server_mcp_bridge.Base.{
  ℕ, zero, suc, ◌+◌, ◌-◌, ◌%◌, ◌≡◌, ◌≢◌, ◌⊎◌, Bool, true, false, not, ◌&&◌, ◌||◌, Option, none,
  some, List, [], ◌∷◌, ◌++◌, Text, codes, text_eq, is_among, ℤ, pos, negsuc, ltℤ, ltb, leb, ◌==◌,
  length, is_empty, take, drop, all, if◌then◌else◌,
}
use server_mcp_bridge.Json.{
  Json, integer, str, arr, obj, Items, nil, cons, Fields, end, field, get, string_value, int_value,
}
use server_mcp_bridge.Map
use server_mcp_bridge.Map.{Map}
use server_mcp_bridge.Crypto.{to_hex}
use server_mcp_bridge.GrantTemplate.{
  GrantTemplate, render_sudoers_spec, render_full_admin_spec, spec_is_well_formed,
}
use server_mcp_bridge.GrantTemplate

pub record Grant : Type 0 where
  pub grantid : Text
  pub shortid : Text
  pub template_name : Text
  pub captured_args : Json
  pub expires_at : ℤ

-- The eight bytes drawn, in hexadecimal.
unfoldable pub make_grantid : (rd : ℕ → ℕ) → Text
unfolding to_hex
make_grantid rd = to_hex (
    rd 0 % 256
    ∷ rd 1 % 256
    ∷ rd 2 % 256
    ∷ rd 3 % 256
    ∷ rd 4 % 256
    ∷ rd 5 % 256
    ∷ rd 6 % 256
    ∷ rd 7 % 256
    ∷ [])

abbrev pub is_hex_char : ℕ → Bool
is_hex_char c = (leb b'0' c && leb c b'9') || (leb b'a' c && leb c b'f')

abbrev pub valid_grantid : Text → Bool
valid_grantid s = if not (length s == 16) then false else all is_hex_char s

-- How a write of grants.json ends. If the second `rename` fails, the old file has been removed.
pub data WriteEnd : Type 0 where
  written : WriteEnd
  failed : (what : Text) → WriteEnd
  lost : (what : Text) → WriteEnd

-- A std::exception; the message of `helper_failed` holds the exit code and the helper's output.
pub data Failure : Type 0 where
  message : Text → Failure
  helper_failed : (rc : ℤ) (err : Text) → Failure

pub data Result (A : Type 0) : Type 0 where
  returned : A → Result A
  threw : Failure → Result A

-- How far a helper came that a signal killed: `part_way n` is between the first and the last change
-- that it makes, with `n` bytes written.
pub data Kill : Type 0 where
  at_start : Kill
  part_way : (n : ℕ) → Kill
  at_end : Kill

-- spawn_helper: the helper did not start, or it ran to its exit, or a signal killed it; it wrote `err`.
pub data Spawn (Call : Type 0) : Type 0 where
  not_spawned : (err : Text) → Spawn Call
  ran : Call → (err : Text) → Spawn Call
  killed : Call → Kill → (err : Text) → Spawn Call

-- What the daemon relies on of the helper. `W` is what the helper acts on, and a `Call` stands for
-- what the system answers during one run of it.
pub record PrivHelper (W Call : Type 0) : Type 0 where
  pub install_grant : Call → (grantid spec : Text) → W → ℤ × W
  pub revoke_grant : Call → (grantid : Text) → W → ℤ × W
  pub killed_install : Call → Kill → (grantid spec : Text) → W → W
  pub killed_revoke : Call → Kill → (grantid : Text) → W → W
  pub drop_in : W → (grantid : Text) → Option Text
  pub installed :
      (c : Call) (grantid spec : Text) (w : W)
      → (install_grant c grantid spec w).0 ≡ pos 0
      → (j : Text)
      → drop_in (install_grant c grantid spec w).1 j
        ≡ (if text_eq grantid j then some spec else drop_in w j)
  pub not_installed :
      (c : Call) (grantid spec : Text) (w : W)
      → (install_grant c grantid spec w).0 ≢ pos 0
      → (j : Text) → drop_in (install_grant c grantid spec w).1 j ≡ drop_in w j
  pub revoked :
      (c : Call) (grantid : Text) (w : W)
      → (revoke_grant c grantid w).0 ≡ pos 0
      → (j : Text)
      → drop_in (revoke_grant c grantid w).1 j ≡ (if text_eq grantid j then none else drop_in w j)
  pub not_revoked :
      (c : Call) (grantid : Text) (w : W)
      → (revoke_grant c grantid w).0 ≢ pos 0
      → (j : Text) → drop_in (revoke_grant c grantid w).1 j ≡ drop_in w j
  pub half_installed :
      (c : Call) (k : Kill) (grantid spec : Text) (w : W)
      → ((j : Text) → drop_in (killed_install c k grantid spec w) j ≡ drop_in w j)
        ⊎ ((j : Text)
            → drop_in (killed_install c k grantid spec w) j
              ≡ (if text_eq grantid j then some spec else drop_in w j))
  pub half_revoked :
      (c : Call) (k : Kill) (grantid : Text) (w : W)
      → ((j : Text) → drop_in (killed_revoke c k grantid w) j ≡ drop_in w j)
        ⊎ ((j : Text)
            → drop_in (killed_revoke c k grantid w) j
              ≡ (if text_eq grantid j then none else drop_in w j))

-- The table, `<state_dir>/grants.json`, the spec files of the state directory, and the helper's side.
pub record GrantManager (W : Type 0) : Type 0 where
  pub grants : Map Grant
  pub file : Option Text
  pub specs : Map Text
  pub outside : W

-- What one call of revoke_grant meets.
pub record RevokeCall (Call : Type 0) : Type 0 where
  pub spawn : Spawn Call
  pub ending : WriteEnd

-- What one call of request_grant meets: the bytes drawn, the clock, the two writes of the table, the
-- write of the spec file, the helper, and whether the spec file is unlinked.
pub record RequestCall (Call : Type 0) : Type 0 where
  pub rd : ℕ → ℕ
  pub now : ℕ
  pub first_ending : WriteEnd
  pub spec_fault : Option Text
  pub spawn : Spawn Call
  pub unlinked : Bool
  pub second_ending : WriteEnd

abbrev pub grant_fields : Grant → Fields
grant_fields g = field (codes "grantid") (str g.grantid) (
    field (codes "shortid") (str g.shortid) (
      field (codes "template_name") (str g.template_name) (
        field (codes "captured_args") g.captured_args
          (field (codes "expires_at") (integer g.expires_at) Fields.end))))

unfoldable pub grants_json : List (Text × Grant) → Items
grants_json [] = nil
grants_json ((id, g) ∷ gs) = cons (obj (grant_fields g)) (grants_json gs)

-- `now_seconds() + ttl.count()`.
abbrev pub expiry : (now : ℕ) (ttl : ℤ) → ℤ
expiry now (pos t) = pos (now + t)
expiry now (negsuc t) = if ltb t now then pos (now - (t + 1)) else negsuc (t - now)

-- The loop over `config_.templates`.
unfoldable pub find_template : (template_name : Text) → List GrantTemplate → Option GrantTemplate
unfolding text_eq
find_template template_name [] = none
find_template template_name (t ∷ ts) =
    let rest = find_template template_name ts in
    if text_eq t.name template_name then some t else rest

-- The names of a directory that on_disk_grants takes for drop-ins, without their prefix.
unfoldable pub on_disk_grants : (names : List Text) → List Text
unfolding text_eq
on_disk_grants [] = []
on_disk_grants (n ∷ names) =
    let rest = on_disk_grants names in
    if text_eq (take 10 n) (codes "mcp_grant_") && (length n == 26) then drop 10 n ∷ rest else rest

-- `g.expires_at <= now`.
abbrev pub is_expired : (now : ℕ) → Grant → Bool
is_expired now g = not (ltℤ (pos now) g.expires_at)

-- The first loop of sweep_expired.
unfoldable pub expired_ids : (now : ℕ) → List (Text × Grant) → List Text
expired_ids now [] = []
expired_ids now ((id, g) ∷ gs) =
    let rest = expired_ids now gs in if is_expired now g then id ∷ rest else rest

abbrev pub template_spec :
    (match : (regex v : Text) → Option Bool) (shortid template_name : Text)
    → Json
    → Option GrantTemplate
    → GrantTemplate.Result
template_spec match shortid template_name captured_args none =
    GrantTemplate.threw (codes "grants: unknown template '" ++ template_name ++ b'\'' ∷ [])
template_spec match shortid template_name captured_args (some t) =
    render_sudoers_spec match shortid t captured_args

-- The line that a request renders.
unfoldable pub request_spec :
    (match : (regex v : Text) → Option Bool)
    → List GrantTemplate
    → (shortid template_name : Text) → Json
    → GrantTemplate.Result
unfolding find_template text_eq
request_spec match templates shortid template_name captured_args =
    if text_eq template_name (codes "full_admin")
    then render_full_admin_spec shortid
    else template_spec match shortid template_name captured_args
        (find_template template_name templates)

-- The rest of the loop that builds to_remove_from_disk: what is on disk and has no entry.
unfoldable pub orphans : Map Grant → (on_disk : List Text) → List Text
orphans grants [] = []
orphans grants (id ∷ ids) =
    let rest = orphans grants ids in elim (Map.find grants id) [ none ↦ id ∷ rest | some g ↦ rest ]

-- The entries that the first loop of reconcile_at_startup erases, if they are on disk.
unfoldable pub stale_ids : (now : ℕ) (on_disk : List Text) → List (Text × Grant) → List Text
unfolding is_among
stale_ids now on_disk [] = []
stale_ids now on_disk ((id, g) ∷ gs) =
    let rest = stale_ids now on_disk gs in
    if is_expired now g && is_among id on_disk then id ∷ rest else rest

-- The entries that it erases.
unfoldable pub dropped_ids : (now : ℕ) (on_disk : List Text) → List (Text × Grant) → List Text
unfolding is_among
dropped_ids now on_disk [] = []
dropped_ids now on_disk ((id, g) ∷ gs) =
    let rest = dropped_ids now on_disk gs in
    if is_expired now g || not (is_among id on_disk) then id ∷ rest else rest

unfoldable pub erase_all : List Text → Map Grant → Map Grant
erase_all [] grants = grants
erase_all (id ∷ ids) grants = erase_all ids (Map.erase grants id)
