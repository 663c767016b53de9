-- ===== src/CronSyntax.antt =====
-- make_jobid, CronStore::valid_jobid and CronStore::valid_schedule of src/core/cron_store.cpp.
pub mod Jobid
pub mod Fields
mod Tests
use server_mcp_bridge.Base.{
  ℕ, zero, suc, ◌+◌, ◌*◌, ◌%◌, Bool, true, false, not, ◌&&◌, ◌||◌, List, [], ◌∷◌, Text, codes, ltb,
  leb, ◌==◌, length, is_empty, all, if◌then◌else◌,
}
use server_mcp_bridge.Crypto.{to_hex}

-- `random_device` hands out the values of `rd` in order; the attempt `i` takes eight of them.
abbrev pub buf : (ℕ → ℕ) → ℕ → ℕ → List ℕ
buf rd i zero = []
buf rd i (suc n) = rd i % 256 ∷ buf rd (suc i) n

abbrev pub make_jobid : (ℕ → ℕ) → ℕ → Text
make_jobid rd attempt = to_hex (buf rd (8 * attempt) 8)

-- `(c >= '0' && c <= '9') || (c >= 'a' && c <= 'f')`.
abbrev pub is_jobid_char : ℕ → Bool
is_jobid_char c = (leb b'0' c && leb c b'9') || (leb b'a' c && leb c b'f')

abbrev pub valid_jobid : Text → Bool
valid_jobid s = if not (length s == 16) then false else all is_jobid_char s

abbrev pub is_blank : ℕ → Bool
is_blank c = (c == b' ') || (c == 9)

abbrev pub is_schedule_char : ℕ → Bool
is_schedule_char c =
    (leb b'0' c && leb c b'9') || (c == b'*') || (c == b'/') || (c == b',') || (c == b'-')

-- The loop of `valid_schedule`, with its two counters, and the test after it.
unfoldable pub scan_fields : (field_count : ℕ) (in_field : Bool) → Text → Bool
scan_fields field_count in_field [] = (field_count == 5) && in_field
scan_fields field_count in_field (c ∷ cs) =
    let ended = scan_fields (suc field_count) false cs in
    let skipped = scan_fields field_count false cs in
    let inside = scan_fields field_count true cs in
    if is_blank c
    then (if in_field then ended else skipped)
    else if not (is_schedule_char c)
    then false
    else inside

unfoldable pub valid_schedule : Text → Bool
unfolding scan_fields
valid_schedule s = if is_empty s || ltb 200 (length s) then false else scan_fields 1 false s
