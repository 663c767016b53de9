-- ===== src/UserStore/Loaded.antt =====
-- What the index holds after loading.
use server_mcp_bridge.Base.{
  ◌≡◌, refl, sym, ◌∙◌, ap, Option, none, some, List, [], ◌∷◌, arith, Text, text_eq, text_eq_iff, ℤ,
  if◌then◌else◌,
}
use server_mcp_bridge.Map
use server_mcp_bridge.Map.{Map, find-set, find-empty}
use server_mcp_bridge.UserStore.{
  UserRecord, UserStore, DirEntry, entry_record, add_record, load_entries, load_all, lookup_by_hash,
}

-- The specification: the first record of the directory with this token hash.
unfoldable pub first_with : Text → List (Option UserRecord) → Option UserRecord
first_with hash [] = none
first_with hash (none ∷ rs) = first_with hash rs
first_with hash (some r ∷ rs) = if text_eq r.token_hash hash then some r else first_with hash rs

abbrev or_else : Option UserRecord → Option UserRecord → Option UserRecord
or_else (some r) o = some r
or_else none o = o

abbrev pub entry_records : (Text → ℤ) → List DirEntry → List (Option UserRecord)
entry_records truncate [] = []
entry_records truncate (e ∷ es) = entry_record truncate e ∷ entry_records truncate es

find-add_record :
    (m : Map UserRecord) (o : Option UserRecord) (hash : Text)
    → Map.find (add_record m o) hash ≡ or_else (Map.find m hash) (first_with hash (o ∷ []))
unfolding add_record first_with
find-add_record m none hash = ground arith
find-add_record m (some r) hash =
    ground (arith, find-set m r.token_hash hash r, text_eq_iff r.token_hash hash)

or_else-first_with :
    (o : Option UserRecord) (r : Option UserRecord) (hash : Text) (rs : List (Option UserRecord))
    → or_else (or_else o (first_with hash (r ∷ []))) (first_with hash rs)
      ≡ or_else o (first_with hash (r ∷ rs))
unfolding first_with
or_else-first_with (some w) r hash rs = refl
or_else-first_with none none hash rs = refl
or_else-first_with none (some r) hash rs = ground arith

or_else-none : (o : Option UserRecord) → or_else o none ≡ o
or_else-none none = refl
or_else-none (some r) = refl

find-load_entries :
    (truncate : Text → ℤ) (es : List DirEntry) (m : Map UserRecord) (hash : Text)
    → Map.find (load_entries truncate m es) hash
      ≡ or_else (Map.find m hash) (first_with hash (entry_records truncate es))
unfolding load_entries
find-load_entries truncate [] m hash = unfold first_with in sym (or_else-none (Map.find m hash))
find-load_entries truncate (e ∷ es) m hash =
    find-load_entries truncate es (add_record m (entry_record truncate e)) hash
    ∙ ap (λ o. or_else o (first_with hash (entry_records truncate es)))
        (find-add_record m (entry_record truncate e) hash)
    ∙ or_else-first_with (Map.find m hash) (entry_record truncate e) hash
        (entry_records truncate es)

-- After loading a directory the index answers with the first record of the directory that has the
-- hash asked for, among the entries that are visible regular .json files holding a user record.
pub lookup-load_all :
    (truncate : Text → ℤ) (es : List DirEntry) (s : UserStore) (hash : Text)
    → lookup_by_hash (load_all truncate (some es) s) hash
      ≡ first_with hash (entry_records truncate es)
unfolding lookup_by_hash load_all
lookup-load_all truncate es s hash = rw (find-load_entries, find-empty)

first_with-token_hash :
    (hash : Text) (rs : List (Option UserRecord)) (r : UserRecord)
    → first_with hash rs ≡ some r
    → r.token_hash ≡ hash
unfolding first_with
first_with-token_hash hash [] r h = cc
first_with-token_hash hash (none ∷ rs) r h = first_with-token_hash hash rs r h
first_with-token_hash hash (some w ∷ rs) r h =
    ground (arith, text_eq_iff w.token_hash hash, first_with-token_hash hash rs r)

-- A record that the loaded index returns for a hash has that hash.
pub lookup-token_hash :
    (truncate : Text → ℤ) (dir : Option (List DirEntry)) (s : UserStore) (hash : Text)
    (r : UserRecord)
    → lookup_by_hash (load_all truncate dir s) hash ≡ some r
    → r.token_hash ≡ hash
unfolding lookup_by_hash load_all
lookup-token_hash truncate none s hash r h = cc (h, find-empty {V = UserRecord} hash)
lookup-token_hash truncate (some es) s hash r h =
    first_with-token_hash hash (entry_records truncate es) r
      (sym (lookup-load_all truncate es s hash) ∙ h)
