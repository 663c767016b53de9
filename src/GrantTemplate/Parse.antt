-- ===== src/GrantTemplate/Parse.antt =====
-- parse_templates of src/core/grant_template.cpp: the templates of the configuration.
use server_mcp_bridge.Base.{
  ◌≡◌, refl, ◌⊎◌, inl, inr, Bool, true, false, not, ◌==◌, Option, none, some, List, [], ◌∷◌, ◌++◌,
  All, arith, Text, codes, if◌then◌else◌, Bool-cases,
}
use server_mcp_bridge.Json.{
  Json, null, str, arr, obj, Items, nil, cons, Fields, end, field, get, string_value,
}
use server_mcp_bridge.Map
use server_mcp_bridge.Map.{Map}
use server_mcp_bridge.GrantTemplate.{GrantTemplate, valid_template_name}

-- The templates, or the message of a std::exception.
pub data Templates : Type 0 where
  parsed : List GrantTemplate → Templates
  refused : Text → Templates

-- The loop over `entry["argv"]`.
unfoldable pub string_items : Items → List Text
string_items nil = []
string_items (cons (str piece) items) = piece ∷ string_items items
string_items (cons _ items) = string_items items

-- The loop over `entry["params"]`.
unfoldable pub string_fields : Fields → Map Text → Map Text
string_fields end params = params
string_fields (field key (str v) fields) params = string_fields fields (Map.set params key v)
string_fields (field key _ fields) params = string_fields fields params

abbrev pub argv_of : Option Json → List Text
argv_of (some (arr items)) = string_items items
argv_of _ = []

abbrev pub params_of : Option Json → Map Text
params_of (some (obj fields)) = string_fields fields Map.empty
params_of _ = Map.empty

-- `t.binary.empty() || t.binary[0] != '/'`.
abbrev pub not_absolute : Text → Bool
not_absolute [] = true
not_absolute (c ∷ cs) = not (c == b'/')

-- The two tests of an entry, and the template.
unfoldable pub checked : GrantTemplate → GrantTemplate ⊎ Text
checked t =
    if not (valid_template_name t.name)
    then inr (codes "grant_template: invalid name '" ++ t.name ++ b'\'' ∷ [])
    else if not_absolute t.binary
    then inr (codes "grant_template '" ++ t.name ++ codes "': binary must be an absolute path")
    else inl t

-- The template of an entry; a name, description or binary of another type makes `value` throw.
unfoldable pub entry_template :
    Fields → (name description binary : Option Text) → GrantTemplate ⊎ Text
unfolding string_items string_fields checked
entry_template entry (some name) (some description) (some binary) = checked (record {
  name = name;
  description = description;
  binary = binary;
  argv = argv_of (get (codes "argv") entry);
  params = params_of (get (codes "params") entry);
})
entry_template entry _ _ _ = inr (codes "type_error")

-- `out.push_back(t)`, and the entries after it.
abbrev before : GrantTemplate ⊎ Text → Templates → Templates
before (inr what) rest = refused what
before (inl t) (parsed ts) = parsed (t ∷ ts)
before (inl t) (refused what) = refused what

unfoldable pub parse_entries : Items → Templates
unfolding entry_template
parse_entries nil = parsed []
parse_entries (cons (obj entry) items) =
    before
      (entry_template entry (string_value (get (codes "name") entry))
        (string_value (get (codes "description") entry))
        (string_value (get (codes "binary") entry)))
      (parse_entries items)
parse_entries (cons _ items) = parse_entries items

unfoldable pub parse_templates : Json → Templates
unfolding parse_entries
parse_templates (arr items) = parse_entries items
parse_templates _ = parsed []

-- A template with a valid name and an absolute path.
pub record IsSound (t : GrantTemplate) : Type 0 where
  pub named : valid_template_name t.name ≡ true
  pub path : Text
  pub absolute : t.binary ≡ b'/' ∷ path

absolute_path :
    (binary : Text) → not_absolute binary ≡ false → (path : Text) × (binary ≡ b'/' ∷ path)
absolute_path [] h = cc
absolute_path (c ∷ cs) h = (cs, ground (arith, h))

checked-IsSound : (t u : GrantTemplate) → checked t ≡ inl u → IsSound u
unfolding checked
checked-IsSound t u h = elim (Bool-cases (valid_template_name t.name)) [
  | inr e ↦ absurd (ground (arith, h, e))
  | inl e ↦ elim (Bool-cases (not_absolute t.binary)) [
    | inl f ↦ absurd (ground (arith, h, e, f))
    | inr f ↦
        let same : t ≡ u = ground (arith, h, e, f) in
        let (path, p) = absolute_path t.binary f in
        rw (← same) (record { named = e; path = path; absolute = p })
  ]
]

entry-IsSound :
    (entry : Fields) (name description binary : Option Text) (t : GrantTemplate)
    → entry_template entry name description binary ≡ inl t
    → IsSound t
unfolding entry_template
entry-IsSound entry (some name) (some description) (some binary) t h =
    checked-IsSound
      (record {
        name = name;
        description = description;
        binary = binary;
        argv = argv_of (get (codes "argv") entry);
        params = params_of (get (codes "params") entry);
      })
      t h
entry-IsSound entry none description binary t h = absurd (ground arith)
entry-IsSound entry (some name) none binary t h = absurd (ground arith)
entry-IsSound entry (some name) (some description) none t h = absurd (ground arith)

before_parsed :
    (r : GrantTemplate ⊎ Text) (rest : Templates) (ts : List GrantTemplate)
    → before r rest ≡ parsed ts
    → (t : GrantTemplate) × (us : List GrantTemplate) × (r ≡ inl t)
      × (rest ≡ parsed us)
      × (ts ≡ t ∷ us)
before_parsed (inr what) rest ts h = absurd (ground arith)
before_parsed (inl t) (parsed us) ts h = (t, us, refl, refl, ground arith)
before_parsed (inl t) (refused what) ts h = absurd (ground arith)

entries-IsSound :
    (items : Items) (ts : List GrantTemplate) → parse_entries items ≡ parsed ts → All IsSound ts
unfolding parse_entries
entries-IsSound nil ts h = let e : [] ≡ ts = ground (arith, h) in rw (← e) tt
entries-IsSound (cons (obj entry) items) ts h =
    let (t, us, one, rest, same) = before_parsed _ _ ts h in
    rw same (entry-IsSound entry _ _ _ t one, entries-IsSound items us rest)
entries-IsSound (cons null items) ts h = entries-IsSound items ts h
entries-IsSound (cons _ items) ts h = entries-IsSound items ts h

-- Every template that is loaded has a valid name and an absolute path for its binary.
pub parse_templates-IsSound :
    (doc : Json) (ts : List GrantTemplate) → parse_templates doc ≡ parsed ts → All IsSound ts
unfolding parse_templates
parse_templates-IsSound (arr items) ts h = entries-IsSound items ts h
parse_templates-IsSound null ts h = let e : [] ≡ ts = ground (arith, h) in rw (← e) tt
parse_templates-IsSound _ ts h = let e : [] ≡ ts = ground (arith, h) in rw (← e) tt
