-- ===== src/UserTools/Kept.antt =====
-- What user_update changes: four fields of one record, and neither the identifier nor the token.
use server_mcp_bridge.Base.{
  ◌≡◌, refl, sym, ◌∙◌, ap, ◌⊎◌, inl, inr, true, false, Bool, Option, none, some, ◌∷◌, [], ◌++◌,
  Text, text_eq, is_empty, codes, Bool-cases, Option-cases,
}
use server_mcp_bridge.Json.{
  Json, str, obj, Fields, get, get-put, put, boolean, integer, null, real, arr, string_at,
  bool_value,
}
use server_mcp_bridge.Map
use server_mcp_bridge.Auth.{RequestContext}
use server_mcp_bridge.Registry.{ToolResult}
use server_mcp_bridge.CronFile.{Outside}
use server_mcp_bridge.Shortid.{valid_shortid}
use server_mcp_bridge.UserTools.{UserWorld, UserConfig, UserCall, is_email_ish, reload}
use server_mcp_bridge.UserTools.Changes.{
  Edit, edited, refused, then_edit, put_name, put_email, put_is_admin, edit_name, edit_email,
  edit_is_admin, edit_user, stamped, after_replace, replace_record, store_edit, read_user_doc,
  object_of, update_user, user_update,
}

-- The fields that an update does not touch.
pub record IsKept (k : Text) : Type 0 where
  pub name : text_eq (codes "name") k ≡ false
  pub email : text_eq (codes "email") k ≡ false
  pub is_admin : text_eq (codes "is_admin") k ≡ false
  pub updated_at : text_eq (codes "updated_at") k ≡ false

-- If the edit goes on, the kept fields of the document are as they were.
abbrev Same : Fields → Edit → Type 0
Same doc e =
    (changed : Bool) (doc' : Fields) (k : Text)
    → e ≡ edited changed doc'
    → IsKept k
    → get k doc' ≡ get k doc

edited-Same : (changed : Bool) (doc : Fields) → Same doc (edited changed doc)
edited-Same changed doc c doc' k e h = ap (get k) (sym (the_doc e))
  where
    doc_of : Edit → Fields
    doc_of (edited b d) = d
    doc_of (refused what) = doc

    the_doc : {b : Bool} {d : Fields} → edited changed doc ≡ edited b d → doc ≡ d
    the_doc e = ap doc_of e

refused-Same : (what : Text) (doc : Fields) → Same doc (refused what)
refused-Same what doc c doc' k e h = cc

put-Same :
    (name : Text) (v : Json) (doc : Fields)
    → ((k : Text) → IsKept k → text_eq name k ≡ false)
    → Same doc (edited true (put name v doc))
put-Same name v doc apart c doc' k e h =
    edited-Same true (put name v doc) c doc' k e h ∙ get-put name k v doc ∙ rw (apart k h) refl

put_name-Same : (t : Option Text) (doc : Fields) → Same doc (put_name t doc)
put_name-Same none doc = refused-Same _ doc
put_name-Same (some v) doc = elim (Bool-cases (is_empty v)) [
  | inl e ↦ rw e (refused-Same _ doc)
  | inr e ↦ rw e (put-Same (codes "name") (str v) doc (λ k h. h.name))
]

put_email-Same : (t : Option Text) (doc : Fields) → Same doc (put_email t doc)
put_email-Same none doc = refused-Same _ doc
put_email-Same (some v) doc = elim (Bool-cases (is_email_ish v)) [
  | inr e ↦ rw e (refused-Same _ doc)
  | inl e ↦ rw e (put-Same (codes "email") (str v) doc (λ k h. h.email))
]

put_is_admin-Same : (b : Option Bool) (doc : Fields) → Same doc (put_is_admin b doc)
put_is_admin-Same none doc = refused-Same _ doc
put_is_admin-Same (some v) doc = put-Same (codes "is_admin") (boolean v) doc (λ k h. h.is_admin)

edit_name-Same : (args : Fields) (b : Bool) (doc : Fields) → Same doc (edit_name args b doc)
edit_name-Same args b doc = elim (Option-cases (get (codes "name") args)) [
  | inl e ↦ rw (e, edit_name) (edited-Same b doc)
  | inr (v, e) ↦ rw (e, edit_name) (put_name-Same (string_at (some v)) doc)
]

edit_email-Same : (args : Fields) (b : Bool) (doc : Fields) → Same doc (edit_email args b doc)
edit_email-Same args b doc = elim (Option-cases (get (codes "email") args)) [
  | inl e ↦ rw (e, edit_email) (edited-Same b doc)
  | inr (v, e) ↦ rw (e, edit_email) (put_email-Same (string_at (some v)) doc)
]

edit_is_admin-Same : (args : Fields) (b : Bool) (doc : Fields) → Same doc (edit_is_admin args b doc)
edit_is_admin-Same args b doc = elim (Option-cases (get (codes "is_admin") args)) [
  | inl e ↦ rw (e, edit_is_admin) (edited-Same b doc)
  | inr (v, e) ↦ rw (e, edit_is_admin) (put_is_admin-Same (bool_value (some v)) doc)
]

then_edit-Same :
    (doc : Fields) (e : Edit) (f : Bool → Fields → Edit)
    → Same doc e
    → ((b : Bool) (d : Fields) → Same d (f b d))
    → Same doc (then_edit e f)
then_edit-Same doc (refused what) f h k = refused-Same what doc
then_edit-Same doc (edited b d) f h k =
    λ c doc' name e kept. k b d c doc' name e kept ∙ h b d name refl kept

edit_user-Same :
    (args doc : Fields) (changed : Bool) (doc' : Fields) (k : Text)
    → edit_user args doc ≡ edited changed doc'
    → IsKept k
    → get k doc' ≡ get k doc
unfolding edit_user
edit_user-Same args doc =
    then_edit-Same doc (edit_name args false doc) _ (edit_name-Same args false doc) (λ b d.
      then_edit-Same d (edit_email args b d) (edit_is_admin args) (edit_email-Same args b d)
        (edit_is_admin-Same args))

module _ (o : Outside) (cfg : UserConfig) (c : UserCall) (w : UserWorld) where
  -- The file of a user is replaced by a print of its document, where the kept fields stay.
  pub record Updated (r : ToolResult × UserWorld) : Type 0 where
    pub shortid : Text
    pub old : Text
    pub body : Text
    pub doc : Fields
    pub doc' : Fields
    pub found : Map.find w.records shortid ≡ some old
    pub parsed : o.parse old ≡ some (obj doc)
    pub kept : (k : Text) → IsKept k → get k doc' ≡ get k doc
    pub dumped : o.dump (obj doc') ≡ some body
    pub world :
        r.1
        ≡ reload o c.is_listed
            (record w { records = Map.set w.records shortid (body ++ b'\n' ∷ []) })

  abbrev pub Ends : ToolResult × UserWorld → Type 0
  Ends r = (r.1 ≡ w) ⊎ Updated r

  module _ (shortid old : Text) (doc doc' : Fields) (found : Map.find w.records shortid ≡ some old)
      (parsed : o.parse old ≡ some (obj doc))
      (kept : (k : Text) → IsKept k → get k doc' ≡ get k doc) where
    replaced-Ends :
        (body : Text) (fault : Option Text)
        → o.dump (obj doc') ≡ some body
        → Ends (
            after_replace o c doc' (elim fault [
              | some what ↦ (some what, w)
              | none ↦ (none, record w { records = Map.set w.records shortid (body ++ b'\n' ∷ []) })
            ]))
    replaced-Ends body (some what) dumped = inl refl
    replaced-Ends body none dumped = inr (record {
      shortid = shortid;
      old = old;
      body = body;
      doc = doc;
      doc' = doc';
      found = found;
      parsed = parsed;
      kept = kept;
      dumped = dumped;
      world = refl;
    })

    replace_record-Ends :
        (text : Option Text)
        → o.dump (obj doc') ≡ text
        → Ends (replace_record o c shortid doc' text w)
    replace_record-Ends none dumped = inl refl
    replace_record-Ends (some body) dumped = replaced-Ends body c.file_fault dumped

  store_edit-Ends :
      (shortid old : Text) (doc : Fields) (e : Edit)
      → Map.find w.records shortid ≡ some old
      → o.parse old ≡ some (obj doc)
      → Same doc e
      → Ends (store_edit o c shortid e w)
  store_edit-Ends shortid old doc (refused what) found parsed same = inl refl
  store_edit-Ends shortid old doc (edited false d) found parsed same = inl refl
  store_edit-Ends shortid old doc (edited true d) found parsed same =
      replace_record-Ends shortid old doc (stamped o c d) found parsed
        (λ k h.
          get-put (codes "updated_at") k (integer c.now) d ∙ rw h.updated_at (same true d k refl h))
        _ refl

  module _ (args : Fields) (shortid : Text) where
    abbrev stored : Edit → ToolResult × UserWorld
    stored e = store_edit o c shortid (then_edit e (λ changed doc. edit_user args doc)) w

    object-Ends :
        (old : Text) (v : Json)
        → Map.find w.records shortid ≡ some old
        → o.parse old ≡ some v
        → Ends (stored (object_of v))
    object-Ends old (obj doc) found parsed =
        store_edit-Ends shortid old doc (edit_user args doc) found parsed (edit_user-Same args doc)
    object-Ends old null found parsed = inl refl
    object-Ends old (boolean b) found parsed = inl refl
    object-Ends old (integer n) found parsed = inl refl
    object-Ends old (real x) found parsed = inl refl
    object-Ends old (str t) found parsed = inl refl
    object-Ends old (arr items) found parsed = inl refl

    read_user_doc-Ends : Ends (stored (read_user_doc o cfg shortid w))
    read_user_doc-Ends = elim (Option-cases (Map.find w.records shortid)) [
      | inl e ↦ rw (e, read_user_doc) (inl refl)
      | inr (old, e) ↦ elim (Option-cases (o.parse old)) [
        | inl f ↦ rw (e, f, read_user_doc) (inl refl)
        | inr (v, f) ↦ rw (e, f, read_user_doc) (object-Ends old v e f)
      ]
    ]

  update_user-Ends :
      (args : Fields) (shortid : Option Text) → Ends (update_user o cfg c args shortid w)
  update_user-Ends args none = inl refl
  update_user-Ends args (some shortid) = elim (Bool-cases (valid_shortid shortid)) [
    | inr e ↦ rw e (inl refl)
    | inl e ↦ rw e (read_user_doc-Ends args shortid)
  ]

  -- user_update either changes no file and nothing of the index, or it replaces the file of one user
  -- by a print of its document and loads the index again, and no field of the document differs but
  -- the name, the address, the flag of administrators and the time of the update: the identifier and
  -- the hash of the token stay.
  pub user_update-Updated :
      (ctx : RequestContext) (args : Fields)
      → ((user_update o cfg c ctx args w).1 ≡ w) ⊎ Updated (user_update o cfg c ctx args w)
  unfolding user_update
  user_update-Updated ctx args = elim (Bool-cases ctx.is_admin) [
    | inr e ↦ rw e (inl refl)
    | inl e ↦ rw e (update_user-Ends args (string_at (get (codes "shortid") args)))
  ]
