-- ===== src/UserTools/Changes.antt =====
-- user_update and user_delete of src/tools/admin/user_ops.cpp.
use server_mcp_bridge.Base.{
  Bool, true, false, not, Option, none, some, [], ◌∷◌, ◌++◌, Text, codes, text_eq, ℤ, pos, eqℤ,
  is_empty, if◌then◌else◌,
}
use server_mcp_bridge.Json.{
  Json, boolean, integer, str, obj, Fields, end, field, get, put, string_value, bool_value,
  int_value, string_at,
}
use server_mcp_bridge.Map
use server_mcp_bridge.Map.{Map}
use server_mcp_bridge.Auth.{RequestContext}
use server_mcp_bridge.Registry.{ToolResult, returned, threw}
use server_mcp_bridge.CronFile.{Outside}
use server_mcp_bridge.Shortid.{valid_shortid}
use server_mcp_bridge.UserTools.{UserWorld, UserConfig, UserCall, is_email_ish, user_path, reload}

-- A step of user_update on the document: it goes on, having changed something or not, or throws.
pub data Edit : Type 0 where
  edited : (changed : Bool) → Fields → Edit
  refused : Text → Edit

abbrev pub then_edit : Edit → (Bool → Fields → Edit) → Edit
then_edit (refused what) f = refused what
then_edit (edited changed doc) f = f changed doc

abbrev pub put_name : Option Text → Fields → Edit
put_name none doc = refused (codes "type_error")
put_name (some v) doc =
    if is_empty v
    then refused (codes "name cannot be empty")
    else edited true (put (codes "name") (str v) doc)

abbrev pub put_email : Option Text → Fields → Edit
put_email none doc = refused (codes "type_error")
put_email (some v) doc =
    if not (is_email_ish v)
    then refused (codes "email is not well-formed")
    else edited true (put (codes "email") (str v) doc)

abbrev pub put_is_admin : Option Bool → Fields → Edit
put_is_admin none doc = refused (codes "type_error")
put_is_admin (some v) doc = edited true (put (codes "is_admin") (boolean v) doc)

abbrev pub edit_name : Fields → Bool → Fields → Edit
edit_name args changed doc = elim (get (codes "name") args) [
  | none ↦ edited changed doc
  | some v ↦ put_name (string_at (some v)) doc
]

abbrev pub edit_email : Fields → Bool → Fields → Edit
edit_email args changed doc = elim (get (codes "email") args) [
  | none ↦ edited changed doc
  | some v ↦ put_email (string_at (some v)) doc
]

abbrev pub edit_is_admin : Fields → Bool → Fields → Edit
edit_is_admin args changed doc = elim (get (codes "is_admin") args) [
  | none ↦ edited changed doc
  | some v ↦ put_is_admin (bool_value (some v)) doc
]

-- The three fields in the order of the source.
unfoldable pub edit_user : Fields → Fields → Edit
unfolding is_email_ish
edit_user args doc =
    then_edit (edit_name args false doc)
      (λ changed doc. then_edit (edit_email args changed doc) (edit_is_admin args))

abbrev pub object_of : Json → Edit
object_of (obj doc) = edited false doc
object_of v = refused (codes "user record is not an object")

module _ (o : Outside) where
  abbrev pub atomic_replace : UserCall → (shortid text : Text) → UserWorld → Option Text × UserWorld
  atomic_replace c shortid text w = elim c.file_fault [
    | some what ↦ (some what, w)
    | none ↦ (none, record w { records = Map.set w.records shortid text })
  ]

  abbrev pub read_user_doc : UserConfig → (shortid : Text) → UserWorld → Edit
  read_user_doc cfg shortid w = elim (Map.find w.records shortid) [
    | none ↦ refused (codes "no user record at " ++ user_path cfg shortid)
    | some text ↦ elim (o.parse text) [
      | none ↦ refused (codes "malformed user record")
      | some v ↦ object_of v
    ]
  ]

  -- The conversions of public_view throw on a field of another type.
  abbrev pub view :
      Option Text
      → Option Text
      → Option Text
      → Option Text
      → Option Bool
      → Option ℤ
      → Option ℤ
      → ToolResult
  view (some user_id) (some os_username) (some name) (some email) (some is_admin) (some created_at)
        (some rotated_at) =
      returned (
        obj (
          field (codes "user_id") (str user_id) (
            field (codes "os_username") (str os_username) (
              field (codes "name") (str name) (
                field (codes "email") (str email) (
                  field (codes "is_admin") (boolean is_admin) (
                    field (codes "created_at") (integer created_at)
                      (field (codes "rotated_at") (integer rotated_at) end))))))))
  view _ _ _ _ _ _ _ = threw (codes "type_error")

  abbrev pub public_view : Fields → ToolResult
  public_view doc =
      view (string_value (get (codes "user_id") doc)) (string_value (get (codes "os_username") doc))
        (string_value (get (codes "name") doc)) (string_value (get (codes "email") doc))
        (bool_value (get (codes "is_admin") doc))
        (int_value o.truncate (get (codes "created_at") doc))
        (int_value o.truncate (get (codes "rotated_at") doc))

  abbrev pub after_replace : UserCall → Fields → Option Text × UserWorld → ToolResult × UserWorld
  after_replace c doc (some what, w) = (threw what, w)
  after_replace c doc (none, w) = (public_view doc, reload o c.is_listed w)

  abbrev pub replace_record :
      UserCall → (shortid : Text) → Fields → Option Text → UserWorld → ToolResult × UserWorld
  replace_record c shortid doc none w = (threw (codes "invalid UTF-8"), w)
  replace_record c shortid doc (some body) w =
      after_replace c doc (atomic_replace c shortid (body ++ b'\n' ∷ []) w)

  abbrev pub stamped : UserCall → Fields → Fields
  stamped c doc = put (codes "updated_at") (integer c.now) doc

  abbrev pub store_edit : UserCall → (shortid : Text) → Edit → UserWorld → ToolResult × UserWorld
  store_edit c shortid (refused what) w = (threw what, w)
  store_edit c shortid (edited false doc) w = (threw (codes "no updatable field provided"), w)
  store_edit c shortid (edited true doc) w =
      replace_record c shortid (stamped c doc) (o.dump (obj (stamped c doc))) w

  abbrev pub update_user :
      UserConfig → UserCall → Fields → (shortid : Option Text) → UserWorld → ToolResult × UserWorld
  update_user cfg c args none w = (threw (codes "type_error"), w)
  update_user cfg c args (some shortid) w =
      if not (valid_shortid shortid)
      then (threw (codes "invalid shortid"), w)
      else store_edit c shortid
          (then_edit (read_user_doc cfg shortid w) (λ changed doc. edit_user args doc)) w

  unfoldable pub user_update :
      UserConfig → UserCall → RequestContext → Fields → UserWorld → ToolResult × UserWorld
  unfolding edit_user reload
  user_update cfg c ctx args w =
      if not ctx.is_admin
      then (threw (codes "admin only"), w)
      else update_user cfg c args (string_at (get (codes "shortid") args)) w

  -- From the calls of the helper on.
  abbrev pub after_unlink :
      UserCall → (shortid : Text) → (record_existed : Bool) → UserWorld → ToolResult × UserWorld
  after_unlink c shortid record_existed w = (
    returned (
        obj (
          field (codes "user_id") (str shortid) (
            field (codes "record_deleted") (boolean record_existed) (
              field (codes "os_account_removed") (boolean (eqℤ c.helper_exit (pos 0))) (
                field (codes "helper_exit") (integer c.helper_exit)
                  (field (codes "state_dir_removed") (boolean (eqℤ c.state_exit (pos 0))) end)))))),
    reload o c.is_listed w,
  )

  abbrev pub unlink_record : UserCall → (shortid : Text) → UserWorld → ToolResult × UserWorld
  unlink_record c shortid w = elim (Map.find w.records shortid) [
    | none ↦ after_unlink c shortid false w
    | some old ↦ elim c.file_fault [
      | some what ↦ (threw what, w)
      | none ↦ after_unlink c shortid true (record w { records = Map.erase w.records shortid })
    ]
  ]

  abbrev pub delete_user :
      UserCall → RequestContext → (shortid : Option Text) → UserWorld → ToolResult × UserWorld
  delete_user c ctx none w = (threw (codes "type_error"), w)
  delete_user c ctx (some shortid) w =
      if not (valid_shortid shortid)
      then (threw (codes "invalid shortid"), w)
      else if text_eq shortid ctx.user_id
      then (threw (codes "refusing to delete the calling user"), w)
      else unlink_record c shortid w

  unfoldable pub user_delete :
      UserCall → RequestContext → Fields → UserWorld → ToolResult × UserWorld
  unfolding reload
  user_delete c ctx args w =
      if not ctx.is_admin
      then (threw (codes "admin only"), w)
      else delete_user c ctx (string_at (get (codes "shortid") args)) w
