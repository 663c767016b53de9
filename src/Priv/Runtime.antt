-- ===== src/Priv/Runtime.antt =====
-- write-runtime stores exactly what the daemon encoded, or leaves the file as it was.
use server_mcp_bridge.Base.{
  ℕ, ◌≤◌, ◌≡◌, ◌≢◌, refl, ◌∙◌, ◌⊎◌, inl, inr, Bool, true, false, not, ◌||◌, some, [], ◌∷◌, ◌++◌,
  arith, Text, codes, text_eq, text_eq-append, length, is_empty, Bool-cases, Option-cases,
}
use server_mcp_bridge.Map
use server_mcp_bridge.Map.{Map, map_laws}
use server_mcp_bridge.Crypto.Sha256.{AreBytes}
use server_mcp_bridge.Base64.{base64_encode}
use server_mcp_bridge.Base64.Trip.{base64_decode-base64_encode}
use server_mcp_bridge.Priv.{valid_shortid, Account, Owned, Machine, Staging, DirCalls, Answers}
use server_mcp_bridge.Priv.Sudoers.{Written, write_loop}
use server_mcp_bridge.Priv.Accounts.{username_of}
use server_mcp_bridge.Priv.Writes.{Writes, write_loop-Writes}
use server_mcp_bridge.Priv.States.{
  made_dir, chown_path, chmod_path, ensure_owned_dir, unlink_state, rename_path, written_tmp,
  finish_runtime, store_runtime, runtime_in, lookup_account, cmd_write_runtime,
}

text_eq-longer : (t : Text) (c : ℕ) (more : Text) → text_eq t (t ++ c ∷ more) ≡ false
unfolding text_eq
text_eq-longer [] c more = refl
text_eq-longer (x ∷ t) c more = ground (arith, text_eq-longer t c more)

-- The other paths are as they were.
module _ (path name : Text) (other : text_eq path name ≡ false) where
  set_other :
      (states : Map Owned) (d : Owned)
      → Map.find (Map.set states path d) name ≡ Map.find states name
  set_other states d = rw (Map.find-set, other) refl

  made_other :
      (mode : ℕ) (states : Map Owned)
      → Map.find (made_dir path mode states) name ≡ Map.find states name
  made_other mode states = elim (Option-cases (Map.find states path)) [
    | inl e ↦ rw (e, made_dir) (set_other states _)
    | inr (d, e) ↦ rw (e, made_dir) refl
  ]

  chown_other :
      (who : Account) (states : Map Owned)
      → Map.find (chown_path path who states) name ≡ Map.find states name
  chown_other who states = elim (Option-cases (Map.find states path)) [
    | inl e ↦ rw (e, chown_path) refl
    | inr (d, e) ↦ rw (e, chown_path) (set_other states _)
  ]

  chmod_other :
      (mode : ℕ) (states : Map Owned)
      → Map.find (chmod_path path mode states) name ≡ Map.find states name
  chmod_other mode states = elim (Option-cases (Map.find states path)) [
    | inl e ↦ rw (e, chmod_path) refl
    | inr (d, e) ↦ rw (e, chmod_path) (set_other states _)
  ]

  written_other :
      (file : Text) (states : Map Owned)
      → Map.find (written_tmp path file states) name ≡ Map.find states name
  written_other file states = elim (Option-cases (Map.find states path)) [
    | inl e ↦ rw (e, written_tmp) (set_other states _)
    | inr (d, e) ↦ rw (e, written_tmp) (set_other states _)
  ]

  unlinked_other :
      (s : Staging) (states : Map Owned)
      → Map.find (unlink_state s path states) name ≡ Map.find states name
  unlinked_other s states = elim (Bool-cases s.tmp_unlinked) [
    | inl e ↦ rw (e, Map.find-erase, other) refl
    | inr e ↦ rw e refl
  ]

  ensured_other :
      (calls : DirCalls) (who : Account) (mode : ℕ) (states : Map Owned)
      → Map.find (ensure_owned_dir calls path who mode states).1 name ≡ Map.find states name
  unfolding ensure_owned_dir
  ensured_other calls who mode states =
      let made = made_other mode states in
      let owned = chown_other who (made_dir path mode states) ∙ made in
      let modded = chmod_other mode (chown_path path who (made_dir path mode states)) ∙ owned in
      elim (Bool-cases calls.made) [
        | inr e ↦ rw e refl
        | inl e ↦ rw e (elim (Bool-cases calls.dir_chowned) [
          | inr f ↦ rw f made
          | inl f ↦
              rw f
                (elim (Bool-cases calls.dir_chmodded) [ inr g ↦ rw g owned | inl g ↦ rw g modded ])
        ])
      ]

abbrev pub runtime_file : Account → (file : Text) → Owned
runtime_file who file = record { owner = who; mode = 0o600; content = file }

-- What the calls make of the temporary file.
written_self :
    (path file : Text) (states : Map Owned)
    → (d : Owned) × (Map.find (written_tmp path file states) path ≡ some d) × (d.content ≡ file)
written_self path file states = elim (Option-cases (Map.find states path)) [
  | inl e ↦ rw (e, written_tmp) (_, Map.find-set_self _ path _, refl)
  | inr (d, e) ↦ rw (e, written_tmp) (_, Map.find-set_self _ path _, refl)
]

chown_self :
    (path : Text) (who : Account) (states : Map Owned) (d : Owned)
    → Map.find states path ≡ some d
    → Map.find (chown_path path who states) path ≡ some (record d { owner = who })
chown_self path who states d e = rw (e, chown_path) (Map.find-set_self _ path _)

chmod_self :
    (path : Text) (mode : ℕ) (states : Map Owned) (d : Owned)
    → Map.find states path ≡ some d
    → Map.find (chmod_path path mode states) path ≡ some (record d { mode = mode })
chmod_self path mode states d e = rw (e, chmod_path) (Map.find-set_self _ path _)

rename_self :
    (old_path new_path : Text) (states : Map Owned) (d : Owned)
    → Map.find states old_path ≡ some d
    → Map.find (rename_path old_path new_path states) new_path ≡ some d
rename_self old_path new_path states d e = rw (e, rename_path) (Map.find-set_self _ new_path _)

-- The written file with its new owner and mode, under its new name.
moved_lem :
    (tmp name : Text) (who : Account) (file : Text) (states : Map Owned)
    → Map.find
        (rename_path tmp name
          (chmod_path tmp 0o600 (chown_path tmp who (written_tmp tmp file states))))
        name
      ≡ some (runtime_file who file)
moved_lem tmp name who file states =
    let (d, found, content) = written_self tmp file states in
    let owned = chown_self tmp who (written_tmp tmp file states) d found in
    rename_self tmp name _ _ (chmod_self tmp 0o600 _ _ owned) ∙ rw content refl

-- The file holds the text and is the user's, or the call failed and the file is as it was.
abbrev pub Stored :
    (name : Text) (who : Account) (body : Text) (states : Map Owned) → ℕ × Map Owned → Type 0
Stored name who body states r =
    ((r.0 ≡ 0) × (Map.find r.1 name ≡ some (runtime_file who body)))
    ⊎ ((r.0 ≢ 0) × (Map.find r.1 name ≡ Map.find states name))

module _ (s : Staging) (tmp name : Text) (who : Account) (states : Map Owned)
    (other : text_eq tmp name ≡ false) where
  finish_Stored :
      (body : Text) (w : Written)
      → Writes body w
      → Stored name who body states (finish_runtime s tmp name who w states)
  unfolding finish_runtime
  finish_Stored body w (inr (part, e)) = rw e (
      inr (
        ground arith,
        unlinked_other tmp name other s (written_tmp tmp part states)
            ∙ written_other tmp name other part states,
      ))
  finish_Stored body w (inl e) =
      let written = written_other tmp name other body states in
      let owned = chown_other tmp name other who (written_tmp tmp body states) ∙ written in
      let unlinked = unlinked_other tmp name other s in
      let modded =
        chmod_other tmp name other 0o600 (chown_path tmp who (written_tmp tmp body states))
        ∙ owned in
      rw e (elim (Bool-cases (not s.synced || not s.chowned)) [
        | inl f ↦ rw f (inr (ground arith, unlinked _ ∙ written))
        | inr f ↦ rw f (elim (Bool-cases s.chmodded) [
          | inr g ↦ rw g (inr (ground arith, unlinked _ ∙ owned))
          | inl g ↦ rw g (elim (Bool-cases s.renamed) [
            | inr h ↦ rw h (inr (ground arith, unlinked _ ∙ modded))
            | inl h ↦ rw h (inl (refl, moved_lem tmp name who body states))
          ])
        ])
      ])

  store_Stored :
      (body : Text) → Stored name who body states (store_runtime s tmp name who (some body) states)
  unfolding finish_runtime
  store_Stored body = elim (Bool-cases s.tmp_opened) [
    | inr e ↦ rw e (inr (ground arith, refl))
    | inl e ↦ rw e (
        finish_Stored body (write_loop s.write (length body) 0 body [])
          (write_loop-Writes s.write (length body) 0 body [] (omega arith)))
  ]

before_lem :
    (name : Text) (who : Account) (body : Text) (before states : Map Owned) (r : ℕ × Map Owned)
    → Map.find before name ≡ Map.find states name
    → Stored name who body before r
    → Stored name who body states r
before_lem name who body before states r e (inl h) = inl h
before_lem name who body before states r e (inr h) = inr (h.0, h.1 ∙ e)

encoded_lem : (c : ℕ) (cs : Text) → is_empty (base64_encode (c ∷ cs)) ≡ false
unfolding base64_encode
encoded_lem c [] = refl
encoded_lem c (d ∷ []) = refl
encoded_lem c (d ∷ e ∷ cs) = refl

module _ (a : Answers) (user_dir : Text) (who : Account) (body : Text) (states : Map Owned)
    (bytes : AreBytes body) (short : length body ≤ 4096) where
  runtime_Stored :
      (r : Bool × Map Owned)
      → Map.find r.1 (user_dir ++ codes "/runtime.json")
        ≡ Map.find states (user_dir ++ codes "/runtime.json")
      → Stored
          (user_dir ++ codes "/runtime.json")
          who
          body
          states
          (runtime_in a user_dir (base64_encode body) who r)
  runtime_Stored (false, before) e = inr (ground arith, e)
  runtime_Stored (true, before) e = rw (base64_decode-base64_encode 4096 body bytes short) (
      before_lem _ who body before states _ e (
        store_Stored a.staging (user_dir ++ codes "/runtime.json.tmp")
          (user_dir ++ codes "/runtime.json") who before
          (text_eq-append user_dir (codes "/runtime.json.tmp") (codes "/runtime.json")
            ∙ (unfold text_eq in refl))
          body))

-- Of a text of 1 to 4096 bytes that the daemon encoded, write-runtime makes the user's runtime.json
-- with exactly these bytes, owned by the account and of mode 0600, and exits with 0; or it exits with
-- another code and the file is as it was. This holds whatever the calls answer.
pub cmd_write_runtime-Stored :
    (a : Answers) (shortid : Text) (who : Account) (c : ℕ) (cs : Text) (m : Machine)
    → valid_shortid shortid ≡ true
    → lookup_account a (username_of shortid) m ≡ some who
    → AreBytes (c ∷ cs)
    → length (c ∷ cs) ≤ 4096
    → Stored (username_of shortid ++ codes "/runtime.json") who (c ∷ cs) m.states (
      (cmd_write_runtime a (shortid ∷ base64_encode (c ∷ cs) ∷ []) m).code,
      (cmd_write_runtime a (shortid ∷ base64_encode (c ∷ cs) ∷ []) m).machine.states,
    )
unfolding cmd_write_runtime
cmd_write_runtime-Stored a shortid who c cs m valid found bytes short =
    rw (valid, encoded_lem c cs, found)
      (runtime_Stored a (username_of shortid) who (c ∷ cs) m.states bytes short
        (ensure_owned_dir a.user_dir_calls (username_of shortid) who 0o700 m.states)
        (ensured_other (username_of shortid) (username_of shortid ++ codes "/runtime.json")
          (text_eq-longer (username_of shortid) b'/' (codes "runtime.json")) a.user_dir_calls who
          0o700 m.states))
