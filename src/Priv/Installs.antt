-- ===== src/Priv/Installs.antt =====
-- What the install commands do: one file with a checked line, or nothing but the temporary file.
use server_mcp_bridge.Base.{
  ℕ, ◌≡◌, ◌≢◌, refl, ◌∙◌, ◌⊎◌, inl, inr, Bool, true, false, not, ◌||◌, none, some, [], ◌∷◌, ◌++◌,
  arith, Text, codes, text_eq, text_eq_iff, ℤ, pos, eqℤ, eqℤ_iff, length, length-append, take,
  is_empty, if◌then◌else◌, Bool-cases, Option-cases,
}
use server_mcp_bridge.Map
use server_mcp_bridge.Map.{Map, map_laws}
use server_mcp_bridge.GrantTemplate.{returned, render_full_admin_spec}
use server_mcp_bridge.GrantTemplate.Specs.{spec_is_well_formed-render_full_admin_spec}
use server_mcp_bridge.Priv.{
  valid_shortid, valid_grantid, Machine, SpecFile, not_opened, opened, Staging, Answers,
}
use server_mcp_bridge.Priv.Spec.{spec_well_formed, spec_well_formed-eq-spec_is_well_formed}
use server_mcp_bridge.Priv.Sudoers.{
  Written, wrote, write_loop, unlink_tmp, exists, tmp_of_grant, final_of_grant, read_spec,
  finish_file, install_file, install_grant_spec, with_sudoers, system_admin_spec, cmd_install_grant,
  cmd_install_system_admin,
}
use server_mcp_bridge.Priv.Writes.{Writes, write_loop-Writes}

-- Every file but the temporary one is as it was.
abbrev pub IsOnlyTmp : (tmp_path : Text) (dir dir' : Map Text) → Type 0
IsOnlyTmp tmp_path dir dir' =
    (name : Text) → text_eq tmp_path name ≡ false → Map.find dir' name ≡ Map.find dir name

pub unlink_tmp-IsOnlyTmp :
    (s : Staging) (tmp_path file : Text) (dir : Map Text)
    → IsOnlyTmp tmp_path dir (unlink_tmp s tmp_path (Map.set dir tmp_path file))
unlink_tmp-IsOnlyTmp s tmp_path file dir name other = elim (Bool-cases s.tmp_unlinked) [
  | inl e ↦ rw (e, Map.find-erase, other, Map.find-set, other) refl
  | inr e ↦ rw (e, Map.find-set, other) refl
]

module _ (visudo : Text → ℤ) where
  -- The final file holds the text, which visudo accepted, and the temporary file is gone.
  pub record Installed (tmp_path final_path buf : Text) (dir dir' : Map Text) : Type 0 where
    pub accepted : visudo buf ≡ pos 0
    pub files :
        (name : Text)
        → Map.find dir' name ≡ (
            if text_eq final_path name
            then some buf
            else if text_eq tmp_path name
            then none
            else Map.find dir name)

  abbrev pub InstallOutcome :
      (tmp_path final_path buf : Text) (dir : Map Text) → ℕ × Map Text → Type 0
  InstallOutcome tmp_path final_path buf dir r =
      ((r.0 ≡ 0) × Installed tmp_path final_path buf dir r.1)
      ⊎ ((r.0 ≢ 0) × IsOnlyTmp tmp_path dir r.1)

  module _ (s : Staging) (tmp_path final_path : Text) (dir : Map Text) where
    renamed_lem :
        (file : Text)
        → visudo file ≡ pos 0
        → Installed tmp_path final_path file dir
            (Map.set (Map.erase (Map.set dir tmp_path file) tmp_path) final_path file)
    renamed_lem file accepted = record {
      accepted = accepted;
      files = λ name.
          rw (Map.find-set, Map.find-erase, Map.find-set)
            (ground (arith, text_eq_iff tmp_path name));
    }

    finished_lem :
        (file : Text)
        → InstallOutcome tmp_path final_path file dir
            (finish_file visudo s tmp_path final_path (wrote file) dir)
    unfolding finish_file
    finished_lem file =
        let kept = unlink_tmp-IsOnlyTmp s tmp_path file dir in
        elim (Bool-cases (not s.synced || not s.chowned)) [
          | inl e ↦ rw e (inr (ground arith, kept))
          | inr e ↦ rw e (elim (Bool-cases (eqℤ (visudo file) (pos 0))) [
            | inr f ↦ rw f (inr (ground arith, kept))
            | inl f ↦ rw f (elim (Bool-cases s.renamed) [
              | inr g ↦ rw g (inr (ground arith, kept))
              | inl g ↦ rw g (inl (refl, renamed_lem file ((eqℤ_iff _ _).0 f)))
            ])
          ])
        ]

    written_lem :
        (buf : Text) (w : Written)
        → Writes buf w
        → InstallOutcome tmp_path final_path buf dir
            (finish_file visudo s tmp_path final_path w dir)
    unfolding finish_file
    written_lem buf w (inl e) = rw e (finished_lem buf)
    written_lem buf w (inr (part, e)) =
        rw e (inr (ground arith, unlink_tmp-IsOnlyTmp s tmp_path part dir))

    pub install_file-InstallOutcome :
        (buf : Text)
        → InstallOutcome tmp_path final_path buf dir
            (install_file visudo s tmp_path final_path buf dir)
    unfolding install_file
    install_file-InstallOutcome buf = elim (Bool-cases s.tmp_opened) [
      | inr e ↦ rw e (inr (ground arith, λ name other. refl))
      | inl e ↦ rw e (
          written_lem buf (write_loop s.write (length buf) 0 buf [])
            (write_loop-Writes s.write (length buf) 0 buf [] (omega arith)))
    ]

-- What a spec file has to be for its text to go on.
abbrev pub Reads : SpecFile → ℕ ⊎ Text → Type 0
Reads f (inl code) = code ≢ 0
Reads f (inr buf) = spec_well_formed buf ≡ true

checked_lem :
    (f : SpecFile) (bytes : Text) (refused : Bool)
    → Reads f (
        if refused
        then inl 13
        else if is_empty (take 4096 bytes)
        then inl 13
        else if not (spec_well_formed (take 4096 bytes))
        then inl 13
        else inr (take 4096 bytes))
checked_lem f bytes true = ground arith
checked_lem f bytes false = elim (Bool-cases (is_empty (take 4096 bytes))) [
  | inl e ↦ rw e (ground arith)
  | inr e ↦ rw e (elim (Bool-cases (spec_well_formed (take 4096 bytes))) [
    | inr g ↦ rw g (ground arith)
    | inl g ↦ rw g g
  ])
]

pub read_spec-Reads : (f : SpecFile) → Reads f (read_spec f)
unfolding read_spec
read_spec-Reads not_opened = ground arith
read_spec-Reads (opened regular size none) = ground arith
read_spec-Reads (opened regular size (some bytes)) =
    checked_lem (opened regular size (some bytes)) bytes _

pub exists-none :
    (dir : Map Text) (name : Text) → exists dir name ≡ false → Map.find dir name ≡ none
exists-none dir name h = elim (Option-cases (Map.find dir name)) [
  | inl e ↦ e
  | inr (t, e) ↦ absurd (ground (arith, h, e))
]

module _ (visudo : Text → ℤ) (s : Staging) (grantid : Text) (dir : Map Text) where
  -- A new file with a line that passed both checks.
  pub record Granted (read : ℕ ⊎ Text) (dir' : Map Text) : Type 0 where
    pub buf : Text
    pub is_read : read ≡ inr buf
    pub checked : spec_well_formed buf ≡ true
    pub is_new : Map.find dir (final_of_grant grantid) ≡ none
    pub installed : Installed visudo (tmp_of_grant grantid) (final_of_grant grantid) buf dir dir'

  abbrev pub GrantOutcome : (read : ℕ ⊎ Text) → ℕ × Map Text → Type 0
  GrantOutcome read r =
      ((r.0 ≡ 0) × Granted read r.1) ⊎ ((r.0 ≢ 0) × IsOnlyTmp (tmp_of_grant grantid) dir r.1)

  granted_lem :
      (buf : Text) (r : ℕ × Map Text)
      → spec_well_formed buf ≡ true
      → Map.find dir (final_of_grant grantid) ≡ none
      → InstallOutcome visudo (tmp_of_grant grantid) (final_of_grant grantid) buf dir r
      → GrantOutcome (inr buf) r
  granted_lem buf r checked is_new (inl (e, installed)) = inl (
    e,
    record { buf = buf; is_read = refl; checked = checked; is_new = is_new; installed = installed },
  )
  granted_lem buf r checked is_new (inr o) = inr o

  pub install_grant_spec-GrantOutcome :
      (f : SpecFile) (read : ℕ ⊎ Text)
      → Reads f read
      → GrantOutcome read (install_grant_spec visudo s grantid read dir)
  unfolding install_grant_spec
  install_grant_spec-GrantOutcome f (inl code) h = inr (h, λ name other. refl)
  install_grant_spec-GrantOutcome f (inr buf) h =
      elim (Bool-cases (exists dir (final_of_grant grantid))) [
        | inl e ↦ rw e (inr (ground arith, λ name other. refl))
        | inr e ↦ rw e (
            granted_lem buf _ h (exists-none dir _ e) (
              install_file-InstallOutcome visudo s (tmp_of_grant grantid) (final_of_grant grantid)
                dir buf))
      ]

-- install-grant ends with exit code 0 and a new drop-in of a line that passed the helper's check and
-- visudo, or with another code and no change but to its temporary file, whatever the calls answer.
pub cmd_install_grant-GrantOutcome :
    (visudo : Text → ℤ) (a : Answers) (grantid : Text) (m : Machine)
    → valid_grantid grantid ≡ true
    → GrantOutcome visudo a.staging grantid m.sudoers (read_spec a.spec_file) (
      (cmd_install_grant visudo a (grantid ∷ []) m).code,
      (cmd_install_grant visudo a (grantid ∷ []) m).machine.sudoers,
    )
unfolding cmd_install_grant
cmd_install_grant-GrantOutcome visudo a grantid m valid = rw valid (
    install_grant_spec-GrantOutcome visudo a.staging grantid m.sudoers a.spec_file
      (read_spec a.spec_file) (read_spec-Reads a.spec_file))

printable_lem :
    (shortid : Text)
    → valid_shortid shortid ≡ true
    → render_full_admin_spec shortid ≡ returned (system_admin_spec shortid)
unfolding render_full_admin_spec
printable_lem shortid h = ground (arith, h)

-- The wildcard line of a valid shortid always passes the helper's own check.
pub system_admin_spec-checked :
    (shortid : Text)
    → valid_shortid shortid ≡ true
    → (length (system_admin_spec shortid) ≡ 42)
      × (spec_well_formed (system_admin_spec shortid) ≡ true)
system_admin_spec-checked shortid h =
    let eight : length shortid ≡ 8 = ground (arith, h) in
    (
      omega (arith, eight, length-append shortid (codes " ALL=(ALL) NOPASSWD: ALL" ++ 10 ∷ [])),
      spec_well_formed-eq-spec_is_well_formed (system_admin_spec shortid)
          ∙ spec_is_well_formed-render_full_admin_spec shortid (system_admin_spec shortid)
              (printable_lem shortid h),
    )

-- So install-system-admin with a valid shortid depends on the file system and on visudo only.
pub cmd_install_system_admin_lem :
    (visudo : Text → ℤ) (a : Answers) (shortid : Text) (m : Machine)
    → valid_shortid shortid ≡ true
    → cmd_install_system_admin visudo a (shortid ∷ []) m
      ≡ with_sudoers m (
          install_file visudo a.staging
            (codes ".mcp_system_admin.tmp")
            (codes "mcp_system_admin")
            (system_admin_spec shortid)
            m.sudoers)
unfolding cmd_install_system_admin
cmd_install_system_admin_lem visudo a shortid m h =
    let (size, checked) = system_admin_spec-checked shortid h in rw (h, checked) (rw size refl)
