-- ===== src/GrantRecord/Checks.antt =====
-- The records that are rendered are those that the check lets through.
use server_mcp_bridge.Base.{
  ℕ, ◌≤◌, ◌≡◌, refl, sym, ◌∙◌, ap, ◌↔◌, Bool, true, false, not, ◌&&◌, Option, some, [], ◌∷◌, arith,
  Text, codes, ℤ, ltb, length, is_empty, all, Bool-cases, inl, inr,
}
use server_mcp_bridge.Json.{Json, boolean, integer, get}
use server_mcp_bridge.GrantTemplate.{GrantTemplate, valid_shortid, is_printable, render_command}
use server_mcp_bridge.GrantTemplate
use server_mcp_bridge.GrantTemplate.Specs.{slash_of_command}
use server_mcp_bridge.GrantRecord.{
  Rendered, rendered, valid_grantid_hex, plausible_sid, holds, skip_spaces, pattern_error,
  fields_error, validate_grant_record, grant_record, validated, after_checks, record_of,
  render_windows_grant_record, render_windows_full_admin_record,
}

-- Whom a grant is for: valid identifiers, and no SID or a plausible one.
pub record IsGrantee (grantid shortid sid : Text) : Type 0 where
  pub grant : valid_grantid_hex grantid ≡ true
  pub user : valid_shortid shortid ≡ true
  pub account : not (is_empty sid) && not (plausible_sid sid) ≡ false

rendered_inj : (u v : Json) → rendered u ≡ rendered v → v ≡ u
rendered_inj u v h = ground arith

grant_record-fields :
    (grantid shortid sid template pat : Text) (expires_at : ℤ)
    → validate_grant_record (grant_record grantid shortid sid template pat expires_at)
      ≡ fields_error grantid shortid sid template pat
          (some (boolean true))
          (some (integer expires_at))
unfolding validate_grant_record get
grant_record-fields grantid shortid sid template pat expires_at = refl

module _ (grantid shortid sid : Text) where
  after_checks-IsGrantee :
      (r : Rendered) (v : Json)
      → after_checks grantid shortid sid r ≡ rendered v
      → IsGrantee grantid shortid sid × (r ≡ rendered v)
  after_checks-IsGrantee r v h = elim (Bool-cases (valid_grantid_hex grantid)) [
    | inr a ↦ absurd (ground (arith, h, a))
    | inl a ↦ elim (Bool-cases (valid_shortid shortid)) [
      | inr b ↦ absurd (ground (arith, h, a, b))
      | inl b ↦ elim (Bool-cases (not (is_empty sid) && not (plausible_sid sid))) [
        | inl c ↦ absurd (ground (arith, h, a, b, c))
        | inr c ↦ (record { grant = a; user = b; account = c }, ground (arith, h, a, b, c))
      ]
    ]
  ]

  after_checks_of_grantee :
      (r : Rendered) → IsGrantee grantid shortid sid → after_checks grantid shortid sid r ≡ r
  after_checks_of_grantee r g = rw (g.grant, g.user, g.account) refl

  full_admin_fields :
      (expires_at : ℤ)
      → IsGrantee grantid shortid sid
      → fields_error grantid shortid sid
          (codes "full_admin")
          (codes "*")
          (some (boolean true))
          (some (integer expires_at))
        ≡ []
  unfolding fields_error
  full_admin_fields expires_at g = rw (g.grant, g.user, g.account) (unfold holds in refl)

  full_admin_validated :
      (expires_at : ℤ)
      → IsGrantee grantid shortid sid
      → validated (grant_record grantid shortid sid (codes "full_admin") (codes "*") expires_at)
        ≡ rendered (grant_record grantid shortid sid (codes "full_admin") (codes "*") expires_at)
  full_admin_validated expires_at g =
      rw
        (
          grant_record-fields grantid shortid sid (codes "full_admin") (codes "*") expires_at,
          full_admin_fields expires_at g,
        )
        refl

  -- The record of a full admin is rendered exactly for valid identifiers and no SID or a plausible
  -- one, and is then the wildcard record: the check that is made at the end never fails.
  pub render_windows_full_admin_record_iff :
      (expires_at : ℤ) (v : Json)
      → (render_windows_full_admin_record grantid shortid sid expires_at ≡ rendered v) ↔ (
          IsGrantee grantid shortid sid
          × (v ≡ grant_record grantid shortid sid (codes "full_admin") (codes "*") expires_at))
  unfolding render_windows_full_admin_record
  render_windows_full_admin_record_iff expires_at v = (
    λ h.
        let (g, r) = after_checks-IsGrantee _ v h in
        (g, rendered_inj _ v (sym (full_admin_validated expires_at g) ∙ r)),
    λ (g, same).
        after_checks_of_grantee _ g ∙ full_admin_validated expires_at g ∙ ap rendered (sym same),
  )

not_held :
    (c : ℕ) (t : Text) → all is_printable t ≡ true → is_printable c ≡ false → holds c t ≡ false
unfolding holds
not_held c [] h k = refl
not_held c (d ∷ ds) h k = ground (arith, h, k, not_held c ds)

slash_pattern : (rest : Text) → pattern_error (skip_spaces (b'/' ∷ rest)) ≡ []
unfolding pattern_error skip_spaces
slash_pattern rest = refl

module _ (grantid shortid sid name rest : Text) (expires_at : ℤ) where
  abbrev command : Text
  command = b'/' ∷ rest

  command_fields :
      IsGrantee grantid shortid sid
      → is_empty name ≡ false
      → length name ≤ 32
      → all is_printable rest ≡ true
      → length command ≤ 4096
      → fields_error grantid shortid sid name command
          (some (boolean true))
          (some (integer expires_at))
        ≡ []
  unfolding fields_error
  command_fields g named short printable small =
      let no_nul : holds 0 command ≡ false = not_held 0 command printable refl in
      let no_newline : holds 10 command ≡ false = not_held 10 command printable refl in
      let name_fits : ltb 32 (length name) ≡ false = ground (arith, short) in
      let command_fits : ltb 4096 (length command) ≡ false = ground (arith, small) in
      rw (g.grant, g.user, g.account, named, name_fits, command_fits, no_nul, no_newline)
        (slash_pattern rest)

  command_too_long :
      IsGrantee grantid shortid sid
      → is_empty name ≡ false
      → length name ≤ 32
      → ltb 4096 (length command) ≡ true
      → is_empty (
          fields_error grantid shortid sid name command
            (some (boolean true))
            (some (integer expires_at)))
        ≡ false
  unfolding fields_error
  command_too_long g named short long =
      let name_fits : ltb 32 (length name) ≡ false = ground (arith, short) in
      rw (g.grant, g.user, g.account, named, name_fits, long) refl

  abbrev the_record : Json
  the_record = grant_record grantid shortid sid name command expires_at

  command_validated :
      IsGrantee grantid shortid sid
      → is_empty name ≡ false
      → length name ≤ 32
      → all is_printable rest ≡ true
      → length command ≤ 4096
      → validated the_record ≡ rendered the_record
  command_validated g named short printable small =
      rw
        (
          grant_record-fields grantid shortid sid name command expires_at,
          command_fields g named short printable small,
        )
        refl

  short_of_validated :
      (v : Json)
      → IsGrantee grantid shortid sid
      → is_empty name ≡ false
      → length name ≤ 32
      → validated the_record ≡ rendered v
      → length command ≤ 4096
  short_of_validated v g named short h = elim (Bool-cases (ltb 4096 (length command))) [
    | inr e ↦ ground (arith, e)
    | inl e ↦
        let bad : is_empty (validate_grant_record the_record) ≡ false =
          ap is_empty (grant_record-fields grantid shortid sid name command expires_at)
          ∙ command_too_long g named short e in
        absurd (ground (arith, h, bad))
  ]

record_of-command :
    (grantid shortid sid name : Text) (expires_at : ℤ) (r : GrantTemplate.Result) (v : Json)
    → record_of grantid shortid sid name expires_at r ≡ rendered v
    → (cmd : Text) × (r ≡ GrantTemplate.returned cmd)
      × (validated (grant_record grantid shortid sid name cmd expires_at) ≡ rendered v)
record_of-command grantid shortid sid name expires_at (GrantTemplate.threw what) v h =
    absurd (ground arith)
record_of-command grantid shortid sid name expires_at (GrantTemplate.returned cmd) v h =
    (cmd, refl, h)

module _ (match : (regex v : Text) → Option Bool) (tmpl : GrantTemplate) (path : Text)
    (grantid shortid sid : Text) (captured_args : Json) (expires_at : ℤ) where
  -- The record of a command, in at most 4096 bytes, that the template and the arguments give.
  pub record IsCommandRecord (v : Json) : Type 0 where
    pub grantee : IsGrantee grantid shortid sid
    pub cmd : Text
    pub command_of : render_command match tmpl captured_args ≡ GrantTemplate.returned cmd
    pub short : length cmd ≤ 4096
    pub whole : v ≡ grant_record grantid shortid sid tmpl.name cmd expires_at

  -- For a template whose binary is an absolute path of printable characters and whose name has 1 to 32
  -- bytes, a record is rendered exactly for valid identifiers, no SID or a plausible one, and
  -- arguments that give a command of at most 4096 bytes, and it is the record of that command: the
  -- check that is made at the end fails for the length only.
  pub render_windows_grant_record_iff :
      (v : Json)
      → tmpl.binary ≡ b'/' ∷ path
      → all is_printable path ≡ true
      → is_empty tmpl.name ≡ false
      → length tmpl.name ≤ 32
      → (render_windows_grant_record match grantid shortid sid tmpl captured_args expires_at
          ≡ rendered v)
        ↔ IsCommandRecord v
  unfolding render_windows_grant_record
  render_windows_grant_record_iff v absolute printable named fits = (forth, back)
    where
      forth :
          render_windows_grant_record match grantid shortid sid tmpl captured_args expires_at
            ≡ rendered v
          → IsCommandRecord v
      forth h =
          let (g, r) = after_checks-IsGrantee grantid shortid sid _ v h in
          let (cmd, c, checked) =
            record_of-command grantid shortid sid tmpl.name expires_at _ v r in
          let (rest, slash, clean) =
            slash_of_command match tmpl path cmd captured_args absolute printable c in
          let at_rest = rw slash at checked in
          let short =
            short_of_validated grantid shortid sid tmpl.name rest expires_at v g named fits
              at_rest in
          record {
            grantee = g;
            cmd = cmd;
            command_of = c;
            short = rw slash short;
            whole = rw slash (
                rendered_inj _ v (
                  sym (
                    command_validated grantid shortid sid tmpl.name rest expires_at g named fits
                      clean short)
                  ∙ at_rest));
          }

      back :
          IsCommandRecord v
          → render_windows_grant_record match grantid shortid sid tmpl captured_args expires_at
            ≡ rendered v
      back w =
          let (rest, slash, clean) =
            slash_of_command match tmpl path w.cmd captured_args absolute printable w.command_of in
          after_checks_of_grantee grantid shortid sid _ w.grantee
          ∙ ap (record_of grantid shortid sid tmpl.name expires_at)
              (w.command_of ∙ ap GrantTemplate.returned slash)
          ∙ command_validated grantid shortid sid tmpl.name rest expires_at w.grantee named fits
              clean (rw slash at w.short)
          ∙ ap rendered (
              sym
                (w.whole ∙ ap (λ c. grant_record grantid shortid sid tmpl.name c expires_at) slash))
