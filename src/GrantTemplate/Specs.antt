-- ===== src/GrantTemplate/Specs.antt =====
-- What the renderers write is what spec_is_well_formed lets through.
use server_mcp_bridge.Base.{
  ℕ, suc, ◌-◌, ◌≤◌, ◌≡◌, refl, sym, ◌∙◌, ap, inl, inr, Bool, true, false, Option, List, [], ◌∷◌,
  ◌++◌, arith, Text, codes, text_eq, text_eq_refl, All, length, length-append, is_empty, take, drop,
  all, all-append, Bool-cases, ltb, ◌==◌, ==_iff,
}
use server_mcp_bridge.Json.{Json, Fields}
use server_mcp_bridge.Map.{Map}
use server_mcp_bridge.GrantTemplate.{
  GrantTemplate, Result, returned, threw, valid_shortid, is_shortid_char, is_arg_char,
  arg_value_charset_ok, is_printable, back, find_newline, tail_is_well_formed, spec_is_well_formed,
  render_command, render_sudoers_spec, render_full_admin_spec, spec_of,
}
use server_mcp_bridge.GrantTemplate.Words.{joined, AreWords, render_command_iff}

assoc : (a b c : Text) → (a ++ b) ++ c ≡ a ++ (b ++ c)
assoc [] b c = refl
assoc (x ∷ a) b c = ap (λ r. x ∷ r) (assoc a b c)

take_front : (a b : Text) → take (length a) (a ++ b) ≡ a
take_front [] b = refl
take_front (x ∷ a) b = ap (λ r. x ∷ r) (take_front a b)

drop_front : (a b : Text) → drop (length a) (a ++ b) ≡ b
drop_front [] b = refl
drop_front (x ∷ a) b = drop_front a b

all_mono :
    (p q : ℕ → Bool) (t : Text)
    → ((c : ℕ) → p c ≡ true → q c ≡ true)
    → all p t ≡ true
    → all q t ≡ true
all_mono p q [] h k = refl
all_mono p q (c ∷ cs) h k = ground (arith, k, h c, all_mono p q cs h)

arg-printable : (c : ℕ) → is_arg_char c ≡ true → is_printable c ≡ true
arg-printable c h = ground (arith, h)

shortid-printable : (c : ℕ) → is_shortid_char c ≡ true → is_printable c ≡ true
shortid-printable c h = ground (arith, h)

-- A line feed after printable characters is the last character and the first line feed.
back_of_line : (t : Text) → back (t ++ 10 ∷ []) ≡ 10
unfolding back
back_of_line [] = refl
back_of_line (c ∷ []) = refl
back_of_line (c ∷ d ∷ t) = back_of_line (d ∷ t)

find_newline_of_line :
    (t : Text) → all is_printable t ≡ true → find_newline (t ++ 10 ∷ []) ≡ length t
unfolding find_newline
find_newline_of_line [] h = refl
find_newline_of_line (c ∷ t) h = ground (arith, h, find_newline_of_line t)

is_empty_of_line : (t : Text) → is_empty (t ++ 10 ∷ []) ≡ false
is_empty_of_line [] = refl
is_empty_of_line (c ∷ t) = refl

not_ltb : (a b : ℕ) → b ≤ a → ltb a b ≡ false
not_ltb a b h = ground arith

all_pass :
    (spec : Text)
    → is_empty spec ≡ false
    → length spec ≤ 4096
    → 17 ≤ length spec
    → back spec ≡ 10
    → find_newline spec ≡ length spec - 1
    → all is_printable (take (length spec - 1) spec) ≡ true
    → text_eq (take 9 spec) (codes "mcp_user_") ≡ true
    → all is_shortid_char (take 8 (drop 9 spec)) ≡ true
    → tail_is_well_formed (drop 17 spec) ≡ true
    → spec_is_well_formed spec ≡ true
unfolding spec_is_well_formed
all_pass spec filled short long last one printable prefix shortid tail =
    let below : ltb 4096 (length spec) ≡ false = not_ltb 4096 (length spec) short in
    let above : ltb (length spec) 17 ≡ false = not_ltb (length spec) 17 long in
    let ended : (back spec == 10) ≡ true = (==_iff _ _).1 last in
    let once : (find_newline spec == length spec - 1) ≡ true = (==_iff _ _).1 one in
    rw (filled, below, ended, once, printable, prefix, above, shortid) tail

-- A line of the account of a shortid, with a tail of one of the two forms.
line_lem :
    (shortid tail : Text)
    → valid_shortid shortid ≡ true
    → all is_printable tail ≡ true
    → tail_is_well_formed (tail ++ 10 ∷ []) ≡ true
    → length (codes "mcp_user_" ++ (shortid ++ (tail ++ 10 ∷ []))) ≤ 4096
    → spec_is_well_formed (codes "mcp_user_" ++ (shortid ++ (tail ++ 10 ∷ []))) ≡ true
line_lem shortid tail valid printable form short =
    let end : Text = tail ++ 10 ∷ [] in
    let body : Text = codes "mcp_user_" ++ (shortid ++ tail) in
    let spec : Text = codes "mcp_user_" ++ (shortid ++ end) in
    let whole : spec ≡ body ++ 10 ∷ [] =
      ap (λ r. codes "mcp_user_" ++ r) (sym (assoc shortid tail (10 ∷ []))) in
    let eight : length shortid ≡ 8 = ground (arith, valid) in
    let chars : all is_shortid_char shortid ≡ true = ground (arith, valid) in
    let clean : all is_printable (shortid ++ tail) ≡ true = ground (
      arith,
      all-append is_printable shortid tail,
      all_mono is_shortid_char is_printable shortid shortid-printable chars,
      printable,
    ) in
    let clean_body : all is_printable body ≡ true = ground (arith, clean) in
    let size : length spec ≡ suc (length body) =
      ap length whole ∙ omega (arith, length-append body (10 ∷ [])) in
    let body_size : length spec - 1 ≡ length body = omega (arith, size) in
    let body_taken : take (length body) spec ≡ body =
      ap (take (length body)) whole ∙ take_front body (10 ∷ []) in
    all_pass spec refl short (omega (arith, eight, length-append shortid end))
      (ap back whole ∙ back_of_line body)
      (ap find_newline whole ∙ find_newline_of_line body clean_body ∙ sym body_size)
      (ap (λ n. all is_printable (take n spec)) body_size
        ∙ ap (all is_printable) body_taken
        ∙ clean_body)
      (text_eq_refl (codes "mcp_user_"))
      (ap (λ n. all is_shortid_char (take n (shortid ++ end))) (sym eight)
        ∙ ap (all is_shortid_char) (take_front shortid end)
        ∙ chars)
      (ap (λ n. tail_is_well_formed (drop n (shortid ++ end))) (sym eight)
        ∙ ap tail_is_well_formed (drop_front shortid end)
        ∙ form)

path_tail : (cmd : Text) → tail_is_well_formed (codes " ALL=(root) NOPASSWD: " ++ b'/' ∷ cmd) ≡ true
unfolding tail_is_well_formed
path_tail cmd = ground arith

joined-slash :
    (c : ℕ) (cmd : Text) (words : List Text) → joined (c ∷ cmd) words ≡ c ∷ joined cmd words
joined-slash c cmd [] = refl
joined-slash c cmd (w ∷ words) = joined-slash c (cmd ++ b' ' ∷ w) words

word-printable : (w : Text) → arg_value_charset_ok w ≡ true → all is_printable w ≡ true
word-printable [] h = refl
word-printable (c ∷ cs) h = all_mono is_arg_char is_printable (c ∷ cs) arg-printable h

module _ (match : (regex v : Text) → Option Bool) (params : Map Text) (args : Fields) where
  AreWords-charset :
      (argv words : List Text)
      → AreWords match params args argv words
      → All (λ w. arg_value_charset_ok w ≡ true) words
  AreWords-charset [] [] v = tt
  AreWords-charset (piece ∷ argv) (w ∷ words) (inl (e, same, f), v) =
      (rw same f, AreWords-charset argv words v)
  AreWords-charset (piece ∷ argv) (w ∷ words) (inr (e, g), v) =
      (g.charset, AreWords-charset argv words v)
  AreWords-charset [] (w ∷ words) v = elim v [ ]
  AreWords-charset (piece ∷ argv) [] v = elim v [ ]

joined-printable :
    (cmd : Text) (words : List Text)
    → all is_printable cmd ≡ true
    → All (λ w. arg_value_charset_ok w ≡ true) words
    → all is_printable (joined cmd words) ≡ true
joined-printable cmd [] h v = h
joined-printable cmd (w ∷ words) h (f, v) =
    joined-printable (cmd ++ b' ' ∷ w) words
      (ground (arith, all-append is_printable cmd (b' ' ∷ w), h, word-printable w f)) v

spec_of-returned :
    (shortid spec : Text) (r : Result)
    → spec_of shortid r ≡ returned spec
    → (cmd : Text) × (r ≡ returned cmd)
      × (spec
          ≡ codes "mcp_user_" ++ (shortid ++ (codes " ALL=(root) NOPASSWD: " ++ (cmd ++ 10 ∷ []))))
spec_of-returned shortid spec (threw what) h = absurd (ground arith)
spec_of-returned shortid spec (returned cmd) h = (cmd, refl, ground arith)

module _ (match : (regex v : Text) → Option Bool) (tmpl : GrantTemplate) where
  -- The command of a template whose binary is absolute and printable is so too.
  pub slash_of_command :
      (path cmd : Text) (captured_args : Json)
      → tmpl.binary ≡ b'/' ∷ path
      → all is_printable path ≡ true
      → render_command match tmpl captured_args ≡ returned cmd
      → (rest : Text) × (cmd ≡ b'/' ∷ rest) × (all is_printable rest ≡ true)
  slash_of_command path cmd captured_args absolute printable r =
      let v = (render_command_iff match tmpl captured_args cmd).0 r in
      (
        joined path v.words,
        v.whole ∙ ap (λ b. joined b v.words) absolute ∙ joined-slash b'/' path v.words,
        joined-printable path v.words printable
            (AreWords-charset match tmpl.params v.args tmpl.argv v.words v.are_words),
      )

  -- A line that render_sudoers_spec renders passes spec_is_well_formed, if the binary of the template
  -- is an absolute path of printable characters and the line is of at most 4096 bytes.
  pub spec_is_well_formed-render_sudoers_spec :
      (path shortid spec : Text) (captured_args : Json)
      → tmpl.binary ≡ b'/' ∷ path
      → all is_printable path ≡ true
      → length spec ≤ 4096
      → render_sudoers_spec match shortid tmpl captured_args ≡ returned spec
      → spec_is_well_formed spec ≡ true
  unfolding render_sudoers_spec
  spec_is_well_formed-render_sudoers_spec path shortid spec captured_args absolute printable short
        h =
      elim (Bool-cases (valid_shortid shortid)) [
        | inr e ↦ absurd (ground (arith, h, e))
        | inl e ↦
            let (cmd, r, same) =
              spec_of-returned shortid spec (render_command match tmpl captured_args)
                (ground (arith, h, e)) in
            let (rest, slash, clean) =
              slash_of_command path cmd captured_args absolute printable r in
            let line : spec
                ≡ codes "mcp_user_"
                  ++ (shortid ++ (codes " ALL=(root) NOPASSWD: " ++ (b'/' ∷ rest ++ 10 ∷ []))) =
              same
              ∙ ap
                  (λ c.
                    codes "mcp_user_"
                    ++ (shortid ++ (codes " ALL=(root) NOPASSWD: " ++ (c ++ 10 ∷ []))))
                  slash in
            rw line (
              line_lem shortid (codes " ALL=(root) NOPASSWD: " ++ b'/' ∷ rest) e clean
                (path_tail (rest ++ 10 ∷ [])) (rw line at short))
      ]

-- So does the line of a full admin, for any valid shortid.
pub spec_is_well_formed-render_full_admin_spec :
    (shortid spec : Text)
    → render_full_admin_spec shortid ≡ returned spec
    → spec_is_well_formed spec ≡ true
unfolding render_full_admin_spec
spec_is_well_formed-render_full_admin_spec shortid spec h =
    elim (Bool-cases (valid_shortid shortid)) [
      | inr e ↦ absurd (ground (arith, h, e))
      | inl e ↦
          let line : spec
              ≡ codes "mcp_user_" ++ (shortid ++ (codes " ALL=(ALL) NOPASSWD: ALL" ++ 10 ∷ [])) =
            ground (arith, h, e) in
          let eight : length shortid ≡ 8 = ground (arith, e) in
          rw line (
            line_lem shortid (codes " ALL=(ALL) NOPASSWD: ALL") e refl
              (unfold tail_is_well_formed in refl)
              (omega (
                arith,
                eight,
                length-append shortid (codes " ALL=(ALL) NOPASSWD: ALL" ++ 10 ∷ []),
              )))
    ]
