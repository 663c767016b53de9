-- ===== src/GrantTemplate/Words.antt =====
-- Which commands render_command makes: the binary, and a word for each piece of the template.
use server_mcp_bridge.Base.{
  ◌≡◌, refl, ◌⊎◌, inl, inr, ◌↔◌, Bool, true, false, Option, none, some, List, [], ◌∷◌, ◌++◌, arith,
  Text, is_empty, Bool-cases, Option-cases,
}
use server_mcp_bridge.Json.{Json, null, boolean, integer, real, str, arr, obj, Fields, get}
use server_mcp_bridge.Map
use server_mcp_bridge.Map.{Map}
use server_mcp_bridge.GrantTemplate.{
  GrantTemplate, returned, placeholder_of, arg_value_charset_ok, match_error, value_error,
  placeholder_error, argv_error, validate_captured_args, string_of, render_argv, render_command,
}

is_empty→eq : (t : Text) → is_empty t ≡ true → t ≡ []
is_empty→eq [] h = refl
is_empty→eq (c ∷ cs) h = cc

match_error-true :
    (ph : Text) (r : Option Bool) → is_empty (match_error ph r) ≡ true → r ≡ some true
match_error-true ph none h = absurd (ground arith)
match_error-true ph (some false) h = absurd (ground arith)
match_error-true ph (some true) h = refl

-- The words, each after a space.
abbrev pub joined : (cmd : Text) → List Text → Text
joined cmd [] = cmd
joined cmd (w ∷ ws) = joined (cmd ++ b' ' ∷ w) ws

module _ (match : (regex v : Text) → Option Bool) (params : Map Text) (args : Fields) where
  -- The value that is given for a placeholder: of allowed characters, and one that its expression
  -- matches.
  pub record IsValue (ph w : Text) : Type 0 where
    pub regex : Text
    pub declared : Map.find params ph ≡ some regex
    pub given : get ph args ≡ some (str w)
    pub charset : arg_value_charset_ok w ≡ true
    pub matches : match regex w ≡ some true

  -- The word of a piece: the piece itself, of allowed characters, or the value of its placeholder.
  abbrev pub IsWord : (piece w : Text) → Type 0
  IsWord piece w =
      ((is_empty (placeholder_of piece) ≡ true) × (w ≡ piece) × (arg_value_charset_ok piece ≡ true))
      ⊎ ((is_empty (placeholder_of piece) ≡ false) × IsValue (placeholder_of piece) w)

  abbrev pub AreWords : (argv words : List Text) → Type 0
  AreWords [] [] = Unit {0}
  AreWords (piece ∷ argv) (w ∷ words) = IsWord piece w × AreWords argv words
  AreWords _ _ = ⊥

  value_error-IsValue :
      (ph regex : Text) (v : Option Json)
      → Map.find params ph ≡ some regex
      → get ph args ≡ v
      → is_empty (value_error match ph regex v) ≡ true
      → IsValue ph (string_of v)
  value_error-IsValue ph regex none d g h = absurd (ground arith)
  value_error-IsValue ph regex (some (str w)) d g h = elim (Bool-cases (arg_value_charset_ok w)) [
    | inr e ↦ absurd (ground (arith, h, e))
    | inl e ↦ record {
      regex = regex;
      declared = d;
      given = g;
      charset = e;
      matches = match_error-true ph (match regex w) (ground (arith, h, e));
    }
  ]
  value_error-IsValue ph regex (some null) d g h = absurd (ground arith)
  value_error-IsValue ph regex (some (boolean b)) d g h = absurd (ground arith)
  value_error-IsValue ph regex (some (integer b)) d g h = absurd (ground arith)
  value_error-IsValue ph regex (some (real b)) d g h = absurd (ground arith)
  value_error-IsValue ph regex (some (arr b)) d g h = absurd (ground arith)
  value_error-IsValue ph regex (some (obj b)) d g h = absurd (ground arith)

  -- A placeholder that passes has a value.
  placeholder_error-IsValue :
      (ph : Text)
      → is_empty (placeholder_error match params args ph) ≡ true
      → IsValue ph (string_of (get ph args))
  unfolding placeholder_error
  placeholder_error-IsValue ph h = elim (Option-cases (Map.find params ph)) [
    | inl e ↦ absurd (ground (arith, h, e))
    | inr (regex, e) ↦ value_error-IsValue ph regex (get ph args) e refl (ground (arith, h, e))
  ]

  IsValue-placeholder_error :
      (ph w : Text) → IsValue ph w → is_empty (placeholder_error match params args ph) ≡ true
  unfolding placeholder_error
  IsValue-placeholder_error ph w v =
      rw (v.declared, v.given, v.charset, v.matches, placeholder_error) refl

  -- Every command that the loops let through is made of words.
  render-words :
      (name cmd out : Text) (argv : List Text)
      → is_empty (argv_error match params args argv) ≡ true
      → render_argv name args cmd argv ≡ returned out
      → (words : List Text) × AreWords argv words × (out ≡ joined cmd words)
  unfolding argv_error render_argv
  render-words name cmd out [] h r = ([], tt, ground (arith, r))
  render-words name cmd out (piece ∷ argv) h r =
      elim (Bool-cases (is_empty (placeholder_of piece))) [
        | inl e ↦ elim (Bool-cases (arg_value_charset_ok piece)) [
          | inr f ↦ absurd (ground (arith, r, e, f))
          | inl f ↦
              let (words, v, same) =
                render-words name (cmd ++ b' ' ∷ piece) out argv (ground (arith, h, e))
                  (ground (arith, r, e, f)) in
              (piece ∷ words, (inl (e, refl, f), v), same)
        ]
        | inr e ↦
            let ph = placeholder_of piece in
            let passed : is_empty (placeholder_error match params args ph) ≡ true =
              ground (arith, h, e) in
            let (words, v, same) =
              render-words name (cmd ++ b' ' ∷ string_of (get ph args)) out argv
                (ground (arith, h, e, passed)) (ground (arith, r, e)) in
            (
              string_of (get ph args) ∷ words,
              (inr (e, placeholder_error-IsValue ph passed), v),
              same,
            )
      ]

  words-error :
      (argv words : List Text)
      → AreWords argv words
      → is_empty (argv_error match params args argv) ≡ true
  unfolding argv_error
  words-error [] [] v = refl
  words-error (piece ∷ argv) (w ∷ words) (inl (e, same, f), v) =
      ground (arith, e, words-error argv words v)
  words-error (piece ∷ argv) (w ∷ words) (inr (e, g), v) =
      ground
        (arith, e, words-error argv words v, IsValue-placeholder_error (placeholder_of piece) w g)
  words-error [] (w ∷ words) v = elim v [ ]
  words-error (piece ∷ argv) [] v = elim v [ ]

  words-render :
      (name cmd : Text) (argv words : List Text)
      → AreWords argv words
      → render_argv name args cmd argv ≡ returned (joined cmd words)
  unfolding render_argv
  words-render name cmd [] [] v = refl
  words-render name cmd (piece ∷ argv) (w ∷ words) (inl (e, same, f), v) =
      rw (e, f, render_argv, same) (words-render name (cmd ++ b' ' ∷ piece) argv words v)
  words-render name cmd (piece ∷ argv) (w ∷ words) (inr (e, g), v) =
      rw (e, g.given, render_argv) (words-render name (cmd ++ b' ' ∷ w) argv words v)
  words-render name cmd [] (w ∷ words) v = elim v [ ]
  words-render name cmd (piece ∷ argv) [] v = elim v [ ]

-- A command that a template and the arguments given for it stand for.
pub record IsCommand (match : (regex v : Text) → Option Bool) (tmpl : GrantTemplate)
    (captured_args : Json) (cmd : Text) : Type 0 where
  pub args : Fields
  pub is_object : captured_args ≡ obj args
  pub words : List Text
  pub are_words : AreWords match tmpl.params args tmpl.argv words
  pub whole : cmd ≡ joined tmpl.binary words

module _ (match : (regex v : Text) → Option Bool) (tmpl : GrantTemplate) where
  render_command-IsCommand :
      (captured_args : Json) (cmd : Text)
      → render_command match tmpl captured_args ≡ returned cmd
      → IsCommand match tmpl captured_args cmd
  unfolding render_command validate_captured_args
  render_command-IsCommand (obj args) cmd h =
      elim (Bool-cases (is_empty (argv_error match tmpl.params args tmpl.argv))) [
        | inr e ↦ absurd (ground (arith, h, e))
        | inl e ↦
            let (words, v, same) =
              render-words match tmpl.params args tmpl.name tmpl.binary cmd tmpl.argv e
                (ground (arith, h, e)) in
            record { args = args; is_object = refl; words = words; are_words = v; whole = same }
      ]
  render_command-IsCommand null cmd h = absurd (ground arith)
  render_command-IsCommand (boolean b) cmd h = absurd (ground arith)
  render_command-IsCommand (integer b) cmd h = absurd (ground arith)
  render_command-IsCommand (real b) cmd h = absurd (ground arith)
  render_command-IsCommand (str b) cmd h = absurd (ground arith)
  render_command-IsCommand (arr b) cmd h = absurd (ground arith)

  render_command_of_IsCommand :
      (captured_args : Json) (cmd : Text)
      → IsCommand match tmpl captured_args cmd
      → render_command match tmpl captured_args ≡ returned cmd
  unfolding render_command validate_captured_args
  render_command_of_IsCommand captured_args cmd v =
      rw
        (
          v.is_object,
          v.whole,
          words-error match tmpl.params v.args tmpl.argv v.words v.are_words,
          render_command,
        )
        (words-render match tmpl.params v.args tmpl.name tmpl.binary tmpl.argv v.words v.are_words)

  -- A command is rendered exactly when it is the binary followed, each after one space, by a word for
  -- every piece of the template: the piece itself, or the value given for its placeholder, which the
  -- regular expression of the placeholder matches. Every word is of the allowed characters, none of
  -- which is a blank, and is not empty.
  pub render_command_iff :
      (captured_args : Json) (cmd : Text)
      → (render_command match tmpl captured_args ≡ returned cmd)
        ↔ IsCommand match tmpl captured_args cmd
  render_command_iff captured_args cmd =
      (render_command-IsCommand captured_args cmd, render_command_of_IsCommand captured_args cmd)
