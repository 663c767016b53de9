-- ===== src/Grants/Requests.antt =====
-- A request either issues a grant, on all sides, or fails and leaves none.
use mathlib.Core.Path.{subst}
use server_mcp_bridge.Base.{
  ℕ, ◌≤◌, ◌<◌, ◌≡◌, ◌≢◌, refl, sym, ap, ◌∙◌, ◌⊎◌, inl, inr, Bool, true, false, ◌||◌, Option, none,
  some, List, [], ◌∷◌, arith, Text, text_eq, text_eq_iff, ℤ, pos, negsuc, ltℤ, eqℤ, eqℤ_iff,
  if◌then◌else◌, Bool-cases, ◌%◌,
}
use server_mcp_bridge.Json.{Json}
use server_mcp_bridge.Map
use server_mcp_bridge.Map.{Map}
use server_mcp_bridge.Crypto.Hex.{all-to_hex}
use server_mcp_bridge.GrantTemplate
use server_mcp_bridge.GrantTemplate.{GrantTemplate, spec_is_well_formed}
use server_mcp_bridge.Grants.{
  Grant, make_grantid, valid_grantid, Failure, message, helper_failed, Result, returned, threw,
  PrivHelper, GrantManager, RequestCall, request_spec,
}
use server_mcp_bridge.Grants.Operations.{
  without, was_killed, install_err, conclude_request, after_persist, persist_state_locked,
  issue_grant, new_grant, checked_spec, request_grant,
}
use server_mcp_bridge.Grants.Tables.{
  KeepsTable, Unchanged, HasDropIn, persist-KeepsTable, IsSaved, persist-IsSaved, ViaHelper,
  install-ViaHelper,
}

-- Every identifier drawn is a valid one.
pub valid_grantid-make_grantid : (rd : ℕ → ℕ) → valid_grantid (make_grantid rd) ≡ true
unfolding make_grantid
valid_grantid-make_grantid rd =
    all-to_hex
      (rd 0 % 256
        ∷ rd 1 % 256
        ∷ rd 2 % 256
        ∷ rd 3 % 256
        ∷ rd 4 % 256
        ∷ rd 5 % 256
        ∷ rd 6 % 256
        ∷ rd 7 % 256
        ∷ [])
      (below 0, (below 1, (below 2, (below 3, (below 4, (below 5, (below 6, (below 7, tt))))))))
  where
    below : (i : ℕ) → rd i % 256 < 256
    below i = omega arith

not_zero : (z : ℤ) → z ≢ pos 0 → eqℤ z (pos 0) ≡ false
not_zero z nonzero = elim (Bool-cases (eqℤ z (pos 0))) [
  | inl e ↦ absurd (nonzero ((eqℤ_iff z (pos 0)).0 e))
  | inr e ↦ e
]

module _ {W Call : Type 0} (dump : Json → Option Text) (h : PrivHelper W Call) where
  -- The grant is in the table and in the file, and its line is on disk.
  pub record IsIssued (g : Grant) (spec : Text) (s : GrantManager W)
      (r : Result Grant × GrantManager W) : Type 0 where
    pub result : r.0 ≡ returned g
    pub checked : spec_is_well_formed spec ≡ true
    pub table :
        (j : Text)
        → Map.find r.1.grants j ≡ (if text_eq g.grantid j then some g else Map.find s.grants j)
    pub drop_ins :
        (j : Text)
        → h.drop_in r.1.outside j
          ≡ (if text_eq g.grantid j then some spec else h.drop_in s.outside j)
    pub saved : IsSaved dump r.1

  -- What is left of drop-ins if a signal killed the helper once it had installed the line.
  pub record IsLeft (c : RequestCall Call) (rendered : GrantTemplate.Result) (grantid : Text)
      (w v : W) : Type 0 where
    pub cut : was_killed c.spawn ≡ true
    pub spec : Text
    pub is_spec : rendered ≡ GrantTemplate.returned spec
    pub checked : spec_is_well_formed spec ≡ true
    pub drop_ins :
        (j : Text) → h.drop_in v j ≡ (if text_eq grantid j then some spec else h.drop_in w j)

  -- The request threw. An entry is as it was, or had the identifier that was drawn and is gone; no
  -- drop-in differs, unless a signal killed the helper.
  pub record IsRefused (c : RequestCall Call) (rendered : GrantTemplate.Result) (grantid : Text)
      (s : GrantManager W) (r : Result Grant × GrantManager W) : Type 0 where
    pub failure : Failure
    pub result : r.0 ≡ threw failure
    pub table :
        (j : Text)
        → (Map.find r.1.grants j ≡ Map.find s.grants j)
          ⊎ ((grantid ≡ j) × (Map.find r.1.grants j ≡ none))
    pub drop_ins :
        ((j : Text) → h.drop_in r.1.outside j ≡ h.drop_in s.outside j)
        ⊎ IsLeft c rendered grantid s.outside r.1.outside

  abbrev pub Ends :
      (c : RequestCall Call) (g : Grant) (spec : Text) (s : GrantManager W)
      → Result Grant × GrantManager W
      → Type 0
  Ends c g spec s r = IsIssued g spec s r ⊎ IsRefused c (GrantTemplate.returned spec) g.grantid s r

  -- Adding an entry and erasing it again.
  undone :
      (g : Grant) (m m' : Map Grant) (j : Text)
      → m' ≡ Map.set m g.grantid g
      → (Map.find (Map.erase m' g.grantid) j ≡ Map.find m j)
        ⊎ ((g.grantid ≡ j) × (Map.find (Map.erase m' g.grantid) j ≡ none))
  undone g m m' j e = elim (Bool-cases (text_eq g.grantid j)) [
    | inl f ↦ inr ((text_eq_iff _ _).0 f, rw (Map.find-erase, f) refl)
    | inr f ↦ inl (rw (e, Map.find-erase, f, Map.find-set, f) refl)
  ]

  module _ (c : RequestCall Call) (g : Grant) (spec : Text) (s : GrantManager W)
      (checked : spec_is_well_formed spec ≡ true) where
    abbrev added : GrantManager W
    added = record s { grants = Map.set s.grants g.grantid g }

    left_lem :
        (w w' v v' : W)
        → w ≡ w'
        → v' ≡ v
        → Unchanged h w' v ⊎ ((was_killed c.spawn ≡ true) × HasDropIn h g.grantid (some spec) w' v)
        → Unchanged h w v' ⊎ IsLeft c (GrantTemplate.returned spec) g.grantid w v'
    left_lem w w' v v' e f (inl same) =
        inl (λ j. ap (λ x. h.drop_in x j) f ∙ same j ∙ ap (λ x. h.drop_in x j) (sym e))
    left_lem w w' v v' e f (inr (cut, files)) = inr (record {
      cut = cut;
      spec = spec;
      is_spec = refl;
      checked = checked;
      drop_ins = λ j.
          ap (λ x. h.drop_in x j) f
          ∙ files j
          ∙ ap (λ x. if text_eq g.grantid j then some spec else h.drop_in x j) (sym e);
    })

    helper-Ends :
        (s' : GrantManager W) (r : ℤ × GrantManager W)
        → KeepsTable added s'
        → IsSaved dump s'
        → ViaHelper h (was_killed c.spawn) g.grantid spec s' r
        → Ends c g spec s (conclude_request dump h c g r)
    helper-Ends s' r kept saved v = elim v.ends [
      | inl (ok, drop_ins) ↦
          let zero_code : eqℤ r.0 (pos 0) ≡ true = (eqℤ_iff r.0 (pos 0)).1 ok in
          rw zero_code (
            inl (record {
              result = refl;
              checked = checked;
              table = λ j.
                  ap (λ m. Map.find m j) (v.grants ∙ kept.grants)
                  ∙ Map.find-set s.grants g.grantid j g;
              drop_ins = λ j. rw kept.outside at (drop_ins j);
              saved = record {
                text = saved.text;
                dumped = rw v.grants saved.dumped;
                on_file = v.file ∙ saved.on_file;
              };
            }))
      | inr (nonzero, drop_ins) ↦
          let code : eqℤ r.0 (pos 0) ≡ false = not_zero r.0 nonzero in
          let again = persist-KeepsTable dump c.second_ending (without g.grantid r.1) in
          rw code (
            inr (record {
              failure = helper_failed r.0 (install_err c);
              result = refl;
              table =
                  λ j. rw again.grants (undone g s.grants r.1.grants j (v.grants ∙ kept.grants));
              drop_ins =
                  left_lem s.outside s'.outside r.1.outside _ (sym kept.outside) again.outside
                    drop_ins;
            }))
    ]

    persisted-Ends :
        (r : Option Failure × GrantManager W)
        → KeepsTable added r.1
        → (r.0 ≡ none → IsSaved dump r.1)
        → Ends c g spec s (after_persist dump h c g spec r)
    persisted-Ends (some what, s') kept saved = inr (record {
      failure = what;
      result = refl;
      table = λ j. undone g s.grants s'.grants j kept.grants;
      drop_ins = inl (λ j. ap (λ w. h.drop_in w j) kept.outside);
    })
    persisted-Ends (none, s') kept saved =
        helper-Ends s' _ kept (saved refl) (install-ViaHelper h dump c g.grantid spec s')

    issue_grant-Ends : Ends c g spec s (issue_grant dump h c g spec s)
    unfolding issue_grant
    issue_grant-Ends =
        persisted-Ends (persist_state_locked dump c.first_ending added)
          (persist-KeepsTable dump c.first_ending added) (persist-IsSaved dump c.first_ending added)

  -- A ttl of 1 to 86400 seconds, and the line that is rendered for it.
  pub record IsAllowed (ttl : ℤ) (rendered : GrantTemplate.Result) (spec : Text) : Type 0 where
    pub seconds : ℕ
    pub is_ttl : ttl ≡ pos seconds
    pub least : 1 ≤ seconds
    pub most : seconds ≤ 86_400
    pub is_spec : rendered ≡ GrantTemplate.returned spec

  bounds_lem :
      (ttl : ℤ)
      → (ltℤ ttl (pos 1) || ltℤ (pos 86400) ttl) ≡ false
      → (t : ℕ) × (ttl ≡ pos t) × (1 ≤ t) × (t ≤ 86_400)
  bounds_lem (pos t) e = (t, refl, ground (arith, e), ground (arith, e))
  bounds_lem (negsuc t) e = absurd (ground (arith, e))

  abbrev pub RequestEnds :
      (c : RequestCall Call) (g : Grant) (ttl : ℤ) (rendered : GrantTemplate.Result)
      (s : GrantManager W)
      → Result Grant × GrantManager W
      → Type 0
  RequestEnds c g ttl rendered s r =
      ((spec : Text) × IsAllowed ttl rendered spec × IsIssued g spec s r)
      ⊎ IsRefused c rendered g.grantid s r

  unchanged :
      (c : RequestCall Call) (rendered : GrantTemplate.Result) (id : Text) (f : Failure)
      (s : GrantManager W)
      → IsRefused c rendered id s (threw f, s)
  unchanged c rendered id f s = record {
    failure = f;
    result = refl;
    table = λ j. inl refl;
    drop_ins = inl (λ j. refl);
  }

  module _ (c : RequestCall Call) (g : Grant) (ttl : ℤ) (s : GrantManager W) (t : ℕ)
      (is_ttl : ttl ≡ pos t) (least : 1 ≤ t) (most : t ≤ 86_400) where
    allowed_Ends :
        (rendered : GrantTemplate.Result) (spec : Text) (r : Result Grant × GrantManager W)
        → rendered ≡ GrantTemplate.returned spec
        → Ends c g spec s r
        → RequestEnds c g ttl rendered s r
    allowed_Ends rendered spec r e (inr refused) =
        inr (subst (λ t. IsRefused c t g.grantid s r) (sym e) refused)
    allowed_Ends rendered spec r e (inl issued) = inl (
      spec,
      record { seconds = t; is_ttl = is_ttl; least = least; most = most; is_spec = e },
      issued,
    )

    checked_spec-RequestEnds :
        (rendered : GrantTemplate.Result)
        → RequestEnds c g ttl rendered s (checked_spec dump h c g rendered s)
    checked_spec-RequestEnds (GrantTemplate.threw what) =
        inr (unchanged c _ g.grantid (message what) s)
    checked_spec-RequestEnds (GrantTemplate.returned spec) =
        elim (Bool-cases (spec_is_well_formed spec)) [
          | inr e ↦ rw e (inr (unchanged c _ g.grantid _ s))
          | inl e ↦ rw e (
              allowed_Ends (GrantTemplate.returned spec) spec _ refl
                (issue_grant-Ends c g spec s e))
        ]

  -- A request returns its grant, with a ttl of 1 to 86400 seconds, a line that passed the check, an
  -- entry in the table and in the file, and a drop-in of that line. Or it throws, every entry is as it
  -- was, or is gone and had the identifier that was drawn, and no drop-in differs, unless a signal
  -- killed the helper: then the drop-in of that identifier may hold the checked line of the request.
  -- This holds for every clock, draw and end of a write, and whatever the helper answers.
  pub request_grant-RequestEnds :
      (match : (regex v : Text) → Option Bool) (templates : List GrantTemplate)
      (c : RequestCall Call) (shortid template_name : Text) (captured_args : Json) (ttl : ℤ)
      (s : GrantManager W)
      → RequestEnds c
          (new_grant c shortid template_name captured_args ttl)
          ttl
          (request_spec match templates shortid template_name captured_args)
          s
          (request_grant dump h match templates c shortid template_name captured_args ttl s)
  unfolding request_grant
  request_grant-RequestEnds match templates c shortid template_name captured_args ttl s =
      elim (Bool-cases (ltℤ ttl (pos 1) || ltℤ (pos 86400) ttl)) [
        | inl e ↦ rw e (inr (unchanged c _ (make_grantid c.rd) _ s))
        | inr e ↦
            let (t, is_ttl, least, most) = bounds_lem ttl e in
            rw e (
              checked_spec-RequestEnds c (new_grant c shortid template_name captured_args ttl) ttl s
                t is_ttl least most
                (request_spec match templates shortid template_name captured_args))
      ]
