-- ===== src/Grants/Histories.antt =====
-- Every operation keeps the entries under their own valid identifiers, and each entry with a drop-in.
use server_mcp_bridge.Base.{
  ℕ, suc, ◌≡◌, sym, ◌∙◌, inl, inr, true, false, not, ◌&&◌, Option, none, some, List, [], ◌∷◌, arith,
  Text, text_eq, text_eq_iff, ℤ, if◌then◌else◌, Bool-cases, Option-cases,
}
use server_mcp_bridge.Json.{Json, null, arr, obj, Items, nil, cons}
use server_mcp_bridge.Map
use server_mcp_bridge.Map.{Map}
use server_mcp_bridge.GrantTemplate
use server_mcp_bridge.Grants.{
  Grant, valid_grantid, Result, PrivHelper, GrantManager, RevokeCall, RequestCall,
}
use server_mcp_bridge.Grants.Operations.{revoke_grant, revoke_each}
use server_mcp_bridge.Grants.Loads.{
  load_grants, load_grants_doc, parsed_file, load_state_locked, read_grant,
}
use server_mcp_bridge.Grants.Requests.{IsIssued, IsRefused}
use server_mcp_bridge.Grants.Sweeps.{IsFiled, revoke_grant-find, revoke_grant-drop_in}

put_grant-IsFiled :
    (grants : Map Grant) (g : Grant)
    → IsFiled grants
    → IsFiled (if not (valid_grantid g.grantid) then grants else Map.set grants g.grantid g)
put_grant-IsFiled grants g filed = elim (Bool-cases (valid_grantid g.grantid)) [
  | inr e ↦ rw e filed
  | inl e ↦ rw e (λ j k found. elim (Bool-cases (text_eq g.grantid j)) [
    | inr f ↦ filed j k (ground (arith, Map.find-set grants g.grantid j g, found, f))
    | inl f ↦
        let same : g.grantid ≡ j = (text_eq_iff g.grantid j).0 f in
        let new : g ≡ k = ground (arith, Map.find-set grants g.grantid j g, found, f) in
        (rw (← new) same, rw (← same) e)
  ])
]

module _ (truncate : Text → ℤ) where
  load_grants-IsFiled :
      (items : Items) (grants : Map Grant)
      → IsFiled grants
      → IsFiled (load_grants truncate items grants).1
  unfolding load_grants
  load_grants-IsFiled nil grants filed = filed
  load_grants-IsFiled (cons (obj g) items) grants filed =
      elim (Option-cases (read_grant truncate g)) [
        | inl e ↦ rw (e, load_grants) filed
        | inr (k, e) ↦
            rw (e, load_grants) (load_grants-IsFiled items _ (put_grant-IsFiled grants k filed))
      ]
  load_grants-IsFiled (cons null items) grants filed = load_grants-IsFiled items grants filed
  load_grants-IsFiled (cons _ items) grants filed = load_grants-IsFiled items grants filed

  load_doc-IsFiled :
      (doc : Option Json) (grants : Map Grant)
      → IsFiled grants
      → IsFiled (load_grants_doc truncate doc grants).1
  load_doc-IsFiled none grants filed = filed
  load_doc-IsFiled (some (arr items)) grants filed = load_grants-IsFiled items grants filed
  load_doc-IsFiled (some _) grants filed = filed

-- Whatever the file holds, loading it files every grant under its own identifier, a valid one.
pub load_state_locked-IsFiled :
    {W : Type 0} (parse : Text → Option Json) (truncate : Text → ℤ) (s : GrantManager W)
    → IsFiled s.grants
    → IsFiled (load_state_locked parse truncate s).1.grants
unfolding load_state_locked
load_state_locked-IsFiled parse truncate s filed =
    load_doc-IsFiled truncate (parsed_file parse truncate s.file) s.grants filed

module _ {W Call : Type 0} (dump : Json → Option Text) (h : PrivHelper W Call) where
  -- The entries are filed, and each has a drop-in.
  pub record IsBacked (s : GrantManager W) : Type 0 where
    pub filed : IsFiled s.grants
    pub backed :
        (id : Text) (g : Grant)
        → Map.find s.grants id ≡ some g
        → (t : Text) × (h.drop_in s.outside id ≡ some t)

  -- Each entry that is left was there, and its drop-in has not changed.
  abbrev Keeps : (s s' : GrantManager W) → Type 0
  Keeps s s' =
      (j : Text) (g : Grant)
      → Map.find s'.grants j ≡ some g
      → (Map.find s.grants j ≡ some g) × (h.drop_in s'.outside j ≡ h.drop_in s.outside j)

  keeps_lem : (s s' : GrantManager W) → Keeps s s' → IsBacked s → IsBacked s'
  keeps_lem s s' keeps b = record {
    filed = λ j g found. b.filed j g (keeps j g found).0;
    backed =
        λ j g found. let (t, e) = b.backed j g (keeps j g found).0 in (t, (keeps j g found).1 ∙ e);
  }

  pub revoke_grant-IsBacked :
      (c : RevokeCall Call) (grantid : Text) (s : GrantManager W)
      → IsBacked s
      → IsBacked (revoke_grant dump h c grantid s).1
  revoke_grant-IsBacked c grantid s b = keeps_lem s (revoke_grant dump h c grantid s).1 keeps b
    where
      was :
          (j : Text) (g : Grant)
          → Map.find (revoke_grant dump h c grantid s).1.grants j ≡ some g
          → (Map.find s.grants j ≡ some g) × ((text_eq grantid j && valid_grantid grantid) ≡ false)
      was j g found = ground (arith, revoke_grant-find dump h c grantid s j, found)

      keeps : Keeps s (revoke_grant dump h c grantid s).1
      keeps j g found =
          let (old, other) = was j g found in
          elim (revoke_grant-drop_in dump h c grantid s j) [
            | inl same ↦ (old, same)
            | inr (same, gone) ↦
                let valid : valid_grantid grantid ≡ true = rw same (b.filed j g old).1 in
                absurd (ground (arith, other, valid, (text_eq_iff grantid j).1 same))
          ]

  pub revoke_each-IsBacked :
      (calls : ℕ → RevokeCall Call) (i : ℕ) (ids : List Text) (s : GrantManager W)
      → IsBacked s
      → IsBacked (revoke_each dump h calls i ids s)
  unfolding revoke_each
  revoke_each-IsBacked calls i [] s b = b
  revoke_each-IsBacked calls i (id ∷ ids) s b =
      revoke_each-IsBacked calls (suc i) ids _ (revoke_grant-IsBacked (calls i) id s b)

  pub issued-IsBacked :
      (g : Grant) (spec : Text) (s : GrantManager W) (r : Result Grant × GrantManager W)
      → valid_grantid g.grantid ≡ true
      → IsIssued dump h g spec s r
      → IsBacked s
      → IsBacked r.1
  issued-IsBacked g spec s r valid i b = record {
    filed = λ j k found. elim (Bool-cases (text_eq g.grantid j)) [
      | inr e ↦ b.filed j k (sym (rw e at (i.table j)) ∙ found)
      | inl e ↦
          let same : g.grantid ≡ j = (text_eq_iff g.grantid j).0 e in
          let new : g ≡ k = ground (arith, rw e at (i.table j), found) in
          (rw (← new) same, rw (← same) valid)
    ];
    backed = λ j k found. elim (Bool-cases (text_eq g.grantid j)) [
      | inl e ↦ (spec, rw e at (i.drop_ins j))
      | inr e ↦
          let (t, old) = b.backed j k (sym (rw e at (i.table j)) ∙ found) in
          (t, (rw e at (i.drop_ins j)) ∙ old)
    ];
  }

  pub refused-IsBacked :
      (c : RequestCall Call) (rendered : GrantTemplate.Result) (grantid : Text) (s : GrantManager W)
      (r : Result Grant × GrantManager W)
      → IsRefused dump h c rendered grantid s r
      → IsBacked s
      → IsBacked r.1
  refused-IsBacked c rendered grantid s r x b = record {
    filed = λ j g found. b.filed j g (was j g found);
    backed = λ j g found.
        let (t, old) = b.backed j g (was j g found) in
        elim x.drop_ins [
          | inl same ↦ (t, same j ∙ old)
          | inr left ↦ elim (Bool-cases (text_eq grantid j)) [
            | inl e ↦ (left.spec, rw e at (left.drop_ins j))
            | inr e ↦ (t, (rw e at (left.drop_ins j)) ∙ old)
          ]
        ];
  }
    where
      was : (j : Text) (g : Grant) → Map.find r.1.grants j ≡ some g → Map.find s.grants j ≡ some g
      was j g found = elim (x.table j) [
        | inl same ↦ sym same ∙ found
        | inr (same, gone) ↦ absurd (ground (arith, sym gone ∙ found))
      ]
