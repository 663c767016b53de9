-- ===== src/Priv/Guard.antt =====
-- Whatever is asked of the helper and whatever the calls answer, the sudoers that it manages pass its
-- check and visudo, and the files of others stay as they are.
use server_mcp_bridge.Base.{
  ◌≡◌, refl, sym, ◌∙◌, inl, inr, true, false, List, [], ◌∷◌, arith, Text, ℤ, pos, some,
}
use server_mcp_bridge.Map
use server_mcp_bridge.Map.{Map}
use server_mcp_bridge.Priv.{Machine, Answers}
use server_mcp_bridge.Priv.Spec.{spec_well_formed}
use server_mcp_bridge.Priv.Main.{priv_main}
use server_mcp_bridge.Priv.Changes.{is_active, is_managed, Changes, priv_main-Changes}

module _ (visudo : Text → ℤ) where
  -- One call after the other, each with its arguments and the answers that it gets.
  pub run_all : List (List Text × Answers) → Machine → Machine
  run_all [] m = m
  run_all ((args, a) ∷ calls) m = run_all calls (priv_main visudo a args m).machine

  -- Every drop-in that sudo reads and that the helper manages holds one line that passed the checks.
  abbrev pub IsGuarded : Map Text → Type 0
  IsGuarded dir =
      (name t : Text)
      → is_active name ≡ true
      → is_managed name ≡ true
      → Map.find dir name ≡ some t
      → (spec_well_formed t ≡ true) × (visudo t ≡ pos 0)

  changed_lem : (dir dir' : Map Text) → Changes visudo dir dir' → IsGuarded dir → IsGuarded dir'
  changed_lem dir dir' changes guarded name t active managed found = elim (changes name active) [
    | inl same ↦ guarded name t active managed (sym same ∙ found)
    | inr (m, checked) ↦ rw found at checked
  ]

  -- No sequence of calls, with any arguments and any answers of the system, puts a managed drop-in
  -- into the directory that fails the check of lines or visudo, if there was none before.
  pub run_all-IsGuarded :
      (calls : List (List Text × Answers)) (m : Machine)
      → IsGuarded m.sudoers
      → IsGuarded (run_all calls m).sudoers
  unfolding run_all
  run_all-IsGuarded [] m guarded = guarded
  run_all-IsGuarded ((args, a) ∷ calls) m guarded =
      run_all-IsGuarded calls (priv_main visudo a args m).machine
        (changed_lem m.sudoers _ (priv_main-Changes visudo a args m).changes guarded)

  -- Nor does it change a file of sudo that is not the helper's.
  pub run_all-foreign :
      (calls : List (List Text × Answers)) (m : Machine) (name : Text)
      → is_active name ≡ true
      → is_managed name ≡ false
      → Map.find (run_all calls m).sudoers name ≡ Map.find m.sudoers name
  unfolding run_all
  run_all-foreign [] m name active foreign = refl
  run_all-foreign ((args, a) ∷ calls) m name active foreign =
      let after = (priv_main visudo a args m).machine in
      run_all-foreign calls after name active foreign
      ∙ (elim ((priv_main-Changes visudo a args m).changes name active) [
        | inl same ↦ same
        | inr (managed, checked) ↦ absurd (ground (arith, managed, foreign))
      ])
