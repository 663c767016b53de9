-- ===== src/Priv/Writes.antt =====
-- The loops over `write`: they end, with all of the buffer written or with an error.
use server_mcp_bridge.Base.{
  ℕ, zero, suc, ◌≤◌, ◌≡◌, refl, sym, ap, ◌∙◌, ◌⊎◌, inl, inr, Option, [], ◌∷◌, ◌++◌, arith, Text,
  length, length-drop, append-take-drop, append-empty, append_assoc, take, drop, Option-cases,
}
use server_mcp_bridge.Priv.Sudoers.{Written, wrote, write_failed, write_loop}

-- An error, or the file with all that was left of the buffer.
abbrev pub Writes : (file : Text) → Written → Type 0
Writes file w = (w ≡ wrote file) ⊎ ((part : Text) × (w ≡ write_failed part))

-- As many calls as there are bytes are enough, whatever the calls answer.
pub write_loop-Writes :
    (write : ℕ → Option ℕ) (fuel call : ℕ) (left file : Text)
    → length left ≤ fuel
    → Writes (file ++ left) (write_loop write fuel call left file)
unfolding write_loop
write_loop-Writes write fuel call [] file enough = inl (ap wrote (sym (append-empty file)))
write_loop-Writes write zero call (c ∷ left) file enough = absurd (omega (arith, enough))
write_loop-Writes write (suc fuel) call (c ∷ left) file enough = elim (Option-cases (write call)) [
  | inl e ↦ inr (file, rw (e, write_loop) refl)
  | inr (w, e) ↦
      let written : Text = take (suc w) (c ∷ left) in
      let left' : Text = drop (suc w) (c ∷ left) in
      let rest : Writes ((file ++ written) ++ left')
          (write_loop write fuel (suc call) left' (file ++ written)) =
        write_loop-Writes write fuel (suc call) left' (file ++ written)
          (omega (arith, length-drop w left, enough)) in
      let whole : (file ++ written) ++ left' ≡ file ++ c ∷ left =
        append_assoc file written left'
        ∙ ap (λ t. file ++ t) (append-take-drop (suc w) (c ∷ left)) in
      rw (e, write_loop) (rw whole at rest)
]
