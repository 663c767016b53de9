-- ===== src/Schtasks/Tests.antt =====
-- Translations of concrete expressions.
use server_mcp_bridge.Base.{◌≡◌, ◌↔◌, refl, List, [], ◌∷◌, Text, codes}
use server_mcp_bridge.Schtasks.{args, star, translate, split_fields, split_from}
use server_mcp_bridge.Schtasks.Shapes.{Shape}
use server_mcp_bridge.Schtasks.Translated.{translate_iff}

weekly_run :
    translate (codes "30 9 * * 1")
    ≡ args
        (codes "/SC" ∷ codes "WEEKLY" ∷ codes "/D" ∷ codes "MON" ∷ codes "/ST" ∷ codes "09:30" ∷ [])
unfolding translate
weekly_run = refl

step_run :
    translate (codes "*/45 * * * *")
    ≡ args (codes "/SC" ∷ codes "MINUTE" ∷ codes "/MO" ∷ codes "45" ∷ [])
unfolding translate
step_run = refl

five_fields :
    split_fields (codes "30 9 * * 1") ≡ codes "30" ∷ codes "9" ∷ star ∷ star ∷ codes "1" ∷ []
unfolding split_from
five_fields = refl

abbrev monday : List Text
monday = codes "/SC" ∷ codes "WEEKLY" ∷ codes "/D" ∷ codes "MON" ∷ codes "/ST" ∷ codes "09:30" ∷ []

translate_iff_example :
    (translate (codes "30 9 * * 1") ≡ args monday)
    ↔ ((star ≡ star) × Shape (codes "30") (codes "9") star (codes "1") monday)
translate_iff_example =
    translate_iff (codes "30 9 * * 1") (codes "30") (codes "9") star star (codes "1") monday
      five_fields
