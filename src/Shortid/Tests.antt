-- ===== src/Shortid/Tests.antt =====
-- Identifiers of concrete bytes.
use server_mcp_bridge.Base.{ℕ, ◌%◌, ◌*◌, ◌≡◌, refl, arith, codes}
use server_mcp_bridge.Shortid.{make_shortid}
use server_mcp_bridge.Shortid.Letters.{DrawsBytes}

abbrev raw : ℕ → ℕ
raw i = i * 77 % 256

raw-DrawsBytes : DrawsBytes raw
raw-DrawsBytes i = omega arith

spelled_run : make_shortid raw ≡ codes "abgzvzzu"
unfolding make_shortid
spelled_run = refl
