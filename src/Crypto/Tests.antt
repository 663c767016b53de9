-- ===== src/Crypto/Tests.antt =====
-- The digests at concrete inputs.
use server_mcp_bridge.Base.{◌≡◌, codes, text_eq}
use server_mcp_bridge.Crypto.{constant_time_equal}
use server_mcp_bridge.Crypto.Compare.{constant_time_equal-eq-text_eq}

constant_time_equal-eq-text_eq_example :
    constant_time_equal (codes "ab") (codes "ac") ≡ text_eq (codes "ab") (codes "ac")
constant_time_equal-eq-text_eq_example = constant_time_equal-eq-text_eq (codes "ab") (codes "ac")
