-- ===== src/CronSyntax/Jobid.antt =====
-- The identifiers that the store draws are valid ones.
use server_mcp_bridge.Base.{ℕ, zero, suc, ◌*◌, ◌≡◌, refl, true, arith, length}
use server_mcp_bridge.Crypto.Sha256.{AreBytes}
use server_mcp_bridge.Crypto.Hex.{length-to_hex, all-to_hex}
use server_mcp_bridge.CronSyntax.{buf, make_jobid, valid_jobid}

length-buf : (rd : ℕ → ℕ) (i n : ℕ) → length (buf rd i n) ≡ n
length-buf rd i zero = refl
length-buf rd i (suc n) = omega (arith, length-buf rd (suc i) n)

buf-AreBytes : (rd : ℕ → ℕ) (i n : ℕ) → AreBytes (buf rd i n)
buf-AreBytes rd i zero = tt
buf-AreBytes rd i (suc n) = (omega arith, buf-AreBytes rd (suc i) n)

-- Whatever the random device returns, the identifier is 16 lowercase hexadecimal digits.
pub valid_jobid-make_jobid : (rd : ℕ → ℕ) (attempt : ℕ) → valid_jobid (make_jobid rd attempt) ≡ true
valid_jobid-make_jobid rd attempt =
    let bytes = buf rd (8 * attempt) 8 in
    ground (
      arith,
      length-to_hex bytes,
      length-buf rd (8 * attempt) 8,
      all-to_hex bytes (buf-AreBytes rd (8 * attempt) 8),
    )
