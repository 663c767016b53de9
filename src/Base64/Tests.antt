-- ===== src/Base64/Tests.antt =====
-- Runs of the encoder and the decoder, and instances of the theorems.
use server_mcp_bridge.Base.{◌≡◌, refl, none, some, [], ◌∷◌, arith, Text, codes}
use server_mcp_bridge.Crypto.Sha256.{AreBytes}
use server_mcp_bridge.Base64.{base64_encode, failed, decode_into, base64_decode}
use server_mcp_bridge.Base64.Trip.{base64_decode-base64_encode}
use server_mcp_bridge.Base64.Bounds.{FitsBuffer, written_to, decode_into-FitsBuffer}

encode_runs : base64_encode (codes "light w") ≡ codes "bGlnaHQgdw=="
unfolding base64_encode
encode_runs = refl

decode_runs : base64_decode 4096 (codes "bGlnaHQg\ndw==") ≡ some (codes "light w")
unfolding base64_decode
decode_runs = refl

small_buffer : base64_decode 6 (codes "bGlnaHQgdw==") ≡ none
unfolding base64_decode
small_buffer = refl

incomplete : base64_decode 4096 (codes "bGlnaH") ≡ none
unfolding base64_decode
incomplete = refl

abbrev body : Text
body = 0 ∷ 255 ∷ 16 ∷ 128 ∷ []

body-AreBytes : AreBytes body
body-AreBytes = (omega arith, (omega arith, (omega arith, (omega arith, tt))))

base64_decode-base64_encode_example : base64_decode 4 (base64_encode body) ≡ some body
base64_decode-base64_encode_example = base64_decode-base64_encode 4 body body-AreBytes (omega arith)

-- A text that is refused for its fourth byte: three stand in the buffer.
refused_run : decode_into 3 (codes "bGlnaA==") ≡ failed (codes "lig")
unfolding decode_into
refused_run = refl

decode_into-FitsBuffer_example : FitsBuffer 3 (written_to (decode_into 3 (codes "bGlnaA==")))
decode_into-FitsBuffer_example = decode_into-FitsBuffer 3 (codes "bGlnaA==")
