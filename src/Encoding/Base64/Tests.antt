-- ===== src/Encoding/Base64/Tests.antt =====
-- Concrete texts for the base64 functions.
use cqjs.Prelude.{[], ◌∷◌, All, ◌≡◌, ◌↔◌, arith}
use cqjs.Encoding.Base64.{base64_encode, base64_decode}
use cqjs.Encoding.Base64.RoundTrip.{IsFaithful, decode-encode_iff}

decode-encode_iff_example :
    (base64_decode (base64_encode (0xff ∷ 7 ∷ 0x3c ∷ 0xf4 ∷ [])) ≡ 0xff ∷ 7 ∷ 0x3c ∷ 0xf4 ∷ [])
    ↔ All IsFaithful (base64_encode (0xff ∷ 7 ∷ 0x3c ∷ 0xf4 ∷ []))
decode-encode_iff_example = decode-encode_iff (0xff ∷ 7 ∷ 0x3c ∷ 0xf4 ∷ []) (omega arith)
