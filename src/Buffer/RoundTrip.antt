-- ===== src/Buffer/RoundTrip.antt =====
-- A buffer that is made of the text of a buffer, in the same encoding.
use cqjs.Prelude.{
  ℕ, ◌/◌, ◌%◌, ◌<◌, Bool-cases, Option, none, some, List, [], ◌∷◌, map, All, All-append, Bytes,
  AreBytes, codes, ltb, str_eq, if◌then◌else◌, all_below_sound, ◌≡◌, inl, inr, refl, ap, ◌∙◌, arith,
}
use cqjs.Format.{hex_digit_plain}
use cqjs.Script.{Arg, Reply, string, array_buffer, c_str}
use cqjs.Encoding.Base64.{base64_encode}
use cqjs.Encoding.Base64.Sextets.{b64_char, sextets, padding, sextets-lt, encode-sextets}
use cqjs.Encoding.Base64.RoundTrip.{IsFaithful, decode-encode_iff}
use cqjs.Encoding.Hex.{hex_encode, IsScan, hex_decode-hex_encode}
use cqjs.Buffer.{
  encoding_of, encoding_text, encoded, decoded, from_text, from_value, buffer_string,
  js_buffer_from, js_buffer_to_string,
}

abbrev pub IsAscii : Bytes → Type 0
IsAscii = All (λ c. c < 128)

hex_encode-IsAscii : (xs : Bytes) → AreBytes xs → IsAscii (hex_encode xs)
unfolding hex_encode
hex_encode-IsAscii [] h = tt
hex_encode-IsAscii (b ∷ xs) (hb, h) =
    let (low0, low) = hex_digit_plain (b / 16) (omega arith) in
    let (high0, high) = hex_digit_plain (b % 16) (omega arith) in
    (omega arith, (omega arith, hex_encode-IsAscii xs h))

chars-IsAscii : (ss : List ℕ) → All (λ s. s < 64) ss → IsAscii (map b64_char ss)
chars-IsAscii [] h = tt
chars-IsAscii (s ∷ ss) (hs, h) =
    (ground (arith, all_below_sound 64 (λ s. ltb (b64_char s) 128) s refl hs), chars-IsAscii ss h)

padding-IsAscii : (xs : Bytes) → IsAscii (padding xs)
unfolding padding
padding-IsAscii [] = tt
padding-IsAscii (a ∷ []) = omega arith
padding-IsAscii (a ∷ b ∷ []) = omega arith
padding-IsAscii (a ∷ b ∷ c ∷ r) = padding-IsAscii r

base64_encode-IsAscii : (xs : Bytes) → AreBytes xs → IsAscii (base64_encode xs)
base64_encode-IsAscii xs h = rw (encode-sextets xs h) (
    All-append (λ c. c < 128) (map b64_char (sextets xs)) (padding xs)
      (chars-IsAscii (sextets xs) (sextets-lt xs h)) (padding-IsAscii xs))

-- The bytes that an encoding can show: for base64 the decoder's table must have the characters that are
-- used, and what is no encoding shows the bytes themselves.
abbrev pub IsShown : Bytes → Bytes → Type 0
IsShown encoding xs =
    if str_eq encoding (codes "base64")
    then All IsFaithful (base64_encode xs)
    else if str_eq encoding (codes "hex")
    then Unit
    else IsAscii xs

module _ (scan : Bytes → Option ℕ) (val : ℕ) (reads : IsScan scan) where
  encoded-decoded :
      (encoding xs : Bytes)
      → AreBytes xs
      → IsShown encoding xs
      → IsAscii (encoded encoding xs) × (decoded scan val encoding (encoded encoding xs) ≡ xs)
  unfolding encoded decoded
  encoded-decoded encoding xs bytes shown = elim (Bool-cases (str_eq encoding (codes "base64"))) [
    | inl b ↦ rw b (base64_encode-IsAscii xs bytes, (decode-encode_iff xs bytes).1 (rw b at shown))
    | inr b ↦ elim (Bool-cases (str_eq encoding (codes "hex"))) [
      | inl h ↦
          rw (b, h) (hex_encode-IsAscii xs bytes, hex_decode-hex_encode scan val xs reads bytes)
      | inr h ↦ rw (b, h) (rw (b, h) at shown, refl)
    ]
  ]

abbrev pub text_arg : Bytes → Arg
text_arg s = record { buffer = none; text = some s }

-- The text of a string that is returned.
abbrev pub text_of : Reply → Bytes
text_of (string s) = s
text_of _ = []

-- If sscanf reads two hexadecimal digits as their value, and a script's strings keep texts of ASCII
-- characters, then Buffer.from of the text that toString gives for a buffer, with the same encoding, is a
-- buffer with the same bytes, provided that the encoding can show them.
pub js_buffer_from-to_string :
    (scan : Bytes → Option ℕ) (val : ℕ) (recode : Bytes → Bytes)
    → IsScan scan
    → ((s : Bytes) → IsAscii s → recode s ≡ s)
    → (encoding xs : Bytes) (t : Option Bytes) → AreBytes xs
    → IsShown (c_str encoding) xs
    → js_buffer_from scan val (
        text_arg (
          recode (
            text_of (
              js_buffer_to_string
                (record { buffer = some xs; text = t } ∷ text_arg encoding ∷ []))))
        ∷ text_arg encoding
        ∷ [])
      ≡ array_buffer xs
unfolding js_buffer_from js_buffer_to_string from_value from_text buffer_string encoding_of
    encoding_text
js_buffer_from-to_string scan val recode reads keeps encoding xs t bytes shown =
    let (ascii, back) = encoded-decoded scan val reads (c_str encoding) xs bytes shown in
    ap (λ s. array_buffer (decoded scan val (c_str encoding) s))
      (keeps (encoded (c_str encoding) xs) ascii)
    ∙ ap array_buffer back
