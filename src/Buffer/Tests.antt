-- ===== src/Buffer/Tests.antt =====
-- A buffer shown in hexadecimal.
use cqjs.Prelude.{none, some, [], ◌∷◌, codes, ◌≡◌, refl, arith}
use cqjs.Script.{array_buffer, c_str}
use cqjs.Encoding.Hex.Tests.{scanning, scanning-IsScan}
use cqjs.Buffer.{js_buffer_from, js_buffer_to_string}
use cqjs.Buffer.RoundTrip.{text_arg, text_of, js_buffer_from-to_string}

js_buffer_from-to_string_example :
    js_buffer_from scanning 0 (
      text_arg (
        text_of (
          js_buffer_to_string (
            record { buffer = some (0 ∷ 255 ∷ 38 ∷ []); text = none }
            ∷ text_arg (codes "hex")
            ∷ [])))
      ∷ text_arg (codes "hex")
      ∷ [])
    ≡ array_buffer (0 ∷ 255 ∷ 38 ∷ [])
unfolding c_str
js_buffer_from-to_string_example =
    js_buffer_from-to_string scanning 0 (λ s. s) scanning-IsScan (λ s h. refl) (codes "hex")
      (0 ∷ 255 ∷ 38 ∷ []) none (omega arith) tt
