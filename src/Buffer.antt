-- ===== src/Buffer.antt =====
-- Buffer (polyfill/buffer.c), on the list of the arguments. What `sscanf` reads in a hexadecimal text
-- is an argument, as for `hex_decode`.
pub mod RoundTrip
mod Tests
use cqjs.Prelude.{
  ℕ, Bool, true, false, Option, none, some, List, [], ◌∷◌, Bytes, codes, str_eq, if◌then◌else◌,
}
use cqjs.Script.{Arg, Reply, exception, boolean, string, array_buffer, c_str}
use cqjs.Encoding.Base64.{base64_encode, base64_decode}
use cqjs.Encoding.Hex.{hex_encode, hex_decode}
use cqjs.Encoding.Bindings.{plain_string}

encoding_text : Option Bytes → Bytes
encoding_text none = codes "utf8"
encoding_text (some s) = c_str s

-- The encoding that the arguments behind the first give.
unfoldable pub encoding_of : List Arg → Bytes
unfolding encoding_text
encoding_of [] = codes "utf8"
encoding_of (a ∷ others) = encoding_text a.text

module _ (scan : Bytes → Option ℕ) (val : ℕ) where
  unfoldable pub decoded : Bytes → Bytes → Bytes
  decoded encoding str =
      if str_eq encoding (codes "base64")
      then base64_decode str
      else if str_eq encoding (codes "hex")
      then hex_decode scan val str
      else str

  from_text : Option Bytes → List Arg → Reply
  unfolding decoded encoding_of
  from_text none others = exception
  from_text (some str) others = array_buffer (decoded (encoding_of others) str)

  -- A buffer is copied, a string is decoded.
  from_value : Option Bytes → Option Bytes → List Arg → Reply
  unfolding from_text
  from_value (some buf) text others = array_buffer buf
  from_value none text others = from_text text others

  pub js_buffer_from : List Arg → Reply
  unfolding from_value
  js_buffer_from [] = array_buffer []
  js_buffer_from (a ∷ others) = from_value a.buffer a.text others

is_buffer : Option Bytes → Bool
is_buffer none = false
is_buffer (some buf) = true

pub js_buffer_is_buffer : List Arg → Reply
unfolding is_buffer
js_buffer_is_buffer [] = boolean false
js_buffer_is_buffer (a ∷ others) = boolean (is_buffer a.buffer)

unfoldable pub encoded : Bytes → Bytes → Bytes
encoded encoding buf =
    if str_eq encoding (codes "base64")
    then base64_encode buf
    else if str_eq encoding (codes "hex")
    then hex_encode buf
    else buf

buffer_string : Option Bytes → Option Bytes → List Arg → Reply
unfolding encoded encoding_of
buffer_string none text others = plain_string text
buffer_string (some buf) text others = string (encoded (encoding_of others) buf)

pub js_buffer_to_string : List Arg → Reply
unfolding buffer_string
js_buffer_to_string [] = string []
js_buffer_to_string (a ∷ others) = buffer_string a.buffer a.text others
