-- ===== src/Encoding/Bindings.antt =====
-- atob, btoa, TextEncoder and TextDecoder (polyfill/encoding.c), on the list of their arguments.
use cqjs.Prelude.{Option, none, some, List, [], ◌∷◌, Bytes, codes}
use cqjs.Script.{Arg, Reply, exception, type_error, string, array_buffer, c_str}
use cqjs.Encoding.Base64.{base64_encode, base64_decode}

atob_text : Option Bytes → Reply
atob_text none = exception
atob_text (some encoded) = string (base64_decode (c_str encoded))

pub js_atob : List Arg → Reply
unfolding atob_text
js_atob [] = type_error (codes "atob requires 1 argument")
js_atob (a ∷ others) = atob_text a.text

btoa_text : Option Bytes → Reply
btoa_text none = exception
btoa_text (some str) = string (base64_encode str)

pub js_btoa : List Arg → Reply
unfolding btoa_text
js_btoa [] = type_error (codes "btoa requires 1 argument")
js_btoa (a ∷ others) = btoa_text a.text

encode_text : Option Bytes → Reply
encode_text none = exception
encode_text (some str) = array_buffer str

pub js_text_encoder_encode : List Arg → Reply
unfolding encode_text
js_text_encoder_encode [] = array_buffer []
js_text_encoder_encode (a ∷ others) = encode_text a.text

-- An argument that is no buffer is taken as a string.
unfoldable pub plain_string : Option Bytes → Reply
plain_string none = string []
plain_string (some str) = string (c_str str)

decode_buffer : Option Bytes → Option Bytes → Reply
unfolding plain_string
decode_buffer (some buf) text = string buf
decode_buffer none text = plain_string text

pub js_text_decoder_decode : List Arg → Reply
unfolding decode_buffer
js_text_decoder_decode [] = string []
js_text_decoder_decode (a ∷ others) = decode_buffer a.buffer a.text
