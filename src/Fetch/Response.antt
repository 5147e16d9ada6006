-- ===== src/Fetch/Response.antt =====
-- The response that a fetch resolves to (polyfill/fetch.c). An object is the list of its own properties;
-- what the engine finds behind them, on the prototype, is an argument.
pub mod Lookup
use cqjs.Prelude.{
  ℕ, Bool, true, false, not, ◌&&◌, Option, none, some, List, [], ◌∷◌, Bytes, codes, leb, ltb,
  str_eq, if◌then◌else◌,
}
use cqjs.Script.{
  Arg, Reply, undefined, null, exception, boolean, string, array_buffer, function, resolved,
  rejected, c_str, lowercase,
}
use cqjs.Fetch.{HeaderPair, FetchEntry}

abbrev pub Object : Type 0
Object = List (Bytes × Reply)

-- JS_SetPropertyStr: a property that is there is overwritten.
unfoldable pub set_property : Object → Bytes → Reply → Object
set_property [] key v = (key, v) ∷ []
set_property ((k, w) ∷ ps) key v =
    let rest = set_property ps key v in if str_eq k key then (k, v) ∷ ps else (k, w) ∷ rest

-- JS_GetPropertyStr
unfoldable pub get_property : (Bytes → Reply) → Object → Bytes → Reply
get_property proto [] key = proto key
get_property proto ((k, w) ∷ ps) key =
    let rest = get_property proto ps key in if str_eq k key then w else rest

or_null : Reply → Reply
or_null undefined = null
or_null v = v

get_value : (Bytes → Reply) → Object → Option Bytes → Reply
unfolding or_null
get_value proto this none = exception
get_value proto this (some key) = or_null (get_property proto this (lowercase (c_str key)))

pub js_headers_get : (Bytes → Reply) → Object → List Arg → Reply
unfolding get_value
js_headers_get proto this [] = null
js_headers_get proto this (a ∷ others) = get_value proto this a.text

is_undefined : Reply → Bool
is_undefined undefined = true
is_undefined _ = false

has_value : (Bytes → Reply) → Object → Option Bytes → Reply
unfolding is_undefined
has_value proto this none = exception
has_value proto this (some key) =
    boolean (not (is_undefined (get_property proto this (lowercase (c_str key)))))

pub js_headers_has : (Bytes → Reply) → Object → List Arg → Reply
unfolding has_value
js_headers_has proto this [] = boolean false
js_headers_has proto this (a ∷ others) = has_value proto this a.text

-- `body` is the property "__body" as a string.
pub record Response : Type 0 where
  pub ok : Bool
  pub status : ℕ
  pub status_text : Bytes
  pub url : Bytes
  pub headers : Object
  pub body : Bytes

pub set_headers : Object → List HeaderPair → Object
set_headers headers [] = headers
set_headers headers (h ∷ hs) = set_headers (set_property headers h.key (string h.value)) hs

pub headers_object : List HeaderPair → Object
headers_object hs =
    set_property (set_property (set_headers [] hs) (codes "get") (function (codes "get")))
      (codes "has") (function (codes "has"))

unfoldable pub text_or : Bytes → Option Bytes → Bytes
text_or d none = d
text_or d (some s) = s

unfoldable pub build_response_object : FetchEntry → Response
unfolding headers_object text_or
build_response_object e = record {
  ok = leb 200 e.status_code && ltb e.status_code 300;
  status = e.status_code;
  status_text = text_or [] e.status_text;
  url = e.url;
  headers = headers_object e.response_headers;
  body = text_or [] e.response_body;
}

-- `body` is what `JS_ToCStringLen` gives for "__body".
pub js_resp_text : Option Bytes → Reply
js_resp_text none = resolved (string [])
js_resp_text (some body) = resolved (string (c_str body))

json_result : Option Reply → Reply
json_result none = rejected (codes "json parse error")
json_result (some v) = resolved v

-- What the engine reads in a JSON text is an argument, `none` for an exception.
pub js_resp_json : (Bytes → Option Reply) → Option Bytes → Reply
unfolding json_result
js_resp_json parse none = rejected (codes "empty body")
js_resp_json parse (some body) = json_result (parse (c_str body))

pub js_resp_array_buffer : Option Bytes → Reply
js_resp_array_buffer none = resolved (array_buffer [])
js_resp_array_buffer (some body) = resolved (array_buffer body)
