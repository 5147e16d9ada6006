-- ===== src/Fetch/Request.antt =====
-- fetch() as a script calls it (polyfill/fetch.c): the entry that is put at the head of the list. The
-- worker that is started is in Transfer.
use cqjs.Prelude.{Bool, false, Option, none, some, List, [], ◌∷◌, ℕ, Bytes, codes}
use cqjs.Script.{Arg, Reply, exception, type_error, pending, c_str, uppercase}
use cqjs.Fetch.{HeaderPair, FetchEntry}

-- The second argument, if it is an object. A property that is undefined or null is `none`; of the others
-- stands what `JS_ToCString` gives. The headers are the names and values of an object's properties.
pub record FetchOptions : Type 0 where
  pub method : Option (Option Bytes)
  pub body : Option (Option Bytes)
  pub headers : Option (List (Option Bytes × Option Bytes))

-- The list from `head` on, and the answer.
pub record Called : Type 0 where
  pub entries : List FetchEntry
  pub reply : Reply

method_text : Option (Option Bytes) → Bytes
method_text (some (some m)) = uppercase (c_str m)
method_text (some none) = codes "GET"
method_text none = codes "GET"

body_text : Option (Option Bytes) → Option Bytes
body_text (some (some b)) = some (c_str b)
body_text (some none) = none
body_text none = none

-- A header whose name or value is no string is left out.
header_pairs : List (Option Bytes × Option Bytes) → List HeaderPair
header_pairs [] = []
header_pairs ((some k, some v) ∷ hs) = record { key = c_str k; value = c_str v } ∷ header_pairs hs
header_pairs ((some k, none) ∷ hs) = header_pairs hs
header_pairs ((none, v) ∷ hs) = header_pairs hs

headers_text : Option (List (Option Bytes × Option Bytes)) → List HeaderPair
unfolding header_pairs
headers_text none = []
headers_text (some hs) = header_pairs hs

no_options : FetchOptions
no_options = record { method = none; body = none; headers = none }

options_or : Option FetchOptions → FetchOptions
unfolding no_options
options_or none = no_options
options_or (some o) = o

unfoldable pub new_entry : ℕ → Bytes → FetchOptions → FetchEntry
unfolding method_text body_text headers_text
new_entry promise url o = record {
  url = c_str url;
  method = method_text o.method;
  body = body_text o.body;
  headers = headers_text o.headers;
  promise = promise;
  completed = false;
  is_error = false;
  status_code = 0;
  status_text = none;
  response_body = none;
  response_headers = [];
  error_msg = none;
}

fetch_url : ℕ → List FetchEntry → Option Bytes → Option FetchOptions → Called
unfolding options_or
fetch_url promise entries none o = record { entries = entries; reply = exception }
fetch_url promise entries (some url) o = record {
  entries = new_entry promise url (options_or o) ∷ entries;
  reply = pending promise;
}

too_few : List FetchEntry → Called
too_few entries = record {
  entries = entries;
  reply = type_error (codes "fetch requires at least 1 argument");
}

-- The first argument is `none` if there is no argument; `promise` is the number of the promise that is
-- made. Without a manager there is no list, and so no fetch.
pub js_fetch : ℕ → Bool → List FetchEntry → Option Arg → Option FetchOptions → Called
unfolding fetch_url too_few
js_fetch promise false entries url o = too_few entries
js_fetch promise Bool.true entries none o = too_few entries
js_fetch promise Bool.true entries (some url) o = fetch_url promise entries url.text o
