-- ===== src/Fetch/Transfer.antt =====
-- The worker of a fetch (polyfill/fetch.c): the options that it sets, and what it makes of the answer.
pub mod Outcome
use cqjs.Prelude.{
  ℕ, zero, suc, ◌+◌, ◌*◌, ◌^◌, ◌<◌, ◌≤◌, Bool, true, false, ◌||◌, Option, none, some, List, [], ◌∷◌,
  ◌++◌, map, length, take, Bytes, codes, ltb, leb, ◌==◌, str_eq, if◌then◌else◌, ◌≡◌, refl, arith,
}
use cqjs.Format.Decimal.{decimal}
use cqjs.Script.{c_str}
use cqjs.Fetch.{HeaderPair, FetchEntry}
use cqjs.Fetch.Header.{HeaderBuf, curl_header_cb}

-- The body that is received: `len` is the length of `data`.
pub record CurlBuf : Type 0 where
  pub content : Bytes
  pub cap : ℕ

-- `while (need >= cap) cap = cap ? cap * 2 : 4096`; `none` means that the fuel ran out.
pub grow : ℕ → ℕ → ℕ → Option ℕ
grow zero need cap = none
grow (suc fuel) need cap =
    let more = grow fuel need (if cap == 0 then 4096 else cap * 2) in
    if leb cap need then more else some cap

stored_in : CurlBuf → Bytes → Option ℕ → Option CurlBuf
stored_in buf piece none = none
stored_in buf piece (some cap) = some (record { content = buf.content ++ piece; cap = cap })

-- One round more than the bytes that are needed is enough.
pub curl_write_cb : CurlBuf → Bytes → Option CurlBuf
unfolding grow stored_in
curl_write_cb buf piece =
    let need = length buf.content + length piece in
    stored_in buf piece (grow (suc (suc need)) need buf.cap)

-- What the worker tells libcurl, besides the options that are the same for every fetch.
pub data CurlOption : Type 0 where
  post nobody : CurlOption
  custom_request post_fields : Bytes → CurlOption
  http_header : List Bytes → CurlOption

method_options : Bytes → List CurlOption
method_options method =
    if str_eq method (codes "POST")
    then post ∷ []
    else if str_eq method (codes "PUT")
        || str_eq method (codes "DELETE")
        || str_eq method (codes "PATCH")
    then custom_request method ∷ []
    else if str_eq method (codes "HEAD")
    then nobody ∷ []
    else []

body_options : Option Bytes → List CurlOption
body_options none = []
body_options (some body) = post_fields body ∷ []

-- `snprintf(hdr, 4096, "%s: %s", key, value)`
header_text : HeaderPair → Bytes
header_text h = take 4095 (h.key ++ codes ": " ++ h.value)

header_options : List HeaderPair → List CurlOption
unfolding header_text
header_options [] = []
header_options (h ∷ hs) = http_header (map header_text (h ∷ hs)) ∷ []

unfoldable pub curl_options : FetchEntry → List CurlOption
unfolding method_options body_options header_options
curl_options e = method_options e.method ++ body_options e.body ++ header_options e.headers

-- How the transfer went: no handle, an error with its text, or a status, the header lines and the pieces
-- of the body.
pub data Transfer : Type 0 where
  no_handle : Transfer
  failed : Bytes → Transfer
  performed : ℕ → List Bytes → List Bytes → Transfer

unfoldable pub receive_headers : HeaderBuf → List Bytes → HeaderBuf
receive_headers hb [] = hb
receive_headers hb (line ∷ lines) = receive_headers (curl_header_cb hb line) lines

abbrev and_then {ℓ κ} : {A : Type ℓ} {B : Type κ} → Option A → (A → Option B) → Option B
and_then none f = none
and_then (some a) f = f a

pub receive_body : CurlBuf → List Bytes → Option CurlBuf
receive_body buf [] = some buf
receive_body buf (piece ∷ pieces) = and_then (curl_write_cb buf piece) (λ b. receive_body b pieces)

-- `body_buf.data` is NULL as long as nothing was written.
body_of : CurlBuf → Option Bytes
body_of buf = if buf.cap == 0 then none else some buf.content

fail_entry : FetchEntry → Bytes → FetchEntry
fail_entry e text = record e { is_error = true; error_msg = some text; completed = true }

complete_entry : FetchEntry → ℕ → HeaderBuf → CurlBuf → FetchEntry
complete_entry e status hb buf = record e {
  status_code = status;
  status_text = some (decimal status);
  response_body = body_of buf;
  response_headers = hb.headers;
  completed = true;
}

finish : FetchEntry → ℕ → HeaderBuf → Option CurlBuf → Option FetchEntry
unfolding complete_entry
finish e status hb none = none
finish e status hb (some buf) = some (complete_entry e status hb buf)

-- The entry when the worker has written its byte to the pipe; `none` means that the fuel ran out.
pub fetch_worker_wrapper : FetchEntry → Transfer → Option FetchEntry
unfolding fail_entry finish receive_headers
fetch_worker_wrapper e no_handle = some (fail_entry e (codes "fetch: curl_easy_init failed"))
fetch_worker_wrapper e (failed text) =
    some (fail_entry e (take 255 (codes "fetch error: " ++ text)))
fetch_worker_wrapper e (performed status lines pieces) =
    finish e status (receive_headers (record { headers = []; cap = 0 }) lines)
      (receive_body (record { content = []; cap = 0 }) pieces)
