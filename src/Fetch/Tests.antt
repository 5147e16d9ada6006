-- ===== src/Fetch/Tests.antt =====
-- Concrete fetches.
use cqjs.Prelude.{
  All, strip_end, ℕ, zero, suc, ◌+◌, ◌-◌, ◌≤◌, ◌==◌, if◌then◌else◌, true, none, some, List, [], ◌∷◌,
  length, codes, ◌≡◌, refl, arith,
}
use cqjs.Script.{undefined, boolean, c_str, to_lower, to_upper}
use cqjs.Fetch.{FetchEntry, HeaderPair}
use cqjs.Fetch.Header.{is_newline}
use cqjs.Fetch.Header.Lines.{IsHeader}
use cqjs.Fetch.Request.{new_entry, FetchOptions}
use cqjs.Fetch.Transfer.{
  performed, fetch_worker_wrapper, curl_options, custom_request, http_header, post_fields,
}
use cqjs.Fetch.Transfer.Outcome.{outcome, fetch_worker_wrapper-outcome}
use cqjs.Fetch.Response.{js_headers_get, js_headers_has}
use cqjs.Fetch.Response.Lookup.{reply_of, is_some, received, header_value, js_headers-lookup}
use cqjs.Fetch.Pending.{Settlement, settlement, fm_process_pending}
use cqjs.Fetch.Pending.Settled.{done, IsMark, Within, Settles, starting, fm_process_pending-Settles}

abbrev put_options : FetchOptions
put_options = record {
  method = some (some (codes "put"));
  body = some (some (codes "x=1"));
  headers = some ((some (codes "Accept"), some (codes "*")) ∷ (none, some (codes "y")) ∷ []);
}

abbrev entry : ℕ → FetchEntry
entry n = new_entry n (codes "http://h/") put_options

options_test :
    curl_options (entry 0)
    ≡ custom_request (codes "PUT")
      ∷ post_fields (codes "x=1")
      ∷ http_header (codes "Accept: *" ∷ [])
      ∷ []
unfolding curl_options new_entry c_str to_upper
options_test = refl

fetch_worker_wrapper-outcome_example :
    (e' : FetchEntry) × (fetch_worker_wrapper
        (entry 7)
        (performed 404 [] (codes "no" ∷ codes "ne" ∷ []))
      ≡ some e')
    × (e'.completed ≡ true)
    × (settlement e' ≡ outcome (entry 7) (performed 404 [] (codes "no" ∷ codes "ne" ∷ [])))
unfolding new_entry
fetch_worker_wrapper-outcome_example =
    fetch_worker_wrapper-outcome (entry 7) (performed 404 [] (codes "no" ∷ codes "ne" ∷ [])) refl

abbrev answered : ℕ → FetchEntry
answered n = record (entry n) { completed = true; status_code = 200 }

-- The first two settlements start a fetch, and during each call the worker of the fetch 2 completes it.
abbrev start : Settlement → ℕ → List FetchEntry
start s zero = entry 10 ∷ []
start s (suc zero) = entry 11 ∷ []
start s (suc (suc n)) = []

abbrev count : Settlement → ℕ → ℕ
count s n = suc n

abbrev finish : Settlement → ℕ → FetchEntry → FetchEntry
finish s n e = if e.completed then e else if e.promise == 2 then answered 2 else e

abbrev allowed : ℕ → ℕ
allowed n = 2 - n

start-allowed : (s : Settlement) (n : ℕ) → length (start s n) + allowed (count s n) ≤ allowed n
start-allowed s zero = omega arith
start-allowed s (suc zero) = omega arith
start-allowed s (suc (suc n)) = omega arith

finish-IsMark : (s : Settlement) (n : ℕ) → IsMark (finish s n)
finish-IsMark s n e c = simp c

abbrev fetches : List FetchEntry
fetches = entry 0 ∷ answered 1 ∷ entry 2 ∷ answered 3 ∷ []

fm_process_pending-Settles_example :
    (taken : List FetchEntry) × (final : List FetchEntry × ℕ) × (fm_process_pending
        (starting start finish count)
        7
        (fetches, 0)
      ≡ some (length taken, final))
    × Settles start finish count (fetches, 0) taken final
    × Within (done fetches) taken
fm_process_pending-Settles_example =
    fm_process_pending-Settles start finish count allowed start-allowed finish-IsMark 7 fetches 0
      (omega arith)

abbrev sent : List HeaderPair
sent =
    record { key = codes "Set-Cookie"; value = codes "a=1" }
    ∷ record { key = codes "ETag"; value = codes "x: y" }
    ∷ record { key = codes "set-cookie"; value = codes "b=2" }
    ∷ []

sent-IsHeader : All IsHeader sent
unfolding strip_end is_newline
sent-IsHeader = (
  record { name = ground arith; text = ground arith; first = refl; last = refl },
  (
    record { name = ground arith; text = ground arith; first = refl; last = refl },
    (record { name = ground arith; text = ground arith; first = refl; last = refl }, tt),
  ),
)

js_headers-lookup_example :
    (js_headers_get
        (λ k. undefined)
        (received sent)
        (record { buffer = none; text = some (codes "SET-Cookie") } ∷ [])
      ≡ reply_of (header_value sent (codes "SET-Cookie")))
    × (js_headers_has
          (λ k. undefined)
          (received sent)
          (record { buffer = none; text = some (codes "SET-Cookie") } ∷ [])
        ≡ boolean (is_some (header_value sent (codes "SET-Cookie"))))
unfolding to_lower
js_headers-lookup_example =
    js_headers-lookup (λ k. undefined) sent (codes "SET-Cookie") [] none sent-IsHeader
      (ground arith) refl refl refl
