-- ===== src/Fetch/Transfer/Outcome.antt =====
-- What the worker leaves in the entry, and what its promise gets.
use cqjs.Prelude.{
  ℕ, zero, suc, ◌+◌, ◌*◌, ◌≤◌, ◌<◌, Bool-cases, true, false, ◌&&◌, some, List, [], ◌∷◌, ◌++◌,
  append_assoc, append-nil, take, length, length-append, Bytes, codes, leb, ltb, ◌==◌, ◌≡◌, refl,
  sym, ap, ◌∙◌, inl, inr, arith,
}
use cqjs.Format.Decimal.{decimal}
use cqjs.Fetch.{FetchEntry}
use cqjs.Fetch.Header.{HeaderBuf}
use cqjs.Fetch.Response.{headers_object, build_response_object, text_or}
use cqjs.Fetch.Pending.{Settlement, resolve, reject, settlement}
use cqjs.Fetch.Transfer.{
  CurlBuf, grow, curl_write_cb, stored_in, Transfer, no_handle, failed, performed, receive_headers,
  receive_body, fetch_worker_wrapper, body_of, fail_entry, finish, complete_entry,
}

-- A capacity above what is needed is reached in as many rounds as are missing.
grow-ends :
    (fuel need cap : ℕ)
    → 0 < cap
    → suc need < cap + fuel
    → 0 < fuel
    → (cap' : ℕ) × (grow fuel need cap ≡ some cap') × (need < cap') × (cap ≤ cap')
unfolding grow
grow-ends zero need cap pos h p = absurd (omega arith)
grow-ends (suc fuel) need cap pos h p = elim (Bool-cases (leb cap need)) [
  | inl more ↦
      let zero_no : (cap == 0) ≡ false = ground arith in
      let le : cap ≤ need = ground arith in
      let (cap', e, above, up) =
        grow-ends fuel need (cap * 2) (omega arith) (omega arith) (omega arith) in
      (cap', rw (more, zero_no) e, above, omega arith)
  | inr fits ↦ (cap, rw fits refl, ground arith, omega arith)
]

grow-enough :
    (need cap : ℕ) → (cap' : ℕ) × (grow (suc (suc need)) need cap ≡ some cap') × (need < cap')
unfolding grow
grow-enough need zero =
    let (cap', e, above, up) =
      grow-ends (suc need) need 4096 (omega arith) (omega arith) (omega arith) in
    let low : leb 0 need ≡ true = ground arith in (cap', rw low e, above)
grow-enough need (suc n) =
    let (cap', e, above, up) =
      grow-ends (suc (suc need)) need (suc n) (omega arith) (omega arith) (omega arith) in
    (cap', e, above)

-- The callback stores the piece, in a buffer with room behind it.
curl_write_cb-stores :
    (buf : CurlBuf) (piece : Bytes)
    → (cap' : ℕ) × (curl_write_cb buf piece
        ≡ some (record { content = buf.content ++ piece; cap = cap' }))
      × (length (buf.content ++ piece) < cap')
unfolding curl_write_cb stored_in
curl_write_cb-stores buf piece =
    let (cap', e, above) = grow-enough (length buf.content + length piece) buf.cap in
    (cap', ap (stored_in buf piece) e, omega (arith, length-append buf.content piece))

abbrev pub joined : List Bytes → Bytes
joined [] = []
joined (p ∷ ps) = p ++ joined ps

-- The pieces are stored one behind the other.
receive_body-joined :
    (buf : CurlBuf) (pieces : List Bytes)
    → length buf.content ≤ buf.cap
    → (buf' : CurlBuf) × (receive_body buf pieces ≡ some buf')
      × (buf'.content ≡ buf.content ++ joined pieces)
      × (length buf'.content ≤ buf'.cap)
unfolding receive_body
receive_body-joined buf [] h = (buf, refl, sym (append-nil buf.content), h)
receive_body-joined buf (p ∷ ps) h =
    let (cap', e, above) = curl_write_cb-stores buf p in
    let (buf', later, content, fits) =
      receive_body-joined (record { content = buf.content ++ p; cap = cap' }) ps (omega arith) in
    (buf', rw e later, content ∙ append_assoc buf.content p (joined ps), fits)

-- What the promise gets of a transfer.
pub outcome : FetchEntry → Transfer → Settlement
outcome e no_handle = reject e.promise (codes "fetch: curl_easy_init failed")
outcome e (failed text) = reject e.promise (take 255 (codes "fetch error: " ++ text))
outcome e (performed status lines pieces) = resolve e.promise (record {
  ok = leb 200 status && ltb status 300;
  status = status;
  status_text = decimal status;
  url = e.url;
  headers = headers_object (receive_headers (record { headers = []; cap = 0 }) lines).headers;
  body = joined pieces;
})

body_of-text :
    (buf : CurlBuf) → length buf.content ≤ buf.cap → text_or [] (body_of buf) ≡ buf.content
unfolding body_of text_or
body_of-text buf h = elim (Bool-cases (buf.cap == 0)) [
  | inl z ↦
      let none_stored : length buf.content ≡ 0 = ground arith in
      simp z (sym (length-zero buf.content none_stored))
  | inr p ↦ simp p
]
  where
    length-zero : (s : Bytes) → length s ≡ 0 → s ≡ []
    length-zero [] h = refl
    length-zero (c ∷ s) h = absurd (omega arith)

complete_entry-settlement :
    (e : FetchEntry) (status : ℕ) (hb : HeaderBuf) (buf : CurlBuf) (body : Bytes)
    → e.is_error ≡ false
    → text_or [] (body_of buf) ≡ body
    → settlement (complete_entry e status hb buf)
      ≡ resolve e.promise (record {
        ok = leb 200 status && ltb status 300;
        status = status;
        status_text = decimal status;
        url = e.url;
        headers = headers_object hb.headers;
        body = body;
      })
unfolding settlement complete_entry build_response_object text_or
complete_entry-settlement e status hb buf body ok sent = rw ok (rw sent refl)

-- For a fetch that is submitted, without an error, and any transfer the worker ends and leaves the
-- entry completed, and fm_process_pending then rejects its promise with the error's text if the
-- transfer failed, or resolves it with a response that has the status, the headers of the lines, and
-- the pieces of the body joined.
pub fetch_worker_wrapper-outcome :
    (e : FetchEntry) (t : Transfer)
    → e.is_error ≡ false
    → (e' : FetchEntry) × (fetch_worker_wrapper e t ≡ some e')
      × (e'.completed ≡ true)
      × (settlement e' ≡ outcome e t)
unfolding fetch_worker_wrapper outcome
fetch_worker_wrapper-outcome e no_handle h =
    unfold fail_entry settlement text_or in (_, refl, refl, refl)
fetch_worker_wrapper-outcome e (failed text) h =
    unfold fail_entry settlement text_or in (_, refl, refl, refl)
fetch_worker_wrapper-outcome e (performed status lines pieces) h =
    let hb = receive_headers (record { headers = []; cap = 0 }) lines in
    let (buf, got, content, fits) =
      receive_body-joined (record { content = []; cap = 0 }) pieces (omega arith) in
    (
      complete_entry e status hb buf,
      ap (finish e status hb) got,
      unfold complete_entry in refl,
      complete_entry-settlement e status hb buf (joined pieces) h (body_of-text buf fits ∙ content),
    )
