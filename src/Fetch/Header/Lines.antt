-- ===== src/Fetch/Header/Lines.antt =====
-- What the header callback of libcurl makes of header lines.
use cqjs.Prelude.{
  ℕ, false, not, none, some, [], ◌∷◌, ◌++◌, append_assoc, length, length-append, All, All-map,
  Bytes, codes, leb, ◌==◌, strip_end, strip_end-snoc, strip_prefix, cut-append, Stops, ◌≡◌, ◌≢◌,
  refl, ap, ◌∙◌, arith,
}
use cqjs.Script.{c_str, c_str-whole, lowercase}
use cqjs.Fetch.{HeaderPair}
use cqjs.Fetch.Header.{
  HeaderBuf, add_header, is_newline, skip_spaces, header_at, header_line, curl_header_cb,
}

-- The line of a header, as a server sends it.
abbrev pub line_of : HeaderPair → Bytes
line_of h = h.key ++ (b':' ∷ b' ' ∷ (h.value ++ codes "\r\n"))

-- The name has no `:` and no `/`, the value does not begin with a space or end with a line break, and
-- neither holds a 0.
pub record IsHeader (h : HeaderPair) : Type 0 where
  pub name : All (λ c. (c ≢ b':') × (c ≢ b'/') × (c ≢ 0)) h.key
  pub text : All (λ c. c ≢ 0) h.value
  pub first : Stops (λ c. not (c == b' ')) h.value
  pub last : strip_end is_newline h.value ≡ h.value

-- The pair that is stored.
abbrev pub lowered : HeaderPair → HeaderPair
lowered h = record { key = lowercase h.key; value = h.value }

-- A name is no status line.
strip_prefix-none :
    (k rest : Bytes)
    → All (λ c. c ≢ b'/') k
    → strip_prefix (codes "HTTP/") (k ++ (b':' ∷ rest)) ≡ none
unfolding strip_prefix
strip_prefix-none [] rest h = refl
strip_prefix-none (c1 ∷ []) rest h = ground arith
strip_prefix-none (c1 ∷ c2 ∷ []) rest h = ground arith
strip_prefix-none (c1 ∷ c2 ∷ c3 ∷ []) rest h = ground arith
strip_prefix-none (c1 ∷ c2 ∷ c3 ∷ c4 ∷ []) rest h = ground arith
strip_prefix-none (c1 ∷ c2 ∷ c3 ∷ c4 ∷ c5 ∷ k) rest (h1, (h2, (h3, (h4, (h5, h))))) = ground arith

skip_spaces-stops :
    (v rest : Bytes)
    → Stops (λ c. not (c == b' ')) v
    → skip_spaces (v ++ (b'\r' ∷ rest)) ≡ v ++ (b'\r' ∷ rest)
unfolding skip_spaces
skip_spaces-stops [] rest h = refl
skip_spaces-stops (c ∷ v) rest h = ground (arith, h)

strip_end-newline : (v : Bytes) → strip_end is_newline (v ++ codes "\r\n") ≡ strip_end is_newline v
strip_end-newline v =
    rw
      (
        ← append_assoc v (b'\r' ∷ []) (b'\n' ∷ []),
        strip_end-snoc is_newline (v ++ b'\r' ∷ []) b'\n',
      )
      (unfold is_newline in strip_end-snoc is_newline v b'\r')

line_of-long : (h : HeaderPair) → leb (length (line_of h)) 2 ≡ false
line_of-long h = ground (
  arith,
  length-append h.key (b':' ∷ b' ' ∷ (h.value ++ codes "\r\n")),
  length-append h.value (codes "\r\n"),
)

-- The value that is stored.
value_lem :
    (h : HeaderPair)
    → IsHeader h
    → c_str (strip_end is_newline (skip_spaces (b' ' ∷ (h.value ++ codes "\r\n")))) ≡ h.value
value_lem h p =
    let skipped : skip_spaces (b' ' ∷ (h.value ++ codes "\r\n")) ≡ h.value ++ codes "\r\n" =
      unfold skip_spaces in skip_spaces-stops h.value (b'\n' ∷ []) p.first in
    ap (λ s. c_str (strip_end is_newline s)) skipped
    ∙ ap c_str (strip_end-newline h.value ∙ p.last)
    ∙ c_str-whole h.value p.text

pub curl_header_cb-line :
    (hb : HeaderBuf) (h : HeaderPair)
    → IsHeader h
    → curl_header_cb hb (line_of h) ≡ add_header hb (lowered h)
unfolding curl_header_cb
curl_header_cb-line hb h p =
    let rest = b' ' ∷ (h.value ++ codes "\r\n") in
    let Name : ℕ → Type 0 = λ c. (c ≢ b':') × (c ≢ b'/') × (c ≢ 0) in
    let plain =
      strip_prefix-none h.key rest (All-map Name (λ c. c ≢ b'/') (λ c q. q.1) h.key p.name) in
    let split =
      cut-append b':' h.key rest (All-map Name (λ c. c ≢ b':') (λ c q. q.0) h.key p.name) in
    let key = c_str-whole h.key (All-map Name (λ c. c ≢ 0) (λ c q. q.2) h.key p.name) in
    let stored : header_at hb (h.key, some rest) ≡ add_header hb (lowered h) =
      unfold header_at in rw (key, value_lem h p) refl in
    let found : header_line hb (line_of h) none ≡ add_header hb (lowered h) =
      unfold header_line in ap (header_at hb) split ∙ stored in
    rw (line_of-long h) (ap (header_line hb (line_of h)) plain ∙ found)
