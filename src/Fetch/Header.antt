-- ===== src/Fetch/Header.antt =====
-- The header callback of libcurl (polyfill/fetch.c): what a header line adds to the headers. The line
-- ends with a terminating 0 behind `total` characters.
pub mod Lines
use cqjs.Prelude.{
  ℕ, suc, ◌+◌, ◌*◌, ◌≤◌, Bool, ◌||◌, Option, none, some, List, [], ◌∷◌, ◌++◌, length, All, Bytes,
  codes, leb, ◌==◌, if◌then◌else◌, strip_end, strip_end-none, strip_end-append, strip_prefix, cut,
  cut-append, ◌≡◌, ◌≢◌, refl, arith,
}
use cqjs.Script.{c_str, to_lower, lowercase}
use cqjs.Fetch.{HeaderPair}

pub record HeaderBuf : Type 0 where
  pub headers : List HeaderPair
  pub cap : ℕ

-- `cap ? cap * 2 : 16`, when the array is full.
header_cap : ℕ → ℕ → ℕ
header_cap count cap = if leb cap count then if cap == 0 then 16 else cap * 2 else cap

unfoldable pub add_header : HeaderBuf → HeaderPair → HeaderBuf
unfolding header_cap
add_header hb pair = record {
  headers = hb.headers ++ pair ∷ [];
  cap = header_cap (length hb.headers) hb.cap;
}

unfoldable pub is_newline : ℕ → Bool
is_newline c = c == b'\r' || c == b'\n'

-- `while (*val_start == ' ') val_start++`
skip_spaces : Bytes → Bytes
skip_spaces [] = []
skip_spaces (c ∷ s) = let rest = skip_spaces s in if c == b' ' then rest else c ∷ s

-- A line with a colon: the texts before and behind it.
header_at : HeaderBuf → Bytes × Option Bytes → HeaderBuf
unfolding add_header skip_spaces
header_at hb (line, none) = hb
header_at hb (key, some rest) = add_header hb (record {
  key = lowercase (c_str key);
  value = c_str (strip_end is_newline (skip_spaces rest));
})

-- The status line is left out.
header_line : HeaderBuf → Bytes → Option Bytes → HeaderBuf
unfolding header_at
header_line hb buffer (some status) = hb
header_line hb buffer none = header_at hb (cut b':' buffer)

pub curl_header_cb : HeaderBuf → Bytes → HeaderBuf
unfolding header_line
curl_header_cb hb buffer =
    if leb (length buffer) 2
    then hb
    else header_line hb buffer (strip_prefix (codes "HTTP/") buffer)
