-- ===== src/Script.antt =====
-- What a C function that the engine calls is given and returns (the bindings in polyfill/).
use cqjs.Prelude.{
  ℕ, Bool, Option, none, some, [], Bytes, ◌==◌, until, false, All, ◌≢◌, ◌≡◌, All-map, until-append,
  append-nil, ap, arith, ◌+◌, ◌-◌, ◌&&◌, map, leb, if◌then◌else◌,
}

-- An argument: the bytes of an ArrayBuffer, and what `JS_ToCStringLen` gives, `none` where it fails.
pub record Arg : Type 0 where
  pub buffer : Option Bytes
  pub text : Option Bytes

-- The value that is returned to the engine. A string is given by the bytes that it is made of.
pub data Reply : Type 0 where
  undefined null exception : Reply
  type_error : Bytes → Reply
  boolean : Bool → Reply
  number : ℕ → Reply
  string array_buffer : Bytes → Reply
  -- A C function, by its name, and a promise: a pending one by its number, or one that is settled.
  function : Bytes → Reply
  pending : ℕ → Reply
  resolved : Reply → Reply
  rejected : Bytes → Reply

-- `tolower` in the C locale, and the same for `toupper`.
unfoldable pub to_lower : ℕ → ℕ
to_lower c = if leb b'A' c && leb c b'Z' then c + 32 else c

unfoldable pub to_upper : ℕ → ℕ
to_upper c = if leb b'a' c && leb c b'z' then c - 32 else c

abbrev pub lowercase : Bytes → Bytes
lowercase = map to_lower

abbrev pub uppercase : Bytes → Bytes
uppercase = map to_upper

-- `strlen` of a text, which may hold a 0: what a C string shows of it.
unfoldable pub c_str : Bytes → Bytes
unfolding until
c_str s = (until (λ c. c == 0) s).0

-- A text without a 0 is shown whole.
pub c_str-whole : (s : Bytes) → All (λ c. c ≢ 0) s → c_str s ≡ s
unfolding c_str
c_str-whole s h =
    let shown = All-map (λ c. c ≢ 0) (λ c. (c == 0) ≡ false) (λ c hc. ground (arith, hc)) s h in
    ap (λ r. r.0) (rw append-nil at (until-append (λ c. c == 0) s [] shown tt))

-- A call that fails makes the function throw a TypeError.
abbrev pub tried {ℓ} : {A : Type ℓ} → Option A → Bytes → (A → Reply) → Reply
tried none message next = type_error message
tried (some a) message next = next a
