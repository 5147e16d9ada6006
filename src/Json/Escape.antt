-- ===== src/Json/Escape.antt =====
-- `json_escape_string`: what it writes is read back, fits its buffer and stays on one line.
use cqjs.Prelude.{
  ℕ, ◌+◌, ◌*◌, ◌/◌, ◌%◌, ◌≤◌, ◌<◌, Option, none, some, [], ◌∷◌, ◌++◌, append_assoc, length,
  length-append, All, All-append, Bytes, ◌≡◌, ◌≢◌, refl, arith, ap, ◌∙◌,
}
use native.Mathlib.Decide.{ℕ_discrete, dec_lt}
use cqjs.Format.{hex_digit, hex4, hex_value-hex_digit, hex_digit_plain}
use cqjs.Json.{escape_char, escape_chars, json_escape_string}
use cqjs.Json.Reader.{
  Mode, normal, unicode, go, emit, step, prepend, read_chars, read_string, open_literal,
}

-- The cases of `escape_char`: the seven short escapes, the other control characters, the rest.
module _ {ℓ} (P : ℕ → Type ℓ) (c : ℕ) where
  pub escape_char-cases :
      P b'"' × P b'\\' × P 8 × P 12 × P 10 × P 13 × P 9
      → (c < 0x20 → escape_char c ≡ b'\\' ∷ b'u' ∷ hex4 c → P c)
      → (0x20 ≤ c → c ≢ b'"' → c ≢ b'\\' → escape_char c ≡ c ∷ [] → P c)
      → P c
  unfolding escape_char
  escape_char-cases (quote, backslash, b, f, n, r, t) control plain = elim (ℕ_discrete c b'"') [
    | yes e ↦ rw e quote
    | no not_quote ↦ elim (ℕ_discrete c b'\\') [
      | yes e ↦ rw e backslash
      | no not_backslash ↦ elim (ℕ_discrete c 8) [
        | yes e ↦ rw e b
        | no not_b ↦ elim (ℕ_discrete c 12) [
          | yes e ↦ rw e f
          | no not_f ↦ elim (ℕ_discrete c 10) [
            | yes e ↦ rw e n
            | no not_n ↦ elim (ℕ_discrete c 13) [
              | yes e ↦ rw e r
              | no not_r ↦ elim (ℕ_discrete c 9) [
                | yes e ↦ rw e t
                | no not_t ↦ elim (dec_lt c 0x20) [
                  | yes low ↦ control low (ground arith)
                  | no high ↦ plain (omega arith) not_quote not_backslash (ground arith)
                ]
              ]
            ]
          ]
        ]
      ]
    ]
  ]

read-go :
    (m m' : Mode) (c : ℕ) (s : Bytes) → step m c ≡ go m' → read_chars m (c ∷ s) ≡ read_chars m' s
read-go m m' c s e = unfold read_chars in rw (e, read_chars)

read-emit :
    (m : Mode) (c d : ℕ) (s : Bytes)
    → step m c ≡ emit d
    → read_chars m (c ∷ s) ≡ prepend d (read_chars normal s)
read-emit m c d s e = unfold read_chars in rw (e, read_chars)

step-hex :
    (k acc n : ℕ)
    → n < 16
    → k < 3
    → step (unicode k acc) (hex_digit n) ≡ go (unicode (k + 1) (acc * 16 + n))
unfolding step
step-hex k acc n h lt = rw (hex_value-hex_digit n h) (ground arith)

step-hex_last :
    (acc n : ℕ) → n < 16 → acc < 8 → step (unicode 3 acc) (hex_digit n) ≡ emit (acc * 16 + n)
unfolding step
step-hex_last acc n h lt = rw (hex_value-hex_digit n h) (ground arith)

read-hex4 :
    (c : ℕ) (s : Bytes)
    → c < 0x20
    → read_chars (unicode 0 0) (hex4 c ++ s) ≡ prepend c (read_chars normal s)
read-hex4 c s h =
    let n0 = c / 4096 % 16 in
    let n1 = c / 256 % 16 in
    let n2 = c / 16 % 16 in
    let n3 = c % 16 in
    let acc = ((0 * 16 + n0) * 16 + n1) * 16 + n2 in
    read-go _ _ _ _ (step-hex 0 0 n0 (omega arith) (omega arith))
    ∙ read-go _ _ _ _ (step-hex 1 (0 * 16 + n0) n1 (omega arith) (omega arith))
    ∙ read-go _ _ _ _ (step-hex 2 ((0 * 16 + n0) * 16 + n1) n2 (omega arith) (omega arith))
    ∙ read-emit _ _ _ _ (step-hex_last acc n3 (omega arith) (omega arith))
    ∙ ap (λ d. prepend d (read_chars normal s)) (omega arith)

-- What is written for a character is read as that character.
read-escape_char :
    (c : ℕ) (s : Bytes) → read_chars normal (escape_char c ++ s) ≡ prepend c (read_chars normal s)
read-escape_char c s =
    escape_char-cases
      (λ c. read_chars normal (escape_char c ++ s) ≡ prepend c (read_chars normal s)) c
      (unfold escape_char read_chars in (refl, refl, refl, refl, refl, refl, refl))
      (λ low e. rw e (unfold read_chars in read-hex4 c s low))
      (λ high q b e. rw e (read-emit normal c c s (unfold step in ground arith)))

read-escape_chars :
    (s rest : Bytes) → read_chars normal (escape_chars s ++ b'"' ∷ rest) ≡ some (s, rest)
unfolding escape_chars
read-escape_chars [] rest = unfold read_chars in refl
read-escape_chars (c ∷ s) rest =
    rw (append_assoc (escape_char c) (escape_chars s) (b'"' ∷ rest))
      (rw (read-escape_char c, read-escape_chars s rest) (unfold prepend in refl))

-- Reading the literal that is written for a string gives that string and what follows the literal.
pub read-json_escape :
    (s rest : Bytes) → read_string (json_escape_string (some s) ++ rest) ≡ some (s, rest)
unfolding read_string json_escape_string open_literal
read-json_escape s rest =
    rw (append_assoc (escape_chars s) (b'"' ∷ []) rest) (read-escape_chars s rest)

length-escape_char : (c : ℕ) → length (escape_char c) ≤ 6
length-escape_char c =
    escape_char-cases (λ c. length (escape_char c) ≤ 6) c (unfold escape_char in omega arith)
      (λ low e. rw e (omega arith)) (λ high q b e. rw e (omega arith))

length-escape_chars : (s : Bytes) → length (escape_chars s) ≤ 6 * length s
unfolding escape_chars
length-escape_chars [] = omega arith
length-escape_chars (c ∷ s) =
    rw length-append (omega (arith, length-escape_char c, length-escape_chars s))

-- The literal and its terminator fit the buffer of `len * 6 + 3` bytes.
pub length-json_escape : (s : Bytes) → length (json_escape_string (some s)) + 1 ≤ length s * 6 + 3
unfolding json_escape_string
length-json_escape s = rw length-append (omega (arith, length-escape_chars s))

-- No control character is written.
abbrev pub IsPrintable : ℕ → Type 0
IsPrintable c = 0x20 ≤ c

escape_char-IsPrintable : (c : ℕ) → All IsPrintable (escape_char c)
escape_char-IsPrintable c =
    escape_char-cases (λ c. All IsPrintable (escape_char c)) c (unfold escape_char in omega arith)
      (λ low e. rw e (omega (arith, hex_digit_plain))) (λ high q b e. rw e (omega arith))

escape_chars-IsPrintable : (s : Bytes) → All IsPrintable (escape_chars s)
unfolding escape_chars
escape_chars-IsPrintable [] = tt
escape_chars-IsPrintable (c ∷ s) =
    All-append IsPrintable (escape_char c) (escape_chars s) (escape_char-IsPrintable c)
      (escape_chars-IsPrintable s)

pub json_escape-IsPrintable : (s : Option Bytes) → All IsPrintable (json_escape_string s)
unfolding json_escape_string
json_escape-IsPrintable none = omega arith
json_escape-IsPrintable (some s) = (
  omega arith,
  All-append IsPrintable (escape_chars s) (b'"' ∷ []) (escape_chars-IsPrintable s) (omega arith),
)
