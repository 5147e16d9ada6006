-- ===== src/Encoding/Hex.antt =====
-- Hexadecimal text (polyfill/encoding.c): `hex_encode` and `hex_decode`. What `sscanf` with "%2x" reads
-- at a place of the text is an argument, `none` if it stores nothing; `val` then keeps what it held.
pub mod Tests
use cqjs.Prelude.{
  ℕ, ◌+◌, ◌*◌, ◌/◌, ◌%◌, ◌<◌, Option, none, some, [], ◌∷◌, ◌++◌, Bytes, AreBytes, ◌≡◌, refl, arith,
  ap, ◌∙◌,
}
use cqjs.Format.{hex_digit, hex2, hex_value, hex_value-hex_digit}

unfoldable pub hex_encode : Bytes → Bytes
hex_encode [] = []
hex_encode (b ∷ bs) = hex2 b ++ hex_encode bs

-- `out[i] = (uint8_t)val`
stored : ℕ → Option ℕ → ℕ
stored val none = val % 256
stored val (some v) = v % 256

-- The text from each place on is read; a single character at the end is not.
pub hex_decode : (Bytes → Option ℕ) → ℕ → Bytes → Bytes
unfolding stored
hex_decode scan val [] = []
hex_decode scan val (a ∷ []) = []
hex_decode scan val (a ∷ b ∷ s) = stored val (scan (a ∷ b ∷ s)) ∷ hex_decode scan val s

-- In front of two hexadecimal digits, `sscanf` reads their value.
abbrev pub IsScan : (Bytes → Option ℕ) → Type 0
IsScan scan =
    (a b : ℕ) (s : Bytes) (m n : ℕ)
    → hex_value a ≡ some m
    → hex_value b ≡ some n
    → scan (a ∷ b ∷ s) ≡ some (m * 16 + n)

-- If `sscanf` reads two hexadecimal digits as their value, then decoding the text of a byte sequence
-- gives that sequence, whatever the variable held.
pub hex_decode-hex_encode :
    (scan : Bytes → Option ℕ) (val : ℕ) (xs : Bytes)
    → IsScan scan
    → AreBytes xs
    → hex_decode scan val (hex_encode xs) ≡ xs
unfolding hex_encode
hex_decode-hex_encode scan val [] reads h = unfold hex_decode in refl
hex_decode-hex_encode scan val (b ∷ bs) reads (hb, h) =
    let read : scan (hex2 b ++ hex_encode bs) ≡ some (b / 16 * 16 + b % 16) =
      reads (hex_digit (b / 16)) (hex_digit (b % 16)) (hex_encode bs) (b / 16) (b % 16)
        (hex_value-hex_digit (b / 16) (omega arith)) (hex_value-hex_digit (b % 16) (omega arith)) in
    let kept : stored val (scan (hex2 b ++ hex_encode bs)) ≡ b =
      rw read (unfold stored in omega arith) in
    let first : hex_decode scan val (hex2 b ++ hex_encode bs)
        ≡ b ∷ hex_decode scan val (hex_encode bs) =
      unfold hex_decode in ap (λ c. c ∷ hex_decode scan val (hex_encode bs)) kept in
    first ∙ ap (λ s. b ∷ s) (hex_decode-hex_encode scan val bs reads h)
