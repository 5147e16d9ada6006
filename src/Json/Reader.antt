-- ===== src/Json/Reader.antt =====
-- A reader of JSON string literals, and of arrays of them, written from the grammar of RFC 8259 and
-- not from the sources. It reads the escapes of code points below 0x80, which are all that the writer
-- emits.
use cqjs.Prelude.{
  ℕ, zero, suc, List, ◌+◌, ◌*◌, Option, none, some, [], ◌∷◌, Bytes, ltb, ◌==◌, if◌then◌else◌, ◌||◌,
}
use cqjs.Format.{hex_value}

pub data Mode : Type 0 where
  normal : Mode
  escaped : Mode
  unicode : ℕ → ℕ → Mode

-- What one character does: it may end the literal, be an error, or go on in a mode, with or without
-- a character read.
pub data Move : Type 0 where
  close : Move
  fail : Move
  go : Mode → Move
  emit : ℕ → Move

unfoldable pub unicode_step : ℕ → ℕ → Option ℕ → Move
unicode_step k acc none = fail
unicode_step k acc (some v) =
    let n = acc * 16 + v in
    if k == 3 then (if ltb n 0x80 then emit n else fail) else go (unicode (k + 1) n)

unfoldable pub step : Mode → ℕ → Move
unfolding unicode_step
step normal c =
    if c == b'"'
    then close
    else if c == b'\\'
    then go escaped
    else if ltb c 0x20
    then fail
    else emit c
step escaped c =
    if c == b'"' || c == b'\\' || c == b'/'
    then emit c
    else if c == b'b'
    then emit 8
    else if c == b'f'
    then emit 12
    else if c == b'n'
    then emit 10
    else if c == b'r'
    then emit 13
    else if c == b't'
    then emit 9
    else if c == b'u'
    then go (unicode 0 0)
    else fail
step (unicode k acc) c = unicode_step k acc (hex_value c)

unfoldable pub prepend : ℕ → Option (Bytes × Bytes) → Option (Bytes × Bytes)
prepend c none = none
prepend c (some (s, rest)) = some (c ∷ s, rest)

-- The content of a literal, read behind its opening quote, and what follows the closing one.
unfoldable pub read_chars : Mode → Bytes → Option (Bytes × Bytes)
unfolding step prepend
read_chars m [] = none
read_chars m (c ∷ s) = elim (step m c) [
  | close ↦ some ([], s)
  | fail ↦ none
  | go m' ↦ read_chars m' s
  | emit d ↦ prepend d (read_chars normal s)
]

unfoldable pub open_literal : ℕ → Bytes → Option (Bytes × Bytes)
open_literal q s = if q == b'"' then read_chars normal s else none

unfoldable pub read_string : Bytes → Option (Bytes × Bytes)
unfolding open_literal
read_string [] = none
read_string (q ∷ s) = open_literal q s

abbrev pub with_item : Bytes → Option (List Bytes × Bytes) → Option (List Bytes × Bytes)
with_item x none = none
with_item x (some (xs, s)) = some (x ∷ xs, s)

-- What follows a literal in an array: `,` and further literals, or `]`, which closes it.
unfoldable pub after_item :
    (Bytes → Option (List Bytes × Bytes)) → Option (Bytes × Bytes) → Option (List Bytes × Bytes)
after_item more none = none
after_item more (some (x, [])) = none
after_item more (some (x, c ∷ s)) =
    if c == b',' then with_item x (more s) else if c == b']' then some (x ∷ [], s) else none

-- The literals of an array behind `[`, at most as many as the fuel.
unfoldable pub read_items : ℕ → Bytes → Option (List Bytes × Bytes)
unfolding after_item
read_items zero s = none
read_items (suc fuel) s = after_item (read_items fuel) (read_string s)

-- An array of literals, without white space, and what follows it.
unfoldable pub read_array : ℕ → Bytes → Option (List Bytes × Bytes)
unfolding read_items
read_array fuel [] = none
read_array fuel (o ∷ []) = none
read_array fuel (o ∷ c ∷ s) =
    if o == b'[' then (if c == b']' then some ([], s) else read_items fuel (c ∷ s)) else none
