-- ===== src/Encoding/Hex/Tests.antt =====
-- A `sscanf` that reads two digits or nothing.
use cqjs.Prelude.{ℕ, ◌+◌, ◌*◌, Option, none, some, [], ◌∷◌, Bytes, refl}
use cqjs.Format.{hex_value}
use cqjs.Encoding.Hex.{IsScan}

abbrev pub both : Option ℕ → Option ℕ → Option ℕ
both none y = none
both (some m) none = none
both (some m) (some n) = some (m * 16 + n)

abbrev pub scanning : Bytes → Option ℕ
scanning [] = none
scanning (a ∷ []) = hex_value a
scanning (a ∷ b ∷ s) = both (hex_value a) (hex_value b)

pub scanning-IsScan : IsScan scanning
scanning-IsScan a b s m n ha hb = rw (ha, hb) refl
