-- ===== src/Encoding/Base64.antt =====
-- Base64 (polyfill/encoding.c): the tables, the encoder and the decoder. A buffer is its list of
-- bytes. Shifts are products and quotients by powers of 2; `|` of fields that share no bit is `+`.
pub mod Sextets
pub mod RoundTrip
mod Tests
use cqjs.Prelude.{
  ℕ, suc, ◌+◌, ◌-◌, ◌*◌, ◌/◌, ◌%◌, ◌^◌, Bool, ◌||◌, List, [], ◌∷◌, ◌++◌, length, get_or, set, take,
  Bytes, codes, ◌==◌, if◌then◌else◌, strip_end, ◌≡◌, refl,
}

abbrev pub b64_table : Bytes
b64_table = codes "ABCDEFGHIJKLMNOPQRSTUVWXYZabcdefghijklmnopqrstuvwxyz0123456789+/"

-- The designators ['A']=0, ['B']=1, ... in the order of the source.
abbrev pub designators : Bytes
designators = codes "ABCDEFGHIJKLMNOPQRSTUVWXYZabcdefghijklmnopqrstuvwxyz01234567"

-- The entry of the designator `c`; an entry that no designator names is 0.
designated : Bytes → ℕ → ℕ → ℕ
designated [] n c = if c == b'+' then 62 else if c == b'/' then 63 else 0
designated (d ∷ ds) n c = if c == d then n else designated ds (n + 1) c

pub b64_decode_table : ℕ → ℕ
unfolding designated
b64_decode_table c = designated designators 0 c

-- b64_table[(triple >> 6 * k) & 0x3F]
sextet : ℕ → ℕ → ℕ
sextet triple k = get_or b64_table (triple / 2 ^ (6 * k) % 64) 0

-- One round of the encoder's loop.
encode_group : ℕ → ℕ → ℕ → Bytes
unfolding sextet
encode_group a b c =
    let triple = a * 2 ^ 16 + b * 2 ^ 8 + c in
    sextet triple 3 ∷ sextet triple 2 ∷ sextet triple 1 ∷ sextet triple 0 ∷ []

-- Past the end of the data a round reads 0.
encode_groups : Bytes → Bytes
unfolding encode_group
encode_groups [] = []
encode_groups (a ∷ []) = encode_group a 0 0
encode_groups (a ∷ b ∷ []) = encode_group a b 0
encode_groups (a ∷ b ∷ c ∷ rest) = encode_group a b c ++ encode_groups rest

-- The padding, written over the last characters.
pad : ℕ → Bytes → Bytes
pad rem out =
    let j = length out in
    if rem == 1
    then set (set out (j - 1) b'=') (j - 2) b'='
    else if rem == 2
    then set out (j - 1) b'='
    else out

pub base64_encode : Bytes → Bytes
unfolding encode_groups pad
base64_encode xs = pad (length xs % 3) (encode_groups xs)

pub is_padding : ℕ → Bool
is_padding c = c == b'=' || c == b'\n' || c == b'\r'

-- One round of the decoder's loop; the three bytes are stored as long as `j < olen`, and `room` is
-- `olen - j`.
decode_group : ℕ → ℕ → ℕ → ℕ → ℕ → Bytes
decode_group room a b c d =
    let triple = a * 2 ^ 18 + b * 2 ^ 12 + c * 2 ^ 6 + d in
    take room (triple / 2 ^ 16 % 256 ∷ triple / 2 ^ 8 % 256 ∷ triple % 256 ∷ [])

-- Past the end of the text a round reads 0.
decode_groups : ℕ → Bytes → Bytes
decode_groups room [] = []
decode_groups room (a ∷ []) = decode_group room (b64_decode_table a) 0 0 0
decode_groups room (a ∷ b ∷ []) = decode_group room (b64_decode_table a) (b64_decode_table b) 0 0
decode_groups room (a ∷ b ∷ c ∷ []) =
    decode_group room (b64_decode_table a) (b64_decode_table b) (b64_decode_table c) 0
decode_groups room (a ∷ b ∷ c ∷ d ∷ rest) =
    decode_group room (b64_decode_table a) (b64_decode_table b) (b64_decode_table c)
      (b64_decode_table d)
    ++ decode_groups (room - 3) rest

pub base64_decode : Bytes → Bytes
base64_decode src = let body = strip_end is_padding src in decode_groups (length body * 3 / 4) body

encode_man : base64_encode (codes "Many") ≡ codes "TWFueQ=="
unfolding base64_encode
encode_man = refl

decode_man : base64_decode (codes "TWFueQ==\r\n") ≡ codes "Many"
unfolding base64_decode decode_groups decode_group b64_decode_table strip_end is_padding
decode_man = refl
