-- ===== src/Json.antt =====
-- The JSON writer (cqjs.c): `json_escape_string` and `send_json_response`. A pointer is an option,
-- `none` for NULL.
pub mod Reader
pub mod Escape
pub mod Answered
pub mod Line
pub mod Object
pub mod Stream
mod Tests
use cqjs.Prelude.{
  ℕ, ◌+◌, ◌-◌, ◌*◌, ◌/◌, ◌%◌, Bool, true, false, Option, none, some, List, [], ◌∷◌, ◌++◌, length,
  Bytes, codes, ltb, ◌==◌, if◌then◌else◌, ◌≡◌, refl,
}
use cqjs.Format.{hex4, hex_digit}

-- One round of the loop of `json_escape_string`.
unfoldable pub escape_char : ℕ → Bytes
escape_char c =
    if c == b'"'
    then b'\\' ∷ b'"' ∷ []
    else if c == b'\\'
    then b'\\' ∷ b'\\' ∷ []
    else if c == 8
    then b'\\' ∷ b'b' ∷ []
    else if c == 12
    then b'\\' ∷ b'f' ∷ []
    else if c == b'\n'
    then b'\\' ∷ b'n' ∷ []
    else if c == b'\r'
    then b'\\' ∷ b'r' ∷ []
    else if c == b'\t'
    then b'\\' ∷ b't' ∷ []
    else if ltb c 0x20
    then b'\\' ∷ b'u' ∷ hex4 c
    else c ∷ []

unfoldable pub escape_chars : Bytes → Bytes
escape_chars [] = []
escape_chars (c ∷ s) = escape_char c ++ escape_chars s

unfoldable pub json_escape_string : Option Bytes → Bytes
unfolding escape_chars escape_char
json_escape_string none = codes "null"
json_escape_string (some s) = b'"' ∷ (escape_chars s ++ b'"' ∷ [])

-- The arguments of `send_json_response`.
pub record Response : Type 0 where
  pub id : Option Bytes
  pub type : Bytes
  pub env_id : Option Bytes
  pub value : Option Bytes
  pub value_is_raw : Bool
  pub message : Option Bytes
  pub name : Option Bytes
  pub data_text : Option Bytes
  pub data_is_raw : Bool

-- What is sent: an event of an environment's code, or the answer to a request.
pub data Sent : Type 0 where
  event answer : Response → Sent

-- `if (field) cap += strlen(field) * 2`
unfoldable pub twice_length : Option Bytes → ℕ
twice_length none = 0
twice_length (some s) = length s * 2

-- The size of the allocated buffer, `cap + 256`.
unfoldable pub buffer_size : Response → ℕ
unfolding twice_length
buffer_size r =
    256
    + twice_length r.value
    + twice_length r.message
    + twice_length r.data_text
    + twice_length r.env_id
    + 256

-- `if (id && id[0])`
unfoldable pub id_part : Option Bytes → Bytes
id_part none = []
id_part (some []) = []
id_part (some (c ∷ s)) = codes "\"id\":" ++ (json_escape_string (some (c ∷ s)) ++ codes ",")

-- `,"key":` with an escaped value, if the field is given
unfoldable pub field_part : Bytes → Option Bytes → Bytes
field_part key none = []
field_part key (some s) = codes ",\"" ++ (key ++ (codes "\":" ++ json_escape_string (some s)))

-- the same, where the value may be JSON already
unfoldable pub raw_part : Bytes → Option Bytes → Bool → Bytes
unfolding field_part
raw_part key none raw = []
raw_part key (some s) true = codes ",\"" ++ (key ++ (codes "\":" ++ s))
raw_part key (some s) false = field_part key (some s)

-- The line that is sent.
unfoldable pub send_json_response : Response → Bytes
unfolding json_escape_string id_part field_part raw_part
send_json_response r =
    codes "{"
    ++ (id_part r.id
        ++ (codes "\"type\":"
            ++ (json_escape_string (some r.type)
                ++ (field_part (codes "env_id") r.env_id
                    ++ (raw_part (codes "value") r.value r.value_is_raw
                        ++ (field_part (codes "message") r.message
                            ++ (field_part (codes "name") r.name
                                ++ (raw_part (codes "data") r.data_text r.data_is_raw
                                    ++ codes "}"))))))))

response_line :
    send_json_response (record {
      id = some (codes "1");
      type = codes "result";
      env_id = none;
      value = some (codes "a\nb");
      value_is_raw = false;
      message = none;
      name = none;
      data_text = none;
      data_is_raw = false;
    })
    ≡ codes "{\"id\":\"1\",\"type\":\"result\",\"value\":\"a\\nb\"}"
unfolding send_json_response
response_line = refl

-- The line and a line break are appended to the standard output, under its mutex.
unfoldable pub cqjs_send_response : Bytes → Bytes → Bytes
cqjs_send_response json_line out = out ++ (json_line ++ b'\n' ∷ [])
