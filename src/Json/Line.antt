-- ===== src/Json/Line.antt =====
-- `send_json_response`: the line that it sends, and the buffer that it writes the line into.
use cqjs.Prelude.{
  ℕ, ◌+◌, ◌*◌, ◌≤◌, ◌<◌, Bool, true, false, Option, none, some, [], ◌∷◌, ◌++◌, length,
  length-append, All, All-append, Bytes, codes, ◌≡◌, refl, arith,
}
use cqjs.Json.{
  Response, escape_char, escape_chars, json_escape_string, twice_length, buffer_size, id_part,
  field_part, raw_part, send_json_response,
}
use cqjs.Json.Escape.{IsPrintable, json_escape-IsPrintable, escape_char-cases}

abbrev pub IsPrintableIf : Option Bytes → Bool → Type 0
IsPrintableIf (some s) true = All IsPrintable s
IsPrintableIf (some s) false = Unit
IsPrintableIf none raw = Unit

id_part-IsPrintable : (id : Option Bytes) → All IsPrintable (id_part id)
unfolding id_part
id_part-IsPrintable none = tt
id_part-IsPrintable (some []) = tt
id_part-IsPrintable (some (c ∷ s)) = All-append IsPrintable (codes "\"id\":") _ (omega arith) (
    All-append IsPrintable (json_escape_string (some (c ∷ s))) _
      (json_escape-IsPrintable (some (c ∷ s))) (omega arith))

module _ (key : Bytes) (printable : All IsPrintable key) where
  field_part-IsPrintable : (s : Option Bytes) → All IsPrintable (field_part key s)
  unfolding field_part
  field_part-IsPrintable none = tt
  field_part-IsPrintable (some s) = All-append IsPrintable (codes ",\"") _ (omega arith) (
      All-append IsPrintable key _ printable
        (All-append IsPrintable (codes "\":") _ (omega arith) (json_escape-IsPrintable (some s))))

  raw_part-IsPrintable :
      (s : Option Bytes) (raw : Bool) → IsPrintableIf s raw → All IsPrintable (raw_part key s raw)
  unfolding raw_part
  raw_part-IsPrintable none raw h = tt
  raw_part-IsPrintable (some s) true h = All-append IsPrintable (codes ",\"") _ (omega arith) (
      All-append IsPrintable key _ printable
        (All-append IsPrintable (codes "\":") _ (omega arith) h))
  raw_part-IsPrintable (some s) false h = field_part-IsPrintable (some s)

-- The line holds no control character, so no line break, whatever strings the fields hold, if the
-- fields that are passed on as raw JSON hold none.
pub send_json_response-IsPrintable :
    (r : Response)
    → IsPrintableIf r.value r.value_is_raw
    → IsPrintableIf r.data_text r.data_is_raw
    → All IsPrintable (send_json_response r)
unfolding send_json_response
send_json_response-IsPrintable r hv hd =
    let close = codes "}" in
    let data_part = raw_part (codes "data") r.data_text r.data_is_raw in
    let name_part = field_part (codes "name") r.name in
    let message_part = field_part (codes "message") r.message in
    let value_part = raw_part (codes "value") r.value r.value_is_raw in
    let env_part = field_part (codes "env_id") r.env_id in
    let type_part = json_escape_string (some r.type) in
    let from_data = data_part ++ close in
    let from_name = name_part ++ from_data in
    let from_message = message_part ++ from_name in
    let from_value = value_part ++ from_message in
    let from_env = env_part ++ from_value in
    let from_type = type_part ++ from_env in
    let from_key = codes "\"type\":" ++ from_type in
    let join = All-append IsPrintable in
    join (codes "{") (id_part r.id ++ from_key) (omega arith) (
      join (id_part r.id) from_key (id_part-IsPrintable r.id) (
        join (codes "\"type\":") from_type (omega arith) (
          join type_part from_env (json_escape-IsPrintable (some r.type)) (
            join env_part from_value
              (field_part-IsPrintable (codes "env_id") (omega arith) r.env_id)
              (join value_part from_message
                (raw_part-IsPrintable (codes "value") (omega arith) r.value r.value_is_raw hv)
                (join message_part from_name
                  (field_part-IsPrintable (codes "message") (omega arith) r.message)
                  (join name_part from_data
                    (field_part-IsPrintable (codes "name") (omega arith) r.name)
                    (join data_part close
                      (raw_part-IsPrintable (codes "data") (omega arith) r.data_text r.data_is_raw
                        hd)
                      (omega arith)))))))))

-- A string whose control characters all have a short escape.
abbrev pub IsText : Option Bytes → Type 0
IsText none = Unit
IsText (some s) = All (λ c. length (escape_char c) ≤ 2) s

abbrev pub size : Option Bytes → ℕ
size none = 0
size (some s) = length s

length-escape_text : (s : Bytes) → IsText (some s) → length (escape_chars s) ≤ 2 * length s
unfolding escape_chars
length-escape_text [] h = omega arith
length-escape_text (c ∷ s) (hc, h) = rw length-append (omega (arith, length-escape_text s h))

le-escape_char : (c : ℕ) → 1 ≤ length (escape_char c)
le-escape_char c =
    escape_char-cases (λ c. 1 ≤ length (escape_char c)) c (unfold escape_char in omega arith)
      (λ low e. rw e (omega arith)) (λ high q b e. rw e (omega arith))

length-le-escape : (s : Bytes) → length s ≤ length (escape_chars s)
unfolding escape_chars
length-le-escape [] = omega arith
length-le-escape (c ∷ s) =
    rw (length-append (escape_char c) (escape_chars s))
      (omega (arith, le-escape_char c, length-le-escape s))

length-literal : (s : Bytes) → length (json_escape_string (some s)) ≡ length (escape_chars s) + 2
unfolding json_escape_string
length-literal s = rw length-append (omega arith)

length-id_part : (id : Option Bytes) → IsText id → length (id_part id) ≤ 2 * size id + 8
unfolding id_part
length-id_part none h = omega arith
length-id_part (some []) h = omega arith
length-id_part (some (c ∷ s)) h =
    simp (length-append, length-literal) (omega (arith, length-escape_text (c ∷ s) h))

length-field_part :
    (key : Bytes) (s : Option Bytes)
    → IsText s
    → length (field_part key s) ≤ 2 * size s + length key + 6
unfolding field_part
length-field_part key none h = omega arith
length-field_part key (some s) h =
    simp (length-append, length-literal) (omega (arith, length-escape_text s h))

length-raw_part :
    (key : Bytes) (s : Option Bytes) (raw : Bool)
    → IsText s
    → length (raw_part key s raw) ≤ 2 * size s + length key + 6
unfolding raw_part
length-raw_part key none raw h = omega arith
length-raw_part key (some s) true h = simp length-append (omega arith)
length-raw_part key (some s) false h = length-field_part key (some s) h

twice_length-size : (s : Option Bytes) → twice_length s ≡ 2 * size s
unfolding twice_length
twice_length-size none = refl
twice_length-size (some s) = omega arith

length-line :
    (r : Response)
    → length (send_json_response r)
      ≡ length (id_part r.id)
        + length (json_escape_string (some r.type))
        + length (field_part (codes "env_id") r.env_id)
        + length (raw_part (codes "value") r.value r.value_is_raw)
        + length (field_part (codes "message") r.message)
        + length (field_part (codes "name") r.name)
        + length (raw_part (codes "data") r.data_text r.data_is_raw)
        + 9
unfolding send_json_response
length-line r = simp length-append (omega arith)

-- The line and its terminator fit the buffer if no field needs a `\u` escape and if the identifier,
-- the type and the name, which the size does not count, have at most 218 bytes together.
pub send_json_response-fits :
    (r : Response)
    → IsText r.id
    → IsText (some r.type)
    → IsText r.env_id
    → IsText r.value
    → IsText r.message
    → IsText r.name
    → IsText r.data_text
    → size r.id + length r.type + size r.name ≤ 218
    → length (send_json_response r) + 1 ≤ buffer_size r
unfolding buffer_size
send_json_response-fits r hi ht he hv hm hn hd small = omega (
  arith,
  length-line r,
  length-id_part r.id hi,
  length-literal r.type,
  length-escape_text r.type ht,
  length-field_part (codes "env_id") r.env_id he,
  length-raw_part (codes "value") r.value r.value_is_raw hv,
  length-field_part (codes "message") r.message hm,
  length-field_part (codes "name") r.name hn,
  length-raw_part (codes "data") r.data_text r.data_is_raw hd,
  twice_length-size r.env_id,
  twice_length-size r.value,
  twice_length-size r.message,
  twice_length-size r.data_text,
)

le-id_part : (id : Bytes) → 0 < length id → length id + 8 ≤ length (id_part (some id))
unfolding id_part
le-id_part [] h = absurd (omega arith)
le-id_part (c ∷ s) h =
    simp (length-append, length-literal) (omega (arith, length-le-escape (c ∷ s)))

-- A response with no value, message, data or environment whose identifier has 500 bytes or more does
-- not fit the buffer that is allocated for it.
pub send_json_response-overflows :
    (r : Response) (id : Bytes)
    → r.id ≡ some id
    → 500 ≤ length id
    → r.env_id ≡ none
    → r.value ≡ none
    → r.message ≡ none
    → r.data_text ≡ none
    → buffer_size r < length (send_json_response r) + 1
unfolding buffer_size
send_json_response-overflows r id ei long ee ev em ed =
    let least : length id + 8 ≤ length (id_part r.id) = rw ei (le-id_part id (omega arith)) in
    let no_value : twice_length r.value ≡ 0 = rw ev (unfold twice_length in refl) in
    let no_message : twice_length r.message ≡ 0 = rw em (unfold twice_length in refl) in
    let no_data : twice_length r.data_text ≡ 0 = rw ed (unfold twice_length in refl) in
    let no_env : twice_length r.env_id ≡ 0 = rw ee (unfold twice_length in refl) in
    omega (arith, length-line r, length-literal r.type)
