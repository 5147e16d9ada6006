-- ===== src/Json/Object.antt =====
-- What a reader of JSON objects makes of the lines of `send_json_response`. The reader is written from the
-- grammar, for objects without white space whose values are string literals.
use cqjs.Prelude.{
  ℕ, zero, suc, Option, none, some, List, [], ◌∷◌, ◌++◌, length, append_assoc, append-nil, Bytes,
  codes, Bool, true, false, ◌==◌, if◌then◌else◌, ◌≡◌, refl, sym, ap, ◌∙◌,
}
use mathlib.Core.Path.{subst}
use cqjs.Json.{Response, json_escape_string, id_part, field_part, raw_part, send_json_response}
use cqjs.Json.Reader.{read_string}
use cqjs.Json.Escape.{read-json_escape}

abbrev pub Members : Type 0
Members = List (Bytes × Bytes)

abbrev pub with_key : Bytes → Option (Bytes × Bytes) → Option ((Bytes × Bytes) × Bytes)
with_key key none = none
with_key key (some (value, rest)) = some ((key, value), rest)

-- Behind the key of a member.
abbrev pub after_key : Option (Bytes × Bytes) → Option ((Bytes × Bytes) × Bytes)
after_key none = none
after_key (some (key, [])) = none
after_key (some (key, c ∷ s)) = if c == b':' then with_key key (read_string s) else none

abbrev pub with_member : Bytes × Bytes → Option Members → Option Members
with_member m none = none
with_member m (some ms) = some (m ∷ ms)

-- Behind a member: `,` and further members, or `}`, with which the line ends.
abbrev pub after_member :
    (Bytes → Option Members) → Option ((Bytes × Bytes) × Bytes) → Option Members
after_member more none = none
after_member more (some (m, [])) = none
after_member more (some (m, c ∷ [])) = if c == b'}' then some (m ∷ []) else none
after_member more (some (m, c ∷ d ∷ s)) = if c == b',' then with_member m (more (d ∷ s)) else none

abbrev pub read_members : ℕ → Bytes → Option Members
read_members zero s = none
read_members (suc fuel) s = after_member (read_members fuel) (after_key (read_string s))

-- An object with at least one member, and at most as many as the fuel.
abbrev pub read_object : ℕ → Bytes → Option Members
read_object fuel [] = none
read_object fuel (c ∷ s) = if c == b'{' then read_members fuel s else none

-- The members of a response that are given.
abbrev pub given : Bytes → Option Bytes → Members
given key none = []
given key (some s) = (key, s) ∷ []

abbrev pub given_id : Option Bytes → Members
given_id none = []
given_id (some []) = []
given_id (some (c ∷ s)) = (codes "id", c ∷ s) ∷ []

-- What follows the type.
abbrev pub later_members : Response → Members
later_members r =
    given (codes "env_id") r.env_id
    ++ (given (codes "value") r.value
        ++ (given (codes "message") r.message
            ++ (given (codes "name") r.name ++ given (codes "data") r.data_text)))

abbrev pub members : Response → Members
members r = given_id r.id ++ (codes "type", r.type) ∷ later_members r

-- A key that is written as it is.
abbrev IsKey : Bytes → Type 0
IsKey key = json_escape_string (some key) ≡ b'"' ∷ (key ++ b'"' ∷ [])

member :
    (key s rest : Bytes)
    → after_key (
        read_string (json_escape_string (some key) ++ b':' ∷ (json_escape_string (some s) ++ rest)))
      ≡ some ((key, s), rest)
member key s rest =
    rw (read-json_escape key (b':' ∷ (json_escape_string (some s) ++ rest)))
      (rw (read-json_escape s rest) refl)

-- The text behind a member continues the object with the members.
IsTail : Bytes → Members → Type 0
IsTail t ms =
    (m : Bytes × Bytes) → after_member (read_members (length ms)) (some (m, t)) ≡ some (m ∷ ms)

end-IsTail : IsTail (codes "}") []
unfolding IsTail
end-IsTail m = refl

field_text :
    (key l t : Bytes)
    → IsKey key
    → b'"' ∷ ((key ++ (b'"' ∷ b':' ∷ l)) ++ t) ≡ json_escape_string (some key) ++ b':' ∷ (l ++ t)
field_text key l t plain =
    ap (λ x. b'"' ∷ x)
      (append_assoc key (b'"' ∷ b':' ∷ l) t ∙ sym (append_assoc key (b'"' ∷ []) (b':' ∷ (l ++ t))))
    ∙ ap (λ x. x ++ b':' ∷ (l ++ t)) (sym plain)

field-IsTail :
    (key : Bytes) (s : Option Bytes) (t : Bytes) (ms : Members)
    → IsKey key
    → IsTail t ms
    → IsTail (field_part key s ++ t) (given key s ++ ms)
unfolding IsTail field_part
field-IsTail key none t ms plain h m = h m
field-IsTail key (some s) t ms plain h m =
    ap (λ x. with_member m (after_member (read_members (length ms)) (after_key (read_string x))))
      (field_text key (json_escape_string (some s)) t plain)
    ∙ ap (λ x. with_member m (after_member (read_members (length ms)) x)) (member key s t)
    ∙ ap (with_member m) (h (key, s))

raw-IsTail :
    (key : Bytes) (s : Option Bytes) (raw : Bool) (t : Bytes) (ms : Members)
    → IsKey key
    → raw ≡ false
    → IsTail t ms
    → IsTail (raw_part key s raw ++ t) (given key s ++ ms)
unfolding raw_part
raw-IsTail key none raw t ms plain text h = unfold IsTail in h
raw-IsTail key (some s) true t ms plain text h = cc
raw-IsTail key (some s) false t ms plain text h = field-IsTail key (some s) t ms plain h

-- What follows the type.
abbrev behind_type : Response → Bytes
behind_type r =
    field_part (codes "env_id") r.env_id
    ++ (raw_part (codes "value") r.value r.value_is_raw
        ++ (field_part (codes "message") r.message
            ++ (field_part (codes "name") r.name
                ++ (raw_part (codes "data") r.data_text r.data_is_raw ++ codes "}"))))

behind_type-IsTail :
    (r : Response)
    → r.value_is_raw ≡ false
    → r.data_is_raw ≡ false
    → IsTail (behind_type r) (later_members r)
unfolding json_escape_string
behind_type-IsTail r value_text data_text = field-IsTail (codes "env_id") r.env_id _ _ refl (
    raw-IsTail (codes "value") r.value r.value_is_raw _ _ refl value_text (
      field-IsTail (codes "message") r.message _ _ refl (
        field-IsTail (codes "name") r.name _ _ refl (
          subst (IsTail _) (append-nil (given (codes "data") r.data_text))
            (raw-IsTail (codes "data") r.data_text r.data_is_raw _ _ refl data_text end-IsTail)))))

type_read :
    (r : Response)
    → r.value_is_raw ≡ false
    → r.data_is_raw ≡ false
    → read_members
        (suc (length (later_members r)))
        (codes "\"type\":" ++ (json_escape_string (some r.type) ++ behind_type r))
      ≡ some ((codes "type", r.type) ∷ later_members r)
unfolding json_escape_string
type_read r value_text data_text =
    ap (after_member (read_members (length (later_members r))))
      (member (codes "type") r.type (behind_type r))
    ∙ (unfold IsTail in behind_type-IsTail r value_text data_text (codes "type", r.type))

id_read :
    (id : Option Bytes) (s : Bytes) (ms : Members)
    → read_members (length ms) (b'"' ∷ s) ≡ some ms
    → read_object (length (given_id id ++ ms)) (b'{' ∷ (id_part id ++ b'"' ∷ s))
      ≡ some (given_id id ++ ms)
unfolding id_part json_escape_string
id_read none s ms h = h
id_read (some []) s ms h = h
id_read (some (c ∷ cs)) s ms h =
    ap
      (λ x.
        after_member (read_members (length ms)) (after_key (read_string (codes "\"id\":" ++ x))))
      (append_assoc (json_escape_string (some (c ∷ cs))) (codes ",") (b'"' ∷ s))
    ∙ ap (after_member (read_members (length ms)))
        (member (codes "id") (c ∷ cs) (codes "," ++ b'"' ∷ s))
    ∙ ap (with_member (codes "id", c ∷ cs)) h

-- If the value and the data are not raw JSON, reading the line that is sent for a response as a JSON object
-- gives the members of the response that are given, in the order id, type, env_id, value, message, name,
-- data, each with its text as it was; an empty identifier counts as not given.
pub read_object-send_json_response :
    (r : Response)
    → r.value_is_raw ≡ false
    → r.data_is_raw ≡ false
    → read_object (length (members r)) (send_json_response r) ≡ some (members r)
unfolding send_json_response
read_object-send_json_response r value_text data_text =
    id_read r.id _ ((codes "type", r.type) ∷ later_members r) (type_read r value_text data_text)
