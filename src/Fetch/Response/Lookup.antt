-- ===== src/Fetch/Response/Lookup.antt =====
-- What a script reads of the header lines that a server sent.
use cqjs.Prelude.{
  Bool, false, true, not, Bool-cases, Option, none, some, List, [], ◌∷◌, ◌++◌, map, append_assoc,
  append-nil, All, Bytes, codes, str_eq, str_eq_sound, if◌then◌else◌, ◌≡◌, ◌≢◌, refl, sym, ap, ◌∙◌,
  inl, inr,
}
use cqjs.Script.{Arg, Reply, undefined, null, boolean, string, c_str-whole, lowercase}
use cqjs.Fetch.{HeaderPair}
use cqjs.Fetch.Header.{HeaderBuf, add_header}
use cqjs.Fetch.Header.Lines.{IsHeader, line_of, lowered, curl_header_cb-line}
use cqjs.Fetch.Transfer.{receive_headers}
use cqjs.Fetch.Response.{
  Object, set_property, get_property, set_headers, headers_object, js_headers_get, js_headers_has,
  get_value, has_value, or_null, is_undefined,
}

receive_headers-lines :
    (hb : HeaderBuf) (hs : List HeaderPair)
    → All IsHeader hs
    → (receive_headers hb (map line_of hs)).headers ≡ hb.headers ++ map lowered hs
unfolding receive_headers
receive_headers-lines hb [] h = sym (append-nil hb.headers)
receive_headers-lines hb (x ∷ hs) (hx, h) =
    let later : (receive_headers (add_header hb (lowered x)) (map line_of hs)).headers
        ≡ hb.headers ++ (lowered x ∷ map lowered hs) =
      receive_headers-lines (add_header hb (lowered x)) hs h
      ∙ (unfold add_header in append_assoc hb.headers (lowered x ∷ []) (map lowered hs)) in
    ap (λ b. (receive_headers b (map line_of hs)).headers) (curl_header_cb-line hb x hx) ∙ later

abbrev or_else : Option Bytes → Option Bytes → Option Bytes
or_else (some v) o = some v
or_else none o = o

-- The value of the last header whose name is the given one up to case.
unfoldable pub header_value : List HeaderPair → Bytes → Option Bytes
header_value [] name = none
header_value (h ∷ hs) name =
    or_else (header_value hs name)
      (if str_eq (lowercase h.key) (lowercase name) then some h.value else none)

get_property-set :
    (proto : Bytes → Reply) (obj : Object) (k : Bytes) (v : Reply) (key : Bytes)
    → get_property proto (set_property obj k v) key
      ≡ (if str_eq k key then v else get_property proto obj key)
unfolding get_property set_property
get_property-set proto [] k v key = refl
get_property-set proto ((j, w) ∷ ps) k v key = elim (Bool-cases (str_eq j k)) [
  | inl e ↦ rw e (rw (str_eq_sound j k e) (same (str_eq k key)))
  | inr e ↦
      rw (e, get_property-set proto ps k v key)
        (elim (Bool-cases (str_eq k key)) [
          | inl f ↦ rw (f, ← str_eq_sound k key f, e) refl
          | inr f ↦ rw f refl
        ])
]
  where
    same :
        (b : Bool)
        → (if b then v else get_property proto ps key)
          ≡ (if b then v else (if b then w else get_property proto ps key))
    same true = refl
    same false = refl

abbrev value_or : Reply → Option Bytes → Reply
value_or d none = d
value_or d (some v) = string v

value_or-else :
    (d : Reply) (o : Option Bytes) (b : Bool) (v : Bytes)
    → value_or (if b then string v else d) o ≡ value_or d (or_else o (if b then some v else none))
value_or-else d (some w) b v = refl
value_or-else d none true v = refl
value_or-else d none false v = refl

get_property-headers :
    (proto : Bytes → Reply) (obj : Object) (hs : List HeaderPair) (name : Bytes)
    → get_property proto (set_headers obj (map lowered hs)) (lowercase name)
      ≡ value_or (get_property proto obj (lowercase name)) (header_value hs name)
unfolding set_headers header_value
get_property-headers proto obj [] name = refl
get_property-headers proto obj (h ∷ hs) name =
    rw
      (
        get_property-headers proto (set_property obj (lowercase h.key) (string h.value)) hs name,
        get_property-set proto obj (lowercase h.key) (string h.value) (lowercase name),
      )
      (value_or-else _ (header_value hs name) _ h.value)

abbrev pub reply_of : Option Bytes → Reply
reply_of none = null
reply_of (some v) = string v

abbrev pub is_some : Option Bytes → Bool
is_some none = false
is_some (some v) = true

answer_of :
    (o : Option Bytes)
    → (or_null (value_or undefined o) ≡ reply_of o)
      × (boolean (not (is_undefined (value_or undefined o))) ≡ boolean (is_some o))
unfolding or_null is_undefined
answer_of none = (refl, refl)
answer_of (some v) = (refl, refl)

-- The response's headers when the server sent the lines of the given ones.
abbrev pub received : List HeaderPair → Object
received hs =
    headers_object (receive_headers (record { headers = []; cap = 0 }) (map line_of hs)).headers

module _ (proto : Bytes → Reply) (hs : List HeaderPair) (name : Bytes) where
  found :
      All IsHeader hs
      → str_eq (codes "get") (lowercase name) ≡ false
      → str_eq (codes "has") (lowercase name) ≡ false
      → get_property proto (received hs) (lowercase name)
        ≡ value_or (proto (lowercase name)) (header_value hs name)
  unfolding headers_object
  found h g s =
      rw (receive_headers-lines _ hs h, get_property-set, s, get_property-set, g)
        (unfold get_property in get_property-headers proto [] hs name)

  -- If the server sends the lines of headers whose names hold no `:`, `/` or 0 and whose values hold
  -- no 0, do not begin with a space and do not end with a line break, then get answers a name without
  -- 0, other than get and has, that the prototype does not have, with the value of the last header of
  -- that name up to case, or null if there is none, and has answers whether there is one.
  pub js_headers-lookup :
      (others : List Arg) (b : Option Bytes)
      → All IsHeader hs
      → All (λ c. c ≢ 0) name
      → str_eq (codes "get") (lowercase name) ≡ false
      → str_eq (codes "has") (lowercase name) ≡ false
      → proto (lowercase name) ≡ undefined
      → (js_headers_get proto (received hs) (record { buffer = b; text = some name } ∷ others)
          ≡ reply_of (header_value hs name))
        × (js_headers_has proto (received hs) (record { buffer = b; text = some name } ∷ others)
            ≡ boolean (is_some (header_value hs name)))
  unfolding js_headers_get js_headers_has get_value has_value
  js_headers-lookup others b h whole g s missing =
      rw (c_str-whole name whole, found h g s, missing) (answer_of (header_value hs name))
