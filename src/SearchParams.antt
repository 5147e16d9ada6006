-- ===== src/SearchParams.antt =====
-- URLSearchParams (polyfill/url.c): the list of parameters, its parser and its methods. A method is given
-- the object's list, `none` if there is none, the number of its arguments and their texts, `none` where
-- `JS_ToCString` fails.
pub mod Laws
pub mod RoundTrip
mod Tests
use cqjs.Prelude.{
  ℕ, ◌+◌, Bool, true, false, Option, none, some, List, [], ◌∷◌, ◌++◌, Bytes, codes, ltb, ◌==◌,
  str_eq, if◌then◌else◌, cut,
}
use cqjs.Script.{Reply, null, exception, boolean, string}

pub record Param : Type 0 where
  pub key : Bytes
  pub text : Bytes

-- The two sides of `strchr(pair, '=')`.
param_of : Bytes × Option Bytes → Param
param_of (key, none) = record { key = key; text = [] }
param_of (key, some text) = record { key = key; text = text }

-- A token of `strtok_r` that is not empty is a pair.
unfoldable pub emit : Bytes → List Param → List Param
unfolding param_of cut
emit [] ps = ps
emit (c ∷ s) ps = param_of (cut b'=' (c ∷ s)) ∷ ps

-- The loop over the tokens; `token` is what was read of the current one.
unfoldable pub split_pairs : Bytes → Bytes → List Param
unfolding emit
split_pairs token [] = emit token []
split_pairs token (c ∷ s) =
    let rest = split_pairs [] s in
    let longer = split_pairs (token ++ c ∷ []) s in if c == b'&' then emit token rest else longer

-- `none` for NULL.
pub sp_parse : Option Bytes → List Param
sp_parse none = []
sp_parse (some []) = []
sp_parse (some (c ∷ s)) = if c == b'?' then split_pairs [] s else split_pairs [] (c ∷ s)

pub sp_find : Bytes → List Param → Option Bytes
sp_find key [] = none
sp_find key (p ∷ ps) = if str_eq p.key key then some p.text else sp_find key ps

text_or_null : Option Bytes → Reply
text_or_null none = null
text_or_null (some s) = string s

is_some : Option Bytes → Bool
is_some none = false
is_some (some s) = true

pub js_sp_get : Option (List Param) → ℕ → Option Bytes → Reply
unfolding text_or_null
js_sp_get none argc key = null
js_sp_get (some ps) argc none = if ltb argc 1 then null else exception
js_sp_get (some ps) argc (some key) = if ltb argc 1 then null else text_or_null (sp_find key ps)

pub js_sp_has : Option (List Param) → ℕ → Option Bytes → Reply
unfolding is_some
js_sp_has none argc key = boolean false
js_sp_has (some ps) argc none = if ltb argc 1 then boolean false else exception
js_sp_has (some ps) argc (some key) =
    if ltb argc 1 then boolean false else boolean (is_some (sp_find key ps))

-- The text of the first parameter with the key is replaced.
pub sp_update : Bytes → Bytes → List Param → List Param
sp_update key text [] = []
sp_update key text (p ∷ ps) =
    if str_eq p.key key then record p { text = text } ∷ ps else p ∷ sp_update key text ps

-- A new key goes to the head of the list.
pub sp_put : Bytes → Bytes → List Param → List Param
sp_put key text ps = elim (sp_find key ps) [
  | none ↦ record { key = key; text = text } ∷ ps
  | some old ↦ sp_update key text ps
]

pub sp_remove : Bytes → List Param → List Param
sp_remove key [] = []
sp_remove key (p ∷ ps) = if str_eq p.key key then sp_remove key ps else p ∷ sp_remove key ps

abbrev pub sp_add : Bytes → Bytes → List Param → List Param
sp_add key text ps = ps ++ record { key = key; text = text } ∷ []

-- The list behind a call of `set`, of `append` and of `delete`.
pub js_sp_set : List Param → ℕ → Option Bytes → Option Bytes → List Param
js_sp_set ps argc none text = ps
js_sp_set ps argc (some key) none = ps
js_sp_set ps argc (some key) (some text) = if ltb argc 2 then ps else sp_put key text ps

pub js_sp_append : List Param → ℕ → Option Bytes → Option Bytes → List Param
js_sp_append ps argc none text = ps
js_sp_append ps argc (some key) none = ps
js_sp_append ps argc (some key) (some text) = if ltb argc 2 then ps else sp_add key text ps

pub js_sp_delete : List Param → ℕ → Option Bytes → List Param
js_sp_delete ps argc none = ps
js_sp_delete ps argc (some key) = if ltb argc 1 then ps else sp_remove key ps

abbrev pub pair_text : Param → Bytes
pair_text p = p.key ++ (b'=' ∷ p.text)

-- The pairs behind the first, each after `&`.
unfoldable pub more_pairs : List Param → Bytes
more_pairs [] = []
more_pairs (p ∷ ps) = b'&' ∷ (pair_text p ++ more_pairs ps)

unfoldable pub sp_text : List Param → Bytes
unfolding more_pairs
sp_text [] = []
sp_text (p ∷ ps) = pair_text p ++ more_pairs ps

pub js_sp_to_string : Option (List Param) → Reply
unfolding sp_text
js_sp_to_string none = string []
js_sp_to_string (some ps) = string (sp_text ps)
