-- ===== src/Bridge.antt =====
-- `js_env_cqjs_send` (env_manager.c): what the code of an environment sends. What the engine's JSON
-- parser gives is an argument; `JS_ToCString` writes undefined and null as these words.
pub mod Effects
mod Tests
use cqjs.Prelude.{
  ℕ, Bool, true, false, Option, none, some, List, [], ◌∷◌, Bytes, codes, ltb, str_eq, if◌then◌else◌,
}
use cqjs.Json.{Response}
use cqjs.Dispatch.{Tracker, dt_resolve, dt_reject}
use cqjs.Server.{Property, undefined, null, given, bare, message_or}

-- `JS_ToCString` of a property.
pub text_of : Property → Option Bytes
text_of undefined = some (codes "undefined")
text_of null = some (codes "null")
text_of (given text number) = text

-- `(err_str && err_str[0]) ? err_str : "unknown dispatch error"`
pub error_of : Option Bytes → Bytes
error_of none = codes "unknown dispatch error"
error_of (some []) = codes "unknown dispatch error"
error_of (some (c ∷ s)) = c ∷ s

resolve_id : Tracker → Option Bytes → Option Bytes → Tracker
resolve_id dt none result = dt
resolve_id dt (some id) result = dt_resolve dt id (some (message_or result (codes "null")))

reject_id : Tracker → Option Bytes → Option Bytes → Tracker
reject_id dt none error = dt
reject_id dt (some id) error = dt_reject dt id (some (error_of error))

-- The branches on `JS_IsObject(parsed)`.
pub on_response : Tracker → Option (Bytes → Property) → Tracker
on_response dt none = dt
on_response dt (some obj) =
    resolve_id dt (text_of (obj (codes "id"))) (text_of (obj (codes "data")))

pub on_error : Tracker → Option (Bytes → Property) → Tracker
on_error dt none = dt
on_error dt (some obj) = reject_id dt (text_of (obj (codes "id"))) (text_of (obj (codes "error")))

abbrev pub event_response : Bytes → Bytes → Bytes → Response
event_response env_id name data_str = record (bare none (codes "event")) {
  env_id = some env_id;
  name = some name;
  data_text = some data_str;
  data_is_raw = true;
}

-- The event with its name and its data, in an environment whose bridge data are there.
pub send_event :
    (Bytes → Option (Bytes → Property)) → Bytes → Tracker → Bytes → Bytes → Tracker × List Response
send_event parse env_id dt name data_str =
    if str_eq name (codes "response")
    then (on_response dt (parse data_str), [])
    else if str_eq name (codes "error")
    then (on_error dt (parse data_str), [])
    else (dt, event_response env_id name data_str ∷ [])

-- `argc`, and the texts of the two arguments; `bd` is the environment's identifier, `none` without bridge
-- data. The result is the tracker and what is sent.
pub js_env_cqjs_send :
    (Bytes → Option (Bytes → Property))
    → Option Bytes
    → Tracker
    → ℕ
    → Option Bytes
    → Option Bytes
    → Tracker × List Response
js_env_cqjs_send parse none dt argc name data_str = (dt, [])
js_env_cqjs_send parse (some env_id) dt argc none data_str = (dt, [])
js_env_cqjs_send parse (some env_id) dt argc (some name) none = (dt, [])
js_env_cqjs_send parse (some env_id) dt argc (some name) (some data_str) =
    if ltb argc 2 then (dt, []) else send_event parse env_id dt name data_str
