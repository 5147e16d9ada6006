-- ===== src/Bridge/Tests.antt =====
-- A pending request that code completes.
use cqjs.Prelude.{Option, some, [], ◌∷◌, Bytes, codes, str_eq, if◌then◌else◌, ◌≡◌, ◌≢◌, refl, arith}
use mathlib.Core.Option
use cqjs.Dispatch.{Tracker, dt_init, dt_new_request, dt_find, complete_value, complete_error}
use cqjs.Server.{Property, undefined, given, message_or}
use cqjs.Bridge.{text_of, error_of, event_response}
use cqjs.Bridge.Effects.{call, js_env_cqjs_send_lem}

-- The properties of `{"id":"d_1","data":"{}"}`, for any text.
abbrev completing : Bytes → Property
completing key =
    if str_eq key (codes "id")
    then given (some (codes "d_1")) (λ def. def)
    else if str_eq key (codes "data")
    then given (some (codes "{}")) (λ def. def)
    else undefined

abbrev parsing : Bytes → Option (Bytes → Property)
parsing line = some completing

abbrev pending : Tracker
pending = (dt_new_request dt_init).0

js_env_cqjs_send_lem_example :
    ((j : Bytes)
      → dt_find
          (call parsing pending (codes "lx") 2 (omega arith) (codes "{}") (codes "response")).0
          j
        ≡ (if str_eq (codes "d_1") j
            then Option.map
                (complete_value
                  (some (message_or (text_of (completing (codes "data"))) (codes "null"))))
                (dt_find pending j)
            else dt_find pending j))
    × ((j : Bytes)
        → dt_find
            (call parsing pending (codes "lx") 2 (omega arith) (codes "{}") (codes "error")).0
            j
          ≡ (if str_eq (codes "d_1") j
              then Option.map
                  (complete_error (some (error_of (text_of (completing (codes "error"))))))
                  (dt_find pending j)
              else dt_find pending j))
    × ((call parsing pending (codes "lx") 2 (omega arith) (codes "{}") (codes "response")).1 ≡ [])
    × ((call parsing pending (codes "lx") 2 (omega arith) (codes "{}") (codes "error")).1 ≡ [])
    × ((name : Bytes)
        → name ≢ codes "response"
        → name ≢ codes "error"
        → call parsing pending (codes "lx") 2 (omega arith) (codes "{}") name
          ≡ (pending, event_response (codes "lx") name (codes "{}") ∷ []))
unfolding text_of
js_env_cqjs_send_lem_example =
    js_env_cqjs_send_lem parsing pending (codes "lx") 2 (omega arith) (codes "{}") refl refl
