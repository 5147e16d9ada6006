-- ===== src/System/Tests.antt =====
-- One environment; a request is submitted to it by a line, and its thread answers it.
use cqjs.Prelude.{◌+◌, false, [], ◌∷◌, codes, ◌≡◌, refl}
use cqjs.Env.{env_find, find_env, change_env}
use cqjs.Server.{
  submit, json_get_string, submit_to, handle_eval, handle_type, handle_parsed, handle_request,
}
use cqjs.Eval.{handle_one}
use cqjs.System.{thread, world_of, Runs, stays, handles, takes}
use cqjs.System.Example.{
  starting, repeating, outside, start, start-IsValid, start-Waits, start-IsFree, parsing, request,
  submitted, waiting, left, request_taken, finished, seen,
}
use cqjs.System.Order.{IsFollowed, Runs-IsFollowed}
use cqjs.Server.Alike.{Alike}
use cqjs.System.Responses.{IsAlone, Runs-IsAlone}

request_handled :
    handle_request (starting 0) parsing 100 start.manager (codes "{}")
    ≡ record { manager = waiting.manager; sent = []; exited = false }
unfolding handle_request handle_parsed handle_type handle_eval submit_to submit json_get_string
    env_find find_env change_env
request_handled = refl

answered :
    Runs repeating starting parsing waiting
      (thread (codes "lx") (handle_one repeating outside request (world_of waiting submitted)).sent
        ∷ [])
      finished
unfolding env_find find_env
answered = takes {s = waiting} (codes "lx") submitted request left outside refl request_taken stays

session : Runs repeating starting parsing start seen finished
unfolding handle_request handle_parsed handle_type handle_eval submit_to submit json_get_string
    env_find find_env change_env
session = handles {s = start} (codes "{}") 100 start-IsFree refl answered

Runs-IsFollowed_example : IsFollowed parsing (codes "lx") [] seen finished
Runs-IsFollowed_example =
    Runs-IsFollowed repeating starting parsing (codes "lx") [] start-IsValid start-Waits session

start-Alike : Alike start.manager start.manager
start-Alike = record { same = refl }

Runs-IsAlone_example : IsAlone starting parsing (λ n. 100 + n) start.manager seen finished
Runs-IsAlone_example =
    Runs-IsAlone starting parsing (λ n. 100 + n) repeating start.manager start-Alike session
