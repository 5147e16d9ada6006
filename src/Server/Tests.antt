-- ===== src/Server/Tests.antt =====
-- A line that is not JSON, and a request to an environment, with a parser that knows one line.
use cqjs.Prelude.{
  ◌≡◌, length, true, Option, none, some, [], ◌∷◌, Bytes, codes, str_eq, if◌then◌else◌, arith,
}
use cqjs.Prelude.Int.{pos}
use cqjs.Dispatch.{dt_init}
use cqjs.Env.{EnvManager, Platform, new_env}
use cqjs.Env.Table.{IsValid}
use cqjs.Json.{Response}
use cqjs.Json.Reader.{read_array}
use cqjs.Server.Listing.{handle_list_envs-reads}
use cqjs.Server.{
  handle_list_envs, reply, env_ids, Property, undefined, given, Parsed, invalid, object,
  handle_request,
}
use cqjs.Server.Answers.{Handled, handle_request-Handled}

abbrev logging : Platform (Option Bytes)
logging = record {
  new_runtime = true;
  new_context = λ memory stack. true;
  thread_starts = true;
  boot = λ memory stack code. (code, dt_init, []);
}

abbrev managing : EnvManager (Option Bytes)
managing = record {
  environments = new_env logging (codes "lx") none (pos 64) (pos 8) ∷ [];
  capacity = 16;
}

managing-IsValid : IsValid managing
managing-IsValid = record {
  limited = omega arith;
  fits = omega arith;
  roomy = omega arith;
  distinct = (tt, tt);
}

abbrev text : Bytes → Property
text s = given (some s) (λ def. def)

-- The properties of `{"id":"7","type":"eval","env_id":"lx","code":"1+1"}`.
abbrev eval_object : Bytes → Property
eval_object key =
    if str_eq key (codes "id")
    then text (codes "7")
    else if str_eq key (codes "type")
    then text (codes "eval")
    else if str_eq key (codes "env_id")
    then text (codes "lx")
    else if str_eq key (codes "code")
    then text (codes "1+1")
    else undefined

abbrev parsing : Bytes → Parsed
parsing line = if str_eq line (codes "{") then invalid none else object eval_object

handle_request-Handled_example :
    Handled managing 100
      (parsing (codes "{}"))
      (handle_request logging parsing 100 managing (codes "{}"))
handle_request-Handled_example =
    handle_request-Handled logging managing-IsValid 100 parsing (codes "{}")

handle_list_envs-reads_example :
    (r : Response) × (text : Bytes) × (handle_list_envs managing (some (codes "9"))
      ≡ reply managing r)
    × (r.id ≡ some (codes "9"))
    × (r.value ≡ some text)
    × (r.value_is_raw ≡ true)
    × (read_array (length managing.environments) text ≡ some (env_ids managing.environments, []))
handle_list_envs-reads_example = handle_list_envs-reads managing (some (codes "9"))
