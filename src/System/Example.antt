-- ===== src/System/Example.antt =====
-- A system with one environment, and a request to it, for the tests.
use cqjs.Prelude.{
  ℕ, true, false, Option, none, some, List, [], ◌∷◌, Bytes, codes, str_eq, if◌then◌else◌,
  Bool-cases, inl, inr, ◌≡◌, refl, ap, arith,
}
use cqjs.Prelude.Int.{pos}
use cqjs.Dispatch.{Tracker, dt_init}
use cqjs.Queue.{
  Request, Queue, empty, update, take_request, env_submit_request, hook, unlink_node, tail_behind,
}
use cqjs.Queue.Fifo.{empty-Models}
use cqjs.Env.{JsEnv, Platform, env_find, find_env}
use cqjs.Env.Table.{IsValid}
use cqjs.Server.{Property, undefined, given, Parsed, object}
use cqjs.Eval.{Engine, Outside, idle, handle_one}
use cqjs.System.{System, Act, line, thread, IsFree, world_of, worked}
use cqjs.System.Waits.{Waits, present}

abbrev pub starting : ℕ → Platform ℕ
starting n = record {
  new_runtime = true;
  new_context = λ memory stack. true;
  thread_starts = true;
  boot = λ memory stack code. (0, dt_init, []);
}

abbrev pub repeating : Engine (ℕ × Tracker) Bytes Bytes
repeating = record {
  eval = λ code filename s. (s, [], some code);
  compile = λ code filename s. (s, [], some code);
  eval_function = λ f s. (s, [], some f);
  write_object = λ f s. (s, [], some f);
  read_object = λ bytes s. (s, [], some bytes);
  drop_exception = λ s. s;
  exception_text = λ s. (s, [], none);
  to_c_string = λ v s. (s, [], some v);
  execute_pending_job = λ s. (s, [], idle);
  tm_process_pending = λ s. (s, [], 0);
  fm_process_pending = λ s. (s, [], 0);
  read_file = λ path. none;
}

abbrev pub outside : Outside
outside = record { sha256 = none; held = λ b. b; now = 1; later = 2; waiting = λ n. false }

abbrev pub lx : JsEnv ℕ
lx = record {
  env_id = codes "lx";
  engine = 0;
  dispatch_tracker = dt_init;
  running = true;
  requests = empty;
  memory_limit_mb = pos 64;
  stack_size_mb = pos 8;
}

abbrev pub start : System ℕ
start = record { manager = record { environments = lx ∷ []; capacity = 16 }; cache = none }

pub start-IsValid : IsValid start.manager
start-IsValid = record {
  limited = omega arith;
  fits = omega arith;
  roomy = omega arith;
  distinct = (tt, tt);
}

pub start-Waits : Waits start.manager (codes "lx") []
unfolding env_find find_env
start-Waits = present lx [] refl empty-Models refl

pub start-IsFree : IsFree start.manager 100
unfolding env_find find_env empty
start-IsFree id e h = elim (Bool-cases (str_eq (codes "lx") id)) [
  | inl same ↦ ap (λ e. e.requests.cell 100) (found (rw same at h))
  | inr other ↦ absurd (lost (rw other at h))
]
  where
    found : ◌≡◌ {A = Option (JsEnv ℕ)} (some lx) (some e) → e ≡ lx
    found h = cc

    lost : ◌≡◌ {A = Option (JsEnv ℕ)} none (some e) → ⊥
    lost h = cc

abbrev pub text : Bytes → Property
text s = given (some s) (λ def. def)

-- The properties of `{"id":"7","type":"eval","env_id":"lx","code":"1+1"}`.
abbrev pub eval_object : Bytes → Property
eval_object key =
    if str_eq key (codes "id")
    then text (codes "7")
    else if str_eq key (codes "type")
    then text (codes "eval")
    else if str_eq key (codes "env_id")
    then text (codes "lx")
    else if str_eq key (codes "code")
    then text (codes "1+1")
    else undefined

abbrev pub parsing : Bytes → Parsed
parsing s = object eval_object

abbrev pub request : Request
request = record {
  request_id = some (codes "7");
  type = codes "eval";
  code = some (codes "1+1");
  filename = some (codes "<eval>");
  path = none;
}

abbrev pub submitted : JsEnv ℕ
submitted = record lx { requests = env_submit_request empty 100 request }

abbrev pub waiting : System ℕ
waiting = record start { manager = record start.manager { environments = submitted ∷ [] } }

-- The queue behind the removal of the request.
abbrev pub left : Queue
left = record {
  cell = update (update empty.cell 100 (some (record { content = request; next = none }))) 100 none;
  head = none;
  tail = none;
}

pub request_taken : take_request submitted.requests ≡ some (request, left)
unfolding empty update env_submit_request take_request hook unlink_node tail_behind
request_taken = refl

abbrev pub finished : System ℕ
finished =
    worked waiting (codes "lx") (handle_one repeating outside request (world_of waiting submitted))
      left

abbrev pub seen : List Act
seen =
    line (codes "{}") []
    ∷ thread (codes "lx") (handle_one repeating outside request (world_of waiting submitted)).sent
    ∷ []
