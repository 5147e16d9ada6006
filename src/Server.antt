-- ===== src/Server.antt =====
-- The handling of a request line (main.c). What the engine's JSON parser gives is an argument; a string
-- is a list of bytes, and `snprintf` into a buffer of n bytes keeps the first n - 1.
pub mod Listing
pub mod Handling
pub mod Alike
pub mod Agreed
pub mod Answers
pub mod Serve
mod Tests
use cqjs.Prelude.{
  ℕ, ◌+◌, ◌-◌, ◌*◌, Bool, true, false, Option, none, some, List, [], ◌∷◌, ◌++◌, length, take, Bytes,
  codes, str_eq, if◌then◌else◌,
}
use cqjs.Prelude.Int.{ℤ, pos}
use cqjs.Json.{Response, Sent, answer, json_escape_string}
use cqjs.Json.Answered.{after_events}
use cqjs.Queue.{Request, env_submit_request}
use cqjs.Env.{JsEnv, EnvManager, Platform, env_create, env_destroy, env_find, change_env, Creation}

-- A property of the parsed object. A value that is neither undefined nor null has what `JS_ToCString`
-- gives, and what `JS_ToInt64` leaves in the result in place of the default.
pub data Property : Type 0 where
  undefined null : Property
  given : Option Bytes → (ℤ → ℤ) → Property

-- What `JS_ParseJSON` gives: an exception with its text, or the properties of a value.
pub data Parsed : Type 0 where
  invalid : Option Bytes → Parsed
  object : (Bytes → Property) → Parsed

unfoldable pub string_of : Property → Option Bytes
string_of undefined = none
string_of null = none
string_of (given text number) = text

int64_of : ℤ → Property → ℤ
int64_of def undefined = def
int64_of def null = def
int64_of def (given text number) = number def

unfoldable pub json_get_string : (Bytes → Property) → Bytes → Option Bytes
unfolding string_of
json_get_string obj key = string_of (obj key)

pub json_get_int64 : (Bytes → Property) → Bytes → ℤ → ℤ
unfolding int64_of
json_get_int64 obj key def = int64_of def (obj key)

abbrev pub bare : Option Bytes → Bytes → Response
bare id type = record {
  id = id;
  type = type;
  env_id = none;
  value = none;
  value_is_raw = false;
  message = none;
  name = none;
  data_text = none;
  data_is_raw = false;
}

abbrev pub error_response : Option Bytes → Bytes → Response
error_response id message = record (bare id (codes "error")) { message = some message }

-- The message of an exception, or another text if it has none.
abbrev pub message_or : Option Bytes → Bytes → Bytes
message_or none other = other
message_or (some s) other = s

-- snprintf(errmsg, size, "<before>%s<after>", s)
abbrev pub print : ℕ → Bytes → Bytes → Bytes → Bytes
print size before s after = take (size - 1) (before ++ (s ++ after))

-- The array that `list_envs` writes: the literals of the identifiers, with commas between.
pub list_rest : List Bytes → Bytes
list_rest [] = codes "]"
list_rest (id ∷ ids) = codes "," ++ (json_escape_string (some id) ++ list_rest ids)

pub list_text : List Bytes → Bytes
list_text [] = codes "[]"
list_text (id ∷ ids) = codes "[" ++ (json_escape_string (some id) ++ list_rest ids)

-- What handling a line does: the manager behind it, what is sent, and whether the process exits.
pub record Outcome {ℓ} (S : Type ℓ) : Type ℓ where
  pub manager : EnvManager S
  pub sent : List Sent
  pub exited : Bool

module _ {ℓ} {S : Type ℓ} where
  abbrev pub reply : EnvManager S → Response → Outcome S
  reply mgr r = record { manager = mgr; sent = answer r ∷ []; exited = false }

  abbrev pub reply_after : EnvManager S → List Response → Response → Outcome S
  reply_after mgr events r = record { manager = mgr; sent = after_events events r; exited = false }

  unfoldable pub env_ids : List (JsEnv S) → List Bytes
  env_ids [] = []
  env_ids (e ∷ es) = e.env_id ∷ env_ids es

  -- The node of the queue is allocated at the address `p`.
  unfoldable pub submit : ℕ → Request → EnvManager S → Bytes → EnvManager S
  submit p req mgr env_id = record mgr {
    environments =
        change_env (λ e. record e { requests = env_submit_request e.requests p req }) env_id
          mgr.environments;
  }

  -- `env_find`, and the submission to the environment or the error response.
  unfoldable pub submit_to : ℕ → EnvManager S → Option Bytes → Bytes → Bytes → Request → Outcome S
  submit_to p mgr id env_id before req = elim (env_find mgr env_id) [
    | none ↦ reply mgr (error_response id (print 256 before env_id (codes "' not found")))
    | some e ↦ record { manager = submit p req mgr env_id; sent = []; exited = false }
  ]

  created : Option Bytes → Bytes → Creation S → Outcome S
  created id env_id (mgr, none, events) = reply_after mgr events (
      error_response id
        (print 256 (codes "create_env: failed to create environment '") env_id (codes "'")))
  created id env_id (mgr, some e, events) =
      reply_after mgr events (record (bare id (codes "result")) { env_id = some env_id })

  pub handle_create_env : Platform S → EnvManager S → Option Bytes → (Bytes → Property) → Outcome S
  unfolding created
  handle_create_env platform mgr id obj = elim (json_get_string obj (codes "env_id")) [
    | none ↦ reply mgr (error_response id (codes "create_env: missing 'env_id'"))
    | some env_id ↦ created id env_id (
        env_create platform mgr env_id (json_get_string obj (codes "init_code"))
          (json_get_int64 obj (codes "memory_limit") (pos 0))
          (json_get_int64 obj (codes "stack_size") (pos 0)))
  ]

  destroyed : Option Bytes → Bytes → EnvManager S × Bool → Outcome S
  destroyed id env_id (mgr, true) = reply mgr (record (bare id (codes "result")) {
    env_id = some env_id;
    message = some (codes "destroyed");
  })
  destroyed id env_id (mgr, false) = reply mgr (
      error_response id
        (print 256 (codes "destroy_env: environment '") env_id (codes "' not found")))

  pub handle_destroy_env : EnvManager S → Option Bytes → (Bytes → Property) → Outcome S
  unfolding destroyed
  handle_destroy_env mgr id obj = elim (json_get_string obj (codes "env_id")) [
    | none ↦ reply mgr (error_response id (codes "destroy_env: missing 'env_id'"))
    | some env_id ↦ destroyed id env_id (env_destroy mgr env_id)
  ]

  pub handle_list_envs : EnvManager S → Option Bytes → Outcome S
  unfolding list_text env_ids
  handle_list_envs mgr id = reply mgr (record (bare id (codes "result")) {
    value = some (list_text (env_ids mgr.environments));
    value_is_raw = true;
  })

  unfoldable pub handle_eval : ℕ → EnvManager S → Option Bytes → (Bytes → Property) → Outcome S
  handle_eval p mgr id obj = elim (json_get_string obj (codes "env_id")) [
    | none ↦ reply mgr (error_response id (codes "eval: missing 'env_id'"))
    | some env_id ↦ elim (json_get_string obj (codes "code")) [
      | none ↦ reply mgr (error_response id (codes "eval: missing 'code'"))
      | some code ↦ submit_to p mgr id env_id (codes "eval: environment '") (record {
        request_id = id;
        type = codes "eval";
        code = some code;
        filename = some (message_or (json_get_string obj (codes "filename")) (codes "<eval>"));
        path = none;
      })
    ]
  ]

  pub handle_eval_file : ℕ → EnvManager S → Option Bytes → (Bytes → Property) → Outcome S
  handle_eval_file p mgr id obj = elim (json_get_string obj (codes "env_id")) [
    | none ↦ reply mgr (error_response id (codes "eval_file: missing 'env_id'"))
    | some env_id ↦ elim (json_get_string obj (codes "path")) [
      | none ↦ reply mgr (error_response id (codes "eval_file: missing 'path'"))
      | some path ↦ submit_to p mgr id env_id (codes "eval_file: environment '") (record {
        request_id = id;
        type = codes "eval_file";
        code = none;
        filename = none;
        path = some path;
      })
    ]
  ]

  pub handle_exit : EnvManager S → Option Bytes → Outcome S
  handle_exit mgr id = record {
    manager = mgr;
    sent = answer (bare id (codes "result")) ∷ [];
    exited = true;
  }

  unfoldable pub handle_type :
      Platform S → ℕ → EnvManager S → Option Bytes → Bytes → (Bytes → Property) → Outcome S
  handle_type platform p mgr id type obj =
      if str_eq type (codes "create_env")
      then handle_create_env platform mgr id obj
      else if str_eq type (codes "destroy_env")
      then handle_destroy_env mgr id obj
      else if str_eq type (codes "list_envs")
      then handle_list_envs mgr id
      else if str_eq type (codes "eval")
      then handle_eval p mgr id obj
      else if str_eq type (codes "eval_file")
      then handle_eval_file p mgr id obj
      else if str_eq type (codes "exit")
      then handle_exit mgr id
      else reply mgr (error_response id (print 128 (codes "unknown request type: ") type []))

  unfoldable pub handle_parsed : Platform S → ℕ → EnvManager S → Parsed → Outcome S
  handle_parsed platform p mgr (invalid message) =
      reply mgr (error_response none (message_or message (codes "invalid JSON")))
  handle_parsed platform p mgr (object obj) = elim (json_get_string obj (codes "type")) [
    | none ↦
        reply mgr (error_response (json_get_string obj (codes "id")) (codes "missing 'type' field"))
    | some type ↦ handle_type platform p mgr (json_get_string obj (codes "id")) type obj
  ]

  unfoldable pub handle_request :
      Platform S → (Bytes → Parsed) → ℕ → EnvManager S → Bytes → Outcome S
  handle_request platform parse p mgr line = handle_parsed platform p mgr (parse line)

  -- The loop of `main` over the lines that the reader hands out; `fresh n` is the address for a node
  -- that is allocated with n lines to go, and `platforms n` what the platform answers then. Exiting
  -- ends the loop; the rest of the lines is not handled.
  unfoldable pub serve :
      (ℕ → Platform S)
      → (Bytes → Parsed)
      → (ℕ → ℕ)
      → EnvManager S
      → List Bytes
      → EnvManager S × List Sent
  serve platforms parse fresh mgr [] = (mgr, [])
  serve platforms parse fresh mgr (line ∷ lines) =
      let n = length lines in
      let o = handle_request (platforms n) parse (fresh n) mgr line in
      let rest = serve platforms parse fresh o.manager lines in
      if o.exited then (o.manager, o.sent) else (rest.0, o.sent ++ rest.1)
