-- ===== src/Env.antt =====
-- The environment manager (env_manager.c, env_manager.h): the table of environments. Each operation
-- runs under the manager's mutex. The engine's state is of any type `S`.
pub mod Lookup
pub mod Table
pub mod Change
mod Tests
use cqjs.Prelude.{
  ℕ, zero, suc, ◌+◌, ◌-◌, ◌*◌, Bool, true, false, Option, none, some, List, [], ◌∷◌, ◌++◌, length,
  Bytes, leb, if◌then◌else◌, str_eq, ◌&&◌,
}
use cqjs.Prelude.Int.{ℤ}
use cqjs.Json.{Response}
use cqjs.Queue.{Queue, empty}
use cqjs.Dispatch.{Tracker, dt_init}

pub record JsEnv {ℓ} (S : Type ℓ) : Type ℓ where
  pub env_id : Bytes
  pub engine : S
  pub dispatch_tracker : Tracker
  pub running : Bool
  pub requests : Queue
  pub memory_limit_mb : ℤ
  pub stack_size_mb : ℤ

-- `count` is the length of the list; the array's slots are never NULL.
pub record EnvManager {ℓ} (S : Type ℓ) : Type ℓ where
  pub environments : List (JsEnv S)
  pub capacity : ℕ

abbrev pub max_environments : ℕ
max_environments = 64

-- What the platform answers to one call of `env_create`: a runtime, and a context within the limits, or
-- none, and whether the thread starts.
pub record Platform {ℓ} (S : Type ℓ) : Type ℓ where
  pub new_runtime : Bool
  pub new_context : ℤ → ℤ → Bool
  pub thread_starts : Bool
  -- The engine with the polyfills, after the given code, if any, and its pending jobs have run; it is
  -- given the limits. The code may have used the dispatch tracker, and sent events.
  pub boot : ℤ → ℤ → Option Bytes → S × Tracker × List Response

-- `init_code && init_code[0]`
pub given_code : Option Bytes → Option Bytes
given_code none = none
given_code (some []) = none
given_code (some (c ∷ s)) = some (c ∷ s)

-- What `env_create` leaves, gives and sends.
abbrev pub Creation {ℓ} : Type ℓ → Type ℓ
Creation S = EnvManager S × Option (JsEnv S) × List Response

module _ {ℓ} {S : Type ℓ} where
  unfoldable pub env_manager_init : EnvManager S
  env_manager_init = record { environments = []; capacity = 16 }

  unfoldable pub find_env : List (JsEnv S) → Bytes → Option (JsEnv S)
  find_env [] id = none
  find_env (e ∷ es) id = if str_eq e.env_id id then some e else find_env es id

  unfoldable pub env_find : EnvManager S → Bytes → Option (JsEnv S)
  env_find mgr id = find_env mgr.environments id

  unfoldable pub new_env : Platform S → Bytes → Option Bytes → ℤ → ℤ → JsEnv S
  new_env platform env_id init_code memory_limit_mb stack_size_mb =
      let (engine, tracker, events) =
        platform.boot memory_limit_mb stack_size_mb (given_code init_code) in
      record {
        env_id = env_id;
        engine = engine;
        dispatch_tracker = tracker;
        running = true;
        requests = empty;
        memory_limit_mb = memory_limit_mb;
        stack_size_mb = stack_size_mb;
      }

  -- The events that the initial code and its jobs send.
  unfoldable pub boot_events : Platform S → Option Bytes → ℤ → ℤ → List Response
  boot_events platform init_code memory_limit_mb stack_size_mb =
      (platform.boot memory_limit_mb stack_size_mb (given_code init_code)).2

  abbrev pub boots : Platform S → ℤ → ℤ → Bool
  boots platform memory_limit_mb stack_size_mb =
      platform.new_runtime && platform.new_context memory_limit_mb stack_size_mb

  -- The environment at the end of the array, which is doubled when it is full.
  unfoldable pub add_env : EnvManager S → JsEnv S → EnvManager S
  add_env mgr env = record {
    environments = mgr.environments ++ env ∷ [];
    capacity =
        if leb mgr.capacity (length mgr.environments) then mgr.capacity * 2 else mgr.capacity;
  }

  -- `none` for NULL; the last component is what is sent meanwhile. The thread is started behind the
  -- initial code.
  unfoldable pub env_create : Platform S → EnvManager S → Bytes → Option Bytes → ℤ → ℤ → Creation S
  env_create platform mgr env_id init_code memory_limit_mb stack_size_mb =
      let env = new_env platform env_id init_code memory_limit_mb stack_size_mb in
      let events = boot_events platform init_code memory_limit_mb stack_size_mb in
      let created : Creation S = (add_env mgr env, some env, events) in
      let started : Creation S = if platform.thread_starts then created else (mgr, none, events) in
      let booted : Creation S =
        if boots platform memory_limit_mb stack_size_mb then started else (mgr, none, []) in
      if leb max_environments (length mgr.environments)
      then (mgr, none, [])
      else elim (env_find mgr env_id) [ some e ↦ (mgr, none, []) | none ↦ booted ]

  unfoldable pub remove_env : Bytes → List (JsEnv S) → List (JsEnv S)
  remove_env id [] = []
  remove_env id (e ∷ es) = if str_eq e.env_id id then es else e ∷ remove_env id es

  -- The result is 0 or -1 of the source, as whether the environment was found.
  unfoldable pub env_destroy : EnvManager S → Bytes → EnvManager S × Bool
  env_destroy mgr id = elim (env_find mgr id) [
    | none ↦ (mgr, false)
    | some e ↦ (record mgr { environments = remove_env id mgr.environments }, true)
  ]

  pub env_manager_free : EnvManager S → EnvManager S
  env_manager_free mgr = record mgr { environments = [] }

  -- A change of one environment through the pointer that `env_find` returns.
  unfoldable pub change_env : (JsEnv S → JsEnv S) → Bytes → List (JsEnv S) → List (JsEnv S)
  change_env f id [] = []
  change_env f id (e ∷ es) = if str_eq e.env_id id then f e ∷ es else e ∷ change_env f id es
