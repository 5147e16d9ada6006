-- ===== src/System.antt =====
-- The main thread and the threads of all environments together (main.c, env_manager.c). A step is the
-- handling of a line, of one request, or a run of pending jobs. The threads share the table of the
-- environments with their queues, and the bytecode cache, each under its mutex.
pub mod Client
pub mod Waits
pub mod Order
pub mod Responses
pub mod Example
mod Tests
use cqjs.Prelude.{length, ℕ, Bool, false, Option, none, some, List, [], ◌∷◌, Bytes, ◌≡◌}
use cqjs.Cache.{Cache}
use cqjs.Dispatch.{Tracker}
use cqjs.Queue.{Request, Queue, take_request}
use cqjs.Env.{JsEnv, EnvManager, Platform, env_find, change_env}
use cqjs.Server.{Parsed, Outcome, handle_request}
use cqjs.Eval.{Sent, Engine, World, Outside, handle_one, env_process_jobs}

pub record System {ℓ} (S : Type ℓ) : Type ℓ where
  pub manager : EnvManager S
  pub cache : Option Cache

-- What is seen from outside: a line with what the main thread sends for it, or what the thread of an
-- environment sends in a step.
pub data Act : Type 0 where
  line : Bytes → List Sent → Act
  thread : Bytes → List Sent → Act

-- The lines that were handled.
abbrev pub texts : List Act → List Bytes
texts [] = []
texts (line text sent ∷ acts) = text ∷ texts acts
texts (thread id sent ∷ acts) = texts acts

module _ {ℓ} {S : Type ℓ} where
  -- What an environment's thread works on: its engine with the dispatch tracker, and the shared cache.
  abbrev pub world_of : System S → JsEnv S → World (S × Tracker)
  world_of s e = record {
    engine_state = (e.engine, e.dispatch_tracker);
    cache = s.cache;
    sent = [];
  }

  abbrev pub put : World (S × Tracker) → Queue → JsEnv S → JsEnv S
  put w q e = record e {
    engine = w.engine_state.0;
    dispatch_tracker = w.engine_state.1;
    requests = q;
  }

  -- Behind a step of the thread of an environment.
  abbrev pub worked : System S → Bytes → World (S × Tracker) → Queue → System S
  worked s id w q = record {
    manager = record s.manager { environments = change_env (put w q) id s.manager.environments };
    cache = w.cache;
  }

  -- No queue has a node at the address.
  abbrev pub IsFree : EnvManager S → ℕ → Type ℓ
  IsFree mgr p = (id : Bytes) (e : JsEnv S) → env_find mgr id ≡ some e → e.requests.cell p ≡ none

  module _ {V F : Type ℓ} (engine : Engine (S × Tracker) V F) (platforms : ℕ → Platform S)
      (parse : Bytes → Parsed) where
    -- From one state to another, with what is seen on the way, in order. `platforms n` is what the
    -- platform answers while the line is handled behind which n more are.
    pub data Runs : System S → List Act → System S → Type ℓ where
      stays : {s : System S} → Runs s [] s
      handles :
          {s s' : System S} {acts : List Act} (text : Bytes) (p : ℕ)
          → IsFree s.manager p
          → (handle_request (platforms (length (texts acts))) parse p s.manager text).exited ≡ false
          → Runs
              (record s {
                manager =
                    (handle_request
                      (platforms (length (texts acts)))
                      parse
                      p
                      s.manager
                      text).manager;
              })
              acts
              s'
          → Runs s
              (line text
                  (handle_request (platforms (length (texts acts))) parse p s.manager text).sent
                ∷ acts)
              s'
      takes :
          {s s' : System S} {acts : List Act} (id : Bytes) (e : JsEnv S) (req : Request) (q : Queue)
          (out : Outside)
          → env_find s.manager id ≡ some e
          → take_request e.requests ≡ some (req, q)
          → Runs (worked s id (handle_one engine out req (world_of s e)) q) acts s'
          → Runs s (thread id (handle_one engine out req (world_of s e)).sent ∷ acts) s'
      works :
          {s s' : System S} {acts : List Act} (id : Bytes) (e : JsEnv S) (waiting : ℕ → Bool)
          → env_find s.manager id ≡ some e
          → Runs (worked s id (env_process_jobs engine waiting (world_of s e)) e.requests) acts s'
          → Runs s (thread id (env_process_jobs engine waiting (world_of s e)).sent ∷ acts) s'
