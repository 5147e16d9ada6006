-- ===== src/Host.antt =====
-- The whole process (main.c, env_manager.c): the reader's thread, the main thread, and the threads of all
-- environments.
pub mod Serves
mod Tests
use cqjs.Prelude.{length, ℕ, Bool, false, Option, none, some, List, [], ◌∷◌, Bytes, ◌≡◌}
use cqjs.Cache.{Cache}
use cqjs.Dispatch.{Tracker}
use cqjs.Queue.{Request, Queue, take_request}
use cqjs.Env.{JsEnv, Platform, env_find}
use cqjs.Server.{Parsed, handle_request}
use cqjs.Stdin.{Reader, stdin_reader_pop}
use cqjs.Eval.{Engine, Outside, handle_one, env_process_jobs}
use cqjs.Main.{Process, read_next, close_input, handled}
use cqjs.System.{System, Act, texts, line, thread, IsFree, world_of, worked}

pub record Host {ℓ} (S : Type ℓ) : Type ℓ where
  pub process : Process S
  pub cache : Option Cache

module _ {ℓ} {S : Type ℓ} where
  abbrev pub system_of : Host S → System S
  system_of h = record { manager = h.process.manager; cache = h.cache }

  -- Behind a step of the thread of an environment.
  abbrev pub with_system : Host S → System S → Host S
  with_system h s = record { process = record h.process { manager = s.manager }; cache = s.cache }

  module _ {V F : Type ℓ} (engine : Engine (S × Tracker) V F) (platforms : ℕ → Platform S)
      (parse : Bytes → Parsed) where
    -- From one state to another, with what is seen on the way, in order: the reader reads a piece, or
    -- ends at the end of the input; the main thread pops a line and handles it; the thread of an
    -- environment takes a request and handles it, or runs its jobs. `platforms n` is what the platform
    -- answers while the line is handled behind which n more are.
    pub data Executes : Host S → List Act → Host S → Type ℓ where
      stays : {h : Host S} → Executes h [] h
      reads :
          {h h' : Host S} {acts : List Act} (chunk : Bytes) (rest : List Bytes)
          → h.process.input ≡ chunk ∷ rest
          → Executes (record h { process = read_next h.process chunk rest }) acts h'
          → Executes h acts h'
      closes :
          {h h' : Host S} {acts : List Act}
          → h.process.input ≡ []
          → Executes (record h { process = close_input h.process }) acts h'
          → Executes h acts h'
      handles :
          {h h' : Host S} {acts : List Act} (reader : Reader) (text : Bytes) (p : ℕ)
          → stdin_reader_pop h.process.reader ≡ (reader, some text)
          → IsFree h.process.manager p
          → (handle_request (platforms (length (texts acts))) parse p h.process.manager text).exited
            ≡ false
          → Executes
              (record h {
                process = handled h.process reader (
                    handle_request
                      (platforms (length (texts acts)))
                      parse
                      p
                      h.process.manager
                      text);
              })
              acts
              h'
          → Executes h
              (line text
                  (handle_request
                    (platforms (length (texts acts)))
                    parse
                    p
                    h.process.manager
                    text).sent
                ∷ acts)
              h'
      takes :
          {h h' : Host S} {acts : List Act} (id : Bytes) (e : JsEnv S) (req : Request) (q : Queue)
          (out : Outside)
          → env_find h.process.manager id ≡ some e
          → take_request e.requests ≡ some (req, q)
          → Executes
              (with_system h
                (worked (system_of h) id (handle_one engine out req (world_of (system_of h) e)) q))
              acts
              h'
          → Executes h
              (thread id (handle_one engine out req (world_of (system_of h) e)).sent ∷ acts)
              h'
      works :
          {h h' : Host S} {acts : List Act} (id : Bytes) (e : JsEnv S) (waiting : ℕ → Bool)
          → env_find h.process.manager id ≡ some e
          → Executes
              (with_system h (
                worked
                  (system_of h)
                  id
                  (env_process_jobs engine waiting (world_of (system_of h) e))
                  e.requests))
              acts
              h'
          → Executes h
              (thread id (env_process_jobs engine waiting (world_of (system_of h) e)).sent ∷ acts)
              h'
