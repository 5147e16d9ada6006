-- ===== src/Eval.antt =====
-- The thread of an environment (env_manager.c): how it handles a request. The engine is an argument: each
-- of its operations changes its state, which includes the timers, the transfers and the dispatch tracker,
-- and may send events. A value that is an exception is `none`.
pub mod Answers
pub mod Thread
pub mod Loop
pub mod Cached
mod Tests
use cqjs.Prelude.{
  ℕ, zero, suc, Bool, true, false, Option, none, some, List, [], ◌∷◌, ◌++◌, map, Bytes, codes,
  str_eq, if◌then◌else◌, ◌&&◌, ◌==◌, not,
}
use cqjs.Json.{Response}
pub use cqjs.Json.{Sent, event, answer}
use cqjs.Cache.{Entry, Cache, bc_lookup, bc_insert, bc_compute_hash}
use cqjs.Queue.{Request}
use mathlib.Core.Option
use cqjs.Server.{bare, error_response, message_or, print}

abbrev pub Op {ℓ κ} : Type ℓ → Type κ → Type (ℓ ⊔ κ)
Op S R = S → S × List Response × R

-- The results of `JS_ExecutePendingJob`: negative, 0 and positive.
pub data Job : Type 0 where
  failed idle executed : Job

pub record Engine {ℓ} (S V F : Type ℓ) : Type ℓ where
  -- cqjs_eval, and the same with JS_EVAL_FLAG_COMPILE_ONLY, of a code under a file name
  pub eval : Bytes → Bytes → Op S (Option V)
  pub compile : Bytes → Bytes → Op S (Option F)
  pub eval_function : F → Op S (Option V)
  pub write_object : F → Op S (Option Bytes)
  pub read_object : Bytes → Op S (Option F)
  -- JS_GetException, freed at once or printed by JS_ToCString
  pub drop_exception : S → S
  pub exception_text : Op S (Option Bytes)
  pub to_c_string : V → Op S (Option Bytes)
  pub execute_pending_job : Op S Job
  pub tm_process_pending : Op S ℕ
  pub fm_process_pending : Op S ℕ
  -- cqjs_read_file
  pub read_file : Bytes → Option Bytes

-- The engine's state, the global cache, if there is one, and what was sent, the oldest first.
pub record World {ℓ} (S : Type ℓ) : Type ℓ where
  pub engine_state : S
  pub cache : Option Cache
  pub sent : List Sent

-- What handling a request takes from outside: the digest, the times, and the state of the queue. The
-- lock of the cache is free again when the bytecode that a lookup found is read: `held` gives what its
-- memory holds by then.
pub record Outside : Type 0 where
  pub sha256 : Option (Bytes → Bytes)
  pub held : Bytes → Bytes
  pub now : ℕ
  pub later : ℕ
  pub waiting : ℕ → Bool

module _ {ℓ} {S : Type ℓ} where
  pub perform {κ} : {R : Type κ} → Op S R → World S → World S × R
  perform op w =
      let (s, events, r) = op w.engine_state in
      (record w { engine_state = s; sent = w.sent ++ map event events }, r)

  pub send : Response → World S → World S
  send r w = record w { sent = w.sent ++ answer r ∷ [] }

  -- `if (bc_data && bc_len > 0) bc_insert(...)`
  pub store : ℕ → Bytes → Option Bytes → World S → World S
  store now hash none w = w
  store now hash (some []) w = w
  store now hash (some (b ∷ bytes)) w = record w {
    cache = Option.map (λ c. bc_insert now c hash (b ∷ bytes)) w.cache;
  }

  module _ {V F : Type ℓ} (engine : Engine S V F) where
    -- The response to a request whose code gave a value or an exception.
    pub respond : Option Bytes → Bytes → World S × Option V → World S
    respond id other (w, none) =
        let (w', text) = perform engine.exception_text w in
        send (error_response id (message_or text other)) w'
    respond id other (w, some v) =
        let (w', text) = perform (engine.to_c_string v) w in
        send (record (bare id (codes "result")) { value = text }) w'

    -- A hit: the bytecode is read and run; if it cannot be read, the code is evaluated.
    run_read : Bytes → Bytes → World S × Option F → World S × Option V
    run_read code filename (w, none) =
        perform (engine.eval code filename)
          (record w { engine_state = engine.drop_exception w.engine_state })
    run_read code filename (w, some f) = perform (engine.eval_function f) w

    -- A miss: the compiled code is written into the cache and run.
    run_compiled : ℕ → Bytes → World S × Option F → World S × Option V
    run_compiled now hash (w, none) = (w, none)
    run_compiled now hash (w, some f) =
        let (w', bytes) = perform (engine.write_object f) w in
        perform (engine.eval_function f) (store now hash bytes w')

    pub eval_found :
        (Bytes → Bytes)
        → ℕ
        → Bytes
        → Bytes
        → Bytes
        → Option Entry × Cache
        → World S
        → World S × Option V
    eval_found held now hash code filename (some e, cache) w =
        run_read code filename
          (perform (engine.read_object (held e.bytecode)) (record w { cache = some cache }))
    eval_found held now hash code filename (none, cache) w =
        run_compiled now hash
          (perform (engine.compile code filename) (record w { cache = some cache }))

    -- The branches on `g_bc_cache`; the cache is looked up and written at two times.
    pub eval_cached :
        Option (Bytes → Bytes)
        → (Bytes → Bytes)
        → ℕ
        → ℕ
        → Bytes
        → Bytes
        → World S
        → Option Cache
        → World S × Option V
    eval_cached sha256 held now later code filename w none = perform (engine.eval code filename) w
    eval_cached sha256 held now later code filename w (some cache) =
        let hash = bc_compute_hash sha256 code in
        eval_found held later hash code filename (bc_lookup now cache hash) w

    -- The job's exception is printed to the log.
    after_job : World S × Job → World S × Bool
    after_job (w, failed) = ((perform engine.exception_text w).0, false)
    after_job (w, idle) = (w, false)
    after_job (w, executed) = (w, true)

    -- A round of the loop; the answer is whether anything was done.
    pub job_round : World S → World S × Bool
    job_round w =
        let (w1, ran) = after_job (perform engine.execute_pending_job w) in
        let (w2, timers) = perform engine.tm_process_pending w1 in
        let (w3, fetches) = perform engine.fm_process_pending w2 in
        (w3, not (not ran && timers == 0 && fetches == 0))

    -- `waiting n` is whether a request is pending behind the round that leaves n more.
    pub job_rounds : (ℕ → Bool) → ℕ → World S → World S
    job_rounds waiting zero w = w
    job_rounds waiting (suc n) w =
        let (w', worked) = job_round w in
        let rest = job_rounds waiting n w' in
        if not worked then w' else if waiting n then w' else rest

    pub env_process_jobs : (ℕ → Bool) → World S → World S
    env_process_jobs waiting w = job_rounds waiting 100 w

    -- The branches on `req->code`.
    eval_code : Outside → Request → World S → Option Bytes → World S
    eval_code out req w none = send (error_response req.request_id (codes "eval: missing 'code'")) w
    eval_code out req w (some code) =
        let filename = message_or req.filename (codes "<eval>") in
        env_process_jobs out.waiting (
          respond req.request_id (codes "eval error")
            (eval_cached out.sha256 out.held out.now out.later code filename w w.cache))

    pub env_handle_eval : Outside → Request → World S → World S
    env_handle_eval out req w = eval_code out req w req.code

    -- The branches on the content that was read.
    eval_text : Outside → Request → World S → Bytes → Option Bytes → World S
    eval_text out req w path none =
        send
          (error_response req.request_id
            (print 512 (codes "eval_file: cannot read '") path (codes "'")))
          w
    eval_text out req w path (some text) =
        env_process_jobs out.waiting
          (respond req.request_id (codes "eval_file error") (perform (engine.eval text path) w))

    eval_path : Outside → Request → World S → Option Bytes → World S
    eval_path out req w none =
        send (error_response req.request_id (codes "eval_file: missing 'path'")) w
    eval_path out req w (some path) = eval_text out req w path (engine.read_file path)

    pub env_handle_eval_file : Outside → Request → World S → World S
    env_handle_eval_file out req w = eval_path out req w req.path

    -- The body of the loop of `env_event_loop` for one request.
    pub handle_one : Outside → Request → World S → World S
    handle_one out req w =
        if str_eq req.type (codes "eval")
        then env_handle_eval out req w
        else if str_eq req.type (codes "eval_file")
        then env_handle_eval_file out req w
        else send
            (error_response req.request_id
              (print 128 (codes "unknown request type for env: ") req.type []))
            w
