-- ===== src/Eval/Answers.antt =====
-- Every request that an environment takes is answered exactly once, in the order of the queue.
use cqjs.Prelude.{
  ℕ, zero, suc, Bool, Option, none, some, List, [], ◌∷◌, ◌++◌, append-nil, Bytes, codes, str_eq,
  Bool-cases, inl, inr, ◌≡◌, refl, ap, ◌∙◌, arith,
}
use cqjs.Json.{Response}
pub use cqjs.Json.Answered.{answers}
use cqjs.Json.Answered.{answers-append, answers-events}
use cqjs.Cache.{Entry, Cache}
use cqjs.Queue.{Request}
use cqjs.Eval.{
  answer, Op, Engine, World, Job, failed, idle, executed, perform, send, respond, store, run_read,
  run_compiled, eval_found, eval_cached, after_job, job_round, job_rounds, env_process_jobs,
  Outside, env_handle_eval, env_handle_eval_file, eval_code, eval_text, eval_path, handle_one,
}

module _ {ℓ} {S : Type ℓ} where
  abbrev pub log : World S → List Response
  log w = answers w.sent

  -- Operations of the engine answer nothing.
  log-perform {κ} : {R : Type κ} (op : Op S R) (w : World S) → log (perform op w).0 ≡ log w
  unfolding perform
  log-perform op w =
      let (s, events, r) = op w.engine_state in rw (answers-append, answers-events, append-nil) refl

  log-send : (r : Response) (w : World S) → log (send r w) ≡ log w ++ r ∷ []
  unfolding send
  log-send r w = answers-append w.sent (answer r ∷ [])

  log-send_after {κ} :
      {R : Type κ} (op : Op S R) (r : Response) (w : World S)
      → log (send r (perform op w).0) ≡ log w ++ r ∷ []
  log-send_after op r w = log-send r (perform op w).0 ∙ ap (λ l. l ++ r ∷ []) (log-perform op w)

  log-store :
      (now : ℕ) (hash : Bytes) (bytes : Option Bytes) (w : World S)
      → log (store now hash bytes w) ≡ log w
  unfolding store
  log-store now hash none w = refl
  log-store now hash (some []) w = refl
  log-store now hash (some (b ∷ bytes)) w = refl

  -- One answer, with the identifier, is sent more.
  abbrev pub IsAnswered : Option Bytes → World S → World S → Type 0
  IsAnswered id w w' = (r : Response) × (log w' ≡ log w ++ r ∷ []) × (r.id ≡ id)

  module _ {V F : Type ℓ} (engine : Engine S V F) where
    respond-IsAnswered :
        (id : Option Bytes) (other : Bytes) (x : World S × Option V)
        → IsAnswered id x.0 (respond engine id other x)
    unfolding respond
    respond-IsAnswered id other (w, none) = (_, log-send_after engine.exception_text _ w, refl)
    respond-IsAnswered id other (w, some v) = (_, log-send_after (engine.to_c_string v) _ w, refl)

    log-run_read :
        (code filename : Bytes) (x : World S × Option F)
        → log (run_read engine code filename x).0 ≡ log x.0
    unfolding run_read
    log-run_read code filename (w, none) = log-perform _ _
    log-run_read code filename (w, some f) = log-perform _ _

    log-run_compiled :
        (now : ℕ) (hash : Bytes) (x : World S × Option F)
        → log (run_compiled engine now hash x).0 ≡ log x.0
    unfolding run_compiled
    log-run_compiled now hash (w, none) = refl
    log-run_compiled now hash (w, some f) = log-perform _ _ ∙ log-store _ _ _ _ ∙ log-perform _ _

    log-eval_found :
        (held : Bytes → Bytes) (later : ℕ) (hash code filename : Bytes) (x : Option Entry × Cache)
        (w : World S)
        → log (eval_found engine held later hash code filename x w).0 ≡ log w
    unfolding eval_found
    log-eval_found held later hash code filename (some e, cache) w =
        log-run_read _ _ _ ∙ log-perform _ _
    log-eval_found held later hash code filename (none, cache) w =
        log-run_compiled _ _ _ ∙ log-perform _ _

    log-eval_cached :
        (sha256 : Option (Bytes → Bytes)) (held : Bytes → Bytes) (now later : ℕ)
        (code filename : Bytes) (w : World S) (cache : Option Cache)
        → log (eval_cached engine sha256 held now later code filename w cache).0 ≡ log w
    unfolding eval_cached
    log-eval_cached sha256 held now later code filename w none = log-perform _ w
    log-eval_cached sha256 held now later code filename w (some cache) =
        log-eval_found _ _ _ _ _ _ w

    log-after_job : (x : World S × Job) → log (after_job engine x).0 ≡ log x.0
    unfolding after_job
    log-after_job (w, failed) = log-perform _ _
    log-after_job (w, idle) = refl
    log-after_job (w, executed) = refl

    log-job_round : (w : World S) → log (job_round engine w).0 ≡ log w
    unfolding job_round
    log-job_round w = log-perform _ _ ∙ log-perform _ _ ∙ log-after_job _ ∙ log-perform _ _

    log-job_rounds :
        (waiting : ℕ → Bool) (n : ℕ) (w : World S) → log (job_rounds engine waiting n w) ≡ log w
    unfolding job_rounds
    log-job_rounds waiting zero w = refl
    log-job_rounds waiting (suc n) w =
        ground (arith, log-job_round w, log-job_rounds waiting n (job_round engine w).0)

    pub log-process_jobs :
        (waiting : ℕ → Bool) (w : World S) → log (env_process_jobs engine waiting w) ≡ log w
    unfolding env_process_jobs
    log-process_jobs waiting w = log-job_rounds waiting 100 w

    -- The response to a value, and the jobs behind it.
    finished-IsAnswered :
        (out : Outside) (id : Option Bytes) (other : Bytes) (w : World S) (x : World S × Option V)
        → log x.0 ≡ log w
        → IsAnswered id w (env_process_jobs engine out.waiting (respond engine id other x))
    finished-IsAnswered out id other w x same =
        let (r, sent, is) = respond-IsAnswered id other x in
        (r, log-process_jobs _ _ ∙ sent ∙ ap (λ l. l ++ r ∷ []) same, is)

    sent-IsAnswered : (r : Response) (w : World S) → IsAnswered r.id w (send r w)
    sent-IsAnswered r w = (r, log-send r w, refl)

    code-IsAnswered :
        (out : Outside) (req : Request) (w : World S) (code : Option Bytes)
        → IsAnswered req.request_id w (eval_code engine out req w code)
    unfolding eval_code
    code-IsAnswered out req w none = sent-IsAnswered _ w
    code-IsAnswered out req w (some code) =
        finished-IsAnswered out req.request_id _ w _ (log-eval_cached _ _ _ _ code _ w w.cache)

    text-IsAnswered :
        (out : Outside) (req : Request) (w : World S) (path : Bytes) (text : Option Bytes)
        → IsAnswered req.request_id w (eval_text engine out req w path text)
    unfolding eval_text
    text-IsAnswered out req w path none = sent-IsAnswered _ w
    text-IsAnswered out req w path (some text) =
        finished-IsAnswered out req.request_id _ w _ (log-perform _ w)

    path-IsAnswered :
        (out : Outside) (req : Request) (w : World S) (path : Option Bytes)
        → IsAnswered req.request_id w (eval_path engine out req w path)
    unfolding eval_path
    path-IsAnswered out req w none = sent-IsAnswered _ w
    path-IsAnswered out req w (some path) = text-IsAnswered out req w path _

    -- Handling a request sends exactly one answer, which has the request's identifier; all else that is
    -- sent meanwhile are events.
    pub handle_one-IsAnswered :
        (out : Outside) (req : Request) (w : World S)
        → IsAnswered req.request_id w (handle_one engine out req w)
    unfolding handle_one
    handle_one-IsAnswered out req w = elim (Bool-cases (str_eq req.type (codes "eval"))) [
      | inl is ↦ rw is (unfold env_handle_eval in code-IsAnswered out req w req.code)
      | inr other ↦ rw other (elim (Bool-cases (str_eq req.type (codes "eval_file"))) [
        | inl is ↦ rw is (unfold env_handle_eval_file in path-IsAnswered out req w req.path)
        | inr unknown ↦ rw unknown (sent-IsAnswered _ w)
      ])
    ]
