-- ===== src/Eval/Loop.antt =====
-- The loop of an environment's thread (`env_event_loop` of env_manager.c). What `poll` answers only
-- ends the wait. The main thread may submit requests at any time: `arrivals n` are those, with their
-- addresses, that it submits before the thread takes a request for the n-th time.
pub mod Emptied
use cqjs.Prelude.{
  ◌≢◌, All-append_inv, ℕ, zero, suc, ◌+◌, ◌<◌, ◌≤◌, Bool, Option, none, some, List, [], ◌∷◌, ◌++◌,
  map, length, length-append, append_assoc, append-nil, Bytes, ltb, if◌then◌else◌, ◌≡◌, refl, sym,
  ap, ◌∙◌, arith,
}
use mathlib.Core.Path.{subst}
use cqjs.Json.{Response}
use cqjs.Queue.{Request, Queue, take_request, env_submit_request}
use cqjs.Queue.Fifo.{
  Items, Avoids, AreApart, Models, take_request-Models, env_submit_request-Models,
}
use cqjs.Eval.{Engine, World, Outside, handle_one, env_process_jobs}
use cqjs.Eval.Answers.{log, handle_one-IsAnswered, log-process_jobs}
use cqjs.Eval.Thread.{answered_ids, queued_ids, map-append}

-- At most 100 ms, and less if a timer fires before.
pub poll_timeout : Option ℕ → ℕ
poll_timeout none = 100
poll_timeout (some next_timer) = if ltb next_timer 100 then next_timer else 100

pub submit_all : Queue → Items → Queue
submit_all q [] = q
submit_all q ((p, req) ∷ xs) = submit_all (env_submit_request q p req) xs

module _ {ℓ} {S V F : Type ℓ} (engine : Engine S V F) where
  -- `for (;;)`: requests are taken and handled until there is none. `none` means that the fuel ran out.
  pub drain : (ℕ → Items) → (ℕ → Outside) → ℕ → ℕ → Queue × World S → Option (Queue × World S)
  drain arrivals out zero n (q, w) = none
  drain arrivals out (suc fuel) n (q, w) = elim (take_request (submit_all q (arrivals n))) [
    | none ↦ some (submit_all q (arrivals n), w)
    | some (req, q') ↦ drain arrivals out fuel (suc n) (q', handle_one engine (out n) req w)
  ]

  -- The jobs behind the requests.
  jobs_after : (ℕ → Bool) → Option (Queue × World S) → Option (Queue × World S)
  jobs_after waiting none = none
  jobs_after waiting (some (q, w)) = some (q, env_process_jobs engine waiting w)

  -- One round of `while (env->running)`, behind the wait.
  pub event_round :
      (ℕ → Items) → (ℕ → Outside) → (ℕ → Bool) → ℕ → Queue × World S → Option (Queue × World S)
  unfolding drain jobs_after
  event_round arrivals out waiting fuel state = jobs_after waiting (drain arrivals out fuel 0 state)
