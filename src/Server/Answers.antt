-- ===== src/Server/Answers.antt =====
-- `handle_request` as a whole: every request is answered at once or handed to one environment.
use cqjs.Prelude.{
  true, false, List, ℕ, some, [], Bytes, codes, str_eq, if◌then◌else◌, inl, inr, ◌≡◌, ◌≢◌, ◌⊎◌,
  refl, sym, ◌∙◌,
}
use mathlib.Core.Option
use cqjs.Json.{Response}
use cqjs.Json.Answered.{after_events}
use cqjs.Queue.{Request, env_submit_request}
use cqjs.Env.{JsEnv, EnvManager, Platform, env_create, env_find}
use cqjs.Env.Table.{IsValid, Created, env_destroy_lem}
use cqjs.Env.Change.{changed-IsValid, env_find-changed}
use cqjs.Server.{Parsed, Outcome, submit, handle_request}
use cqjs.Server.Handling.{
  id_of, is_create, text_at, Handling, refuses, shows, creates, destroys, submits,
  handle_request-Handling,
}

not_error : {type : Bytes} → type ≡ codes "result" → type ≢ codes "error"
not_error e h = absurd (clash (sym e ∙ h))
  where
    clash : ¬ (◌≡◌ {A = Bytes} (codes "result") (codes "error"))
    clash h = cc

clash : true ≡ false → ⊥
clash h = cc

module _ {ℓ} {S : Type ℓ} where
  -- The request is appended to an environment's queue, at the address `p`.
  abbrev pub enqueue : ℕ → Request → JsEnv S → JsEnv S
  enqueue p req e = record e { requests = env_submit_request e.requests p req }

  module _ (mgr : EnvManager S) (p : ℕ) (x : Parsed) (o : Outcome S) where
    -- One response, with the request's identifier, is sent, behind events that the initial code of a new
    -- environment sends; an error leaves the manager as it was.
    pub record Answered : Type ℓ where
      pub events : List Response
      pub response : Response
      pub sent : o.sent ≡ after_events events response
      pub quiet : is_create x ≡ false → events ≡ []
      pub same_id : response.id ≡ id_of x
      pub harmless : response.type ≡ codes "error" → o.manager ≡ mgr

    -- Nothing is sent, and a request with the identifier is in the queue of the environment that the
    -- request names, which was there, behind those before; every other environment is as it was.
    pub record Submitted : Type ℓ where
      pub env_id : Bytes
      pub request : Request
      pub silent : o.sent ≡ []
      pub same_id : request.request_id ≡ id_of x
      pub named : text_at (codes "env_id") x ≡ some env_id
      pub there : (e : JsEnv S) × (env_find mgr env_id ≡ some e)
      pub found :
          (j : Bytes)
          → env_find o.manager j ≡ (
              if str_eq env_id j
              then Option.map (enqueue p request) (env_find mgr j)
              else env_find mgr j)

    -- The manager stays valid, and the request is answered or submitted.
    abbrev pub Handled : Type ℓ
    Handled = IsValid o.manager × (Answered ⊎ Submitted)

  module _ (platform : Platform S) {mgr : EnvManager S} (v : IsValid mgr) (p : ℕ) where
    answered :
        {x : Parsed} {o : Outcome S} (events : List Response) (r : Response)
        → IsValid o.manager
        → o.sent ≡ after_events events r
        → (is_create x ≡ false → events ≡ [])
        → r.id ≡ id_of x
        → (r.type ≡ codes "error" → o.manager ≡ mgr)
        → Handled mgr p x o
    answered events r valid sent quiet same harmless = (
      valid,
      inl (record {
        events = events;
        response = r;
        sent = sent;
        quiet = quiet;
        same_id = same;
        harmless = harmless;
      }),
    )

    Handling-Handled :
        (x : Parsed) (o : Outcome S) → Handling platform p mgr x o → Handled mgr p x o
    unfolding submit
    Handling-Handled x o (refuses events message quiet) =
        answered events _ v refl quiet refl (λ e. refl)
    Handling-Handled x o (shows r exited same kind _) =
        answered [] r v refl (λ _. refl) same (λ e. refl)
    Handling-Handled x o (creates env_id code memory stack r creation same kind _ asked) =
        answered (env_create platform mgr env_id code memory stack).2 r (Created.valid creation)
          refl (λ other. absurd (clash (sym asked ∙ other))) same (λ e. absurd (not_error kind e))
    Handling-Handled x o (destroys env_id r e present same kind _ _) =
        answered [] r (env_destroy_lem mgr env_id env_id v).0 refl (λ _. refl) same
          (λ e. absurd (not_error kind e))
    Handling-Handled x o (submits env_id req e present same named) = (
      changed-IsValid (enqueue p req) (λ e. refl) mgr env_id v,
      inr (record {
        env_id = env_id;
        request = req;
        silent = refl;
        same_id = same;
        named = named;
        there = (e, present);
        found = env_find-changed (enqueue p req) (λ e. refl) mgr env_id;
      }),
    )

    -- A line that is handled with a valid manager leaves it valid. Either exactly one response is sent,
    -- with the request's identifier, and an error response leaves the manager as it was; in front of it
    -- events are sent only if the request is to create an environment, by its initial code. Or nothing is
    -- sent and a request with that identifier is appended to the queue of the one environment that the
    -- request names, which was there, and every other environment is as it was.
    pub handle_request-Handled :
        (parse : Bytes → Parsed) (line : Bytes)
        → Handled mgr p (parse line) (handle_request platform parse p mgr line)
    handle_request-Handled parse line =
        Handling-Handled (parse line) _ (handle_request-Handling platform p mgr parse v line)
