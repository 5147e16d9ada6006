-- ===== src/System/Order.antt =====
-- Whatever the interleaving of the threads, every answer is to the oldest request that is awaited.
use cqjs.Prelude.{
  length, ℕ, Bool, true, false, Option, none, some, List, [], ◌∷◌, Bytes, str_eq, str_eq_sound,
  if◌then◌else◌, Bool-cases, inl, inr, ◌≡◌, refl, sym, ap, ◌∙◌,
}
use mathlib.Core.Option
use mathlib.Core.Path.{subst}
use cqjs.Json.{Response}
use cqjs.Dispatch.{Tracker}
use cqjs.Queue.{Request, Queue, take_request}
use cqjs.Queue.Fifo.{Models, take_request-Models}
use cqjs.Env.{JsEnv, EnvManager, Platform, env_find}
use cqjs.Env.Table.{IsValid}
use cqjs.Env.Change.{changed-IsValid, env_find-changed}
use cqjs.Server.{Parsed}
use cqjs.Server.Handling.{handle_request-Handling}
use cqjs.Server.Answers.{handle_request-Handled}
use cqjs.Eval.{Engine, World, Outside, handle_one, env_process_jobs}
use cqjs.Eval.Answers.{answers, handle_one-IsAnswered, log-process_jobs}
use cqjs.Eval.Thread.{queued_ids}
use cqjs.System.{
  texts, line, System, Act, thread, world_of, put, worked, Runs, stays, handles, takes, works,
}
use cqjs.System.Client.{Ids, same_id_refl, expect, observe, observe_all}
use cqjs.System.Waits.{Waits, absent, present, Waits-same, Observed, Handling-Observed}

some-inj {ℓ} : {A : Type ℓ} {x y : A} → ◌≡◌ {A = Option A} (some x) (some y) → x ≡ y
some-inj e = cc

some-clash {ℓ} : {A : Type ℓ} {a : A} → ◌≡◌ {A = Option A} (some a) none → ⊥
some-clash h = cc

-- What an answer to the first request leaves awaited.
expect-first :
    (id : Option Bytes) (ids : Ids) (r : Response)
    → r.id ≡ id
    → expect (id ∷ ids) (r ∷ []) ≡ some ids
expect-first id ids r same = rw (same, same_id_refl id) refl

module _ {ℓ} {S : Type ℓ} where
  -- The queue behind the removal of a request, and the identifiers that still wait.
  taken-Waits :
      {mgr mgr' : EnvManager S} {j : Bytes} {ids : Ids} (e e' : JsEnv S) (req : Request) (q : Queue)
      → env_find mgr j ≡ some e
      → take_request e.requests ≡ some (req, q)
      → env_find mgr' j ≡ some e'
      → e'.requests ≡ q
      → Waits mgr j ids
      → (rest : Ids) × (ids ≡ req.request_id ∷ rest) × Waits mgr' j rest
  taken-Waits e e' req q there took there' same (absent h _) = absurd (some-clash (sym there ∙ h))
  taken-Waits e e' req q there took there' same (present e1 [] h m ids) = absurd (
      some-clash (
        sym took
        ∙ ap (λ e. take_request (JsEnv.requests e)) (some-inj (sym there ∙ h))
        ∙ take_request-Models e1.requests [] m))
  taken-Waits e e' req q there took there' same (present e1 ((p, first) ∷ xs) h m ids) =
      let (q1, took1, m1) = take_request-Models e1.requests ((p, first) ∷ xs) m in
      let both : ◌≡◌ {A = Request × Queue} (first, q1) (req, q) =
        some-inj (
          sym took1
          ∙ ap (λ e. take_request (JsEnv.requests e)) (some-inj (sym h ∙ there))
          ∙ took) in
      (
        queued_ids xs,
        sym ids ∙ ap (λ x. Request.request_id x.0 ∷ queued_ids xs) both,
        present e' xs there' (subst (λ q. Models q xs) (ap (λ x. x.1) both ∙ sym same) m1) refl,
      )

  module _ {V F : Type ℓ} (engine : Engine (S × Tracker) V F) (parse : Bytes → Parsed)
      (s : System S) (v : IsValid s.manager) (id : Bytes) (e : JsEnv S)
      (there : env_find s.manager id ≡ some e) where
    worked-IsValid : (w : World (S × Tracker)) (q : Queue) → IsValid (worked s id w q).manager
    worked-IsValid w q = changed-IsValid (put w q) (λ e. refl) s.manager id v

    worked-find :
        (w : World (S × Tracker)) (q : Queue) (j : Bytes)
        → env_find (worked s id w q).manager j ≡ (
            if str_eq id j
            then Option.map (put w q) (env_find s.manager j)
            else env_find s.manager j)
    worked-find w q j = env_find-changed (put w q) (λ e. refl) s.manager id j

    module _ (j : Bytes) (ids : Ids) (waits : Waits s.manager j ids) (w : World (S × Tracker)) where
      -- The other environments are not concerned.
      other-Observed :
          (q : Queue)
          → str_eq id j ≡ false
          → Observed parse (worked s id w q).manager j ids (thread id w.sent)
      other-Observed q differs =
          (ids, rw differs refl, Waits-same (worked-find w q j ∙ rw differs refl) waits)

      module _ (same : str_eq id j ≡ true) where
        there_j : env_find s.manager j ≡ some e
        there_j = ap (env_find s.manager) (sym (str_eq_sound id j same)) ∙ there

        answered-Observed :
            (req : Request) (q : Queue) (r : Response)
            → take_request e.requests ≡ some (req, q)
            → answers w.sent ≡ r ∷ []
            → r.id ≡ req.request_id
            → Observed parse (worked s id w q).manager j ids (thread id w.sent)
        answered-Observed req q r took sent same_id =
            let found : env_find (worked s id w q).manager j ≡ some (put w q e) =
              worked-find w q j ∙ rw (same, there_j) refl in
            let (rest, is, waits') =
              taken-Waits e (put w q e) req q there_j took found refl waits in
            (rest, rw (same, sent, is) (expect-first _ rest r same_id), waits')

        silent-Observed :
            answers w.sent ≡ []
            → Observed parse (worked s id w e.requests).manager j ids (thread id w.sent)
        silent-Observed sent = (ids, rw (same, sent) refl, kept waits)
          where
            kept : Waits s.manager j ids → Waits (worked s id w e.requests).manager j ids
            kept (absent h _) = absurd (some-clash (sym there_j ∙ h))
            kept (present e1 xs h m q) =
                present (put w e.requests e) xs
                  (worked-find w e.requests j ∙ rw (same, there_j) refl)
                  (subst (λ e. Models (JsEnv.requests e) xs) (some-inj (sym h ∙ there_j)) m) q

    module _ (j : Bytes) (ids : Ids) (waits : Waits s.manager j ids) where
      takes-Observed :
          (req : Request) (q : Queue) (out : Outside)
          → take_request e.requests ≡ some (req, q)
          → let w = handle_one engine out req (world_of s e) in
            Observed parse (worked s id w q).manager j ids (thread id w.sent)
      takes-Observed req q out took =
          let w = handle_one engine out req (world_of s e) in
          let (r, sent, same_id) = handle_one-IsAnswered engine out req (world_of s e) in
          elim (Bool-cases (str_eq id j)) [
            | inl same ↦ answered-Observed j ids waits w same req q r took sent same_id
            | inr differs ↦ other-Observed j ids waits w q differs
          ]

      works-Observed :
          (waiting : ℕ → Bool)
          → let w = env_process_jobs engine waiting (world_of s e) in
            Observed parse (worked s id w e.requests).manager j ids (thread id w.sent)
      works-Observed waiting =
          let w = env_process_jobs engine waiting (world_of s e) in
          elim (Bool-cases (str_eq id j)) [
            | inl same ↦
                silent-Observed j ids waits w same (log-process_jobs engine waiting (world_of s e))
            | inr differs ↦ other-Observed j ids waits w e.requests differs
          ]

  -- The manager is valid, and what is awaited of the environment `j` as seen from outside is what waits
  -- in its queue.
  pub record IsFollowed (parse : Bytes → Parsed) (j : Bytes) (ids : Ids) (acts : List Act)
      (s : System S) : Type ℓ where
    pub valid : IsValid s.manager
    pub awaited : Ids
    pub seen : observe_all parse j acts (some ids) ≡ some awaited
    pub waits : Waits s.manager j awaited

  followed :
      {parse : Bytes → Parsed} {j : Bytes} {ids ids' : Ids} {act : Act} {acts : List Act}
      {s : System S}
      → observe parse j ids act ≡ some ids'
      → IsFollowed parse j ids' acts s
      → IsFollowed parse j ids (act ∷ acts) s
  followed {parse} {j} {acts = acts} now f = record {
    valid = f.valid;
    awaited = f.awaited;
    seen = ap (observe_all parse j acts) now ∙ f.seen;
    waits = f.waits;
  }

  module _ {V F : Type ℓ} (engine : Engine (S × Tracker) V F) (platforms : ℕ → Platform S)
      (parse : Bytes → Parsed) where
    -- However the threads interleave: at any time, what is awaited of an environment, as computed from the
    -- lines, the responses and the answers only, is what waits in its queue, in order. So every answer is
    -- to the oldest request that its environment was given and has not answered, and no request is answered
    -- twice. The manager is valid at first, and a node is allocated at an address that is free.
    pub Runs-IsFollowed :
        (j : Bytes) (ids : Ids) {s s' : System S} {acts : List Act}
        → IsValid s.manager
        → Waits s.manager j ids
        → Runs engine platforms parse s acts s'
        → IsFollowed parse j ids acts s'
    Runs-IsFollowed j ids v w stays = record { valid = v; awaited = ids; seen = refl; waits = w }
    Runs-IsFollowed j ids {s} {acts = line text' sent' ∷ acts} v w (handles text p free goes run) =
        let platform = platforms (length (texts acts)) in
        let h = handle_request-Handling platform p s.manager parse v text in
        let (ids', seen, w') =
          Handling-Observed platform p s.manager v free parse text j ids w _ h in
        followed seen
          (Runs-IsFollowed j ids' (handle_request-Handled platform v p parse text).0 w' run)
    Runs-IsFollowed j ids {s} v w (takes id e req q out there took run) =
        let (ids', seen, w') = takes-Observed engine parse s v id e there j ids w req q out took in
        let v' =
          worked-IsValid engine parse s v id e there (handle_one engine out req (world_of s e)) q in
        followed seen (Runs-IsFollowed j ids' v' w' run)
    Runs-IsFollowed j ids {s} v w (works id e waiting there run) =
        let (ids', seen, w') = works-Observed engine parse s v id e there j ids w waiting in
        let w1 = env_process_jobs engine waiting (world_of s e) in
        let v' = worked-IsValid engine parse s v id e there w1 e.requests in
        followed seen (Runs-IsFollowed j ids' v' w' run)
