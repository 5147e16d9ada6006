-- ===== src/System/Waits.antt =====
-- A step of the system changes what is awaited of an environment as a client sees it.
use cqjs.Prelude.{
  List, ◌&&◌, ℕ, true, false, Option, none, some, [], ◌∷◌, ◌++◌, Bytes, codes, str_eq, str_eq_sound,
  Bool-cases, inl, inr, ◌≡◌, refl, sym, ap, ◌∙◌, arith,
}
use mathlib.Core.Path.{subst}
use cqjs.Prelude.Int.{ℤ}
use cqjs.Json.{Response, answer}
use cqjs.Json.Answered.{after_events, answers-after_events}
use cqjs.Queue.{Request}
use cqjs.Queue.Fifo.{Items, Models, empty-Models, env_submit_request-Models}
use cqjs.Env.{JsEnv, EnvManager, Platform, env_create, env_destroy, env_find, new_env}
use cqjs.Env.Table.{IsValid, Created, env_destroy_lem, new_env-empty}
use cqjs.Env.Change.{changed, env_find-changed}
use cqjs.Server.{error_response, Parsed, Outcome, submit}
use cqjs.Server.Handling.{
  Handling, refuses, shows, creates, destroys, submits, id_of, is_destroy, is_text, text_at,
}
use cqjs.Server.Answers.{enqueue}
use cqjs.Eval.Thread.{queued_ids, map-append, free-Avoids}
use cqjs.System.{Act, line, IsFree}
use cqjs.System.Client.{Ids, names, replied, observe}

some-clash {ℓ} : {A : Type ℓ} {a : A} → ◌≡◌ {A = Option A} (some a) none → ⊥
some-clash h = cc

names_lem :
    (j env_id : Bytes) (x : Parsed)
    → text_at (codes "env_id") x ≡ some env_id
    → names j x ≡ str_eq env_id j
names_lem j env_id x named = ap (is_text j) named

module _ {ℓ} {S : Type ℓ} where
  -- The requests that wait in the environment's queue have the identifiers; without an environment there
  -- are none.
  pub data Waits (mgr : EnvManager S) (j : Bytes) (ids : Ids) : Type ℓ where
    absent : env_find mgr j ≡ none → ids ≡ [] → Waits mgr j ids
    present :
        (e : JsEnv S) (xs : Items)
        → env_find mgr j ≡ some e
        → Models e.requests xs
        → queued_ids xs ≡ ids
        → Waits mgr j ids

  pub Waits-same :
      {mgr mgr' : EnvManager S} {j : Bytes} {ids : Ids}
      → env_find mgr' j ≡ env_find mgr j
      → Waits mgr j ids
      → Waits mgr' j ids
  Waits-same same (absent h e) = absent (same ∙ h) e
  Waits-same same (present e xs h m q) = present e xs (same ∙ h) m q

  Waits-absent :
      {mgr : EnvManager S} {j : Bytes} {ids : Ids}
      → env_find mgr j ≡ none
      → Waits mgr j ids
      → ids ≡ []
  Waits-absent h (absent _ e) = e
  Waits-absent h (present e xs there m q) = absurd (some-clash (sym there ∙ h))

  -- What is awaited behind an act, and that it waits.
  abbrev pub Observed : (Bytes → Parsed) → EnvManager S → Bytes → Ids → Act → Type ℓ
  Observed parse mgr' j ids act =
      (ids' : Ids) × (observe parse j ids act ≡ some ids') × Waits mgr' j ids'

  module _ (platform : Platform S) (p : ℕ) (mgr : EnvManager S) (v : IsValid mgr)
      (free : IsFree mgr p) (parse : Bytes → Parsed) (text : Bytes) (j : Bytes) (ids : Ids)
      (w : Waits mgr j ids) where
    -- A response that does not say that the environment is destroyed changes nothing.
    kept :
        (events : List Response) (r : Response)
        → (str_eq r.type (codes "result") && (is_destroy (parse text) && names j (parse text)))
          ≡ false
        → observe parse j ids (line text (after_events events r)) ≡ some ids
    kept events r h =
        ap (λ rs. some (replied j ids (parse text) rs)) (answers-after_events events r)
        ∙ ap some (rw h refl)

    no_destroy :
        (r : Response)
        → is_destroy (parse text) ≡ false
        → (str_eq r.type (codes "result") && (is_destroy (parse text) && names j (parse text)))
          ≡ false
    no_destroy r other = ground (arith, other)

    created-Observed :
        (env_id : Bytes) (code : Option Bytes) (memory stack : ℤ) (r : Response)
        → Created platform mgr env_id code memory stack
        → is_destroy (parse text) ≡ false
        → Observed parse
            (env_create platform mgr env_id code memory stack).0
            j
            ids
            (line text (after_events (env_create platform mgr env_id code memory stack).2 r))
    created-Observed env_id code memory stack r creation other = (
      ids,
      kept (env_create platform mgr env_id code memory stack).2 r (no_destroy r other),
      elim (Bool-cases (str_eq env_id j)) [
        | inl same ↦
            present (new_env platform env_id code memory stack) [] (creation.found j ∙ rw same refl)
              (subst (λ q. Models q []) (sym (new_env-empty platform env_id code memory stack))
                empty-Models)
              (sym (
                Waits-absent (ap (env_find mgr) (sym (str_eq_sound env_id j same)) ∙ creation.new)
                  w))
        | inr differs ↦ Waits-same (creation.found j ∙ rw differs refl) w
      ],
    )

    destroyed-Observed :
        (env_id : Bytes) (r : Response)
        → r.type ≡ codes "result"
        → is_destroy (parse text) ≡ true
        → text_at (codes "env_id") (parse text) ≡ some env_id
        → Observed parse (env_destroy mgr env_id).0 j ids (line text (answer r ∷ []))
    destroyed-Observed env_id r kind asked named = elim (Bool-cases (str_eq env_id j)) [
      | inl same ↦ (
        [],
        rw (kind, asked, names_lem j env_id (parse text) named, same) refl,
        absent ((env_destroy_lem mgr env_id j v).1 ∙ rw same refl) refl,
      )
      | inr differs ↦ (
        ids,
        rw (kind, asked, names_lem j env_id (parse text) named, differs) refl,
        Waits-same ((env_destroy_lem mgr env_id j v).1 ∙ rw differs refl) w,
      )
    ]

    submitted-Waits :
        (env_id : Bytes) (req : Request) (e : JsEnv S)
        → str_eq env_id j ≡ true
        → env_find mgr env_id ≡ some e
        → Waits mgr j ids
        → Waits (changed (enqueue p req) (λ e. refl) mgr env_id) j (ids ++ req.request_id ∷ [])
    submitted-Waits env_id req e same there (absent h _) =
        absurd (some-clash (sym there ∙ ap (env_find mgr) (str_eq_sound env_id j same) ∙ h))
    submitted-Waits env_id req e same there (present e' xs h m q) =
        present (enqueue p req e') (xs ++ (p, req) ∷ [])
          (env_find-changed (enqueue p req) (λ e. refl) mgr env_id j ∙ rw (same, h) refl)
          (env_submit_request-Models e'.requests xs p req m
            (free-Avoids e'.requests.cell p xs (free j e' h) m.linked))
          (map-append _ xs ((p, req) ∷ []) ∙ ap (λ l. l ++ req.request_id ∷ []) q)

    submitted-Observed :
        (env_id : Bytes) (req : Request) (e : JsEnv S)
        → env_find mgr env_id ≡ some e
        → req.request_id ≡ id_of (parse text)
        → text_at (codes "env_id") (parse text) ≡ some env_id
        → Observed parse (submit p req mgr env_id) j ids (line text [])
    unfolding submit
    submitted-Observed env_id req e there same_id named = elim (Bool-cases (str_eq env_id j)) [
      | inl same ↦ (
        ids ++ req.request_id ∷ [],
        rw (names_lem j env_id (parse text) named, same, same_id) refl,
        submitted-Waits env_id req e same there w,
      )
      | inr differs ↦ (
        ids,
        rw (names_lem j env_id (parse text) named, differs) refl,
        Waits-same (env_find-changed (enqueue p req) (λ e. refl) mgr env_id j ∙ rw differs refl) w,
      )
    ]

    -- A line that is handled.
    pub Handling-Observed :
        (o : Outcome S)
        → Handling platform p mgr (parse text) o
        → Observed parse o.manager j ids (line text o.sent)
    Handling-Observed o (refuses events message quiet) =
        (ids, kept events (error_response (id_of (parse text)) message) refl, w)
    Handling-Observed o (shows r exited same kind other) = (ids, kept [] r (no_destroy r other), w)
    Handling-Observed o (creates env_id code memory stack r creation same kind other asked) =
        created-Observed env_id code memory stack r creation other
    Handling-Observed o (destroys env_id r e there same kind asked named) =
        destroyed-Observed env_id r kind asked named
    Handling-Observed o (submits env_id req e there same named) =
        submitted-Observed env_id req e there same named
