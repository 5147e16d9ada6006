-- ===== src/Eval/Thread.antt =====
-- The queue of an environment and its thread together: any interleaving of submissions by the main thread
-- (`env_submit_request`) with rounds of the loop of `env_event_loop`.
use cqjs.Prelude.{
  ℕ, Option, none, some, List, [], ◌∷◌, ◌++◌, map, append_assoc, append-nil, Bytes, ◌≡◌, refl, sym,
  ap, ◌∙◌,
}
use mathlib.Core.Path.{subst}
use cqjs.Json.{Response}
use cqjs.Queue.{Request, Node, Queue, env_submit_request, take_request}
use cqjs.Queue.Fifo.{
  Items, Models, IsLinked, Avoids, env_submit_request-Models, take_request-Models,
}
use cqjs.Eval.{Engine, World, Outside, handle_one}
use cqjs.Eval.Answers.{log, handle_one-IsAnswered}

abbrev pub answered_ids : List Response → List (Option Bytes)
answered_ids rs = map (λ r. Response.id r) rs

abbrev pub request_ids : List Request → List (Option Bytes)
request_ids rs = map (λ r. Request.request_id r) rs

abbrev pub queued_ids : Items → List (Option Bytes)
queued_ids xs = map (λ x. Request.request_id x.1) xs

pub map-append :
    {A B : Type 0} (f : A → B) (xs ys : List A) → map f (xs ++ ys) ≡ map f xs ++ map f ys
map-append f [] ys = refl
map-append f (x ∷ xs) ys = ap (λ l. f x ∷ l) (map-append f xs ys)

-- An address without a node is the address of no queued request.
pub free-Avoids :
    (cell : ℕ → Option Node) (p : ℕ) (xs : Items) → cell p ≡ none → IsLinked cell xs → Avoids p xs
free-Avoids cell p [] free h = tt
free-Avoids cell p ((q, r) ∷ xs) free (here, h) =
    ((λ same. taken (sym here ∙ ap cell same ∙ free)), free-Avoids cell p xs free h)
  where
    taken : {n : Node} → ◌≡◌ {A = Option Node} (some n) none → ⊥
    taken e = cc

module _ {ℓ} {S V F : Type ℓ} (engine : Engine S V F) where
  -- From one queue and world to another, with the requests submitted on the way, in order.
  pub data Serves : Queue → World S → List Request → Queue → World S → Type ℓ where
    stays : {q : Queue} {w : World S} → Serves q w [] q w
    submits :
        {q q' : Queue} {w w' : World S} {rs : List Request} (p : ℕ) (req : Request)
        → q.cell p ≡ none
        → Serves (env_submit_request q p req) w rs q' w'
        → Serves q w (req ∷ rs) q' w'
    handles :
        {q q1 q' : Queue} {w w' : World S} {rs : List Request} (out : Outside) (req : Request)
        → take_request q ≡ some (req, q1)
        → Serves q1 (handle_one engine out req w) rs q' w'
        → Serves q w rs q' w'

  -- The requests that are answered and those that wait are together, in this order, those that were
  -- answered or waited before and then those submitted.
  pub record IsServed (xs : Items) (w : World S) (rs : List Request) (q' : Queue) (w' : World S)
      : Type 0 where
    pub waiting : Items
    pub models : Models q' waiting
    pub order :
        answered_ids (log w') ++ queued_ids waiting
        ≡ answered_ids (log w) ++ (queued_ids xs ++ request_ids rs)

  submitted-IsServed :
      {xs : Items} {w w' : World S} {rs : List Request} {q' : Queue} (p : ℕ) (req : Request)
      → IsServed (xs ++ (p, req) ∷ []) w rs q' w'
      → IsServed xs w (req ∷ rs) q' w'
  submitted-IsServed {xs} {w} {rs = rs} p req s = record {
    waiting = s.waiting;
    models = s.models;
    order =
        s.order
        ∙ ap (λ l. answered_ids (log w) ++ l)
            (ap (λ l. l ++ request_ids rs) (map-append _ xs ((p, req) ∷ []))
              ∙ append_assoc (queued_ids xs) (req.request_id ∷ []) (request_ids rs));
  }

  taken-IsServed :
      {xs : Items} {w w' : World S} {rs : List Request} {q' : Queue} (p : ℕ) (req : Request)
      (out : Outside)
      → IsServed xs (handle_one engine out req w) rs q' w'
      → IsServed ((p, req) ∷ xs) w rs q' w'
  taken-IsServed {xs} {w} {rs = rs} p req out s =
      let (r, sent, same) = handle_one-IsAnswered engine out req w in
      record {
        waiting = s.waiting;
        models = s.models;
        order =
            s.order
            ∙ ap (λ l. answered_ids l ++ (queued_ids xs ++ request_ids rs)) sent
            ∙ ap (λ l. l ++ (queued_ids xs ++ request_ids rs)) (map-append _ (log w) (r ∷ []))
            ∙ append_assoc (answered_ids (log w)) (r.id ∷ []) (queued_ids xs ++ request_ids rs)
            ∙ ap (λ i. answered_ids (log w) ++ i ∷ (queued_ids xs ++ request_ids rs)) same;
      }

  -- However submissions and the thread interleave, every submitted request is answered exactly once or
  -- still waits, and the answers come in the order of submission. The queue need only be well-formed at
  -- first, and a submission use an address that is free.
  pub Serves-IsServed :
      {q q' : Queue} {w w' : World S} {rs : List Request} (xs : Items)
      → Models q xs
      → Serves q w rs q' w'
      → IsServed xs w rs q' w'
  Serves-IsServed {w = w} xs m stays = record {
    waiting = xs;
    models = m;
    order = ap (λ l. answered_ids (log w) ++ l) (sym (append-nil (queued_ids xs)));
  }
  Serves-IsServed {q} xs m (submits p req free rest) = submitted-IsServed p req (
      Serves-IsServed (xs ++ (p, req) ∷ [])
        (env_submit_request-Models q xs p req m (free-Avoids q.cell p xs free m.linked)) rest)
  Serves-IsServed {q} [] m (handles out req taken rest) =
      absurd (clash (sym taken ∙ take_request-Models q [] m))
    where
      clash : {x : Request × Queue} → ◌≡◌ {A = Option (Request × Queue)} (some x) none → ⊥
      clash e = cc
  Serves-IsServed {q} {q'} {w} {w'} {rs} ((p, first) ∷ xs) m
        (handles {q1 = q1} out req taken rest) =
      let (q2, took, m2) = take_request-Models q ((p, first) ∷ xs) m in
      let same : ◌≡◌ {A = Request × Queue} (first, q2) (req, q1) = some-eq (sym took ∙ taken) in
      subst (λ r. IsServed ((p, r) ∷ xs) w rs q' w') (sym (ap (λ x. x.0) same))
        (taken-IsServed p req out
          (Serves-IsServed xs (subst (λ q. Models q xs) (ap (λ x. x.1) same) m2) rest))
    where
      some-eq :
          {x y : Request × Queue} → ◌≡◌ {A = Option (Request × Queue)} (some x) (some y) → x ≡ y
      some-eq e = cc
