-- ===== src/Eval/Loop/Emptied.antt =====
-- A round of the loop of an environment's thread answers what is queued and what arrives meanwhile.
use cqjs.Prelude.{
  ◌≢◌, All-append_inv, ℕ, zero, suc, ◌+◌, ◌≤◌, Bool, Option, some, [], ◌∷◌, ◌++◌, length,
  length-append, append_assoc, append-nil, ◌≡◌, refl, sym, ap, ◌∙◌, arith,
}
use mathlib.Core.Path.{subst}
use cqjs.Queue.{Request, Queue, env_submit_request}
use cqjs.Queue.Fifo.{
  Items, Avoids, AreApart, Models, take_request-Models, env_submit_request-Models,
}
use cqjs.Eval.{Engine, World, Outside, handle_one, env_process_jobs}
use cqjs.Eval.Answers.{log, handle_one-IsAnswered, log-process_jobs}
use cqjs.Eval.Thread.{answered_ids, queued_ids, map-append}
use cqjs.Eval.Loop.{submit_all, drain, jobs_after, event_round}

-- All items but the first.
abbrev pub behind : Items → Items
behind [] = []
behind (x ∷ xs) = xs

apart-Avoids :
    (xs : Items) (p : ℕ) (req : Request) (ys : Items) → AreApart (xs ++ (p, req) ∷ ys) → Avoids p xs
apart-Avoids [] p req ys h = tt
apart-Avoids ((p', r) ∷ xs) p req ys (here, h) =
    let (before, others) = All-append_inv (λ x. x.0 ≢ p') xs ((p, req) ∷ ys) here in
    ((λ e. others.0 (sym e)), apart-Avoids xs p req ys h)

submit_all-Models :
    (q : Queue) (xs ys : Items)
    → Models q xs
    → AreApart (xs ++ ys)
    → Models (submit_all q ys) (xs ++ ys)
unfolding submit_all
submit_all-Models q xs [] m h = subst (λ l. Models q l) (sym (append-nil xs)) m
submit_all-Models q xs ((p, req) ∷ ys) m h =
    let one = env_submit_request-Models q xs p req m (apart-Avoids xs p req ys h) in
    let e = append_assoc xs ((p, req) ∷ []) ys in
    subst (λ l. Models (submit_all (env_submit_request q p req) ys) l) e
      (submit_all-Models (env_submit_request q p req) (xs ++ (p, req) ∷ []) ys one
        (subst AreApart (sym e) h))

module _ {ℓ} {S V F : Type ℓ} (engine : Engine S V F) where
  ids-handle_one :
      (out : Outside) (req : Request) (w : World S)
      → answered_ids (log (handle_one engine out req w))
        ≡ answered_ids (log w) ++ req.request_id ∷ []
  ids-handle_one out req w =
      let (r, sent, same) = handle_one-IsAnswered engine out req w in
      ap answered_ids sent
      ∙ map-append _ (log w) (r ∷ [])
      ∙ ap (λ i. answered_ids (log w) ++ i ∷ []) same

  module _ (arrivals : ℕ → Items) (out : ℕ → Outside) where
    -- The requests that arrive in a number of steps from one on, and how many these are.
    abbrev pub arrived : ℕ → ℕ → Items
    arrived n zero = []
    arrived n (suc k) = arrivals n ++ arrived (suc n) k

    abbrev pub total : ℕ → ℕ → ℕ
    total n zero = 0
    total n (suc k) = length (arrivals n) + total (suc n) k

    -- In the steps of the fuel, a request that arrives has an address that no queued one has.
    abbrev pub AreFresh : ℕ → ℕ → Items → Type 0
    AreFresh zero n xs = AreApart (xs ++ arrivals n)
    AreFresh (suc fuel) n xs =
        AreApart (xs ++ arrivals n) × AreFresh fuel (suc n) (behind (xs ++ arrivals n))

    -- The queue is empty, and each of the items and of what arrived meanwhile has its answer, in order.
    abbrev pub Emptied : ℕ → Items → World S → Option (Queue × World S) → Type ℓ
    Emptied n xs w r =
        (q' : Queue) × (w' : World S) × (k : ℕ) × (r ≡ some (q', w'))
        × Models q' []
        × (answered_ids (log w') ≡ answered_ids (log w) ++ queued_ids (xs ++ arrived n k))

    now_apart : (fuel n : ℕ) (xs : Items) → AreFresh fuel n xs → AreApart (xs ++ arrivals n)
    now_apart zero n xs h = h
    now_apart (suc fuel) n xs h = h.0

    -- `ys` is what is queued when the requests have arrived.
    drain-Emptied :
        (fuel n : ℕ) (q : Queue) (w : World S) (xs ys : Items)
        → Models q xs
        → xs ++ arrivals n ≡ ys
        → AreFresh fuel n xs
        → length ys + total (suc n) fuel ≤ fuel
        → Emptied (suc n) ys w (drain engine arrivals out (suc fuel) n (q, w))
    unfolding drain
    drain-Emptied fuel n q w xs [] m e fresh h =
        let m0 : Models (submit_all q (arrivals n)) [] =
          subst (λ l. Models (submit_all q (arrivals n)) l) e
            (submit_all-Models q xs (arrivals n) m (now_apart fuel n xs fresh)) in
        (
          submit_all q (arrivals n),
          w,
          0,
          rw (take_request-Models (submit_all q (arrivals n)) [] m0, drain) refl,
          m0,
          sym (append-nil (answered_ids (log w))),
        )
    drain-Emptied zero n q w xs ((p, req) ∷ ys) m e fresh h = absurd (omega arith)
    drain-Emptied (suc fuel) n q w xs ((p, req) ∷ ys) m e fresh h =
        let m0 : Models (submit_all q (arrivals n)) ((p, req) ∷ ys) =
          subst (λ l. Models (submit_all q (arrivals n)) l) e
            (submit_all-Models q xs (arrivals n) m (now_apart (suc fuel) n xs fresh)) in
        let (q1, took, m1) = take_request-Models (submit_all q (arrivals n)) ((p, req) ∷ ys) m0 in
        let w1 = handle_one engine (out n) req w in
        let (q2, w2, k, ran, m2, ids) =
          drain-Emptied fuel (suc n) q1 w1 ys (ys ++ arrivals (suc n)) m1 refl
            (subst (λ l. AreFresh fuel (suc n) (behind l)) e fresh.1)
            (omega (arith, length-append ys (arrivals (suc n)))) in
        (
          q2,
          w2,
          suc k,
          rw (took, drain) ran,
          m2,
          ids
              ∙ ap (λ l. l ++ queued_ids ((ys ++ arrivals (suc n)) ++ arrived (suc (suc n)) k))
                  (ids-handle_one (out n) req w)
              ∙ append_assoc (answered_ids (log w)) (req.request_id ∷ []) _
              ∙ ap (λ l. answered_ids (log w) ++ req.request_id ∷ queued_ids l)
                  (append_assoc ys (arrivals (suc n)) (arrived (suc (suc n)) k)),
        )

    -- With a well-formed queue, requests that arrive at addresses that no queued one has, and as many
    -- steps as requests are queued or arrive in that many steps and one more, a round of the event
    -- loop ends with the queue empty, and has answered every request that was queued and that arrived
    -- until then, once and in the order of the queue.
    pub event_round-Emptied :
        (waiting : ℕ → Bool) (fuel : ℕ) (q : Queue) (w : World S) (xs : Items)
        → Models q xs
        → AreFresh fuel 0 xs
        → length xs + total 0 (suc fuel) ≤ fuel
        → Emptied 0 xs w (event_round engine arrivals out waiting (suc fuel) (q, w))
    unfolding event_round
    event_round-Emptied waiting fuel q w xs m fresh h =
        let (q', w', k, ran, m', ids) =
          drain-Emptied fuel 0 q w xs (xs ++ arrivals 0) m refl fresh
            (omega (arith, length-append xs (arrivals 0))) in
        (
          q',
          env_process_jobs engine waiting w',
          suc k,
          rw ran (unfold jobs_after in refl),
          m',
          ap answered_ids (log-process_jobs engine waiting w')
              ∙ ids
              ∙ ap (λ l. answered_ids (log w) ++ queued_ids l)
                  (append_assoc xs (arrivals 0) (arrived 1 k)),
        )
