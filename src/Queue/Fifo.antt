-- ===== src/Queue/Fifo.antt =====
-- The linked queue refines a list: requests leave it in the order in which they were submitted.
use cqjs.Prelude.{
  ℕ, Option, none, some, List, [], ◌∷◌, ◌++◌, All, Option-cases, inl, inr, ◌≡◌, ◌≢◌, refl, arith,
  sym, ◌∙◌,
}
use mathlib.Core.Path.{subst}
use cqjs.Queue.{
  Request, Node, Queue, empty, update, link, hook, env_submit_request, tail_behind, unlink_node,
  take_request,
}

-- The addresses and the contents of the nodes, from the head on.
abbrev pub Items : Type 0
Items = List (ℕ × Request)

abbrev pub head_of : Items → Option ℕ
head_of [] = none
head_of ((p, r) ∷ xs) = some p

abbrev pub last_of : Items → Option ℕ
last_of [] = none
last_of ((p, r) ∷ []) = some p
last_of ((p, r) ∷ x ∷ xs) = last_of (x ∷ xs)

abbrev pub IsLinked : (ℕ → Option Node) → Items → Type 0
IsLinked cell [] = Unit
IsLinked cell ((p, r) ∷ xs) =
    (cell p ≡ some (record { content = r; next = head_of xs })) × IsLinked cell xs

abbrev pub Avoids : ℕ → Items → Type 0
Avoids p = All (λ x. x.0 ≢ p)

abbrev pub AreApart : Items → Type 0
AreApart [] = Unit
AreApart ((p, r) ∷ xs) = Avoids p xs × AreApart xs

-- The queue holds the items, in their order.
pub record Models (q : Queue) (xs : Items) : Type 0 where
  pub linked : IsLinked q.cell xs
  pub apart : AreApart xs
  pub starts : q.head ≡ head_of xs
  pub ends : q.tail ≡ last_of xs

pub empty-Models : Models empty []
unfolding empty
empty-Models = record { linked = tt; apart = tt; starts = refl; ends = refl }

update_self : (cell : ℕ → Option Node) (p : ℕ) (n : Option Node) → update cell p n p ≡ n
unfolding update
update_self cell p n = ground arith

update_other :
    (cell : ℕ → Option Node) (p q : ℕ) (n : Option Node) → q ≢ p → update cell p n q ≡ cell q
unfolding update
update_other cell p q n h = ground arith

-- A write to another address leaves the links alone.
update-IsLinked :
    (cell : ℕ → Option Node) (p : ℕ) (n : Option Node) (xs : Items)
    → Avoids p xs
    → IsLinked cell xs
    → IsLinked (update cell p n) xs
update-IsLinked cell p n [] h l = tt
update-IsLinked cell p n ((q, r) ∷ xs) (hq, h) (lq, l) =
    (update_other cell p q n hq ∙ lq, update-IsLinked cell p n xs h l)

link_self :
    (cell : ℕ → Option Node) (t p : ℕ) (r : Request) (n : Option ℕ)
    → cell t ≡ some (record { content = r; next = n })
    → link cell t p t ≡ some (record { content = r; next = some p })
link_self cell t p r n e = unfold link in rw (e, link) (update_self cell t _)

link_other : (cell : ℕ → Option Node) (t p q : ℕ) → q ≢ t → link cell t p q ≡ cell q
link_other cell t p q h = elim (Option-cases (cell t)) [
  | inl e ↦ unfold link in rw (e, link)
  | inr (n, e) ↦ unfold link in rw (e, link) (update_other cell t q _ h)
]

last-Avoids : (xs : Items) (q t : ℕ) → Avoids q xs → last_of xs ≡ some t → q ≢ t
last-Avoids [] q t h e = cc
last-Avoids ((p, r) ∷ []) q t (hp, _) e = ground (arith, hp)
last-Avoids ((p, r) ∷ x ∷ xs) q t (hp, h) e = last-Avoids (x ∷ xs) q t h e

-- A new node is linked behind the last one.
link-IsLinked :
    (cell : ℕ → Option Node) (p : ℕ) (req : Request) (xs : Items) (t : ℕ)
    → Avoids p xs
    → AreApart xs
    → last_of xs ≡ some t
    → IsLinked cell xs
    → cell p ≡ some (record { content = req; next = none })
    → IsLinked (link cell t p) (xs ++ (p, req) ∷ [])
link-IsLinked cell p req [] t h a e l at = cc
link-IsLinked cell p req ((q, r) ∷ []) t (hq, h) a e (lq, l) at =
    let same : q ≡ t = ground arith in
    let apart : p ≢ t = ground (arith, hq) in
    (
      subst (λ n. link cell t p n ≡ some (record { content = r; next = some p })) (sym same)
          (link_self cell t p r none
            (subst (λ n. cell n ≡ some (record { content = r; next = none })) same lq)),
      (link_other cell t p p apart ∙ at, tt),
    )
link-IsLinked cell p req ((q, r) ∷ (q2, r2) ∷ xs) t (hq, h) (aq, a) e (lq, l) at =
    let other = last-Avoids ((q2, r2) ∷ xs) q t aq e in
    (link_other cell t p q other ∙ lq, link-IsLinked cell p req ((q2, r2) ∷ xs) t h a e l at)

last-snoc : (xs : Items) (p : ℕ) (r : Request) → last_of (xs ++ (p, r) ∷ []) ≡ some p
last-snoc [] p r = refl
last-snoc ((q, s) ∷ []) p r = refl
last-snoc ((q, s) ∷ x ∷ xs) p r = last-snoc (x ∷ xs) p r

Avoids-snoc :
    (xs : Items) (p q : ℕ) (r : Request) → Avoids q xs → p ≢ q → Avoids q (xs ++ (p, r) ∷ [])
Avoids-snoc [] p q r h n = (n, tt)
Avoids-snoc (x ∷ xs) p q r (hx, h) n = (hx, Avoids-snoc xs p q r h n)

AreApart-snoc :
    (xs : Items) (p : ℕ) (r : Request) → Avoids p xs → AreApart xs → AreApart (xs ++ (p, r) ∷ [])
AreApart-snoc [] p r h a = (tt, tt)
AreApart-snoc ((q, s) ∷ xs) p r (hq, h) (aq, a) =
    (Avoids-snoc xs p q r aq (λ e. hq (sym e)), AreApart-snoc xs p r h a)

-- Submitting a request at an address that no queued request has turns a linked queue that models a list
-- of requests into one that models the list with the request at its end.
pub env_submit_request-Models :
    (q : Queue) (xs : Items) (p : ℕ) (req : Request)
    → Models q xs
    → Avoids p xs
    → Models (env_submit_request q p req) (xs ++ (p, req) ∷ [])
unfolding env_submit_request
env_submit_request-Models q [] p req m h =
    unfold hook in
    rw m.ends (record {
      linked = (update_self q.cell p _, tt);
      apart = (tt, tt);
      starts = refl;
      ends = refl;
    })
env_submit_request-Models q (x ∷ xs) p req m h =
    let (t, last) = has_last x xs in
    let node : Option Node = some (record { content = req; next = none }) in
    unfold hook in
    rw (m.ends ∙ last) (record {
      linked =
          link-IsLinked (update q.cell p node) p req (x ∷ xs) t h m.apart last
            (update-IsLinked q.cell p node (x ∷ xs) h m.linked) (update_self q.cell p node);
      apart = AreApart-snoc (x ∷ xs) p req h m.apart;
      starts = m.starts;
      ends = sym (last-snoc (x ∷ xs) p req);
    })
  where
    has_last : (x : ℕ × Request) (xs : Items) → (t : ℕ) × (last_of (x ∷ xs) ≡ some t)
    has_last (p, r) [] = (p, refl)
    has_last (p, r) (x ∷ xs) = has_last x xs

-- What taking a request does to a queue that holds the items.
abbrev pub TakesFirst : Queue → Items → Type 0
TakesFirst q [] = take_request q ≡ none
TakesFirst q ((p, req) ∷ rest) = (q' : Queue) × (take_request q ≡ some (req, q')) × Models q' rest

-- If a linked queue models a list of requests, then nothing is taken if the list is empty; otherwise the
-- first request is taken, and the linked queue models the rest.
pub take_request-Models : (q : Queue) (xs : Items) → Models q xs → TakesFirst q xs
unfolding unlink_node
take_request-Models q [] m = unfold take_request in rw m.starts
take_request-Models q ((p, req) ∷ rest) m = (
  unlink_node q p (record { content = req; next = head_of rest }),
  unfold take_request in rw (m.starts, take_request, m.linked.0),
  record {
    linked = update-IsLinked q.cell p none rest m.apart.0 m.linked.1;
    apart = m.apart.1;
    starts = refl;
    ends = ends_behind rest (m.ends);
  },
)
  where
    ends_behind :
        (rest : Items)
        → q.tail ≡ last_of ((p, req) ∷ rest)
        → tail_behind (head_of rest) q.tail ≡ last_of rest
    ends_behind [] e = unfold tail_behind in refl
    ends_behind (x ∷ rest) e = unfold tail_behind in e
