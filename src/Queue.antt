-- ===== src/Queue.antt =====
-- The request queue of an environment (env_manager.c): a linked list with pointers to its first and
-- last node, in an explicit heap. `env_submit_request` and the removal at the head of the event loop
-- each run under the queue's mutex.
pub mod Fifo
mod Tests
use cqjs.Prelude.{
  ℕ, Bool, true, false, Option, none, some, List, [], ◌∷◌, Bytes, ◌==◌, if◌then◌else◌,
}

-- An `env_request_t` without its `next` pointer.
pub record Request : Type 0 where
  pub request_id : Option Bytes
  pub type : Bytes
  pub code : Option Bytes
  pub filename : Option Bytes
  pub path : Option Bytes

-- A node is its content and its `next` pointer; an address without a node is free.
pub record Node : Type 0 where
  pub content : Request
  pub next : Option ℕ

pub record Queue : Type 0 where
  pub cell : ℕ → Option Node
  pub head : Option ℕ
  pub tail : Option ℕ

unfoldable pub empty : Queue
empty = record { cell = λ p. none; head = none; tail = none }

-- A write to the heap.
unfoldable pub update : (ℕ → Option Node) → ℕ → Option Node → ℕ → Option Node
update cell p node q = if p == q then node else cell q

-- `n->next = p`, for a node that is there
unfoldable pub link : (ℕ → Option Node) → ℕ → ℕ → ℕ → Option Node
link cell n p = elim (cell n) [
  | none ↦ cell
  | some node ↦ update cell n (some (record node { next = some p }))
]

-- `request_tail->next = req`, or `request_head = req` if there is no tail
unfoldable pub hook : Queue → ℕ → Option ℕ → Queue
unfolding link
hook q p none = record q { head = some p }
hook q p (some t) = record q { cell = link q.cell t p }

-- The request is stored at the address `p`, which the caller has allocated.
unfoldable pub env_submit_request : Queue → ℕ → Request → Queue
env_submit_request q p req =
    let stored = record q {
      cell = update q.cell p (some (record { content = req; next = none }));
    } in
    record (hook stored p q.tail) { tail = some p }

-- `if (!env->request_head) env->request_tail = NULL`
unfoldable pub tail_behind : Option ℕ → Option ℕ → Option ℕ
tail_behind none tail = none
tail_behind (some p) tail = tail

-- The first request is unlinked and its node freed; `none` if the queue is empty.
unfoldable pub unlink_node : Queue → ℕ → Node → Queue
unfolding tail_behind
unlink_node q p node = record {
  cell = update q.cell p none;
  head = node.next;
  tail = tail_behind node.next q.tail;
}

unfoldable pub take_request : Queue → Option (Request × Queue)
take_request q = elim q.head [
  | none ↦ none
  | some p ↦ elim (q.cell p) [ none ↦ none | some node ↦ some (node.content, unlink_node q p node) ]
]
