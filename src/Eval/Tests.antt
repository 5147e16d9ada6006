-- ===== src/Eval/Tests.antt =====
-- An engine whose functions are the codes themselves and whose values are their texts; the code "!" does
-- not compile. Its state counts what was run.
use cqjs.Prelude.{
  zero, ℕ, suc, false, Option, none, some, [], ◌∷◌, Bytes, codes, str_eq, length, get_or, ap, ◌⊎◌,
  if◌then◌else◌, ◌≡◌, sym, inl, inr, refl, arith,
}
use cqjs.Queue.{
  Request, Queue, empty, update, link, hook, env_submit_request, tail_behind, unlink_node,
  take_request,
}
use cqjs.Queue.Fifo.{Items, empty-Models}
use cqjs.Eval.Loop.{event_round}
use cqjs.Eval.Loop.Emptied.{Emptied, event_round-Emptied}
use cqjs.Cache.{Cache, bc_compute_hash, hex_string}
use cqjs.Cache.Insert.{IsValid}
use cqjs.Eval.{Engine, World, idle, Outside, handle_one, eval_cached}
use cqjs.Eval.Cached.{IsApart, IsRight, eval_cached-IsRight}
use cqjs.Eval.Thread.{Serves, stays, submits, handles}

abbrev compiled : Bytes → Option Bytes
compiled code = if str_eq code (codes "!") then none else some code

abbrev counting : Engine ℕ Bytes Bytes
counting = record {
  eval = λ code filename s. (suc s, [], compiled code);
  compile = λ code filename s. (s, [], compiled code);
  eval_function = λ f s. (suc s, [], some f);
  write_object = λ f s. (s, [], some f);
  read_object = λ bytes s. (s, [], some bytes);
  drop_exception = λ s. s;
  exception_text = λ s. (s, [], some (codes "SyntaxError"));
  to_c_string = λ v s. (s, [], some v);
  execute_pending_job = λ s. (s, [], idle);
  tm_process_pending = λ s. (s, [], 0);
  fm_process_pending = λ s. (s, [], 0);
  read_file = λ path. none;
}

abbrev start : World ℕ
start = record { engine_state = 0; cache = none; sent = [] }

abbrev outside : Outside
outside = record { sha256 = none; held = λ b. b; now = 1; later = 2; waiting = λ n. false }

abbrev first : Request
first = record {
  request_id = some (codes "1");
  type = codes "eval";
  code = some (codes "1+1");
  filename = none;
  path = none;
}

-- A request is submitted, handled, and another one is submitted.
abbrev second : Request
second = record first { request_id = some (codes "2"); code = none }

abbrev left : Queue
left = record {
  cell = update (update empty.cell 100 (some (record { content = first; next = none }))) 100 none;
  head = none;
  tail = none;
}

session :
    Serves counting empty start
      (first ∷ second ∷ [])
      (env_submit_request left 200 second)
      (handle_one counting outside first start)
session = submits {q = empty} 100 first (unfold empty in refl) (
    handles {q = env_submit_request empty 100 first} {q1 = left} outside first
      (unfold empty update env_submit_request take_request hook link unlink_node tail_behind in
        refl)
      (submits {q = left} 200 second (unfold empty update in refl) stays))

-- The second request arrives while the first is handled, at the address that became free.
abbrev arriving : ℕ → Items
arriving zero = (100, first) ∷ []
arriving (suc zero) = (100, second) ∷ []
arriving (suc (suc n)) = []

event_round-Emptied_example :
    Emptied counting arriving
      (λ n. outside)
      0
      []
      start
      (event_round counting arriving (λ n. outside) (λ n. false) 3 (empty, start))
event_round-Emptied_example =
    event_round-Emptied counting arriving (λ n. outside) (λ n. false) 2 empty start [] empty-Models
      ((tt, tt), ((tt, tt), tt)) (omega arith)

-- A short digest, which tells the two codes that were compiled from each other.
abbrev digest : Bytes → Bytes
digest code = length code ∷ []

abbrev Compiled : Bytes → Type 0
Compiled code = (code ≡ codes "1+1") ⊎ (code ≡ codes "2")

abbrev holding : Cache
holding = record {
  buckets =
      (record {
        hash = bc_compute_hash (some digest) (codes "1+1");
        bytecode = codes "1+1";
        last_access = 0;
      }
        ∷ [])
      ∷ [];
  entry_count = 1;
  max_entries = 2;
}

holding-IsValid : IsValid holding
holding-IsValid = record {
  wide = omega arith;
  counted = refl;
  bounded = omega arith;
  roomy = omega arith;
  dated = omega arith;
}

digest-IsApart : IsApart counting (some digest) Compiled (codes "1+1")
unfolding cqjs.Format.hex_digit
digest-IsApart = (inl refl, apart)
  where
    clash : ◌≡◌ {A = Bytes} (48 ∷ 51 ∷ []) (48 ∷ 49 ∷ []) → ⊥
    clash e = let digit : ◌≡◌ {A = ℕ} 51 49 = ap (λ l. get_or l 1 0) e in absurd (omega arith)

    apart :
        (code' : Bytes)
        → Compiled code'
        → bc_compute_hash (some digest) (codes "1+1") ≡ bc_compute_hash (some digest) code'
        → codes "1+1" ≡ code'
    apart code' (inl same) e = sym same
    apart code' (inr other) e =
        absurd (clash (unfold bc_compute_hash hex_string in (rw other at e)))

eval_cached-IsRight_example : IsRight counting (some digest) Compiled (codes "1+1") (codes "a.js") (
    eval_cached counting
      (some digest)
      (λ b. b)
      1
      2
      (codes "1+1")
      (codes "a.js")
      (record start { cache = some holding })
      (some holding))
eval_cached-IsRight_example =
    eval_cached-IsRight counting (some digest) Compiled (λ f s s' bytes e. inr (sym e))
      (codes "1+1") digest-IsApart (λ b. b) 1 2 (codes "a.js")
      (record start { cache = some holding }) (some holding) (λ b. refl) (omega arith) (omega arith)
      refl
      (
        holding-IsValid,
        (((codes "1+1", codes "1+1", 0, inl refl, refl, (0, [], refl), refl), tt), tt),
      )
