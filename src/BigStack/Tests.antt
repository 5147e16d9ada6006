-- ===== src/BigStack/Tests.antt =====
-- An engine whose state is the pointer from which it counts, and which gives the pointer it is called from.
use cqjs.Prelude.{ℕ, ◌≡◌}
use cqjs.BigStack.{Calls}

abbrev pointing : Calls ℕ ℕ
pointing = record {
  js_update_stack_top = λ sp s. sp;
  js_eval = λ args sp s. (s, sp);
  js_eval_function = λ func_obj sp s. (s, sp);
  js_call = λ func_obj this_obj argv sp s. (s, sp);
}

abbrev IsFrom : ℕ → ℕ → Type 0
IsFrom sp s = s ≡ sp
