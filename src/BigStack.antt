-- ===== src/BigStack.antt =====
-- The engine's calls on a thread with a stack of 64 MB (cqjs.c). The engine is an argument: its state, the
-- calls, each from the stack pointer of its caller, and `JS_UpdateStackTop`, with which it counts its
-- limit from the pointer of its caller.
pub mod Guarded
mod Tests
use cqjs.Prelude.{ℕ, ◌*◌, Option, none, some, List, Bytes, length}

abbrev pub big_stack_size : ℕ
big_stack_size = 64 * 1024 * 1024

-- `eval_args_t`
pub record EvalArgs : Type 0 where
  pub input : Bytes
  pub input_len : ℕ
  pub filename : Bytes
  pub eval_flags : ℕ

abbrev pub eval_args : Bytes → Bytes → ℕ → EvalArgs
eval_args input filename eval_flags = record {
  input = input;
  input_len = length input;
  filename = filename;
  eval_flags = eval_flags;
}

-- A call of the engine at a stack pointer.
abbrev pub Run {ℓ κ} : Type ℓ → Type κ → Type (ℓ ⊔ κ)
Run S V = ℕ → S → S × V

-- JS_UpdateStackTop, JS_Eval, JS_EvalFunction and JS_Call.
pub record Calls {ℓ} (S V : Type ℓ) : Type ℓ where
  pub js_update_stack_top : ℕ → S → S
  pub js_eval : EvalArgs → Run S V
  pub js_eval_function : V → Run S V
  pub js_call : V → V → List V → Run S V

module _ {ℓ} {S V : Type ℓ} (calls : Calls S V) where
  -- The body of the thread: the result is left in the arguments.
  unfoldable pub big_stack_thread : Run S V → Run S V
  big_stack_thread run sp s = run sp (calls.js_update_stack_top sp s)

  -- `sp` is the caller's stack pointer, and `big` that of the new thread, if it can be started: if not, the
  -- engine is called on the caller's stack.
  unfoldable pub on_big_stack : Run S V → Option ℕ → Run S V
  on_big_stack run none sp s = run sp s
  on_big_stack run (some big) sp s =
      let (s', result) = big_stack_thread run big s in (calls.js_update_stack_top sp s', result)

  module _ (big : Option ℕ) where
    unfoldable pub cqjs_eval : Bytes → Bytes → ℕ → Run S V
    cqjs_eval input filename eval_flags =
        on_big_stack (calls.js_eval (eval_args input filename eval_flags)) big

    unfoldable pub cqjs_eval_function : V → Run S V
    cqjs_eval_function func_obj = on_big_stack (calls.js_eval_function func_obj) big

    unfoldable pub cqjs_call : V → V → List V → Run S V
    cqjs_call func_obj this_obj argv = on_big_stack (calls.js_call func_obj this_obj argv) big
