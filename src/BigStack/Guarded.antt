-- ===== src/BigStack/Guarded.antt =====
-- Wherever the engine runs, its limit is counted from the stack pointer from which it runs.
use cqjs.Prelude.{ℕ, Option, none, some, List, ◌≡◌}
use cqjs.BigStack.{EvalArgs, Run, Calls}

-- The pointer from which the engine runs, given the new thread's, if there is one, and the caller's.
abbrev pub pointer_of : Option ℕ → ℕ → ℕ
pointer_of none sp = sp
pointer_of (some big) sp = big

module _ {ℓ} {S V : Type ℓ} (IsCounted : ℕ → S → Type 0) where
  abbrev pub Keeps : Run S V → Type ℓ
  Keeps run = (from sp : ℕ) (s : S) → IsCounted from s → IsCounted from (run sp s).0

  -- `IsCounted sp s` says that the engine counts its limit from the pointer `sp`. This is what
  -- JS_UpdateStackTop is for, and nothing else that is called changes it.
  pub record IsDocumented (calls : Calls S V) : Type ℓ where
    pub updates : (sp : ℕ) (s : S) → IsCounted sp (calls.js_update_stack_top sp s)
    pub eval : (args : EvalArgs) → Keeps (calls.js_eval args)
    pub eval_function : (func_obj : V) → Keeps (calls.js_eval_function func_obj)
    pub call :
        (func_obj this_obj : V) (argv : List V) → Keeps (calls.js_call func_obj this_obj argv)

  -- The state in which the engine is called.
  abbrev pub state_of : Calls S V → Option ℕ → S → S
  state_of calls none s = s
  state_of calls (some big) s = calls.js_update_stack_top big s

  -- The result is that of one call of the engine, from the pointer of the thread on which it runs, from
  -- which it counts its limit; behind the call it counts from the caller's pointer.
  pub record Ran (calls : Calls S V) (run : Run S V) (big : Option ℕ) (sp : ℕ) (s : S) (out : S × V)
      : Type ℓ where
    pub counted : IsCounted (pointer_of big sp) (state_of calls big s)
    pub value : out.1 ≡ (run (pointer_of big sp) (state_of calls big s)).1
    pub after : IsCounted sp out.0
