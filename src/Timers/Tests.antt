-- ===== src/Timers/Tests.antt =====
-- A manager with a timeout, an interval and a canceled timer; a callback is a number.
use cqjs.Prelude.{
  ℕ, suc, ◌+◌, ◌≤◌, true, false, none, some, List, [], ◌∷◌, length, All, ◌≡◌, refl, ◌⊎◌, arith,
}
use cqjs.Timespec.{Timespec}
use cqjs.Prelude.Int.{pos}
use cqjs.Script.{number}
use cqjs.Timers.Bindings.{
  js_set_timeout, js_set_interval, js_clear_timeout, js_clear_interval, Cleared, clear-set,
}
use cqjs.Timers.{tm_init, TimerEntry, TimerManager, tm_process_pending, tm_next_timeout_ms}
use cqjs.Timers.Scan.{ready_count, ready_calls, IsSound}
use cqjs.Timers.Process.{
  IsClock, IsPatient, IsSettled, tm_process_pending-ends, tm_process_pending-calls,
}
use cqjs.Timers.Timeout.{Any, IsInTime, IsAwaited, tm_next_timeout_ms_lem}

abbrev base : Timespec
base = record { sec = 100; nsec = 0 }

-- Every reading is a second later.
abbrev ticking : ℕ → Timespec
ticking n = record { sec = 100 + n; nsec = 0 }

ticking-IsClock : IsClock ticking
ticking-IsClock = record { normal = λ n. omega arith; rises = λ n. omega arith }

abbrev timeout : TimerEntry ℕ
timeout = record {
  id = 3;
  callback = 33;
  interval_ms = 0;
  is_interval = false;
  canceled = false;
  next_fire = record { sec = 99; nsec = 5 };
}

abbrev interval : TimerEntry ℕ
interval = record timeout { id = 2; callback = 22; interval_ms = 10; is_interval = true }

abbrev canceled_timer : TimerEntry ℕ
canceled_timer = record timeout { id = 1; callback = 11; canceled = true }

abbrev three : TimerManager ℕ
three = record { entries = timeout ∷ interval ∷ canceled_timer ∷ []; counter = 3 }

-- Every callback adds a timer and cancels it.
abbrev adding : TimerManager ℕ → ℕ → TimerManager ℕ
adding tm cb = record tm { entries = canceled_timer ∷ tm.entries }

three-IsSound : All IsSound three.entries
three-IsSound = (
  record { normal = omega arith; periodic = λ e. cc },
  (
    record { normal = omega arith; periodic = λ e. omega arith },
    (record { normal = omega arith; periodic = λ e. cc }, tt),
  ),
)

adding-IsPatient : IsPatient ticking ticking-IsClock adding
adding-IsPatient tm cb sound =
    ((record { normal = omega arith; periodic = λ e. cc }, sound), omega arith)

tm_process_pending-ends_example :
    (tm' : TimerManager ℕ) × (calls : List ℕ) × (tm_process_pending adding ticking
        (suc (ready_count (ticking 0) three.entries))
        three
      ≡ some (tm', calls))
    × IsSettled ticking ticking-IsClock tm'
    × (length calls ≤ ready_count (ticking 0) three.entries)
tm_process_pending-ends_example =
    tm_process_pending-ends ticking ticking-IsClock adding three adding-IsPatient three-IsSound

tm_process_pending-calls_example :
    (tm' : TimerManager ℕ) × (tm_process_pending
        (λ tm cb. tm)
        ticking
        (suc (ready_count (ticking 0) three.entries))
        three
      ≡ some (tm', ready_calls (ticking 0) three.entries))
    × IsSettled ticking ticking-IsClock tm'
tm_process_pending-calls_example =
    tm_process_pending-calls ticking ticking-IsClock three three-IsSound

tm_next_timeout_ms_lem_example :
    ((tm_next_timeout_ms base three ≡ none) × All (λ e. e.canceled ≡ true) three.entries)
    ⊎ ((m : ℕ) × (tm_next_timeout_ms base three ≡ some m)
        × All (IsInTime base m) three.entries
        × Any (IsAwaited base m) three.entries)
tm_next_timeout_ms_lem_example = tm_next_timeout_ms_lem base three (omega arith) (omega arith)

clear-set_example :
    ((js_set_timeout base (λ z. z) (some tm_init) (pos 7 ∷ pos 50 ∷ [])).1 ≡ number 1)
    × Cleared
        (js_clear_timeout (λ z. z))
        tm_init
        (js_set_timeout base (λ z. z) (some tm_init) (pos 7 ∷ pos 50 ∷ []))
        (pos 1)
    × ((js_set_interval base (λ z. z) (some tm_init) (pos 7 ∷ pos 50 ∷ [])).1 ≡ number 1)
    × Cleared
        (js_clear_interval (λ z. z))
        tm_init
        (js_set_interval base (λ z. z) (some tm_init) (pos 7 ∷ pos 50 ∷ []))
        (pos 1)
unfolding tm_init
clear-set_example = clear-set base (λ z. z) (λ z. z) tm_init (pos 7) (pos 1) (pos 50 ∷ []) refl
