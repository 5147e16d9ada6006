-- ===== src/Timers/Process.antt =====
-- `tm_process_pending` as a whole: it ends, and what it calls.
use cqjs.Prelude.{
  ℕ, zero, suc, ◌≤◌, ◌<◌, false, some, List, [], ◌∷◌, length, All, Option-cases, inl, inr, ◌≡◌,
  arith,
}
use cqjs.Timespec.{Timespec, IsNormal, nanos}
use cqjs.Timers.{TimerManager, is_due, scan, record_call, process, tm_process_pending}
use cqjs.Timers.Scan.{ready_count, ready_calls, IsSound, scan-none, scan-some}

-- A clock that does not go back.
pub record IsClock (clock : ℕ → Timespec) : Type 0 where
  pub normal : (n : ℕ) → IsNormal (clock n)
  pub rises : (n : ℕ) → nanos (clock 0) ≤ nanos (clock n)

module _ {ℓ} {C : Type ℓ} (clock : ℕ → Timespec) (ticks : IsClock clock) where
  -- A callback may add and cancel timers, but it makes none ready for the walk that called it.
  abbrev pub IsPatient : (TimerManager C → C → TimerManager C) → Type ℓ
  IsPatient call =
      (tm : TimerManager C) (cb : C)
      → All IsSound tm.entries
      → All IsSound (call tm cb).entries
        × (ready_count (clock 0) (call tm cb).entries ≤ ready_count (clock 0) tm.entries)

  -- No timer is left that is canceled or due.
  abbrev pub IsSettled : TimerManager C → Type 0
  IsSettled tm = All (λ e. (e.canceled ≡ false) × (is_due (clock 0) e ≡ false)) tm.entries

  process-ends :
      (call : TimerManager C → C → TimerManager C)
      → IsPatient call
      → (fuel n : ℕ) (tm : TimerManager C) → All IsSound tm.entries
      → ready_count (clock 0) tm.entries < fuel
      → (tm' : TimerManager C) × (calls : List C) × (process call clock (clock 0) fuel n tm
          ≡ some (tm', calls))
        × IsSettled tm'
        × (length calls ≤ ready_count (clock 0) tm.entries)
  unfolding process record_call
  process-ends call patient zero n tm sound h = absurd (omega arith)
  process-ends call patient (suc fuel) n tm sound h =
      let walked = scan (clock 0) (clock n) tm.entries in
      elim (Option-cases walked.1) [
        | inl quiet ↦
            let (c0, c1, settled) =
              scan-none (clock 0) (clock n) (ticks.normal 0) (ticks.normal n) (ticks.rises n)
                tm.entries quiet in
            (record tm { entries = walked.0 }, [], rw (quiet, process), settled, omega arith)
        | inr (cb, fired) ↦
            let (less, calls, kept) =
              scan-some (clock 0) (clock n) (ticks.normal 0) (ticks.normal n) (ticks.rises n)
                tm.entries cb sound fired in
            let (kept', fewer) = patient (record tm { entries = walked.0 }) cb kept in
            let (tm', later, ran, settled, bound) =
              process-ends call patient fuel (suc n) (call (record tm { entries = walked.0 }) cb)
                kept' (omega arith) in
            (tm', cb ∷ later, rw (fired, process, ran), settled, omega arith)
      ]

  -- Suppose that the clock does not go back, that the timers' times are normal and their intervals at
  -- least 1 ms, and that a callback makes no timer ready. With one unit of fuel for each timer that is
  -- ready, and one more, processing ends; no timer is left that is canceled or due, and no more callbacks
  -- were called than timers were ready.
  pub tm_process_pending-ends :
      (call : TimerManager C → C → TimerManager C) (tm : TimerManager C)
      → IsPatient call
      → All IsSound tm.entries
      → (tm' : TimerManager C) × (calls : List C) × (tm_process_pending call clock
            (suc (ready_count (clock 0) tm.entries))
            tm
          ≡ some (tm', calls))
        × IsSettled tm'
        × (length calls ≤ ready_count (clock 0) tm.entries)
  unfolding tm_process_pending
  tm_process_pending-ends call tm patient sound =
      process-ends call patient (suc (ready_count (clock 0) tm.entries)) 1 tm sound (omega arith)

  process-calls :
      (fuel n : ℕ) (tm : TimerManager C)
      → All IsSound tm.entries
      → ready_count (clock 0) tm.entries < fuel
      → (tm' : TimerManager C) × (process (λ tm cb. tm) clock (clock 0) fuel n tm
          ≡ some (tm', ready_calls (clock 0) tm.entries))
        × IsSettled tm'
  unfolding process record_call
  process-calls zero n tm sound h = absurd (omega arith)
  process-calls (suc fuel) n tm sound h =
      let walked = scan (clock 0) (clock n) tm.entries in
      elim (Option-cases walked.1) [
        | inl quiet ↦
            let (c0, c1, settled) =
              scan-none (clock 0) (clock n) (ticks.normal 0) (ticks.normal n) (ticks.rises n)
                tm.entries quiet in
            (record tm { entries = walked.0 }, rw (quiet, process, c1), settled)
        | inr (cb, fired) ↦
            let (less, calls, kept) =
              scan-some (clock 0) (clock n) (ticks.normal 0) (ticks.normal n) (ticks.rises n)
                tm.entries cb sound fired in
            let (tm', ran, settled) =
              process-calls fuel (suc n) (record tm { entries = walked.0 }) kept (omega arith) in
            (tm', rw (fired, process, ran, calls), settled)
      ]

  -- Suppose that the clock does not go back and that the timers' times are normal and their intervals at
  -- least 1 ms. If the callbacks leave the timers alone, those called are exactly the callbacks of the
  -- timers that were due and not canceled, each once, in the order of the list, in which the timer set
  -- last comes first; no timer is left that is canceled or due.
  pub tm_process_pending-calls :
      (tm : TimerManager C)
      → All IsSound tm.entries
      → (tm' : TimerManager C) × (tm_process_pending
            (λ tm cb. tm)
            clock
            (suc (ready_count (clock 0) tm.entries))
            tm
          ≡ some (tm', ready_calls (clock 0) tm.entries))
        × IsSettled tm'
  unfolding tm_process_pending
  tm_process_pending-calls tm sound =
      process-calls (suc (ready_count (clock 0) tm.entries)) 1 tm sound (omega arith)
