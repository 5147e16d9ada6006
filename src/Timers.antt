-- ===== src/Timers.antt =====
-- Timers (polyfill/timer.c, cqjs.h). A callback is a value of the engine, of any type `C`. The byte
-- written to the notification pipe only wakes the event loop and carries no state.
pub mod Scan
pub mod Process
pub mod Timeout
pub mod Bindings
mod Tests
use cqjs.Prelude.{
  ℕ, zero, suc, ◌+◌, ◌-◌, ◌*◌, ◌/◌, Bool, true, false, Option, none, some, List, [], ◌∷◌, ◌++◌, ltb,
  leb, ◌==◌, if◌then◌else◌,
}
use cqjs.Prelude.Int.{ℤ, pos, negsuc}
use cqjs.Timespec.{Timespec, timespec_add_ms, timespec_cmp, Sign, less, same, more}

pub record TimerEntry {ℓ} (C : Type ℓ) : Type ℓ where
  pub id : ℕ
  pub callback : C
  pub interval_ms : ℕ
  pub is_interval : Bool
  pub canceled : Bool
  pub next_fire : Timespec

-- The list begins at `head`.
pub record TimerManager {ℓ} (C : Type ℓ) : Type ℓ where
  pub entries : List (TimerEntry C)
  pub counter : ℕ

-- `delay_ms < 0 ? 0 : delay_ms`
pub delay_of : ℤ → ℕ
delay_of (pos n) = n
delay_of (negsuc n) = 0

-- `if (interval_ms <= 0) interval_ms = 1`
pub interval_of : ℤ → ℕ
interval_of (pos zero) = 1
interval_of (pos (suc n)) = suc n
interval_of (negsuc n) = 1

-- `timespec_cmp(&now, &e->next_fire) >= 0`
pub reached : Sign → Bool
reached less = false
reached same = true
reached more = true

-- `diff_ms`, set to 0 where it is negative. C's division rounds towards zero, so the nanoseconds
-- are divided on the side on which they are positive.
pub diff_ms : Timespec → Timespec → ℕ
diff_ms now fire =
    if leb now.nsec fire.nsec
    then fire.sec * 1000 + (fire.nsec - now.nsec) / 1000000 - now.sec * 1000
    else fire.sec * 1000 - (now.sec * 1000 + (now.nsec - fire.nsec) / 1000000)

-- `min_ms`, with `none` for -1
pub smaller : Option ℕ → ℕ → Option ℕ
smaller none d = some d
smaller (some m) d = if ltb d m then some d else some m

module _ {ℓ} {C : Type ℓ} where
  unfoldable pub tm_init : TimerManager C
  tm_init = record { entries = []; counter = 0 }

  -- The time `now` is read under the lock; the result is the new timer's identifier.
  pub tm_set_timeout : Timespec → TimerManager C → C → ℤ → TimerManager C × ℕ
  tm_set_timeout now tm callback delay_ms =
      let id = tm.counter + 1 in
      let entry : TimerEntry C = record {
        id = id;
        callback = callback;
        interval_ms = 0;
        is_interval = false;
        canceled = false;
        next_fire = timespec_add_ms now (delay_of delay_ms);
      } in
      (record { entries = entry ∷ tm.entries; counter = id }, id)

  pub tm_set_interval : Timespec → TimerManager C → C → ℤ → TimerManager C × ℕ
  tm_set_interval now tm callback interval_ms =
      let id = tm.counter + 1 in
      let entry : TimerEntry C = record {
        id = id;
        callback = callback;
        interval_ms = interval_of interval_ms;
        is_interval = true;
        canceled = false;
        next_fire = timespec_add_ms now (interval_of interval_ms);
      } in
      (record { entries = entry ∷ tm.entries; counter = id }, id)

  pub cancel : ℕ → List (TimerEntry C) → List (TimerEntry C)
  cancel id [] = []
  cancel id (e ∷ es) = if e.id == id then record e { canceled = true } ∷ es else e ∷ cancel id es

  pub tm_clear : TimerManager C → ℕ → TimerManager C
  tm_clear tm id = record tm { entries = cancel id tm.entries }

  pub is_due : Timespec → TimerEntry C → Bool
  unfolding reached
  is_due now e = reached (timespec_cmp now e.next_fire)

  -- What stays in the list of a timer that fires; `again` is the time read for the next firing.
  pub after_fire : Timespec → TimerEntry C → List (TimerEntry C) → List (TimerEntry C)
  after_fire again e es =
      if e.is_interval
      then record e { next_fire = timespec_add_ms again e.interval_ms } ∷ es
      else es

  -- The walk from the head to the first timer that fires: canceled timers on the way are removed.
  pub scan : Timespec → Timespec → List (TimerEntry C) → List (TimerEntry C) × Option C
  scan now again [] = ([], none)
  scan now again (e ∷ es) =
      let rest = scan now again es in
      if e.canceled
      then rest
      else if is_due now e
      then (after_fire again e es, some e.callback)
      else (e ∷ rest.0, rest.1)

  pub record_call : C → Option (TimerManager C × List C) → Option (TimerManager C × List C)
  record_call cb none = none
  record_call cb (some (tm, calls)) = some (tm, cb ∷ calls)

  -- The loop: after a callback, which may change the timers, the walk restarts at the head. The
  -- callbacks that were called are collected; `none` means that the fuel ran out. `clock n` is the
  -- n-th reading of the clock behind `now`.
  pub process :
      (TimerManager C → C → TimerManager C)
      → (ℕ → Timespec)
      → Timespec
      → ℕ
      → ℕ
      → TimerManager C
      → Option (TimerManager C × List C)
  process call clock now zero n tm = none
  process call clock now (suc fuel) n tm =
      let walked = scan now (clock n) tm.entries in
      let tm' = record tm { entries = walked.0 } in
      elim walked.1 [
        | none ↦ some (tm', [])
        | some cb ↦ record_call cb (process call clock now fuel (suc n) (call tm' cb))
      ]

  -- The return value of the function is the number of calls.
  pub tm_process_pending :
      (TimerManager C → C → TimerManager C)
      → (ℕ → Timespec)
      → ℕ
      → TimerManager C
      → Option (TimerManager C × List C)
  tm_process_pending call clock fuel tm = process call clock (clock 0) fuel 1 tm

  -- The conversion of a difference to `int` is left out: a delay is an `int` of milliseconds, so that no
  -- timer is due later than that from now.
  pub next_timeout : Timespec → Option ℕ → List (TimerEntry C) → Option ℕ
  unfolding smaller diff_ms
  next_timeout now min_ms [] = min_ms
  next_timeout now min_ms (e ∷ es) =
      next_timeout now (if e.canceled then min_ms else smaller min_ms (diff_ms now e.next_fire)) es

  pub tm_next_timeout_ms : Timespec → TimerManager C → Option ℕ
  tm_next_timeout_ms now tm = next_timeout now none tm.entries

  pub tm_free : TimerManager C → TimerManager C
  tm_free tm = record tm { entries = [] }
