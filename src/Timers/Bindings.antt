-- ===== src/Timers/Bindings.antt =====
-- setTimeout, clearTimeout, setInterval and clearInterval (polyfill/timer.c), on the list of their
-- arguments. The manager is `none` in a context that holds no pointer to one.
use cqjs.Prelude.{
  ℕ, ◌+◌, true, Option, none, some, List, [], ◌∷◌, ◌==◌, if◌then◌else◌, ◌≡◌, refl, ap, arith,
}
use cqjs.Prelude.Int.{ℤ, pos, negsuc}
use cqjs.Script.{Reply, undefined, number}
use cqjs.Timespec.{Timespec}
use cqjs.Timers.{TimerEntry, TimerManager, tm_set_timeout, tm_set_interval, cancel, tm_clear}

-- What a binding leaves and returns.
abbrev pub Bound {ℓ} : Type ℓ → Type ℓ
Bound C = Option (TimerManager C) × Reply

module _ {ℓ} {C : Type ℓ} where
  timer_id : TimerManager C × ℕ → Bound C
  timer_id (tm, id) = (some tm, number id)

  -- The delay is 0 without a second argument; `to_int32` is the engine's conversion.
  delay_arg : (C → ℤ) → List C → ℤ
  delay_arg to_int32 [] = pos 0
  delay_arg to_int32 (d ∷ others) = to_int32 d

  pub js_set_timeout : Timespec → (C → ℤ) → Option (TimerManager C) → List C → Bound C
  unfolding timer_id delay_arg
  js_set_timeout now to_int32 none args = (none, number 0)
  js_set_timeout now to_int32 (some tm) [] = (some tm, number 0)
  js_set_timeout now to_int32 (some tm) (fn ∷ others) =
      timer_id (tm_set_timeout now tm fn (delay_arg to_int32 others))

  pub js_set_interval : Timespec → (C → ℤ) → Option (TimerManager C) → List C → Bound C
  unfolding timer_id delay_arg
  js_set_interval now to_int32 none args = (none, number 0)
  js_set_interval now to_int32 (some tm) [] = (some tm, number 0)
  js_set_interval now to_int32 (some tm) (fn ∷ others) =
      timer_id (tm_set_interval now tm fn (delay_arg to_int32 others))

  -- No timer has a negative identifier.
  clear_id : TimerManager C → ℤ → TimerManager C
  clear_id tm (pos id) = tm_clear tm id
  clear_id tm (negsuc n) = tm

  pub js_clear_timeout : (C → ℤ) → Option (TimerManager C) → List C → Bound C
  unfolding clear_id
  js_clear_timeout to_int64 none args = (none, undefined)
  js_clear_timeout to_int64 (some tm) [] = (some tm, undefined)
  js_clear_timeout to_int64 (some tm) (id ∷ others) = (some (clear_id tm (to_int64 id)), undefined)

  -- The source repeats the text of js_clear_timeout.
  pub js_clear_interval : (C → ℤ) → Option (TimerManager C) → List C → Bound C
  unfolding js_clear_timeout
  js_clear_interval to_int64 tm args = js_clear_timeout to_int64 tm args

  -- The timers that are not canceled.
  pub active : List (TimerEntry C) → List (TimerEntry C)
  active [] = []
  active (e ∷ es) = let rest = active es in if e.canceled then rest else e ∷ rest

  active-cancel :
      (e : TimerEntry C) (es : List (TimerEntry C)) (id : ℕ)
      → e.id ≡ id
      → active (cancel id (e ∷ es)) ≡ active es
  unfolding cancel active
  active-cancel e es id h = let same : (e.id == id) ≡ true = ground arith in simp same

  clear-added :
      (to_int64 : C → ℤ) (counter : ℕ) (e : TimerEntry C) (es : List (TimerEntry C)) (v : C)
      → e.id ≡ counter
      → to_int64 v ≡ pos counter
      → (tm' : TimerManager C) × (js_clear_timeout to_int64
            (some (record { entries = e ∷ es; counter = counter }))
            (v ∷ [])
          ≡ (some tm', undefined))
        × (active tm'.entries ≡ active es)
  unfolding js_clear_timeout
  clear-added to_int64 counter e es v same back =
      let added : TimerManager C = record { entries = e ∷ es; counter = counter } in
      (
        tm_clear added counter,
        ap (λ z. (some (clear_id added z), undefined)) back,
        (unfold tm_clear in active-cancel e es counter same),
      )

  -- The identifier that setTimeout or setInterval returned, given back to clearTimeout or clearInterval.
  abbrev pub Cleared :
      (Option (TimerManager C) → List C → Bound C) → TimerManager C → Bound C → C → Type ℓ
  Cleared clear tm bound v =
      (tm' : TimerManager C) × (clear bound.0 (v ∷ []) ≡ (some tm', undefined))
      × (active tm'.entries ≡ active tm.entries)

  -- If the engine reads the identifier back that it was given, setTimeout and setInterval return the
  -- next identifier, and clearTimeout and clearInterval called with it leave exactly the timers
  -- active that were before.
  pub clear-set :
      (now : Timespec) (to_int32 to_int64 : C → ℤ) (tm : TimerManager C) (fn v : C)
      (others : List C)
      → to_int64 v ≡ pos (tm.counter + 1)
      → ((js_set_timeout now to_int32 (some tm) (fn ∷ others)).1 ≡ number (tm.counter + 1))
        × Cleared
            (js_clear_timeout to_int64)
            tm
            (js_set_timeout now to_int32 (some tm) (fn ∷ others))
            v
        × ((js_set_interval now to_int32 (some tm) (fn ∷ others)).1 ≡ number (tm.counter + 1))
        × Cleared
            (js_clear_interval to_int64)
            tm
            (js_set_interval now to_int32 (some tm) (fn ∷ others))
            v
  unfolding js_set_timeout js_set_interval js_clear_interval tm_set_timeout tm_set_interval
  clear-set now to_int32 to_int64 tm fn v others back = (
    refl,
    clear-added to_int64 (tm.counter + 1) _ tm.entries v refl back,
    refl,
    clear-added to_int64 (tm.counter + 1) _ tm.entries v refl back,
  )
