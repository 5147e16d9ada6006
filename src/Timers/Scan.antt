-- ===== src/Timers/Scan.antt =====
-- One walk over the timers: which timer fires, and what is left.
use cqjs.Prelude.{
  ℕ, suc, ◌≤◌, ◌<◌, Bool, true, false, not, ◌&&◌, none, some, List, [], ◌∷◌, All, if◌then◌else◌,
  Bool-cases, inl, inr, ◌≡◌, ◌⊎◌, refl, arith,
}
use cqjs.Timespec.{Timespec, timespec_add_ms, timespec_cmp, IsNormal, nanos, timespec_add_ms-nanos}
use cqjs.Timers.{TimerEntry, reached, is_due, after_fire, scan}

module _ {ℓ} {C : Type ℓ} where
  -- A timer that a walk may fire.
  abbrev pub is_ready : Timespec → TimerEntry C → Bool
  is_ready now e = not e.canceled && is_due now e

  abbrev pub ready_count : Timespec → List (TimerEntry C) → ℕ
  ready_count now [] = 0
  ready_count now (e ∷ es) = if is_ready now e then suc (ready_count now es) else ready_count now es

  -- The callbacks of the timers that may fire, in the order of the list.
  abbrev pub ready_calls : Timespec → List (TimerEntry C) → List C
  ready_calls now [] = []
  ready_calls now (e ∷ es) =
      if is_ready now e then e.callback ∷ ready_calls now es else ready_calls now es

  -- A timer due at a later reading has a period of at least 1 ms.
  pub record IsSound (e : TimerEntry C) : Type 0 where
    pub normal : IsNormal e.next_fire
    pub periodic : e.is_interval ≡ true → 0 < e.interval_ms

  is_due-nanos :
      (now : Timespec) (e : TimerEntry C)
      → IsNormal now
      → IsNormal e.next_fire
      → ((is_due now e ≡ true) × (nanos e.next_fire ≤ nanos now))
        ⊎ ((is_due now e ≡ false) × (nanos now < nanos e.next_fire))
  unfolding is_due reached timespec_cmp
  is_due-nanos now e hn he = ground arith

  -- An interval that is rescheduled is not due at the time of the walk any more.
  again_not_due :
      (now again : Timespec) (e : TimerEntry C)
      → IsNormal now
      → IsNormal again
      → nanos now ≤ nanos again
      → 0 < e.interval_ms
      → is_due now (record e { next_fire = timespec_add_ms again e.interval_ms }) ≡ false
  again_not_due now again e hn ha le period =
      let (normal, later) = timespec_add_ms-nanos again e.interval_ms ha in
      elim (is_due-nanos now (record e { next_fire = timespec_add_ms again e.interval_ms }) hn
        normal) [ inl (_, before) ↦ absurd (omega arith) | inr (not_due, _) ↦ not_due ]

  module _ (now again : Timespec) (hn : IsNormal now) (ha : IsNormal again)
      (le : nanos now ≤ nanos again) where
    -- A timer that fires is taken off the list or is not due any more.
    after_fire-ready :
        (e : TimerEntry C) (es : List (TimerEntry C)) (cb : C)
        → IsSound e
        → All IsSound es
        → e.canceled ≡ false
        → is_due now e ≡ true
        → some e.callback ≡ some cb
        → (ready_count now (e ∷ es) ≡ suc (ready_count now (after_fire again e es)))
          × (ready_calls now (e ∷ es) ≡ cb ∷ ready_calls now (after_fire again e es))
          × All IsSound (after_fire again e es)
    unfolding after_fire
    after_fire-ready e es cb sound h active due eq = elim (Bool-cases e.is_interval) [
      | inl interval ↦
          let quiet = again_not_due now again e hn ha le (sound.periodic interval) in
          let normal = (timespec_add_ms-nanos again e.interval_ms ha).0 in
          simp interval (
            ground (arith, quiet),
            ground (arith, quiet),
            (record { normal = normal; periodic = λ _. sound.periodic interval }, h),
          )
      | inr once ↦ simp once (ground arith, ground arith, h)
    ]

  -- The three ways in which a walk takes a timer.
  data Taken (now again : Timespec) (e : TimerEntry C) (es : List (TimerEntry C)) : Type ℓ where
    removed : e.canceled ≡ true → scan now again (e ∷ es) ≡ scan now again es → Taken now again e es
    fires :
        e.canceled ≡ false
        → is_due now e ≡ true
        → scan now again (e ∷ es) ≡ (after_fire again e es, some e.callback)
        → Taken now again e es
    waits :
        e.canceled ≡ false
        → is_due now e ≡ false
        → scan now again (e ∷ es) ≡ (e ∷ (scan now again es).0, (scan now again es).1)
        → Taken now again e es

  taken :
      (now again : Timespec) (e : TimerEntry C) (es : List (TimerEntry C)) → Taken now again e es
  unfolding scan
  taken now again e es = elim (Bool-cases e.canceled) [
    | inl canceled ↦ removed canceled (simp canceled)
    | inr active ↦ elim (Bool-cases (is_due now e)) [
      | inl due ↦ fires active due (simp (active, due))
      | inr early ↦ waits active early (simp (active, early))
    ]
  ]

  module _ (now again : Timespec) (hn : IsNormal now) (ha : IsNormal again)
      (le : nanos now ≤ nanos again) where
    -- If nothing fires, nothing was ready, and only canceled timers were removed.
    pub scan-none :
        (es : List (TimerEntry C))
        → (scan now again es).1 ≡ none
        → (ready_count now es ≡ 0)
          × (ready_calls now es ≡ [])
          × All (λ e. (e.canceled ≡ false) × (is_due now e ≡ false)) (scan now again es).0
    scan-none [] h = (refl, refl, unfold scan in tt)
    scan-none (e ∷ es) h = elim (taken now again e es) [
      | removed canceled eq ↦
          let (c0, c1, kept) = scan-none es (rw eq at h) in
          (ground (arith, c0), ground (arith, c1), rw eq kept)
      | fires active due eq ↦ absurd (no_call (rw eq at h))
      | waits active early eq ↦
          let (c0, c1, kept) = scan-none es (rw eq at h) in
          (ground (arith, c0), ground (arith, c1), rw eq ((active, early), kept))
    ]
      where
        no_call : {cb : C} → some cb ≡ none → ⊥
        no_call h = cc

    -- If a timer fires it is the first one that is ready; then one timer less is.
    pub scan-some :
        (es : List (TimerEntry C)) (cb : C)
        → All IsSound es
        → (scan now again es).1 ≡ some cb
        → (ready_count now es ≡ suc (ready_count now (scan now again es).0))
          × (ready_calls now es ≡ cb ∷ ready_calls now (scan now again es).0)
          × All IsSound (scan now again es).0
    scan-some [] cb h e = unfold scan in cc
    scan-some (e ∷ es) cb (sound, h) eq = elim (taken now again e es) [
      | removed canceled step ↦
          let (c0, c1, kept) = scan-some es cb h (rw step at eq) in
          rw step (ground (arith, c0), ground (arith, c1), kept)
      | fires active due step ↦
          rw step (after_fire-ready now again hn ha le e es cb sound h active due (rw step at eq))
      | waits active early step ↦
          let (c0, c1, kept) = scan-some es cb h (rw step at eq) in
          rw step (ground (arith, c0), ground (arith, c1), (sound, kept))
    ]
