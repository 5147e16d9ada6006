-- ===== src/Timers/Timeout.antt =====
-- `tm_next_timeout_ms`: how long the event loop may sleep.
use cqjs.Prelude.{
  ℕ, ◌+◌, ◌*◌, ◌≤◌, ◌<◌, true, false, none, some, List, [], ◌∷◌, All, leb, ltb, Bool-cases, inl,
  inr, ◌≡◌, ◌⊎◌, refl, arith,
}
use cqjs.Timespec.{Timespec, IsNormal, nanos}
use cqjs.Timers.{TimerEntry, TimerManager, diff_ms, smaller, next_timeout, tm_next_timeout_ms}

-- The milliseconds to a point in time, rounded: less than a millisecond too many or too few.
diff_ms-nanos :
    (now fire : Timespec)
    → IsNormal now
    → IsNormal fire
    → ((diff_ms now fire ≡ 0) ⊎ (nanos now + diff_ms now fire * 1000000 < nanos fire + 1000000))
      × (nanos fire < nanos now + (diff_ms now fire + 1) * 1000000)
unfolding diff_ms
diff_ms-nanos now fire hn hf = elim (Bool-cases (leb now.nsec fire.nsec)) [
  | inl after ↦ rw after (ground arith)
  | inr before ↦ rw before (ground arith)
]

module _ {ℓ} {C : Type ℓ} where
  abbrev pub Any : (TimerEntry C → Type 0) → List (TimerEntry C) → Type 0
  Any P [] = ⊥
  Any P (e ∷ es) = P e ⊎ Any P es

  module _ (now : Timespec) where
    -- Sleeping `m` milliseconds does not pass the timer's time by a millisecond.
    abbrev pub IsInTime : ℕ → TimerEntry C → Type 0
    IsInTime m e =
        e.canceled ≡ false → (m ≡ 0) ⊎ (nanos now + m * 1000000 < nanos e.next_fire + 1000000)

    -- The timer is active and fires less than a millisecond after `m` milliseconds.
    abbrev pub IsAwaited : ℕ → TimerEntry C → Type 0
    IsAwaited m e = (e.canceled ≡ false) × (nanos e.next_fire < nanos now + (m + 1) * 1000000)

    -- A bound that was found, and what it still promises of the timers behind.
    next_timeout-some :
        (es : List (TimerEntry C)) (a : ℕ)
        → All (λ e. IsNormal e.next_fire) es
        → IsNormal now
        → (m : ℕ) × (next_timeout now (some a) es ≡ some m)
          × (m ≤ a)
          × All (IsInTime m) es
          × ((m ≡ a) ⊎ Any (IsAwaited m) es)
    unfolding next_timeout
    next_timeout-some [] a h hn = (a, refl, omega arith, tt, inl refl)
    next_timeout-some (e ∷ es) a (he, h) hn =
        let (late, soon) = diff_ms-nanos now e.next_fire hn he in
        elim (Bool-cases e.canceled) [
          | inl canceled ↦
              let (m, eq, le, all, any) = next_timeout-some es a h hn in
              (m, simp (canceled, eq), le, ((λ active. cc), all), ground (arith, any))
          | inr active ↦ elim (Bool-cases (ltb (diff_ms now e.next_fire) a)) [
            | inl nearer ↦
                let (m, eq, le, all, any) = next_timeout-some es (diff_ms now e.next_fire) h hn in
                (
                  m,
                  simp (active, smaller, nearer, eq),
                  ground arith,
                  ((λ _. ground arith), all),
                  elim any [
                    | inl at ↦ inr (inl (active, omega arith))
                    | inr later ↦ inr (inr later)
                  ],
                )
            | inr further ↦
                let (m, eq, le, all, any) = next_timeout-some es a h hn in
                (
                  m,
                  simp (active, smaller, further, eq),
                  le,
                  ((λ _. ground arith), all),
                  elim any [ inl at ↦ inl at | inr later ↦ inr (inr later) ],
                )
          ]
        ]

    next_timeout-none :
        (es : List (TimerEntry C))
        → All (λ e. IsNormal e.next_fire) es
        → IsNormal now
        → ((next_timeout now none es ≡ none) × All (λ e. e.canceled ≡ true) es)
          ⊎ ((m : ℕ) × (next_timeout now none es ≡ some m)
              × All (IsInTime m) es
              × Any (IsAwaited m) es)
    unfolding next_timeout
    next_timeout-none [] h hn = inl (refl, tt)
    next_timeout-none (e ∷ es) (he, h) hn = elim (Bool-cases e.canceled) [
      | inl canceled ↦ elim (next_timeout-none es h hn) [
        | inl (eq, all) ↦ inl (simp (canceled, eq), (canceled, all))
        | inr (m, eq, all, any) ↦ inr (m, simp (canceled, eq), ((λ active. cc), all), inr any)
      ]
      | inr active ↦
          let (late, soon) = diff_ms-nanos now e.next_fire hn he in
          let (m, eq, le, all, any) = next_timeout-some es (diff_ms now e.next_fire) h hn in
          inr (
            m,
            simp (active, smaller, eq),
            ((λ _. ground arith), all),
            elim any [ inl at ↦ inl (active, omega arith) | inr later ↦ inr later ],
          )
    ]

    -- If now and all firing times are normal, then either the result is none and every timer is canceled,
    -- or it is a number of milliseconds, 0 or such that sleeping so long passes no active timer's time by
    -- a millisecond or more, and some active timer fires less than a millisecond behind that sleep.
    pub tm_next_timeout_ms_lem :
        (tm : TimerManager C)
        → All (λ e. IsNormal e.next_fire) tm.entries
        → IsNormal now
        → ((tm_next_timeout_ms now tm ≡ none) × All (λ e. e.canceled ≡ true) tm.entries)
          ⊎ ((m : ℕ) × (tm_next_timeout_ms now tm ≡ some m)
              × All (IsInTime m) tm.entries
              × Any (IsAwaited m) tm.entries)
    unfolding tm_next_timeout_ms
    tm_next_timeout_ms_lem tm h hn = next_timeout-none tm.entries h hn
