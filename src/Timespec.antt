-- ===== src/Timespec.antt =====
-- Points in time (cqjs.c, and once more in polyfill/timer.c): `timespec_add_ms` and `timespec_cmp`.
-- Durations are not negative: every caller passes one that it has bounded from below.
use cqjs.Prelude.{ℕ, ◌+◌, ◌-◌, ◌*◌, ◌/◌, ◌%◌, ◌<◌, ltb, leb, if◌then◌else◌, ◌≡◌, ◌↔◌, arith}

pub record Timespec : Type 0 where
  pub sec : ℕ
  pub nsec : ℕ

unfoldable pub timespec_add_ms : Timespec → ℕ → Timespec
timespec_add_ms ts ms =
    let sec = ts.sec + ms / 1000 in
    let nsec = ts.nsec + ms % 1000 * 1000000 in
    if leb 1000000000 nsec
    then record { sec = sec + 1; nsec = nsec - 1000000000 }
    else record { sec = sec; nsec = nsec }

-- The results -1, 0 and 1 of the comparison.
pub data Sign : Type 0 where
  less same more : Sign

unfoldable pub timespec_cmp : Timespec → Timespec → Sign
timespec_cmp a b =
    if ltb a.sec b.sec
    then less
    else if ltb b.sec a.sec
    then more
    else if ltb a.nsec b.nsec
    then less
    else if ltb b.nsec a.nsec
    then more
    else same

-- Less than a second's nanoseconds.
abbrev pub IsNormal : Timespec → Type 0
IsNormal ts = ts.nsec < 1000000000

-- The time in nanoseconds.
abbrev pub nanos : Timespec → ℕ
nanos ts = ts.sec * 1000000000 + ts.nsec

-- Adding milliseconds to a normal time gives a normal time, that many milliseconds later.
pub timespec_add_ms-nanos :
    (ts : Timespec) (ms : ℕ)
    → IsNormal ts
    → IsNormal (timespec_add_ms ts ms) × (nanos (timespec_add_ms ts ms) ≡ nanos ts + ms * 1000000)
unfolding timespec_add_ms
timespec_add_ms-nanos ts ms h = ground arith

-- On normal times the comparison orders the times that they stand for.
pub timespec_cmp-nanos :
    (a b : Timespec)
    → IsNormal a
    → IsNormal b
    → ((timespec_cmp a b ≡ less) ↔ (nanos a < nanos b))
      × ((timespec_cmp a b ≡ same) ↔ (nanos a ≡ nanos b))
      × ((timespec_cmp a b ≡ more) ↔ (nanos b < nanos a))
unfolding timespec_cmp
timespec_cmp-nanos a b ha hb = ground arith

-- `cqjs_now_ms`, of the time that the clock gives.
unfoldable pub cqjs_now_ms : Timespec → ℕ
cqjs_now_ms ts = ts.sec * 1000 + ts.nsec / 1000000

-- It is the time in whole milliseconds.
pub cqjs_now_ms-nanos : (ts : Timespec) → cqjs_now_ms ts ≡ nanos ts / 1000000
unfolding cqjs_now_ms
cqjs_now_ms-nanos ts = omega arith
