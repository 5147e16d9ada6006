-- ===== src/Fetch/Pending.antt =====
-- fm_process_pending, fm_has_pending and fm_free (polyfill/fetch.c), on the list that begins at
-- `head`. The walk that is made under the lock is one step: it sees `completed` as the workers have
-- set it by then. Draining the pipe carries no state.
pub mod Settled
use cqjs.Prelude.{
  ℕ, zero, suc, Bool, true, false, Option, none, some, List, [], ◌∷◌, Bytes, codes, if◌then◌else◌,
}
use cqjs.Fetch.{FetchEntry}
use cqjs.Fetch.Response.{Response, build_response_object, text_or}

-- The call of a promise's function.
pub data Settlement : Type 0 where
  resolve : ℕ → Response → Settlement
  reject : ℕ → Bytes → Settlement

unfoldable pub settlement : FetchEntry → Settlement
settlement e =
    if e.is_error
    then reject e.promise (text_or (codes "fetch error") e.error_msg)
    else resolve e.promise (build_response_object e)

pub fm_init : List FetchEntry
fm_init = []

further : FetchEntry → Option (FetchEntry × List FetchEntry) → Option (FetchEntry × List FetchEntry)
further e none = none
further e (some (found, rest)) = some (found, e ∷ rest)

-- The walk from the head to the first entry that is completed, which is unlinked.
pub take_completed : List FetchEntry → Option (FetchEntry × List FetchEntry)
unfolding further
take_completed [] = none
take_completed (e ∷ es) =
    let later = further e (take_completed es) in if e.completed then some (e, es) else later

abbrev pub Processed {ℓ} : Type ℓ → Type ℓ
Processed W = Option (ℕ × (List FetchEntry × W))

module _ {ℓ} {W : Type ℓ} where
  count_one : Processed W → Processed W
  count_one none = none
  count_one (some (processed, state)) = some (suc processed, state)

  -- While the promise is settled the lock is free: the call may change the list as well as the engine's
  -- state. `none` means that the fuel, one round for each walk, ran out.
  pub fm_process_pending :
      (Settlement → List FetchEntry × W → List FetchEntry × W)
      → ℕ
      → List FetchEntry × W
      → Processed W
  unfolding count_one
  fm_process_pending call zero state = none
  fm_process_pending call (suc fuel) (entries, w) = elim (take_completed entries) [
    | none ↦ some (0, (entries, w))
    | some (e, rest) ↦ count_one (fm_process_pending call fuel (call (settlement e) (rest, w)))
  ]

pub fm_has_pending : List FetchEntry → Bool
fm_has_pending [] = false
fm_has_pending (e ∷ es) = true

-- The promises of what was pending are never settled.
pub fm_free : List FetchEntry → List FetchEntry
fm_free entries = []
