-- ===== src/Dispatch/Run.antt =====
-- Runs of the tracker: any interleaving of its operations, each under the mutex.
use cqjs.Prelude.{
  ℕ, suc, ◌+◌, ◌^◌, ◌≤◌, ◌<◌, Option, List, [], ◌∷◌, length, All, Bytes, ◌≡◌, ◌≢◌, arith,
}
use cqjs.Dispatch.{Tracker, request_id, dt_new_request, dt_resolve, dt_reject, dt_remove}
use cqjs.Dispatch.Requests.{
  IsValid, request_id_injective, dt_new_request-IsValid, dt_resolve-IsValid, dt_reject-IsValid,
  dt_remove-IsValid,
}

pub data Call : Type 0 where
  new_request : Call
  resolve : Bytes → Option Bytes → Call
  reject : Bytes → Option Bytes → Call
  remove : Bytes → Call

-- The state after the calls, and the identifiers that were issued, in order.
pub run : List Call → Tracker → Tracker × List Bytes
run [] dt = (dt, [])
run (new_request ∷ calls) dt =
    let (dt', id) = dt_new_request dt in let (dt'', ids) = run calls dt' in (dt'', id ∷ ids)
run (resolve id value ∷ calls) dt = run calls (dt_resolve dt id value)
run (reject id error ∷ calls) dt = run calls (dt_reject dt id error)
run (remove id ∷ calls) dt = run calls (dt_remove dt id)

-- The invariant holds after any sequence of calls that is not long enough to overflow the counter.
pub run-IsValid :
    (calls : List Call) {dt : Tracker}
    → IsValid dt
    → dt.counter + length calls < 2 ^ 63
    → IsValid (run calls dt).0
unfolding run
run-IsValid [] v h = v
run-IsValid (new_request ∷ calls) {dt} v h =
    run-IsValid calls (dt_new_request-IsValid v (omega arith))
      (unfold dt_new_request in omega arith)
run-IsValid (resolve id value ∷ calls) v h =
    run-IsValid calls (dt_resolve-IsValid v id value) (unfold dt_resolve in omega arith)
run-IsValid (reject id error ∷ calls) v h =
    run-IsValid calls (dt_reject-IsValid v id error) (unfold dt_reject in omega arith)
run-IsValid (remove id ∷ calls) v h =
    run-IsValid calls (dt_remove-IsValid v id) (unfold dt_remove in omega arith)

abbrev pub AllDifferent : List Bytes → Type 0
AllDifferent [] = Unit
AllDifferent (x ∷ xs) = All (λ y. x ≢ y) xs × AllDifferent xs

-- The identifiers that a run issues come after those issued before it.
run-later :
    (calls : List Call) (dt : Tracker) (k : ℕ)
    → k ≤ dt.counter
    → dt.counter + length calls < 2 ^ 63
    → All (λ id. request_id k ≢ id) (run calls dt).1
unfolding run
run-later [] dt k le h = tt
run-later (new_request ∷ calls) dt k le h = (
  unfold dt_new_request in
      (λ e.
        let at : k ≡ suc dt.counter =
          request_id_injective k (suc dt.counter) (omega arith) (omega arith) e in
        absurd (omega arith)),
  run-later calls _ k (unfold dt_new_request in omega arith) (unfold dt_new_request in omega arith),
)
run-later (resolve id value ∷ calls) dt k le h =
    run-later calls _ k (unfold dt_resolve in le) (unfold dt_resolve in omega arith)
run-later (reject id error ∷ calls) dt k le h =
    run-later calls _ k (unfold dt_reject in le) (unfold dt_reject in omega arith)
run-later (remove id ∷ calls) dt k le h =
    run-later calls _ k (unfold dt_remove in le) (unfold dt_remove in omega arith)

-- No identifier is issued twice in a run, also after its request was removed.
pub run-AllDifferent :
    (calls : List Call) (dt : Tracker)
    → dt.counter + length calls < 2 ^ 63
    → AllDifferent (run calls dt).1
unfolding run
run-AllDifferent [] dt h = tt
run-AllDifferent (new_request ∷ calls) dt h = (
  unfold dt_new_request in run-later calls _ (suc dt.counter) (omega arith) (omega arith),
  run-AllDifferent calls _ (unfold dt_new_request in omega arith),
)
run-AllDifferent (resolve id value ∷ calls) dt h =
    run-AllDifferent calls _ (unfold dt_resolve in omega arith)
run-AllDifferent (reject id error ∷ calls) dt h =
    run-AllDifferent calls _ (unfold dt_reject in omega arith)
run-AllDifferent (remove id ∷ calls) dt h =
    run-AllDifferent calls _ (unfold dt_remove in omega arith)
