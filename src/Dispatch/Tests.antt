-- ===== src/Dispatch/Tests.antt =====
-- Concrete runs of the dispatch tracker.
use cqjs.Prelude.{false, none, some, List, [], ◌∷◌, codes, if◌then◌else◌, str_eq, ◌≡◌, arith}
use mathlib.Core.Option
use cqjs.Dispatch.{
  Tracker, dt_init, dt_new_request, dt_find, dt_resolve, dt_reject, complete_value, complete_error,
}
use cqjs.Dispatch.Requests.{
  IsValid, dt_init-IsValid, dt_new_request-IsValid, dt_find-new_request, dt_find_complete,
}
use cqjs.Dispatch.Run.{
  Call, new_request, resolve, reject, remove, run, AllDifferent, run-AllDifferent,
}

-- The tracker with one pending request, `d_1`.
abbrev pending : Tracker
pending = (dt_new_request dt_init).0

pending-IsValid : IsValid pending
pending-IsValid = dt_new_request-IsValid dt_init-IsValid (unfold dt_init in omega arith)

abbrev session : List Call
session =
    new_request
    ∷ new_request
    ∷ resolve (codes "d_1") (some (codes "{}"))
    ∷ reject (codes "d_2") none
    ∷ remove (codes "d_1")
    ∷ new_request
    ∷ []

dt_find-new_request_example :
    let (dt', id) = dt_new_request pending in
    (dt_find pending id ≡ none)
    × (dt_find dt' (codes "d_1") ≡ (
        if str_eq id (codes "d_1")
        then some (record { id = id; value = none; error = none; completed = false })
        else dt_find pending (codes "d_1")))
dt_find-new_request_example =
    dt_find-new_request pending-IsValid (unfold dt_new_request dt_init in omega arith) (codes "d_1")

dt_find_complete_example :
    (dt_find (dt_resolve pending (codes "d_1") none) (codes "d_1") ≡ (
      if str_eq (codes "d_1") (codes "d_1")
      then Option.map (complete_value none) (dt_find pending (codes "d_1"))
      else dt_find pending (codes "d_1")))
    × (dt_find (dt_reject pending (codes "d_1") none) (codes "d_1") ≡ (
        if str_eq (codes "d_1") (codes "d_1")
        then Option.map (complete_error none) (dt_find pending (codes "d_1"))
        else dt_find pending (codes "d_1")))
dt_find_complete_example = dt_find_complete pending (codes "d_1") (codes "d_1") none

run-AllDifferent_example : AllDifferent (run session dt_init).1
run-AllDifferent_example = run-AllDifferent session dt_init (unfold dt_init in omega arith)
