-- ===== src/Dispatch.antt =====
-- The dispatch tracker (cqjs.c, cqjs.h). Each operation runs under the tracker's mutex, so it is one
-- step. `count` is the length of the list of entries; the array's slots are never NULL.
pub mod Entries
pub mod Requests
pub mod Run
mod Tests
use cqjs.Prelude.{
  ℕ, suc, ◌+◌, ◌*◌, Bool, true, false, Option, none, some, List, [], ◌∷◌, ◌++◌, length, Bytes,
  codes, leb, if◌then◌else◌, str_eq, ◌≡◌, refl,
}
use cqjs.Format.Decimal.{decimal}

pub record Entry : Type 0 where
  pub id : Bytes
  pub value : Option Bytes
  pub error : Option Bytes
  pub completed : Bool

pub record Tracker : Type 0 where
  pub entries : List Entry
  pub capacity : ℕ
  pub counter : ℕ

unfoldable pub dt_init : Tracker
dt_init = record { entries = []; capacity = 16; counter = 0 }

-- snprintf(id_str, sizeof(id_str), "d_%lld", id)
pub request_id : ℕ → Bytes
request_id n = b'd' ∷ b'_' ∷ decimal n

abbrev pub new_entry : ℕ → Entry
new_entry n = record { id = request_id n; value = none; error = none; completed = false }

pub dt_new_request : Tracker → Tracker × Bytes
dt_new_request dt =
    let id = suc dt.counter in
    let capacity = if leb dt.capacity (length dt.entries) then dt.capacity * 2 else dt.capacity in
    (
      record { entries = dt.entries ++ new_entry id ∷ []; capacity = capacity; counter = id },
      request_id id,
    )

pub find_entry : List Entry → Bytes → Option Entry
find_entry [] id = none
find_entry (e ∷ es) id = if str_eq e.id id then some e else find_entry es id

pub dt_find : Tracker → Bytes → Option Entry
dt_find dt id = find_entry dt.entries id

-- A write through the pointer that `dt_find` returns.
pub update_entry : (Entry → Entry) → Bytes → List Entry → List Entry
update_entry f id [] = []
update_entry f id (e ∷ es) = if str_eq e.id id then f e ∷ es else e ∷ update_entry f id es

abbrev pub complete_value : Option Bytes → Entry → Entry
complete_value value e = record e { value = value; completed = true }

pub dt_resolve : Tracker → Bytes → Option Bytes → Tracker
dt_resolve dt id value = record dt { entries = update_entry (complete_value value) id dt.entries }

abbrev pub error_text : Option Bytes → Bytes
error_text none = codes "unknown dispatch error"
error_text (some s) = s

abbrev pub complete_error : Option Bytes → Entry → Entry
complete_error error e = record e { error = some (error_text error); completed = true }

pub dt_reject : Tracker → Bytes → Option Bytes → Tracker
dt_reject dt id error = record dt { entries = update_entry (complete_error error) id dt.entries }

pub remove_entry : Bytes → List Entry → List Entry
remove_entry id [] = []
remove_entry id (e ∷ es) = if str_eq e.id id then es else e ∷ remove_entry id es

pub dt_remove : Tracker → Bytes → Tracker
dt_remove dt id = record dt { entries = remove_entry id dt.entries }

pub dt_free : Tracker → Tracker
dt_free dt = record dt { entries = []; capacity = 0 }
