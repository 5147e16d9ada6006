-- ===== src/SearchParams/Laws.antt =====
-- The methods against each other: what `get` finds behind `set`, `append` and `delete`.
use cqjs.Prelude.{
  ℕ, ◌≤◌, Option, none, some, List, [], ◌∷◌, Bytes, str_eq, str_eq_refl, str_eq_sound,
  if◌then◌else◌, Option-cases, inl, inr, ◌≡◌, refl, arith,
}
use cqjs.SearchParams.{
  Param, sp_find, sp_update, sp_put, sp_remove, sp_add, js_sp_set, js_sp_append, js_sp_delete,
}

-- The first of two texts that is there.
abbrev pub first_of : Option Bytes → Option Bytes → Option Bytes
first_of none other = other
first_of (some s) other = some s

find-update :
    (key j text : Bytes) (ps : List Param) {old : Bytes}
    → sp_find key ps ≡ some old
    → sp_find j (sp_update key text ps) ≡ (if str_eq key j then some text else sp_find j ps)
unfolding sp_find sp_update
find-update key j text [] h = cc
find-update key j text (p ∷ ps) {old} h = ground (
  arith,
  find-update key j text ps {old = old},
  str_eq_sound p.key key,
  str_eq_sound p.key j,
  str_eq_sound key j,
  str_eq_refl key,
  str_eq_refl j,
)

find-put :
    (key j text : Bytes) (ps : List Param)
    → sp_find j (sp_put key text ps) ≡ (if str_eq key j then some text else sp_find j ps)
find-put key j text ps = elim (Option-cases (sp_find key ps)) [
  | inl new ↦ unfold sp_put in rw (new, sp_put) (unfold sp_find in refl)
  | inr (old, there) ↦ unfold sp_put in rw (there, sp_put) (find-update key j text ps there)
]

find-remove :
    (key j : Bytes) (ps : List Param)
    → sp_find j (sp_remove key ps) ≡ (if str_eq key j then none else sp_find j ps)
unfolding sp_find sp_remove
find-remove key j [] = ground arith
find-remove key j (p ∷ ps) = ground (
  arith,
  find-remove key j ps,
  str_eq_sound p.key key,
  str_eq_sound p.key j,
  str_eq_sound key j,
  str_eq_refl key,
  str_eq_refl j,
)

find-add :
    (key j text : Bytes) (ps : List Param)
    → sp_find j (sp_add key text ps)
      ≡ first_of (sp_find j ps) (if str_eq key j then some text else none)
unfolding sp_find
find-add key j text [] = refl
find-add key j text (p ∷ ps) = ground (arith, find-add key j text ps)

-- With enough arguments, `set` makes the key's first text the given one, `delete` removes the key, and
-- `append` gives the key a text only if it has none; each leaves what every other key finds.
pub js_sp_lem :
    (ps : List Param) (key j text : Bytes) (argc : ℕ)
    → 2 ≤ argc
    → (sp_find j (js_sp_set ps argc (some key) (some text))
        ≡ (if str_eq key j then some text else sp_find j ps))
      × (sp_find j (js_sp_delete ps argc (some key))
          ≡ (if str_eq key j then none else sp_find j ps))
      × (sp_find j (js_sp_append ps argc (some key) (some text))
          ≡ first_of (sp_find j ps) (if str_eq key j then some text else none))
js_sp_lem ps key j text argc enough = (
  unfold js_sp_set in ground (arith, find-put key j text ps),
  unfold js_sp_delete in ground (arith, find-remove key j ps),
  unfold js_sp_append in ground (arith, find-add key j text ps),
)
