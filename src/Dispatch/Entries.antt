-- ===== src/Dispatch/Entries.antt =====
-- The array of entries: distinct identifiers, and what each write does to every lookup.
use cqjs.Prelude.{
  ◌≤◌, false, none, some, List, [], ◌∷◌, ◌++◌, length, All, All-append, Bytes, if◌then◌else◌,
  str_eq, str_eq_refl, str_eq_sound, str_eq_symm, Bool-cases, inl, inr, ◌≡◌, refl, arith,
}
use mathlib.Core.Option
use cqjs.Dispatch.{Entry, find_entry, update_entry, remove_entry}

-- No entry has the identifier.
abbrev pub Lacks : Bytes → List Entry → Type 0
Lacks id = All (λ e. str_eq e.id id ≡ false)

abbrev pub AreDistinct : List Entry → Type 0
AreDistinct [] = Unit
AreDistinct (e ∷ es) = Lacks e.id es × AreDistinct es

pub find_entry-Lacks : (es : List Entry) (id : Bytes) → Lacks id es → find_entry es id ≡ none
unfolding find_entry
find_entry-Lacks [] id h = refl
find_entry-Lacks (e ∷ es) id h = ground (arith, find_entry-Lacks es id)

pub find_entry-append :
    (es : List Entry) (e : Entry) (id j : Bytes)
    → Lacks e.id es
    → find_entry (es ++ e ∷ []) j ≡ (if str_eq e.id j then some e else find_entry es j)
unfolding find_entry
find_entry-append [] e id j h = refl
find_entry-append (x ∷ es) e id j (hx, h) =
    ground (
      arith,
      find_entry-append es e id j h,
      str_eq_sound x.id j,
      str_eq_sound e.id j,
      str_eq_refl j,
    )

pub find_entry-update :
    (f : Entry → Entry) (keeps : (e : Entry) → (f e).id ≡ e.id) (es : List Entry) (id j : Bytes)
    → find_entry (update_entry f id es) j
      ≡ (if str_eq id j then Option.map f (find_entry es j) else find_entry es j)
unfolding find_entry update_entry
find_entry-update f keeps [] id j = ground arith
find_entry-update f keeps (e ∷ es) id j = ground (
  arith,
  find_entry-update f keeps es id j,
  keeps e,
  str_eq_sound e.id j,
  str_eq_sound e.id id,
  str_eq_sound id j,
  str_eq_refl j,
  str_eq_refl id,
)

pub find_entry-remove :
    (es : List Entry) (id j : Bytes)
    → AreDistinct es
    → find_entry (remove_entry id es) j ≡ (if str_eq id j then none else find_entry es j)
unfolding find_entry remove_entry
find_entry-remove [] id j h = ground arith
find_entry-remove (e ∷ es) id j (lacks, h) = ground (
  arith,
  find_entry-remove es id j h,
  find_entry-Lacks es e.id lacks,
  str_eq_sound e.id j,
  str_eq_sound e.id id,
  str_eq_sound id j,
  str_eq_refl j,
  str_eq_refl id,
)

-- A predicate on the identifiers is kept by each write.
module _ {ℓ} (P : Bytes → Type ℓ) where
  abbrev pub AllIds : List Entry → Type ℓ
  AllIds = All (λ e. P e.id)

  pub update-AllIds :
      (f : Entry → Entry) (keeps : (e : Entry) → (f e).id ≡ e.id) (es : List Entry) (id : Bytes)
      → AllIds es
      → AllIds (update_entry f id es)
  unfolding update_entry
  update-AllIds f keeps [] id h = tt
  update-AllIds f keeps (e ∷ es) id (he, h) = elim (Bool-cases (str_eq e.id id)) [
    | inl same ↦ rw same (rw keeps he, h)
    | inr other ↦ rw other (he, update-AllIds f keeps es id h)
  ]

  pub remove-AllIds : (es : List Entry) (id : Bytes) → AllIds es → AllIds (remove_entry id es)
  unfolding remove_entry
  remove-AllIds [] id h = tt
  remove-AllIds (e ∷ es) id (he, h) = elim (Bool-cases (str_eq e.id id)) [
    | inl same ↦ rw same h
    | inr other ↦ rw other (he, remove-AllIds es id h)
  ]

pub update-AreDistinct :
    (f : Entry → Entry) (keeps : (e : Entry) → (f e).id ≡ e.id) (es : List Entry) (id : Bytes)
    → AreDistinct es
    → AreDistinct (update_entry f id es)
unfolding update_entry
update-AreDistinct f keeps [] id h = tt
update-AreDistinct f keeps (e ∷ es) id (lacks, h) = elim (Bool-cases (str_eq e.id id)) [
  | inl same ↦ rw same (rw keeps lacks, h)
  | inr other ↦ rw other (
    update-AllIds (λ i. str_eq i e.id ≡ false) f keeps es id lacks,
    update-AreDistinct f keeps es id h,
  )
]

pub remove-AreDistinct :
    (es : List Entry) (id : Bytes) → AreDistinct es → AreDistinct (remove_entry id es)
unfolding remove_entry
remove-AreDistinct [] id h = tt
remove-AreDistinct (e ∷ es) id (lacks, h) = elim (Bool-cases (str_eq e.id id)) [
  | inl same ↦ rw same h
  | inr other ↦
      rw other (remove-AllIds (λ i. str_eq i e.id ≡ false) es id lacks, remove-AreDistinct es id h)
]

pub append-AreDistinct :
    (es : List Entry) (e : Entry) → Lacks e.id es → AreDistinct es → AreDistinct (es ++ e ∷ [])
append-AreDistinct [] e lacks h = (tt, tt)
append-AreDistinct (x ∷ es) e (hx, lacks) (hd, h) = (
  All-append _ es (e ∷ []) hd (rw (str_eq_symm e.id x.id) hx, tt),
  append-AreDistinct es e lacks h,
)

pub length-update :
    (f : Entry → Entry) (es : List Entry) (id : Bytes) → length (update_entry f id es) ≡ length es
unfolding update_entry
length-update f [] id = refl
length-update f (e ∷ es) id = ground (arith, length-update f es id)

pub length-remove : (es : List Entry) (id : Bytes) → length (remove_entry id es) ≤ length es
unfolding remove_entry
length-remove [] id = omega arith
length-remove (e ∷ es) id = ground (arith, length-remove es id)
