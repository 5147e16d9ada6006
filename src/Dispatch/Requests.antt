-- ===== src/Dispatch/Requests.antt =====
-- The operations of the tracker: the invariant, and what each does to every lookup.
use cqjs.Prelude.{
  ℕ, suc, ◌^◌, ◌≤◌, ◌<◌, false, Option, none, some, List, [], ◌∷◌, length, length-append,
  All-append, Bytes, if◌then◌else◌, str_eq, str_eq_sound, Bool-cases, inl, inr, ◌≡◌, ◌∙◌, refl,
  arith, sym,
}
use mathlib.Core.Option
use cqjs.Format.Decimal.{decimal_injective}
use cqjs.Dispatch.{
  Entry, Tracker, dt_init, request_id, new_entry, dt_new_request, dt_find, dt_resolve, dt_reject,
  dt_remove, complete_value, complete_error,
}
use cqjs.Dispatch.Entries.{
  Lacks, AreDistinct, AllIds, find_entry-Lacks, find_entry-append, find_entry-update,
  find_entry-remove, update-AllIds, remove-AllIds, update-AreDistinct, remove-AreDistinct,
  append-AreDistinct, length-update, length-remove,
}

-- The identifier was issued when the counter was at most `n`.
abbrev pub IsIssued : ℕ → Bytes → Type 0
IsIssued n id = (k : ℕ) × (id ≡ request_id k) × (k ≤ n)

pub record IsValid (dt : Tracker) : Type 0 where
  pub issued : AllIds (IsIssued dt.counter) dt.entries
  pub distinct : AreDistinct dt.entries
  pub fits : length dt.entries ≤ dt.capacity
  pub roomy : 0 < dt.capacity

pub request_id_injective : (m n : ℕ) → m < 2 ^ 64 → n < 2 ^ 64 → request_id m ≡ request_id n → m ≡ n
unfolding request_id
request_id_injective m n hm hn e = decimal_injective m n hm hn (strip e)
  where
    strip : {a b c d : ℕ} {xs ys : Bytes} → ◌≡◌ {A = Bytes} (a ∷ b ∷ xs) (c ∷ d ∷ ys) → xs ≡ ys
    strip e = cc

-- A later identifier is none of those issued so far.
issued-Lacks :
    (n : ℕ) (es : List Entry)
    → suc n < 2 ^ 64
    → AllIds (IsIssued n) es
    → Lacks (request_id (suc n)) es
issued-Lacks n [] lt h = tt
issued-Lacks n (e ∷ es) lt ((k, ek, le), h) = (
  elim (Bool-cases (str_eq e.id (request_id (suc n)))) [
    | inl same ↦
        let at : k ≡ suc n =
          request_id_injective k (suc n) (omega arith) lt (sym ek ∙ str_eq_sound e.id _ same) in
        absurd (omega arith)
    | inr other ↦ other
  ],
  issued-Lacks n es lt h,
)

IsIssued-mono : (n : ℕ) (es : List Entry) → AllIds (IsIssued n) es → AllIds (IsIssued (suc n)) es
IsIssued-mono n [] h = tt
IsIssued-mono n (e ∷ es) ((k, ek, le), h) = ((k, ek, omega arith), IsIssued-mono n es h)

pub dt_init-IsValid : IsValid dt_init
unfolding dt_init
dt_init-IsValid = record { issued = tt; distinct = tt; fits = omega arith; roomy = omega arith }

module _ {dt : Tracker} (valid : IsValid dt) where
  -- A new request keeps the tracker valid as long as the counter stays below 2 ^ 63.
  pub dt_new_request-IsValid : suc dt.counter < 2 ^ 63 → IsValid (dt_new_request dt).0
  unfolding dt_new_request
  dt_new_request-IsValid small = record {
    issued =
        All-append _ dt.entries (new_entry (suc dt.counter) ∷ [])
          (IsIssued-mono _ dt.entries valid.issued) ((suc dt.counter, refl, omega arith), tt);
    distinct =
        append-AreDistinct dt.entries (new_entry (suc dt.counter))
          (issued-Lacks dt.counter dt.entries (omega arith) valid.issued) valid.distinct;
    fits = rw length-append (ground (arith, valid.fits, valid.roomy));
    roomy = ground (arith, valid.roomy);
  }

  -- While the counter of a valid tracker is below 2 ^ 63 - 1, a new request returns an identifier that no
  -- entry had; afterwards that identifier, and no other, is looked up differently, as a request that is
  -- not completed.
  pub dt_find-new_request :
      suc dt.counter < 2 ^ 63
      → (j : Bytes)
      → let (dt', id) = dt_new_request dt in
        (dt_find dt id ≡ none)
        × (dt_find dt' j ≡ (
            if str_eq id j
            then some (record { id = id; value = none; error = none; completed = false })
            else dt_find dt j))
  unfolding dt_new_request dt_find
  dt_find-new_request small j =
      let lacks = issued-Lacks dt.counter dt.entries (omega arith) valid.issued in
      (
        find_entry-Lacks dt.entries (request_id (suc dt.counter)) lacks,
        find_entry-append dt.entries (new_entry (suc dt.counter)) (request_id (suc dt.counter)) j
            lacks,
      )

  pub dt_resolve-IsValid : (id : Bytes) (value : Option Bytes) → IsValid (dt_resolve dt id value)
  unfolding dt_resolve
  dt_resolve-IsValid id value = record {
    issued = update-AllIds (IsIssued dt.counter) _ (λ e. refl) dt.entries id valid.issued;
    distinct = update-AreDistinct _ (λ e. refl) dt.entries id valid.distinct;
    fits = rw length-update valid.fits;
    roomy = valid.roomy;
  }

  pub dt_reject-IsValid : (id : Bytes) (error : Option Bytes) → IsValid (dt_reject dt id error)
  unfolding dt_reject
  dt_reject-IsValid id error = record {
    issued = update-AllIds (IsIssued dt.counter) _ (λ e. refl) dt.entries id valid.issued;
    distinct = update-AreDistinct _ (λ e. refl) dt.entries id valid.distinct;
    fits = rw length-update valid.fits;
    roomy = valid.roomy;
  }

  pub dt_remove-IsValid : (id : Bytes) → IsValid (dt_remove dt id)
  unfolding dt_remove
  dt_remove-IsValid id = record {
    issued = remove-AllIds (IsIssued dt.counter) dt.entries id valid.issued;
    distinct = remove-AreDistinct dt.entries id valid.distinct;
    fits = omega (arith, length-remove dt.entries id, valid.fits);
    roomy = valid.roomy;
  }

  -- In a valid tracker a removed request is not found any more, and every other lookup is as before.
  pub dt_find-remove :
      (id j : Bytes) → dt_find (dt_remove dt id) j ≡ (if str_eq id j then none else dt_find dt j)
  unfolding dt_remove dt_find
  dt_find-remove id j = find_entry-remove dt.entries id j valid.distinct

-- Resolving or rejecting a request completes that request with the value or with the error text, does
-- nothing to any other, and nothing at all if there is no such request.
pub dt_find_complete :
    (dt : Tracker) (id j : Bytes) (text : Option Bytes)
    → (dt_find (dt_resolve dt id text) j
        ≡ (if str_eq id j then Option.map (complete_value text) (dt_find dt j) else dt_find dt j))
      × (dt_find (dt_reject dt id text) j
          ≡ (if str_eq id j then Option.map (complete_error text) (dt_find dt j) else dt_find dt j))
unfolding dt_resolve dt_reject dt_find
dt_find_complete dt id j text = (
  find_entry-update (complete_value text) (λ e. refl) dt.entries id j,
  find_entry-update (complete_error text) (λ e. refl) dt.entries id j,
)
