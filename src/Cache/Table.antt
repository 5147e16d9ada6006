-- ===== src/Cache/Table.antt =====
-- The buckets as a whole: their entries, counted and quantified over, under writes to one bucket.
use cqjs.Prelude.{
  ℕ, zero, suc, ◌+◌, ◌<◌, some, List, [], ◌∷◌, length, get_or, get_elem?, set, All, Bytes, str_eq,
  Bool-cases, inl, inr, ◌≡◌, refl, arith, replicate,
}
use mathlib.Core.Path.{subst}
use cqjs.Cache.{Entry, Chain, unlink, touch, find}

abbrev pub total : List Chain → ℕ
total [] = 0
total (c ∷ cs) = length c + total cs

-- Every entry of every chain.
abbrev pub Every {ℓ} : (Entry → Type ℓ) → List Chain → Type ℓ
Every P = All (All P)

pub total-set :
    (bs : List Chain) (i : ℕ) (c : Chain)
    → i < length bs
    → total (set bs i c) + length (get_or bs i []) ≡ total bs + length c
total-set [] i c h = absurd (omega arith)
total-set (b ∷ bs) zero c h = omega arith
total-set (b ∷ bs) (suc i) c h = omega (arith, total-set bs i c (omega arith))

pub total-replicate : (n : ℕ) → total (replicate n []) ≡ 0
total-replicate zero = refl
total-replicate (suc n) = omega (arith, total-replicate n)

pub get_or-set_self :
    (bs : List Chain) (i : ℕ) (c : Chain) → i < length bs → get_or (set bs i c) i [] ≡ c
get_or-set_self [] i c h = absurd (omega arith)
get_or-set_self (b ∷ bs) zero c h = refl
get_or-set_self (b ∷ bs) (suc i) c h = get_or-set_self bs i c (omega arith)

module _ {ℓ} (P : Entry → Type ℓ) where
  pub Every-set :
      (bs : List Chain) (i : ℕ) (c : Chain) → Every P bs → All P c → Every P (set bs i c)
  Every-set [] i c h hc = tt
  Every-set (b ∷ bs) zero c (hb, h) hc = (hc, h)
  Every-set (b ∷ bs) (suc i) c (hb, h) hc = (hb, Every-set bs i c h hc)

  pub Every-get_or : (bs : List Chain) (i : ℕ) → Every P bs → All P (get_or bs i [])
  Every-get_or [] i h = tt
  Every-get_or (b ∷ bs) zero (hb, h) = hb
  Every-get_or (b ∷ bs) (suc i) (hb, h) = Every-get_or bs i h

  pub Every-replicate : (n : ℕ) → Every P (replicate n [])
  Every-replicate zero = tt
  Every-replicate (suc n) = (tt, Every-replicate n)

  pub All-unlink : (pos : ℕ) (c : Chain) → All P c → All P (unlink pos c)
  unfolding unlink
  All-unlink pos [] h = tt
  All-unlink zero (e ∷ es) (he, h) = h
  All-unlink (suc pos) (e ∷ es) (he, h) = (he, All-unlink pos es h)

  -- A write of the time keeps what does not depend on the time.
  pub All-touch :
      (now : ℕ) (hash : Bytes) (c : Chain)
      → ((e : Entry) → P e → P (record e { last_access = now }))
      → All P c
      → All P (touch now hash c)
  unfolding touch
  All-touch now hash [] keeps h = tt
  All-touch now hash (e ∷ es) keeps (he, h) = elim (Bool-cases (str_eq e.hash hash)) [
    | inl same ↦ rw same (keeps e he, h)
    | inr other ↦ rw other (he, All-touch now hash es keeps h)
  ]

  pub All-find : (hash : Bytes) (c : Chain) {e : Entry} → All P c → find hash c ≡ some e → P e
  unfolding find
  All-find hash [] h eq = cc
  All-find hash (x ∷ es) {e} (hx, h) eq = elim (Bool-cases (str_eq x.hash hash)) [
    | inl same ↦
        let at : some x ≡ some e = rw same at eq in
        let same_entry : x ≡ e = cc in subst P same_entry hx
    | inr other ↦ All-find hash es h (rw other at eq)
  ]

pub length-touch : (now : ℕ) (hash : Bytes) (c : Chain) → length (touch now hash c) ≡ length c
unfolding touch
length-touch now hash [] = refl
length-touch now hash (e ∷ es) = ground (arith, length-touch now hash es)

pub length-unlink :
    (pos : ℕ) (c : Chain) {e : Entry}
    → get_elem? c pos ≡ some e
    → length (unlink pos c) + 1 ≡ length c
unfolding unlink
length-unlink pos [] h = cc
length-unlink zero (x ∷ es) h = omega arith
length-unlink (suc pos) (x ∷ es) h = omega (arith, length-unlink pos es h)

pub find-touch :
    (now : ℕ) (hash : Bytes) (c : Chain) (e : Entry)
    → find hash c ≡ some e
    → find hash (touch now hash c) ≡ some (record e { last_access = now })
unfolding find touch
find-touch now hash [] e h = cc
find-touch now hash (x ∷ es) e h = ground (arith, find-touch now hash es e)
