-- ===== src/Cache/Evict.antt =====
-- `bc_evict_lru` unlinks one entry, and no entry is older.
use cqjs.Prelude.{
  ℕ, zero, suc, ◌+◌, ◌-◌, ◌≤◌, ◌<◌, Option, none, some, List, [], ◌∷◌, length, get_or, get_elem?,
  set, All, ltb, Bool-cases, Option-cases, inl, inr, ◌≡◌, refl, arith, ap, ◌∙◌,
}
use mathlib.Core.Path.{subst}
use native.Mathlib.Nat.{add-zero}
use cqjs.Cache.{
  Entry, Chain, Cache, int64_max, Oldest, older, scan_chain, scan_buckets, unlink, bc_evict_lru,
}
use cqjs.Cache.Table.{total, total-set, Every, length-unlink}

abbrev entry_at : List Chain → ℕ → ℕ → Option Entry
entry_at bs i pos = get_elem? (get_or bs i []) pos

-- What the scan has found so far is an entry of the table, or nothing yet.
abbrev Points : List Chain → Option (ℕ × ℕ) → ℕ → Type 0
Points bs none time = time ≡ int64_max
Points bs (some (i, pos)) time = (e : Entry) × (entry_at bs i pos ≡ some e) × (e.last_access ≡ time)

abbrev IsFound : List Chain → Oldest → Type 0
IsFound bs best = Points bs best.place best.time

older-IsFound :
    (bs : List Chain) (i pos : ℕ) (e : Entry) (best : Oldest)
    → entry_at bs i pos ≡ some e
    → IsFound bs best
    → IsFound bs (older i pos e best)
      × ((older i pos e best).time ≤ best.time)
      × ((older i pos e best).time ≤ e.last_access)
unfolding older
older-IsFound bs i pos e best at h = elim (Bool-cases (ltb e.last_access best.time)) [
  | inl less ↦ rw less ((e, at, refl), ground arith, omega arith)
  | inr not_less ↦ rw not_less (h, omega arith, ground arith)
]

scan_chain-IsFound :
    (bs : List Chain) (i pos : ℕ) (c : Chain) (best : Oldest)
    → ((k : ℕ) (e : Entry) → get_elem? c k ≡ some e → entry_at bs i (pos + k) ≡ some e)
    → IsFound bs best
    → let best' = scan_chain i pos c best in
      IsFound bs best' × (best'.time ≤ best.time) × All (λ e. best'.time ≤ e.last_access) c
unfolding scan_chain
scan_chain-IsFound bs i pos [] best at h = (h, omega arith, tt)
scan_chain-IsFound bs i pos (e ∷ c) best at h =
    let (h1, le1, le2) =
      older-IsFound bs i pos e best
        (subst (λ n. entry_at bs i n ≡ some e) (add-zero pos) (at 0 e refl)) h in
    let (h3, le3, all) =
      scan_chain-IsFound bs i (suc pos) c (older i pos e best)
        (λ k x eq. subst (λ n. entry_at bs i n ≡ some x) (omega arith) (at (suc k) x eq)) h1 in
    (h3, omega arith, (omega arith, all))

-- The chains from the index `i` on.
abbrev From : List Chain → ℕ → List Chain → Type 0
From bs i cs = (k : ℕ) → get_or cs k [] ≡ get_or bs (i + k) []

scan_buckets-IsFound :
    (bs : List Chain) (i : ℕ) (cs : List Chain) (best : Oldest)
    → From bs i cs
    → IsFound bs best
    → let best' = scan_buckets i cs best in
      IsFound bs best' × (best'.time ≤ best.time) × Every (λ e. best'.time ≤ e.last_access) cs
unfolding scan_buckets
scan_buckets-IsFound bs i [] best from h = (h, omega arith, tt)
scan_buckets-IsFound bs i (c ∷ cs) best from h =
    let here : c ≡ get_or bs i [] = subst (λ n. c ≡ get_or bs n []) (add-zero i) (from 0) in
    let (h1, le1, all1) =
      scan_chain-IsFound bs i 0 c best
        (λ k e eq.
          subst (λ n. entry_at bs i n ≡ some e) (omega arith)
            (subst (λ d. get_elem? d k ≡ some e) here eq))
        h in
    let (h2, le2, all2) =
      scan_buckets-IsFound bs (suc i) cs (scan_chain i 0 c best)
        (λ k. from (suc k) ∙ ap (λ n. get_or bs n []) (add-suc-eq i k)) h1 in
    (h2, omega arith, (All-weaken c le2 all1, all2))
  where
    add-suc-eq : (i k : ℕ) → i + suc k ≡ suc i + k
    add-suc-eq i k = omega arith

    All-weaken :
        {m n : ℕ} (c : Chain)
        → m ≤ n
        → All (λ e. n ≤ e.last_access) c
        → All (λ e. m ≤ e.last_access) c
    All-weaken [] le h = tt
    All-weaken (e ∷ c) le (he, h) = (omega arith, All-weaken c le h)

pick :
    (m : ℕ) (bs : List Chain)
    → 0 < total bs
    → Every (λ e. m ≤ e.last_access) bs
    → Every (λ e. e.last_access < int64_max) bs
    → m < int64_max
pick m [] h all dated = absurd (omega arith)
pick m ([] ∷ bs) h (_, all) (_, dated) = pick m bs (omega arith) all dated
pick m ((e ∷ c) ∷ bs) h ((le, _), all) ((lt, _), dated) = omega arith

-- The entry `e` at a position, and what eviction makes of the cache when it takes that entry.
pub record Evicts (cache : Cache) (i pos : ℕ) (e : Entry) : Type 0 where
  pub present : get_elem? (get_or cache.buckets i []) pos ≡ some e
  pub oldest : Every (λ x. e.last_access ≤ x.last_access) cache.buckets
  pub result : bc_evict_lru cache ≡ record cache {
    buckets = set cache.buckets i (unlink pos (get_or cache.buckets i []));
    entry_count = cache.entry_count - 1;
  }
  pub fewer : total (bc_evict_lru cache).buckets + 1 ≡ total cache.buckets

get_or-bound :
    (bs : List Chain) (i pos : ℕ) {e : Entry} → entry_at bs i pos ≡ some e → i < length bs
get_or-bound [] i pos h = cc
get_or-bound (b ∷ bs) zero pos h = omega arith
get_or-bound (b ∷ bs) (suc i) pos h = omega (arith, get_or-bound bs i pos h)

evict_at :
    (cache : Cache) (i pos : ℕ)
    → Oldest.place (scan_buckets 0 cache.buckets (record { time = int64_max; place = none }))
      ≡ some (i, pos)
    → bc_evict_lru cache ≡ record cache {
      buckets = set cache.buckets i (unlink pos (get_or cache.buckets i []));
      entry_count = cache.entry_count - 1;
    }
evict_at cache i pos taken = unfold bc_evict_lru in rw (taken, bc_evict_lru)

-- If the cache holds an entry, and no entry is dated at the largest time, then eviction takes an entry
-- than which none is older; it unlinks that one and no other, and counts one less.
pub bc_evict_lru-Evicts :
    (cache : Cache)
    → 0 < total cache.buckets
    → Every (λ e. e.last_access < int64_max) cache.buckets
    → (i : ℕ) × (pos : ℕ) × (e : Entry) × Evicts cache i pos e
bc_evict_lru-Evicts cache filled dated =
    let start : Oldest = record { time = int64_max; place = none } in
    let best = scan_buckets 0 cache.buckets start in
    let (found, le, all) =
      scan_buckets-IsFound cache.buckets 0 cache.buckets start
        (λ k. ap (λ n. get_or cache.buckets n []) (omega arith)) refl in
    elim (Option-cases best.place) [
      | inl nothing ↦
          let late : best.time ≡ int64_max = rw nothing at found in
          let soon = pick best.time cache.buckets filled all dated in absurd (omega arith)
      | inr ((i, pos), taken) ↦
          let (e, at, date) = subst (λ place. Points cache.buckets place best.time) taken found in
          let result : bc_evict_lru cache ≡ record cache {
            buckets = set cache.buckets i (unlink pos (get_or cache.buckets i []));
            entry_count = cache.entry_count - 1;
          } =
            evict_at cache i pos taken in
          let inside = get_or-bound cache.buckets i pos at in
          let gone = length-unlink pos (get_or cache.buckets i []) at in
          (
            i,
            pos,
            e,
            record {
              present = at;
              oldest = rw date all;
              result = result;
              fewer = rw result (
                  omega (
                    arith,
                    total-set cache.buckets i (unlink pos (get_or cache.buckets i [])) inside,
                  ));
            },
          )
    ]
