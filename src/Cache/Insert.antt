-- ===== src/Cache/Insert.antt =====
-- `bc_lookup` and `bc_insert`: the invariant, the bound on the number of entries, and what a lookup
-- returns.
use cqjs.Prelude.{
  ℕ, ◌+◌, ◌*◌, ◌≤◌, ◌<◌, none, some, ◌∷◌, length, length-set, length-replicate, Bytes, ltb, leb,
  if◌then◌else◌, Bool-cases, Option-cases, ◌⊎◌, inl, inr, ◌≡◌, refl, arith, sym,
}
use cqjs.Cache.{
  Entry, Chain, Cache, int64_max, hash_string, bc_init, find, touch, chain_of, set_chain,
  bc_evict_lru, push, make_room, bc_insert,
}
use cqjs.Cache.Table.{
  total, total-set, total-replicate, get_or-set_self, Every, Every-set, Every-get_or,
  Every-replicate, All-unlink, All-touch, length-touch,
}
use cqjs.Cache.Evict.{Evicts, bc_evict_lru-Evicts}

-- The entries are counted, within the bound, and dated before the largest time.
pub record IsValid (cache : Cache) : Type 0 where
  pub wide : 0 < length cache.buckets
  pub counted : cache.entry_count ≡ total cache.buckets
  pub bounded : cache.entry_count ≤ cache.max_entries
  pub roomy : 0 < cache.max_entries
  pub dated : Every (λ e. e.last_access < int64_max) cache.buckets

pub bc_init-IsValid : (n : ℕ) → 0 < n → IsValid (bc_init n)
unfolding bc_init
bc_init-IsValid n h =
    let w = if ltb (n * 2) 64 then 64 else n * 2 in
    record {
      wide = rw length-replicate (ground arith);
      counted = sym (total-replicate w);
      bounded = omega arith;
      roomy = h;
      dated = Every-replicate _ w;
    }

pub index-lt :
    (cache : Cache) (hash : Bytes)
    → 0 < length cache.buckets
    → hash_string hash (length cache.buckets) < length cache.buckets
unfolding hash_string
index-lt cache hash h = omega arith

length-set_chain :
    (cache : Cache) (hash : Bytes) (c : Chain)
    → length (set_chain cache hash c).buckets ≡ length cache.buckets
unfolding set_chain
length-set_chain cache hash c = length-set cache.buckets _ c

pub chain_of-set_chain :
    (cache : Cache) (hash : Bytes) (c : Chain)
    → 0 < length cache.buckets
    → chain_of (set_chain cache hash c) hash ≡ c
chain_of-set_chain cache hash c h =
    unfold chain_of in
    rw length-set_chain
      (unfold set_chain in get_or-set_self cache.buckets _ c (index-lt cache hash h))

total-set_chain :
    (cache : Cache) (hash : Bytes) (c : Chain)
    → 0 < length cache.buckets
    → total (set_chain cache hash c).buckets + length (chain_of cache hash)
      ≡ total cache.buckets + length c
unfolding set_chain chain_of
total-set_chain cache hash c h = total-set cache.buckets _ c (index-lt cache hash h)

set_chain-count :
    (cache : Cache) (hash : Bytes) (c : Chain)
    → (set_chain cache hash c).entry_count ≡ cache.entry_count
unfolding set_chain
set_chain-count cache hash c = refl

abbrev pub touch_chain : ℕ → Cache → Bytes → Cache
touch_chain now cache hash = set_chain cache hash (touch now hash (chain_of cache hash))

module _ {ℓ} (P : Entry → Type ℓ) where
  pub touch_chain-Every :
      (now : ℕ) (cache : Cache) (hash : Bytes)
      → ((e : Entry) → P e → P (record e { last_access = now }))
      → Every P cache.buckets
      → Every P (touch_chain now cache hash).buckets
  unfolding set_chain chain_of
  touch_chain-Every now cache hash keeps h =
      Every-set P cache.buckets _ _ h
        (All-touch P now hash _ keeps (Every-get_or P cache.buckets _ h))

pub touch_chain-IsValid :
    (now : ℕ) {cache : Cache} (hash : Bytes)
    → now < int64_max
    → IsValid cache
    → IsValid (touch_chain now cache hash)
touch_chain-IsValid now {cache} hash soon v = record {
  wide = rw length-set_chain v.wide;
  counted = omega (
    arith,
    v.counted,
    set_chain-count cache hash (touch now hash (chain_of cache hash)),
    total-set_chain cache hash (touch now hash (chain_of cache hash)) v.wide,
    length-touch now hash (chain_of cache hash),
  );
  bounded = unfold set_chain in v.bounded;
  roomy = unfold set_chain in v.roomy;
  dated = touch_chain-Every _ now cache hash (λ e h. soon) v.dated;
}

-- What eviction keeps, where it is called.
module _ {cache : Cache} (v : IsValid cache) where
  make_room-cases :
      (make_room cache ≡ cache) × (cache.entry_count < cache.max_entries)
      ⊎ ((i : ℕ) × (pos : ℕ) × (e : Entry) × (make_room cache ≡ bc_evict_lru cache)
          × (cache.max_entries ≤ cache.entry_count)
          × Evicts cache i pos e)
  unfolding make_room
  make_room-cases = elim (Bool-cases (leb cache.max_entries cache.entry_count)) [
    | inl full ↦
        let full_count : cache.max_entries ≤ cache.entry_count = ground arith in
        let (i, pos, e, evicts) =
          bc_evict_lru-Evicts cache (omega (arith, v.counted, v.roomy)) v.dated in
        inr (i, pos, e, rw full, full_count, evicts)
    | inr free ↦ inl (rw free, ground arith)
  ]

  -- Room is made: the invariant holds with an entry to spare.
  pub make_room-IsValid :
      IsValid (make_room cache)
      × ((make_room cache).entry_count < (make_room cache).max_entries)
      × ((make_room cache).max_entries ≡ cache.max_entries)
      × (length (make_room cache).buckets ≡ length cache.buckets)
  make_room-IsValid = elim make_room-cases [
    | inl (same, free) ↦ rw same (v, free, refl, refl)
    | inr (i, pos, e, taken, full, ev) ↦
        let fewer = ev.fewer in
        let now_fewer = rw ev.result at fewer in
        rw (taken, ev.result)
          (
            record {
              wide = rw length-set v.wide;
              counted = omega (arith, v.counted, now_fewer);
              bounded = omega (arith, v.bounded);
              roomy = v.roomy;
              dated =
                  Every-set _ cache.buckets i _ v.dated
                    (All-unlink _ pos _ (Every-get_or _ cache.buckets i v.dated));
            },
            omega (arith, v.bounded, v.roomy),
            refl,
            length-set cache.buckets i _,
          )
  ]

module _ {ℓ} (P : Entry → Type ℓ) {cache : Cache} (v : IsValid cache) where
  pub make_room-Every : Every P cache.buckets → Every P (make_room cache).buckets
  make_room-Every h = elim (make_room-cases v) [
    | inl (same, free) ↦ rw same h
    | inr (i, pos, e, taken, full, ev) ↦
        rw (taken, ev.result)
          (Every-set P cache.buckets i _ h (All-unlink P pos _ (Every-get_or P cache.buckets i h)))
  ]

push-IsValid :
    (now : ℕ) {cache : Cache} (hash code : Bytes)
    → now < int64_max
    → IsValid cache
    → cache.entry_count < cache.max_entries
    → IsValid (push now cache hash code)
unfolding push
push-IsValid now {cache} hash code soon v free =
    let entry : Entry = record { hash = hash; bytecode = code; last_access = now } in
    record {
      wide = rw length-set_chain v.wide;
      counted =
          omega (arith, v.counted, total-set_chain cache hash (entry ∷ chain_of cache hash) v.wide);
      bounded = unfold set_chain in omega arith;
      roomy = unfold set_chain in v.roomy;
      dated =
          unfold set_chain chain_of in
          Every-set _ cache.buckets _ _ v.dated (soon, Every-get_or _ cache.buckets _ v.dated);
    }

module _ (now : ℕ) (cache : Cache) (hash code : Bytes) where
  pub bc_insert-old :
      {e : Entry}
      → find hash (chain_of cache hash) ≡ some e
      → bc_insert now cache hash code ≡ touch_chain now cache hash
  bc_insert-old present = unfold bc_insert in rw (present, bc_insert)

  pub bc_insert-new :
      find hash (chain_of cache hash) ≡ none
      → bc_insert now cache hash code ≡ push now (make_room cache) hash code
  bc_insert-new absent = unfold bc_insert in rw (absent, bc_insert)

-- An insertion at a time before the largest keeps a cache valid, and the number of entries at most the
-- maximum.
pub bc_insert-IsValid :
    (now : ℕ) {cache : Cache} (hash code : Bytes)
    → now < int64_max
    → IsValid cache
    → IsValid (bc_insert now cache hash code)
      × (total (bc_insert now cache hash code).buckets ≤ cache.max_entries)
bc_insert-IsValid now {cache} hash code soon v =
    elim (Option-cases (find hash (chain_of cache hash))) [
      | inl absent ↦
          let (room, free, same_max, _) = make_room-IsValid v in
          let pushed = push-IsValid now hash code soon room free in
          rw (bc_insert-new now cache hash code absent) (
            pushed,
            omega (arith, pushed.counted, pushed.bounded, push-max now (make_room cache) hash code),
          )
      | inr (e, present) ↦
          let touched = touch_chain-IsValid now hash soon v in
          rw (bc_insert-old now cache hash code present)
            (touched, omega (arith, touched.counted, touched.bounded, touch-max now cache hash))
    ]
  where
    push-max :
        (now : ℕ) (cache : Cache) (hash code : Bytes)
        → (push now cache hash code).max_entries ≡ cache.max_entries
    push-max now cache hash code = unfold push set_chain in refl

    touch-max :
        (now : ℕ) (cache : Cache) (hash : Bytes)
        → (touch_chain now cache hash).max_entries ≡ cache.max_entries
    touch-max now cache hash = unfold set_chain in refl
