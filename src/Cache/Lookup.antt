-- ===== src/Cache/Lookup.antt =====
-- What `bc_lookup` returns after insertions.
use cqjs.Prelude.{
  ℕ, ◌<◌, Option, none, some, [], ◌∷◌, length, Bytes, str_eq_refl, str_eq_sound, Option-cases, inl,
  inr, ◌≡◌, refl, arith,
}
use mathlib.Core.Option
use cqjs.Cache.{
  Entry, Chain, Cache, int64_max, find, touch, chain_of, set_chain, bc_lookup, push, make_room,
  bc_insert,
}
use cqjs.Cache.Table.{Every, Every-set, Every-get_or, All-find, find-touch}
use mathlib.Core.Path.{subst}
use cqjs.Cache.Insert.{
  IsValid, chain_of-set_chain, touch_chain, touch_chain-IsValid, touch_chain-Every, bc_insert-old,
  bc_insert-new, make_room-IsValid, make_room-Every,
}

lookup-found :
    (now : ℕ) (cache : Cache) (hash : Bytes) (e : Entry)
    → find hash (chain_of cache hash) ≡ some e
    → bc_lookup now cache hash ≡ (some (record e { last_access = now }), touch_chain now cache hash)
lookup-found now cache hash e present = unfold bc_lookup in rw (present, bc_lookup)

lookup-missing :
    (now : ℕ) (cache : Cache) (hash : Bytes)
    → find hash (chain_of cache hash) ≡ none
    → bc_lookup now cache hash ≡ (none, cache)
lookup-missing now cache hash absent = unfold bc_lookup in rw (absent, bc_lookup)

push-found :
    (now : ℕ) (cache : Cache) (hash code : Bytes)
    → 0 < length cache.buckets
    → find hash (chain_of (push now cache hash code) hash)
      ≡ some (record { hash = hash; bytecode = code; last_access = now })
push-found now cache hash code wide =
    let entry : Entry = record { hash = hash; bytecode = code; last_access = now } in
    let chain = entry ∷ chain_of cache hash in
    rw (same-chain now cache hash code, chain_of-set_chain cache hash chain wide)
      (unfold find in rw (str_eq_refl hash))
  where
    same-chain :
        (now : ℕ) (cache : Cache) (hash code : Bytes)
        → chain_of (push now cache hash code) hash
          ≡ chain_of
              (set_chain cache hash
                (record { hash = hash; bytecode = code; last_access = now } ∷ chain_of cache hash))
              hash
    same-chain now cache hash code = unfold push chain_of in refl

touch-found :
    (now : ℕ) (cache : Cache) (hash : Bytes) (e : Entry)
    → 0 < length cache.buckets
    → find hash (chain_of cache hash) ≡ some e
    → find hash (chain_of (touch_chain now cache hash) hash) ≡ some (record e { last_access = now })
touch-found now cache hash e wide present =
    rw (chain_of-set_chain cache hash (touch now hash (chain_of cache hash)) wide)
      (find-touch now hash (chain_of cache hash) e present)

-- The bytecode under a hash, as a lookup reports it.
abbrev pub bytecode_of : Option Entry × Cache → Option Bytes
bytecode_of (none, cache) = none
bytecode_of (some e, cache) = some e.bytecode

-- Behind an insertion into a valid cache, a lookup of the inserted hash finds the bytecode that was there
-- before the insertion, and the inserted bytecode if there was none.
pub bc_lookup-insert :
    (now later : ℕ) {cache : Cache} (hash code : Bytes)
    → IsValid cache
    → bytecode_of (bc_lookup later (bc_insert now cache hash code) hash)
      ≡ some (Option.get_or (bytecode_of (bc_lookup now cache hash)) code)
bc_lookup-insert now later {cache} hash code v =
    elim (Option-cases (find hash (chain_of cache hash))) [
      | inl absent ↦
          let room = make_room cache in
          let (rv, _, _, _) = make_room-IsValid v in
          let entry : Entry = record { hash = hash; bytecode = code; last_access = now } in
          let there : find hash (chain_of (push now room hash code) hash) ≡ some entry =
            push-found now room hash code rv.wide in
          rw (
            bc_insert-new now cache hash code absent,
            lookup-missing now cache hash absent,
            lookup-found later (push now room hash code) hash entry there,
          )
      | inr (e, present) ↦
          let there = touch-found now cache hash e v.wide present in
          rw (
            bc_insert-old now cache hash code present,
            lookup-found now cache hash e present,
            lookup-found later (touch_chain now cache hash) hash (record e { last_access = now })
                there,
          )
    ]

find-hash : (hash : Bytes) (c : Chain) {e : Entry} → find hash c ≡ some e → e.hash ≡ hash
unfolding find
find-hash hash [] h = cc
find-hash hash (x ∷ c) {e} h = ground (arith, find-hash hash c {e = e}, str_eq_sound x.hash hash)

-- What is known of every pair of a hash and a bytecode that the cache holds.
module _ {ℓ} (P : Bytes → Bytes → Type ℓ) where
  abbrev pub Stores : Cache → Type ℓ
  Stores cache = Every (λ e. P e.hash e.bytecode) cache.buckets

  -- In a valid cache, a relation between hashes and bytecodes that holds of the stored and inserted pairs
  -- holds of the pairs that are stored after the insertion, whether or not an entry was evicted.
  pub bc_insert-Stores :
      (now : ℕ) (cache : Cache) (hash code : Bytes)
      → IsValid cache
      → Stores cache
      → P hash code
      → Stores (bc_insert now cache hash code)
  bc_insert-Stores now cache hash code v h pair =
      elim (Option-cases (find hash (chain_of cache hash))) [
        | inl absent ↦
            let (rv, _, _, _) = make_room-IsValid v in
            let kept = make_room-Every (λ e. P e.hash e.bytecode) v h in
            rw (bc_insert-new now cache hash code absent) (push-Stores (make_room cache) kept)
        | inr (e, present) ↦
            rw (bc_insert-old now cache hash code present)
              (touch_chain-Every (λ e. P e.hash e.bytecode) now cache hash (λ e p. p) h)
      ]
    where
      push-Stores : (room : Cache) → Stores room → Stores (push now room hash code)
      push-Stores room kept =
          unfold push set_chain chain_of in
          Every-set _ room.buckets _ _ kept (pair, Every-get_or _ room.buckets _ kept)

  -- A bytecode that a lookup finds under a hash stands in the relation to that hash, and a lookup keeps
  -- the relation of the stored pairs.
  pub bc_lookup-Stores :
      (now : ℕ) (cache : Cache) (hash : Bytes)
      → Stores cache
      → Stores (bc_lookup now cache hash).1
        × ((code : Bytes) → bytecode_of (bc_lookup now cache hash) ≡ some code → P hash code)
  bc_lookup-Stores now cache hash h = elim (Option-cases (find hash (chain_of cache hash))) [
    | inl absent ↦ rw (lookup-missing now cache hash absent) (h, λ code e. cc)
    | inr (e, present) ↦
        let held : P e.hash e.bytecode =
          All-find (λ e. P e.hash e.bytecode) hash (chain_of cache hash)
            (unfold chain_of in Every-get_or _ cache.buckets _ h) present in
        let at_hash : P hash e.bytecode =
          subst (λ s. P s e.bytecode) (find-hash hash (chain_of cache hash) present) held in
        rw (lookup-found now cache hash e present) (
          touch_chain-Every (λ e. P e.hash e.bytecode) now cache hash (λ e p. p) h,
          λ code eq. subst (λ s. P hash s) (some-eq eq) at_hash,
        )
  ]
    where
      some-eq : {a b : Bytes} → ◌≡◌ {A = Option Bytes} (some a) (some b) → a ≡ b
      some-eq e = cc

-- A lookup keeps a cache valid.
pub bc_lookup-IsValid :
    (now : ℕ) (cache : Cache) (hash : Bytes)
    → now < int64_max
    → IsValid cache
    → IsValid (bc_lookup now cache hash).1
bc_lookup-IsValid now cache hash soon v = elim (Option-cases (find hash (chain_of cache hash))) [
  | inl absent ↦ rw (lookup-missing now cache hash absent) v
  | inr (e, present) ↦
      rw (lookup-found now cache hash e present) (touch_chain-IsValid now hash soon v)
]
