-- ===== src/Cache.antt =====
-- The bytecode cache (bytecode_cache.c, bytecode_cache.h): a chained hash table with eviction of the
-- least recently used entry. Each operation runs under the lock; the time of day is an argument.
pub mod Table
pub mod Evict
pub mod Insert
pub mod Lookup
mod Tests
use cqjs.Prelude.{
  ℕ, zero, suc, ◌+◌, ◌-◌, ◌*◌, ◌/◌, ◌%◌, ◌^◌, Bool, true, false, Option, none, some, List, [], ◌∷◌,
  length, get_or, set, replicate, Bytes, ltb, leb, if◌then◌else◌, str_eq,
}
use cqjs.Format.{hex_digit}

pub record Entry : Type 0 where
  pub hash : Bytes
  pub bytecode : Bytes
  pub last_access : ℕ

abbrev pub Chain : Type 0
Chain = List Entry

-- `bucket_count` is the length of the list of buckets.
pub record Cache : Type 0 where
  pub buckets : List Chain
  pub entry_count : ℕ
  pub max_entries : ℕ

abbrev pub int64_max : ℕ
int64_max = 2 ^ 63 - 1

-- The loop over the string, in `unsigned int`.
pub mix : ℕ → Bytes → ℕ
mix h [] = h
mix h (c ∷ s) = mix ((h * 2 ^ 5 + h + c) % 2 ^ 32) s

pub hash_string : Bytes → ℕ → ℕ
unfolding mix
hash_string s bucket_count = mix 5381 s % bucket_count

unfoldable pub bc_init : ℕ → Cache
bc_init max_entries =
    let wide = max_entries * 2 in
    let bucket_count = if ltb wide 64 then 64 else wide in
    record { buckets = replicate bucket_count []; entry_count = 0; max_entries = max_entries }

pub bc_free : Cache → Cache
bc_free cache = record cache { buckets = []; entry_count = 0 }

-- The walk along a chain, and the write of `last_access` through the pointer that it finds.
pub find : Bytes → Chain → Option Entry
find hash [] = none
find hash (e ∷ es) = if str_eq e.hash hash then some e else find hash es

pub touch : ℕ → Bytes → Chain → Chain
touch now hash [] = []
touch now hash (e ∷ es) =
    if str_eq e.hash hash then record e { last_access = now } ∷ es else e ∷ touch now hash es

pub chain_of : Cache → Bytes → Chain
chain_of cache hash = get_or cache.buckets (hash_string hash (length cache.buckets)) []

pub set_chain : Cache → Bytes → Chain → Cache
set_chain cache hash chain = record cache {
  buckets = set cache.buckets (hash_string hash (length cache.buckets)) chain;
}

-- The entry is returned as it is after the write.
pub bc_lookup : ℕ → Cache → Bytes → Option Entry × Cache
bc_lookup now cache hash = elim (find hash (chain_of cache hash)) [
  | none ↦ (none, cache)
  | some e ↦ (
    some (record e { last_access = now }),
    set_chain cache hash (touch now hash (chain_of cache hash)),
  )
]

-- `oldest_time`, and the bucket and the position of `oldest_entry`.
pub record Oldest : Type 0 where
  pub time : ℕ
  pub place : Option (ℕ × ℕ)

pub older : ℕ → ℕ → Entry → Oldest → Oldest
older i pos e best =
    if ltb e.last_access best.time
    then record { time = e.last_access; place = some (i, pos) }
    else best

pub scan_chain : ℕ → ℕ → Chain → Oldest → Oldest
unfolding older
scan_chain i pos [] best = best
scan_chain i pos (e ∷ es) best = scan_chain i (suc pos) es (older i pos e best)

pub scan_buckets : ℕ → List Chain → Oldest → Oldest
unfolding scan_chain
scan_buckets i [] best = best
scan_buckets i (c ∷ cs) best = scan_buckets (suc i) cs (scan_chain i 0 c best)

-- The node at a position is unlinked, through its predecessor or through the bucket.
pub unlink : ℕ → Chain → Chain
unlink pos [] = []
unlink zero (e ∷ es) = es
unlink (suc pos) (e ∷ es) = e ∷ unlink pos es

pub bc_evict_lru : Cache → Cache
unfolding unlink
bc_evict_lru cache =
    elim (Oldest.place (scan_buckets 0 cache.buckets (record { time = int64_max; place = none }))) [
      | none ↦ cache
      | some (i, pos) ↦ record cache {
        buckets = set cache.buckets i (unlink pos (get_or cache.buckets i []));
        entry_count = cache.entry_count - 1;
      }
    ]

-- The new entry goes to the head of its chain.
pub push : ℕ → Cache → Bytes → Bytes → Cache
push now cache hash bytecode =
    let entry : Entry = record { hash = hash; bytecode = bytecode; last_access = now } in
    record (set_chain cache hash (entry ∷ chain_of cache hash)) {
      entry_count = cache.entry_count + 1;
    }

-- `if (cache->entry_count >= cache->max_entries) bc_evict_lru(cache)`
pub make_room : Cache → Cache
make_room cache = if leb cache.max_entries cache.entry_count then bc_evict_lru cache else cache

pub bc_insert : ℕ → Cache → Bytes → Bytes → Cache
bc_insert now cache hash bytecode = elim (find hash (chain_of cache hash)) [
  | some e ↦ set_chain cache hash (touch now hash (chain_of cache hash))
  | none ↦ push now (make_room cache) hash bytecode
]

unfoldable pub hex_string : Bytes → Bytes
hex_string [] = []
hex_string (b ∷ bs) = hex_digit (b / 16) ∷ hex_digit (b % 16) ∷ hex_string bs

-- `sha256` is the digest of the TLS library, `none` if it does not provide one.
unfoldable pub bc_compute_hash : Option (Bytes → Bytes) → Bytes → Bytes
unfolding hex_string
bc_compute_hash none code = hex_string (replicate 32 0)
bc_compute_hash (some sha256) code = hex_string (sha256 code)
