-- ===== src/Cache/Tests.antt =====
-- A full cache of two entries.
use cqjs.Prelude.{ℕ, ◌<◌, ◌≤◌, some, [], ◌∷◌, length, Bytes, codes, ◌≡◌, refl, arith}
use mathlib.Core.Option
use cqjs.Cache.{Entry, Cache, bc_insert, bc_lookup}
use cqjs.Cache.Table.{total}
use cqjs.Cache.Evict.{Evicts, bc_evict_lru-Evicts}
use cqjs.Cache.Insert.{IsValid, bc_insert-IsValid}
use cqjs.Cache.Lookup.{bytecode_of, bc_lookup-insert}

abbrev old : Entry
old = record { hash = codes "ab"; bytecode = 1 ∷ []; last_access = 5 }

abbrev recent : Entry
recent = record { hash = codes "cd"; bytecode = 2 ∷ []; last_access = 9 }

abbrev full : Cache
full = record { buckets = (old ∷ []) ∷ (recent ∷ []) ∷ []; entry_count = 2; max_entries = 2 }

full-IsValid : IsValid full
full-IsValid = record {
  wide = omega arith;
  counted = refl;
  bounded = omega arith;
  roomy = omega arith;
  dated = omega arith;
}

-- A bytecode that is not empty, whatever the hash.
abbrev IsGiven : Bytes → Bytes → Type 0
IsGiven hash code = 0 < length code

bc_evict_lru-Evicts_example : (i : ℕ) × (pos : ℕ) × (e : Entry) × Evicts full i pos e
bc_evict_lru-Evicts_example = bc_evict_lru-Evicts full (omega arith) (omega arith)

bc_insert-IsValid_example :
    IsValid (bc_insert 12 full (codes "ef") (3 ∷ []))
    × (total (bc_insert 12 full (codes "ef") (3 ∷ [])).buckets ≤ 2)
bc_insert-IsValid_example = bc_insert-IsValid 12 (codes "ef") (3 ∷ []) (omega arith) full-IsValid

bc_lookup-insert_example :
    bytecode_of (bc_lookup 13 (bc_insert 12 full (codes "ef") (3 ∷ [])) (codes "ef"))
    ≡ some (Option.get_or (bytecode_of (bc_lookup 12 full (codes "ef"))) (3 ∷ []))
bc_lookup-insert_example = bc_lookup-insert 12 13 (codes "ef") (3 ∷ []) full-IsValid
