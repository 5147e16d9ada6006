-- ===== src/Eval/Cached.antt =====
-- The bytecode cache seen from an environment: what is run for a code was compiled from that code.
use cqjs.Prelude.{ℕ, ◌<◌, Option, none, some, [], ◌∷◌, Bytes, ◌≡◌, ◌⊎◌, inl, inr, refl, sym, ◌∙◌}
use mathlib.Core.Option
use mathlib.Core.Path.{subst}
use cqjs.Cache.{Entry, Cache, int64_max, bc_lookup, bc_insert, bc_compute_hash}
use cqjs.Cache.Insert.{IsValid, bc_insert-IsValid}
use cqjs.Cache.Lookup.{Stores, bytecode_of, bc_insert-Stores, bc_lookup-Stores, bc_lookup-IsValid}
use cqjs.Eval.{Op, Engine, World, perform, store, run_read, run_compiled, eval_found, eval_cached}

module _ {ℓ} {S V F : Type ℓ} (engine : Engine S V F) (sha256 : Option (Bytes → Bytes))
    (Known : Bytes → Type 0) where
  -- Some compilation of the code, under any file name and in any state, gives the function.
  abbrev pub Compiles : Bytes → F → Type ℓ
  Compiles code f = (s : S) × (filename : Bytes) × ((engine.compile code filename s).2 ≡ some f)

  -- The bytecode was written from a function compiled from a known code with the hash.
  abbrev pub IsWritten : Bytes → Bytes → Type ℓ
  IsWritten hash bytes =
      (code : Bytes) × (f : F) × (s : S) × Known code
      × (hash ≡ bc_compute_hash sha256 code)
      × Compiles code f
      × ((engine.write_object f s).2 ≡ some bytes)

  -- What the code relies on: reading what was written of a function gives the function, if it succeeds.
  abbrev pub IsReliable : Type ℓ
  IsReliable =
      (f : F) (s s' : S) (bytes : Bytes)
      → (engine.write_object f s).2 ≡ some bytes
      → ((engine.read_object bytes s').2 ≡ none) ⊎ ((engine.read_object bytes s').2 ≡ some f)

  -- The code is known, and no other known code has its digest.
  abbrev pub IsApart : Bytes → Type 0
  IsApart code =
      Known code
      × ((code' : Bytes)
          → Known code'
          → bc_compute_hash sha256 code ≡ bc_compute_hash sha256 code'
          → code ≡ code')

  abbrev pub IsGood : Cache → Type ℓ
  IsGood cache = IsValid cache × Stores IsWritten cache

  -- How a result came about: a function compiled from the code was run, or the code was evaluated
  -- from its text, or it does not compile.
  pub data Runs (code filename : Bytes) : World S × Option V → Type ℓ where
    ran :
        (f : F) (w : World S)
        → Compiles code f
        → Runs code filename (perform (engine.eval_function f) w)
    evaluated : (w : World S) → Runs code filename (perform (engine.eval code filename) w)
    rejected :
        (w : World S)
        → (s : S) → (engine.compile code filename s).2 ≡ none
        → Runs code filename (w, none)

  -- The cache of a world, if there is one, is good.
  abbrev pub HasGood : Option Cache → Type ℓ
  HasGood none = Unit
  HasGood (some cache) = IsGood cache

  abbrev pub IsRight : Bytes → Bytes → World S × Option V → Type ℓ
  IsRight code filename x = Runs code filename x × HasGood x.0.cache

  cache-perform {κ} : {R : Type κ} (op : Op S R) (w : World S) → (perform op w).0.cache ≡ w.cache
  unfolding perform
  cache-perform op w = refl

  result-perform {κ} :
      {R : Type κ} (op : Op S R) (w : World S) → (perform op w).1 ≡ (op w.engine_state).2
  unfolding perform
  result-perform op w = refl

  good-perform {κ} :
      {R : Type κ} (op : Op S R) (w : World S) → HasGood w.cache → HasGood (perform op w).0.cache
  unfolding perform
  good-perform op w h = h

  store-good :
      (later : ℕ) (hash : Bytes) (bytes : Option Bytes) (w : World S)
      → later < int64_max
      → ((b : Bytes) → bytes ≡ some b → IsWritten hash b)
      → HasGood w.cache
      → HasGood (store later hash bytes w).cache
  unfolding store
  store-good later hash none w soon written h = h
  store-good later hash (some []) w soon written h = h
  store-good later hash (some (b ∷ bs)) w soon written h = inserted w.cache h
    where
      inserted :
          (c : Option Cache)
          → HasGood c
          → HasGood (Option.map (λ c. bc_insert later c hash (b ∷ bs)) c)
      inserted none h = tt
      inserted (some c) (v, stores) = (
        (bc_insert-IsValid later hash (b ∷ bs) soon v).0,
        bc_insert-Stores IsWritten later c hash (b ∷ bs) v stores (written (b ∷ bs) refl),
      )

  run_read-IsRight :
      (code filename : Bytes) (x : World S × Option F)
      → ((f : F) → x.1 ≡ some f → Compiles code f)
      → HasGood x.0.cache
      → IsRight code filename (run_read engine code filename x)
  unfolding run_read
  run_read-IsRight code filename (w, none) right h = (evaluated _, good-perform _ _ h)
  run_read-IsRight code filename (w, some f) right h = (ran f w (right f refl), good-perform _ w h)

  run_compiled-IsRight :
      (later : ℕ) (code filename : Bytes) (x : World S × Option F) (s : S)
      → later < int64_max
      → Known code
      → x.1 ≡ (engine.compile code filename s).2
      → HasGood x.0.cache
      → IsRight code filename (run_compiled engine later (bc_compute_hash sha256 code) x)
  unfolding run_compiled
  run_compiled-IsRight later code filename (w, none) s soon known e h = (rejected w s (sym e), h)
  run_compiled-IsRight later code filename (w, some f) s soon known e h =
      let compiles : Compiles code f = (s, filename, sym e) in
      let wrote = perform (engine.write_object f) w in
      (
        ran f _ compiles,
        good-perform _ _ (
            store-good later _ wrote.1 wrote.0 soon
              (λ b eq. (
                code,
                f,
                w.engine_state,
                known,
                refl,
                compiles,
                sym (result-perform (engine.write_object f) w) ∙ eq,
              ))
              (good-perform (engine.write_object f) w h)),
      )

  module _ (reliable : IsReliable) (code : Bytes) (apart : IsApart code) where
    read-Compiles :
        (bytes : Bytes) (w : World S) (f : F)
        → IsWritten (bc_compute_hash sha256 code) bytes
        → (perform (engine.read_object bytes) w).1 ≡ some f
        → Compiles code f
    read-Compiles bytes w f (code', f', s, known, same_hash, compiles, wrote) e =
        elim (reliable f' s w.engine_state bytes wrote) [
          | inl unread ↦ absurd (clash (sym unread ∙ got))
          | inr read ↦
              subst (λ c. Compiles c f) (sym (apart.1 code' known same_hash))
                (subst (Compiles code') (some-eq (sym read ∙ got)) compiles)
        ]
      where
        got : (engine.read_object bytes w.engine_state).2 ≡ some f
        got = sym (result-perform (engine.read_object bytes) w) ∙ e

        clash : ◌≡◌ {A = Option F} none (some f) → ⊥
        clash e = cc

        some-eq : {a b : F} → ◌≡◌ {A = Option F} (some a) (some b) → a ≡ b
        some-eq e = cc

    eval_found-IsRight :
        (held : Bytes → Bytes) (later : ℕ) (filename : Bytes) (x : Option Entry × Cache)
        (w : World S)
        → ((bytes : Bytes) → held bytes ≡ bytes)
        → later < int64_max
        → ((bytes : Bytes)
            → bytecode_of x ≡ some bytes
            → IsWritten (bc_compute_hash sha256 code) bytes)
        → IsGood x.1
        → IsRight code filename
            (eval_found engine held later (bc_compute_hash sha256 code) code filename x w)
    unfolding eval_found
    eval_found-IsRight held later filename (some e, cache) w kept soon found good =
        let w' = record w { cache = some cache } in
        rw (kept e.bytecode) (
          run_read-IsRight code filename (perform (engine.read_object e.bytecode) w')
            (λ f got. read-Compiles e.bytecode w' f (found e.bytecode refl) got)
            (good-perform (engine.read_object e.bytecode) w' good))
    eval_found-IsRight held later filename (none, cache) w kept soon found good =
        let w' = record w { cache = some cache } in
        run_compiled-IsRight later code filename (perform (engine.compile code filename) w')
          w'.engine_state soon apart.0 (result-perform (engine.compile code filename) w')
          (good-perform (engine.compile code filename) w' good)

    -- Suppose that bytecode is read back as the function it was written from or not at all, that the
    -- memory of an entry that was found still holds its bytecode when it is read behind the lock, that
    -- among the known codes, the code is the only one with its digest, that the times are before the
    -- largest, and that the cache, if there is one, is valid and holds bytecode written from functions
    -- compiled from a known code with the hash. Then what is run for the code is the code itself or a
    -- function compiled from that code, never from another, and the same holds of the cache afterwards.
    pub eval_cached-IsRight :
        (held : Bytes → Bytes) (now later : ℕ) (filename : Bytes) (w : World S)
        (cache : Option Cache)
        → ((bytes : Bytes) → held bytes ≡ bytes)
        → now < int64_max
        → later < int64_max
        → w.cache ≡ cache
        → HasGood cache
        → IsRight code filename (eval_cached engine sha256 held now later code filename w cache)
    unfolding eval_cached
    eval_cached-IsRight held now later filename w none kept soon soon' is good =
        (evaluated w, good-perform _ w (subst HasGood (sym is) tt))
    eval_cached-IsRight held now later filename w (some cache) kept soon soon' is (v, stores) =
        let hash = bc_compute_hash sha256 code in
        let (stores', found) = bc_lookup-Stores IsWritten now cache hash stores in
        eval_found-IsRight held later filename (bc_lookup now cache hash) w kept soon' found
          (bc_lookup-IsValid now cache hash soon v, stores')
