-- ===== src/Env/Table.antt =====
-- The table of environments: at most 64, with distinct identifiers, and what each operation does to
-- every lookup.
use cqjs.Prelude.{
  ◌≤◌, ◌<◌, Bool, true, false, ◌&&◌, Option, none, some, List, [], length, length-append, Bytes,
  leb, if◌then◌else◌, str_eq, str_eq_sound, Bool-cases, Option-cases, inl, inr, ◌≡◌, ◌⊎◌, ◌↔◌, refl,
  arith,
}
use cqjs.Prelude.Int.{ℤ}
use cqjs.Json.{Response}
use cqjs.Queue.{empty}
use cqjs.Env.{
  JsEnv, EnvManager, Platform, max_environments, env_manager_init, find_env, env_find, new_env,
  add_env, boots, boot_events, env_create, env_destroy,
}
use cqjs.Env.Lookup.{
  AreDistinct, find_env-Lacks, find_env-append, find_env-remove, remove_env-AreDistinct,
  append-AreDistinct, length-remove_env,
}

module _ {ℓ} {S : Type ℓ} where
  pub record IsValid (mgr : EnvManager S) : Type 0 where
    pub limited : length mgr.environments ≤ max_environments
    pub fits : length mgr.environments ≤ mgr.capacity
    pub roomy : 0 < mgr.capacity
    pub distinct : AreDistinct mgr.environments

  pub env_manager_init-IsValid : IsValid env_manager_init
  unfolding env_manager_init
  env_manager_init-IsValid = record {
    limited = omega arith;
    fits = omega arith;
    roomy = omega arith;
    distinct = tt;
  }

  add_env-IsValid :
      (mgr : EnvManager S) (env : JsEnv S)
      → IsValid mgr
      → length mgr.environments < max_environments
      → find_env mgr.environments env.env_id ≡ none
      → IsValid (add_env mgr env)
  unfolding add_env
  add_env-IsValid mgr env v free new = record {
    limited = rw length-append (omega arith);
    fits = rw length-append (ground (arith, v.fits, v.roomy));
    roomy = ground (arith, v.roomy);
    distinct =
        append-AreDistinct mgr.environments env (find_env-Lacks mgr.environments env.env_id new)
          v.distinct;
  }

  pub new_env-empty :
      (platform : Platform S) (id : Bytes) (code : Option Bytes) (memory stack : ℤ)
      → (new_env platform id code memory stack).requests ≡ empty
  unfolding new_env
  new_env-empty platform id code memory stack = refl

  module _ (platform : Platform S) (mgr : EnvManager S) (id : Bytes) (code : Option Bytes)
      (memory stack : ℤ) where
    abbrev pub starts : Bool
    starts = boots platform memory stack && platform.thread_starts

    -- The environment is refused, and the manager stays; nothing is sent, unless the initial code has
    -- run and it is the thread that does not start.
    pub record Refused : Type ℓ where
      pub events : List Response
      pub result : env_create platform mgr id code memory stack ≡ (mgr, none, events)
      pub reason :
          (max_environments ≤ length mgr.environments)
          ⊎ ((e : JsEnv S) × (env_find mgr id ≡ some e))
          ⊎ (starts ≡ false)
      pub sent :
          (events ≡ [])
          ⊎ ((boots platform memory stack ≡ true)
              × (platform.thread_starts ≡ false)
              × (events ≡ boot_events platform code memory stack))

    -- The environment is added, and what its initial code sends is sent; it is found under its
    -- identifier, and the others as before.
    pub record Created : Type ℓ where
      pub free : length mgr.environments < max_environments
      pub new : env_find mgr id ≡ none
      pub up : starts ≡ true
      pub result :
          (env_create platform mgr id code memory stack).1
          ≡ some (new_env platform id code memory stack)
      pub sent :
          (env_create platform mgr id code memory stack).2 ≡ boot_events platform code memory stack
      pub valid : IsValid (env_create platform mgr id code memory stack).0
      pub found :
          (j : Bytes)
          → env_find (env_create platform mgr id code memory stack).0 j
            ≡ (if str_eq id j then some (new_env platform id code memory stack) else env_find mgr j)

    create-full :
        leb max_environments (length mgr.environments) ≡ true
        → env_create platform mgr id code memory stack ≡ (mgr, none, [])
    unfolding env_create
    create-full full = rw full refl

    create-used :
        {e : JsEnv S}
        → env_find mgr id ≡ some e
        → env_create platform mgr id code memory stack ≡ (mgr, none, [])
    unfolding env_create
    create-used used = ground (arith, used)

    module _ (free : leb max_environments (length mgr.environments) ≡ false)
        (new : env_find mgr id ≡ none) where
      create-unbooted :
          boots platform memory stack ≡ false
          → env_create platform mgr id code memory stack ≡ (mgr, none, [])
      unfolding env_create
      create-unbooted down = rw (free, new, env_create, down) refl

      create-unstarted :
          boots platform memory stack ≡ true
          → platform.thread_starts ≡ false
          → env_create platform mgr id code memory stack
            ≡ (mgr, none, boot_events platform code memory stack)
      unfolding env_create
      create-unstarted up failed = rw (free, new, env_create, up, failed) refl

      create-added :
          boots platform memory stack ≡ true
          → platform.thread_starts ≡ true
          → env_create platform mgr id code memory stack ≡ (
            add_env mgr (new_env platform id code memory stack),
            some (new_env platform id code memory stack),
            boot_events platform code memory stack,
          )
      unfolding env_create
      create-added up runs = rw (free, new, env_create, up, runs) refl

      create-started :
          IsValid mgr → boots platform memory stack ≡ true → platform.thread_starts ≡ true → Created
      create-started v up runs =
          let env = new_env platform id code memory stack in
          let below : length mgr.environments < max_environments = ground arith in
          let absent : find_env mgr.environments id ≡ none = unfold env_find in new in
          let added = create-added up runs in
          record {
            free = below;
            new = new;
            up = rw (up, runs) refl;
            result = rw added refl;
            sent = rw added refl;
            valid = rw added (add_env-IsValid mgr env v below (unfold new_env in absent));
            found = λ j. rw added (
                unfold env_find add_env new_env in
                find_env-append mgr.environments (new_env platform id code memory stack) j
                  (find_env-Lacks mgr.environments id absent));
          }

    -- With a valid manager, an environment is created exactly when there are fewer than 64, its
    -- identifier is not in use, and the platform gives a runtime, a context and a thread; then the
    -- manager stays valid and exactly that identifier is found differently. What its initial code sends
    -- is sent. Otherwise the manager stays as it is, and nothing is sent, unless it is the thread that
    -- does not start.
    pub env_create_lem : IsValid mgr → Refused ⊎ Created
    env_create_lem v = elim (Bool-cases (leb max_environments (length mgr.environments))) [
      | inl full ↦ inl (record {
        events = [];
        result = create-full full;
        reason = inl (ground arith);
        sent = inl refl;
      })
      | inr free ↦ elim (Option-cases (env_find mgr id)) [
        | inr (e, used) ↦ inl (record {
          events = [];
          result = create-used used;
          reason = inr (inl (e, used));
          sent = inl refl;
        })
        | inl new ↦ elim (Bool-cases (boots platform memory stack)) [
          | inr down ↦ inl (record {
            events = [];
            result = create-unbooted free new down;
            reason = inr (inr (rw down refl));
            sent = inl refl;
          })
          | inl up ↦ elim (Bool-cases platform.thread_starts) [
            | inr failed ↦ inl (record {
              events = boot_events platform code memory stack;
              result = create-unstarted free new up failed;
              reason = inr (inr (rw (up, failed) refl));
              sent = inr (up, failed, refl);
            })
            | inl runs ↦ inr (create-started free new v up runs)
          ]
        ]
      ]
    ]

  -- With a valid manager, a destroyed environment is not found any more, every other is found as before,
  -- the manager stays valid, and the answer says whether there was one.
  pub env_destroy_lem :
      (mgr : EnvManager S) (id j : Bytes)
      → IsValid mgr
      → IsValid (env_destroy mgr id).0
        × (env_find (env_destroy mgr id).0 j ≡ (if str_eq id j then none else env_find mgr j))
        × (((env_destroy mgr id).1 ≡ false) ↔ (env_find mgr id ≡ none))
  unfolding env_destroy env_find
  env_destroy_lem mgr id j v = elim (Option-cases (find_env mgr.environments id)) [
    | inl absent ↦
        rw (absent, env_destroy)
          (v, ground (arith, absent, str_eq_sound id j), ((λ _. refl), (λ _. refl)))
    | inr (e, present) ↦
        rw (present, env_destroy)
          (
            record {
              limited = omega (arith, length-remove_env mgr.environments id, v.limited);
              fits = omega (arith, length-remove_env mgr.environments id, v.fits);
              roomy = v.roomy;
              distinct = remove_env-AreDistinct mgr.environments id v.distinct;
            },
            find_env-remove mgr.environments id j v.distinct,
            ((λ h. cc), (λ h. cc)),
          )
  ]
