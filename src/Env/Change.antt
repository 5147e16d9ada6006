-- ===== src/Env/Change.antt =====
-- A change of one environment in the table: the invariant, and every lookup; and the branches of
-- `env_destroy`.
use cqjs.Prelude.{
  true, false, none, some, List, [], ◌∷◌, length, Bytes, str_eq, str_eq_refl, str_eq_sound,
  if◌then◌else◌, ◌≡◌, refl, arith, Bool-cases, inl, inr,
}
use mathlib.Core.Option
use cqjs.Env.{JsEnv, EnvManager, find_env, env_find, change_env, remove_env, env_destroy}
use cqjs.Env.Table.{IsValid}
use cqjs.Env.Lookup.{Lacks, AreDistinct}

module _ {ℓ} {S : Type ℓ} (f : JsEnv S → JsEnv S)
    (keeps : (e : JsEnv S) → (f e).env_id ≡ e.env_id) where
  find_env-change :
      (es : List (JsEnv S)) (id j : Bytes)
      → find_env (change_env f id es) j
        ≡ (if str_eq id j then Option.map f (find_env es j) else find_env es j)
  unfolding find_env change_env
  find_env-change [] id j = ground arith
  find_env-change (e ∷ es) id j = ground (
    arith,
    find_env-change es id j,
    keeps e,
    str_eq_sound e.env_id j,
    str_eq_sound e.env_id id,
    str_eq_sound id j,
    str_eq_refl j,
    str_eq_refl id,
  )

  length-change_env : (es : List (JsEnv S)) (id : Bytes) → length (change_env f id es) ≡ length es
  unfolding change_env
  length-change_env [] id = refl
  length-change_env (e ∷ es) id = ground (arith, length-change_env es id)

  Lacks-change_env :
      (es : List (JsEnv S)) (id j : Bytes) → Lacks j es → Lacks j (change_env f id es)
  unfolding change_env
  Lacks-change_env [] id j h = tt
  Lacks-change_env (e ∷ es) id j (he, h) = elim (Bool-cases (str_eq e.env_id id)) [
    | inl same ↦ simp (same, keeps) (he, h)
    | inr other ↦ simp other (he, Lacks-change_env es id j h)
  ]

  AreDistinct-change_env :
      (es : List (JsEnv S)) (id : Bytes) → AreDistinct es → AreDistinct (change_env f id es)
  unfolding change_env
  AreDistinct-change_env [] id h = tt
  AreDistinct-change_env (e ∷ es) id (he, h) = elim (Bool-cases (str_eq e.env_id id)) [
    | inl same ↦ simp (same, keeps) (he, h)
    | inr other ↦ simp other (Lacks-change_env es id e.env_id he, AreDistinct-change_env es id h)
  ]

  module _ (mgr : EnvManager S) (id : Bytes) where
    abbrev pub changed : EnvManager S
    changed = record mgr { environments = change_env f id mgr.environments }

    pub changed-IsValid : IsValid mgr → IsValid changed
    changed-IsValid v = record {
      limited = rw length-change_env v.limited;
      fits = rw length-change_env v.fits;
      roomy = v.roomy;
      distinct = AreDistinct-change_env mgr.environments id v.distinct;
    }

    pub env_find-changed :
        (j : Bytes)
        → env_find changed j
          ≡ (if str_eq id j then Option.map f (env_find mgr j) else env_find mgr j)
    unfolding env_find
    env_find-changed j = find_env-change mgr.environments id j

module _ {ℓ} {S : Type ℓ} (mgr : EnvManager S) (id : Bytes) where
  pub env_destroy-absent : env_find mgr id ≡ none → env_destroy mgr id ≡ (mgr, false)
  env_destroy-absent absent = unfold env_destroy in rw (absent, env_destroy)

  pub env_destroy-present :
      {e : JsEnv S}
      → env_find mgr id ≡ some e
      → env_destroy mgr id ≡ (record mgr { environments = remove_env id mgr.environments }, true)
  env_destroy-present present = unfold env_destroy in rw (present, env_destroy)
