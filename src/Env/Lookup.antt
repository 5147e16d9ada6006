-- ===== src/Env/Lookup.antt =====
-- Lookups, removals and additions in a list of environments with distinct identifiers.
use cqjs.Prelude.{
  ◌≤◌, false, none, some, List, [], ◌∷◌, ◌++◌, length, All, All-append, Bytes, if◌then◌else◌,
  str_eq, str_eq_refl, str_eq_sound, str_eq_symm, Bool-cases, inl, inr, ◌≡◌, refl, arith,
}
use cqjs.Env.{JsEnv, find_env, remove_env}

module _ {ℓ} {S : Type ℓ} where
  abbrev pub Lacks : Bytes → List (JsEnv S) → Type 0
  Lacks id = All (λ e. str_eq e.env_id id ≡ false)

  abbrev pub AreDistinct : List (JsEnv S) → Type 0
  AreDistinct [] = Unit
  AreDistinct (e ∷ es) = Lacks e.env_id es × AreDistinct es

  pub find_env-Lacks : (es : List (JsEnv S)) (id : Bytes) → find_env es id ≡ none → Lacks id es
  unfolding find_env
  find_env-Lacks [] id h = tt
  find_env-Lacks (e ∷ es) id h = (ground arith, find_env-Lacks es id (ground arith))

  pub Lacks-find_env : (es : List (JsEnv S)) (id : Bytes) → Lacks id es → find_env es id ≡ none
  unfolding find_env
  Lacks-find_env [] id h = refl
  Lacks-find_env (e ∷ es) id h = ground (arith, Lacks-find_env es id)

  pub find_env-append :
      (es : List (JsEnv S)) (e : JsEnv S) (j : Bytes)
      → Lacks e.env_id es
      → find_env (es ++ e ∷ []) j ≡ (if str_eq e.env_id j then some e else find_env es j)
  unfolding find_env
  find_env-append [] e j h = refl
  find_env-append (x ∷ es) e j (hx, h) = ground (
    arith,
    find_env-append es e j h,
    str_eq_sound x.env_id j,
    str_eq_sound e.env_id j,
    str_eq_refl j,
  )

  pub find_env-remove :
      (es : List (JsEnv S)) (id j : Bytes)
      → AreDistinct es
      → find_env (remove_env id es) j ≡ (if str_eq id j then none else find_env es j)
  unfolding find_env remove_env
  find_env-remove [] id j h = ground arith
  find_env-remove (e ∷ es) id j (lacks, h) = ground (
    arith,
    find_env-remove es id j h,
    Lacks-find_env es e.env_id lacks,
    str_eq_sound e.env_id j,
    str_eq_sound e.env_id id,
    str_eq_sound id j,
    str_eq_refl j,
    str_eq_refl id,
  )

  pub remove_env-Lacks :
      (es : List (JsEnv S)) (id j : Bytes) → Lacks j es → Lacks j (remove_env id es)
  unfolding remove_env
  remove_env-Lacks [] id j h = tt
  remove_env-Lacks (e ∷ es) id j (he, h) = elim (Bool-cases (str_eq e.env_id id)) [
    | inl same ↦ rw same h
    | inr other ↦ rw other (he, remove_env-Lacks es id j h)
  ]

  pub remove_env-AreDistinct :
      (es : List (JsEnv S)) (id : Bytes) → AreDistinct es → AreDistinct (remove_env id es)
  unfolding remove_env
  remove_env-AreDistinct [] id h = tt
  remove_env-AreDistinct (e ∷ es) id (lacks, h) = elim (Bool-cases (str_eq e.env_id id)) [
    | inl same ↦ rw same h
    | inr other ↦ rw other (remove_env-Lacks es id e.env_id lacks, remove_env-AreDistinct es id h)
  ]

  pub append-AreDistinct :
      (es : List (JsEnv S)) (e : JsEnv S)
      → Lacks e.env_id es
      → AreDistinct es
      → AreDistinct (es ++ e ∷ [])
  append-AreDistinct [] e lacks h = (tt, tt)
  append-AreDistinct (x ∷ es) e (hx, lacks) (hd, h) = (
    All-append _ es (e ∷ []) hd (rw (str_eq_symm e.env_id x.env_id) hx, tt),
    append-AreDistinct es e lacks h,
  )

  pub length-remove_env : (es : List (JsEnv S)) (id : Bytes) → length (remove_env id es) ≤ length es
  unfolding remove_env
  length-remove_env [] id = omega arith
  length-remove_env (e ∷ es) id = ground (arith, length-remove_env es id)
