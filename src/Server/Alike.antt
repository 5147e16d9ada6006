-- ===== src/Server/Alike.antt =====
-- What `handle_request` answers depends on the managed environments only by their identifiers: not on
-- what their threads did.
use cqjs.Prelude.{
  Bool, true, false, Option, none, some, List, [], ◌∷◌, ◌++◌, length, Bytes, leb, suc, ◌⊎◌, str_eq,
  if◌then◌else◌, Bool-cases, inl, inr, ◌≡◌, refl, sym, ap, ◌∙◌, arith,
}
use cqjs.Prelude.Int.{ℤ}
use cqjs.Json.{Response}
use cqjs.Env.{
  Creation, boots, boot_events, JsEnv, EnvManager, Platform, max_environments, find_env, env_find,
  new_env, add_env, env_create, remove_env, env_destroy, change_env,
}
use cqjs.Env.Change.{env_destroy-absent, env_destroy-present}
use cqjs.Server.{Outcome, env_ids}

abbrev has : Bytes → List Bytes → Bool
has id [] = false
has id (x ∷ xs) = if str_eq x id then true else has id xs

abbrev remove_id : Bytes → List Bytes → List Bytes
remove_id id [] = []
remove_id id (x ∷ xs) = if str_eq x id then xs else x ∷ remove_id id xs

module _ {ℓ} {S : Type ℓ} where
  has-env_ids :
      (es : List (JsEnv S)) (id : Bytes)
      → ((find_env es id ≡ none) × (has id (env_ids es) ≡ false))
        ⊎ ((e : JsEnv S) × (find_env es id ≡ some e) × (has id (env_ids es) ≡ true))
  unfolding find_env env_ids
  has-env_ids [] id = inl (refl, refl)
  has-env_ids (e ∷ es) id = elim (Bool-cases (str_eq e.env_id id)) [
    | inl same ↦ rw same (inr (e, refl, refl))
    | inr other ↦ rw other (has-env_ids es id)
  ]

  env_ids-append :
      (es : List (JsEnv S)) (e : JsEnv S) → env_ids (es ++ e ∷ []) ≡ env_ids es ++ e.env_id ∷ []
  unfolding env_ids
  env_ids-append [] e = refl
  env_ids-append (x ∷ es) e = ap (λ l. x.env_id ∷ l) (env_ids-append es e)

  env_ids-remove :
      (es : List (JsEnv S)) (id : Bytes) → env_ids (remove_env id es) ≡ remove_id id (env_ids es)
  unfolding env_ids remove_env
  env_ids-remove [] id = refl
  env_ids-remove (e ∷ es) id = ground (arith, env_ids-remove es id)

  pub env_ids-change :
      (f : JsEnv S → JsEnv S)
      → ((e : JsEnv S) → (f e).env_id ≡ e.env_id)
      → (es : List (JsEnv S)) (id : Bytes) → env_ids (change_env f id es) ≡ env_ids es
  unfolding env_ids change_env
  env_ids-change f keeps [] id = refl
  env_ids-change f keeps (e ∷ es) id = ground (arith, env_ids-change f keeps es id, keeps e)

  length-ids : (es : List (JsEnv S)) → length (env_ids es) ≡ length es
  unfolding env_ids
  length-ids [] = refl
  length-ids (e ∷ es) = ap suc (length-ids es)

  -- The same environments, in the same order.
  pub record Alike (mgr mgr' : EnvManager S) : Type 0 where
    pub same : env_ids mgr.environments ≡ env_ids mgr'.environments

  -- A lookup finds an environment in both managers, or in neither.
  pub data Lookups (mgr mgr' : EnvManager S) (id : Bytes) : Type ℓ where
    neither : env_find mgr id ≡ none → env_find mgr' id ≡ none → Lookups mgr mgr' id
    both :
        (e e' : JsEnv S)
        → env_find mgr id ≡ some e
        → env_find mgr' id ≡ some e'
        → Lookups mgr mgr' id

  -- Both create an environment, or neither, and the same is sent.
  pub data Creations : Creation S → Creation S → Type ℓ where
    refused :
        {mgr mgr' : EnvManager S} (events : List Response)
        → Alike mgr mgr'
        → Creations (mgr, none, events) (mgr', none, events)
    made :
        {mgr mgr' : EnvManager S} (e e' : JsEnv S) (events : List Response)
        → Alike mgr mgr'
        → Creations (mgr, some e, events) (mgr', some e', events)

  -- Both destroy an environment, or neither.
  pub data Removals : EnvManager S × Bool → EnvManager S × Bool → Type ℓ where
    removals :
        {mgr mgr' : EnvManager S} (found : Bool)
        → Alike mgr mgr'
        → Removals (mgr, found) (mgr', found)

  -- The same is sent, and the managers are alike.
  pub record Agrees (o o' : Outcome S) : Type 0 where
    pub same_sent : o.sent ≡ o'.sent
    pub same_exit : o.exited ≡ o'.exited
    pub alike : Alike o.manager o'.manager

  module _ {mgr mgr' : EnvManager S} (alike : Alike mgr mgr') where
    clash : false ≡ true → ⊥
    clash h = cc

    pub lookups : (id : Bytes) → Lookups mgr mgr' id
    unfolding env_find
    lookups id = elim (has-env_ids mgr.environments id) [
      | inl (h, b) ↦ elim (has-env_ids mgr'.environments id) [
        | inl (h', b') ↦ neither h h'
        | inr (e', h', b') ↦ absurd (clash (sym b ∙ ap (has id) alike.same ∙ b'))
      ]
      | inr (e, h, b) ↦ elim (has-env_ids mgr'.environments id) [
        | inl (h', b') ↦ absurd (clash (sym b' ∙ ap (has id) (sym alike.same) ∙ b))
        | inr (e', h', b') ↦ both e e' h h'
      ]
    ]

    add_env-Alike :
        (e e' : JsEnv S) → e.env_id ≡ e'.env_id → Alike (add_env mgr e) (add_env mgr' e')
    unfolding add_env
    add_env-Alike e e' same = record {
      same =
          env_ids-append mgr.environments e
          ∙ ap (λ l. l ++ e.env_id ∷ []) alike.same
          ∙ ap (λ id. env_ids mgr'.environments ++ id ∷ []) same
          ∙ sym (env_ids-append mgr'.environments e');
    }

    same_length : length mgr.environments ≡ length mgr'.environments
    same_length =
        sym (length-ids mgr.environments) ∙ ap length alike.same ∙ length-ids mgr'.environments

    pub env_create-Creations :
        (platform : Platform S) (id : Bytes) (code : Option Bytes) (memory stack : ℤ)
        → Creations
            (env_create platform mgr id code memory stack)
            (env_create platform mgr' id code memory stack)
    unfolding env_create new_env boot_events
    env_create-Creations platform id code memory stack =
        rw same_length (elim (Bool-cases (leb max_environments (length mgr'.environments))) [
          | inl full ↦ rw full (refused [] alike)
          | inr free ↦ rw free (elim (lookups id) [
            | both e e' h h' ↦ rw (h, h') (refused [] alike)
            | neither h h' ↦
                rw (h, h')
                  (elim (Bool-cases (boots platform memory stack)) [
                    | inr down ↦ rw down (refused [] alike)
                    | inl up ↦ rw up (elim (Bool-cases platform.thread_starts) [
                      | inr failed ↦ rw failed (refused _ alike)
                      | inl runs ↦
                          let env = new_env platform id code memory stack in
                          rw runs (made _ _ _ (add_env-Alike env env refl))
                    ])
                  ])
          ])
        ])

    pub env_destroy-Removals : (id : Bytes) → Removals (env_destroy mgr id) (env_destroy mgr' id)
    env_destroy-Removals id = elim (lookups id) [
      | neither h h' ↦
          rw (env_destroy-absent mgr id h, env_destroy-absent mgr' id h') (removals false alike)
      | both e e' h h' ↦
          rw (env_destroy-present mgr id h, env_destroy-present mgr' id h')
            (removals true (record {
              same =
                  env_ids-remove mgr.environments id
                  ∙ ap (remove_id id) alike.same
                  ∙ sym (env_ids-remove mgr'.environments id);
            }))
    ]
