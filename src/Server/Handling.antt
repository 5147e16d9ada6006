-- ===== src/Server/Handling.antt =====
-- The ways in which `handle_request` ends, as a view of its outcome.
use cqjs.Prelude.{
  sym, ℕ, Bool, true, false, Option, none, some, List, [], ◌∷◌, Bytes, codes, str_eq, str_eq_sound,
  Option-cases, Bool-cases, inl, inr, ◌≡◌, refl, ap, ◌∙◌,
}
use cqjs.Prelude.Int.{ℤ}
use cqjs.Json.{Response, answer}
use cqjs.Queue.{Request}
use cqjs.Env.{JsEnv, EnvManager, Platform, Creation, env_create, env_destroy, env_find}
use cqjs.Env.Table.{IsValid, Created, env_create_lem}
use cqjs.Env.Change.{env_destroy-absent, env_destroy-present}
use cqjs.Server.{
  Property, Parsed, invalid, object, Outcome, reply_after, json_get_string, error_response, submit,
  submit_to, created, destroyed, handle_create_env, handle_destroy_env, handle_list_envs,
  handle_eval, handle_eval_file, handle_exit, handle_type, handle_parsed, handle_request, reply,
}

-- A string of a request.
abbrev pub text_at : Bytes → Parsed → Option Bytes
text_at key (invalid message) = none
text_at key (object obj) = json_get_string obj key

abbrev pub id_of : Parsed → Option Bytes
id_of x = text_at (codes "id") x

abbrev pub is_text : Bytes → Option Bytes → Bool
is_text s none = false
is_text s (some t) = str_eq t s

-- Whether a request is of type `create_env`, or `destroy_env`.
abbrev pub is_create : Parsed → Bool
is_create x = is_text (codes "create_env") (text_at (codes "type") x)

abbrev pub is_destroy : Parsed → Bool
is_destroy x = is_text (codes "destroy_env") (text_at (codes "type") x)

module _ {ℓ} {S : Type ℓ} (platform : Platform S) (p : ℕ) (mgr : EnvManager S) where
  pub data Handling (x : Parsed) : Outcome S → Type ℓ where
    refuses :
        (events : List Response) (message : Bytes)
        → (is_create x ≡ false → events ≡ [])
        → Handling x (reply_after mgr events (error_response (id_of x) message))
    shows :
        (r : Response) (exited : Bool)
        → r.id ≡ id_of x
        → r.type ≡ codes "result"
        → is_destroy x ≡ false
        → Handling x (record { manager = mgr; sent = answer r ∷ []; exited = exited })
    creates :
        (env_id : Bytes) (code : Option Bytes) (memory stack : ℤ) (r : Response)
        → Created platform mgr env_id code memory stack
        → r.id ≡ id_of x
        → r.type ≡ codes "result"
        → is_destroy x ≡ false
        → is_create x ≡ true
        → Handling x (
            reply_after
              (env_create platform mgr env_id code memory stack).0
              (env_create platform mgr env_id code memory stack).2
              r)
    destroys :
        (env_id : Bytes) (r : Response) (e : JsEnv S)
        → env_find mgr env_id ≡ some e
        → r.id ≡ id_of x
        → r.type ≡ codes "result"
        → is_destroy x ≡ true
        → text_at (codes "env_id") x ≡ some env_id
        → Handling x (reply (env_destroy mgr env_id).0 r)
    submits :
        (env_id : Bytes) (req : Request) (e : JsEnv S)
        → env_find mgr env_id ≡ some e
        → req.request_id ≡ id_of x
        → text_at (codes "env_id") x ≡ some env_id
        → Handling x (record { manager = submit p req mgr env_id; sent = []; exited = false })

  module _ (v : IsValid mgr) (obj : Bytes → Property) where
    abbrev Handles : Outcome S → Type ℓ
    Handles o = Handling (object obj) o

    abbrev id : Option Bytes
    id = json_get_string obj (codes "id")

    submit_to-Handling :
        (env_id before : Bytes) (req : Request)
        → req.request_id ≡ id
        → json_get_string obj (codes "env_id") ≡ some env_id
        → Handles (submit_to p mgr id env_id before req)
    unfolding submit_to
    submit_to-Handling env_id before req same named = elim (Option-cases (env_find mgr env_id)) [
      | inl absent ↦ rw (absent, submit_to) (refuses [] _ (λ _. refl))
      | inr (e, present) ↦ rw (present, submit_to) (submits env_id req e present same named)
    ]

    created-Handling :
        (env_id : Bytes) (code : Option Bytes) (memory stack : ℤ)
        → is_create (object obj) ≡ true
        → is_destroy (object obj) ≡ false
        → Handles (created id env_id (env_create platform mgr env_id code memory stack))
    unfolding created
    created-Handling env_id code memory stack asked other =
        elim (env_create_lem platform mgr env_id code memory stack v) [
          | inl refusal ↦
              rw refusal.result (refuses refusal.events _ (λ no. absurd (clash (sym asked ∙ no))))
          | inr creation ↦
              added (env_create platform mgr env_id code memory stack) creation.result
                (λ r same kind. creates env_id code memory stack r creation same kind other asked)
        ]
      where
        added :
            {e : JsEnv S} (out : Creation S)
            → out.1 ≡ some e
            → ((r : Response)
                → r.id ≡ id
                → r.type ≡ codes "result"
                → Handles (reply_after out.0 out.2 r))
            → Handles (created id env_id out)
        added (mgr', none, events) h k = cc
        added (mgr', some e, events) h k = k _ refl refl

        clash : true ≡ false → ⊥
        clash h = cc

    handle_create_env-Handling :
        is_create (object obj) ≡ true
        → is_destroy (object obj) ≡ false
        → Handles (handle_create_env platform mgr id obj)
    unfolding handle_create_env
    handle_create_env-Handling asked other =
        elim (Option-cases (json_get_string obj (codes "env_id"))) [
          | inl absent ↦ rw (absent, handle_create_env) (refuses [] _ (λ _. refl))
          | inr (env_id, present) ↦
              rw (present, handle_create_env) (created-Handling env_id _ _ _ asked other)
        ]

    destroyed-Handling :
        (env_id : Bytes)
        → is_destroy (object obj) ≡ true
        → json_get_string obj (codes "env_id") ≡ some env_id
        → Handles (destroyed id env_id (env_destroy mgr env_id))
    unfolding destroyed
    destroyed-Handling env_id asked named = elim (Option-cases (env_find mgr env_id)) [
      | inl absent ↦ rw (env_destroy-absent mgr env_id absent) (refuses [] _ (λ _. refl))
      | inr (e, present) ↦
          removed (env_destroy mgr env_id) (rw (env_destroy-present mgr env_id present) refl)
            (λ r same kind. destroys env_id r e present same kind asked named)
    ]
      where
        removed :
            (out : EnvManager S × Bool)
            → out.1 ≡ true
            → ((r : Response) → r.id ≡ id → r.type ≡ codes "result" → Handles (reply out.0 r))
            → Handles (destroyed id env_id out)
        removed (mgr', false) h k = cc
        removed (mgr', true) h k = k _ refl refl

    handle_destroy_env-Handling :
        is_destroy (object obj) ≡ true → Handles (handle_destroy_env mgr id obj)
    unfolding handle_destroy_env
    handle_destroy_env-Handling asked = elim (Option-cases (json_get_string obj (codes "env_id"))) [
      | inl absent ↦ rw (absent, handle_destroy_env) (refuses [] _ (λ _. refl))
      | inr (env_id, present) ↦
          rw (present, handle_destroy_env) (destroyed-Handling env_id asked present)
    ]

    handle_eval-Handling : Handles (handle_eval p mgr id obj)
    unfolding handle_eval
    handle_eval-Handling = elim (Option-cases (json_get_string obj (codes "env_id"))) [
      | inl absent ↦ rw (absent, handle_eval) (refuses [] _ (λ _. refl))
      | inr (env_id, present) ↦ elim (Option-cases (json_get_string obj (codes "code"))) [
        | inl absent ↦ rw (present, handle_eval, absent, handle_eval) (refuses [] _ (λ _. refl))
        | inr (code, coded) ↦
            rw (present, handle_eval, coded, handle_eval)
              (submit_to-Handling env_id _ _ refl present)
      ]
    ]

    handle_eval_file-Handling : Handles (handle_eval_file p mgr id obj)
    unfolding handle_eval_file
    handle_eval_file-Handling = elim (Option-cases (json_get_string obj (codes "env_id"))) [
      | inl absent ↦ rw (absent, handle_eval_file) (refuses [] _ (λ _. refl))
      | inr (env_id, present) ↦ elim (Option-cases (json_get_string obj (codes "path"))) [
        | inl absent ↦
            rw (present, handle_eval_file, absent, handle_eval_file) (refuses [] _ (λ _. refl))
        | inr (path, named) ↦
            rw (present, handle_eval_file, named, handle_eval_file)
              (submit_to-Handling env_id _ _ refl present)
      ]
    ]

    module _ (type : Bytes) (typed : json_get_string obj (codes "type") ≡ some type) where
      -- A type that is another is not `destroy_env`.
      is_other :
          (other : Bytes)
          → str_eq type other ≡ true
          → str_eq other (codes "destroy_env") ≡ false
          → is_destroy (object obj) ≡ false
      is_other other same h =
          ap (is_text (codes "destroy_env")) typed
          ∙ ap (λ t. str_eq t (codes "destroy_env")) (str_eq_sound type other same)
          ∙ h

      handle_type-Handling : Handles (handle_type platform p mgr id type obj)
      unfolding handle_type handle_list_envs handle_exit
      handle_type-Handling = elim (Bool-cases (str_eq type (codes "create_env"))) [
        | inl is ↦ rw is (
            handle_create_env-Handling (ap (is_text (codes "create_env")) typed ∙ is)
              (is_other _ is refl))
        | inr not_create ↦ rw not_create (elim (Bool-cases (str_eq type (codes "destroy_env"))) [
          | inl is ↦
              rw is (handle_destroy_env-Handling (ap (is_text (codes "destroy_env")) typed ∙ is))
          | inr not_destroy ↦ rw not_destroy (elim (Bool-cases (str_eq type (codes "list_envs"))) [
            | inl is ↦ rw is (shows _ false refl refl (is_other _ is refl))
            | inr not_list ↦ rw not_list (elim (Bool-cases (str_eq type (codes "eval"))) [
              | inl is ↦ rw is handle_eval-Handling
              | inr not_eval ↦ rw not_eval (elim (Bool-cases (str_eq type (codes "eval_file"))) [
                | inl is ↦ rw is handle_eval_file-Handling
                | inr not_file ↦ rw not_file (elim (Bool-cases (str_eq type (codes "exit"))) [
                  | inl is ↦ rw is (shows _ true refl refl (is_other _ is refl))
                  | inr not_exit ↦ rw not_exit (refuses [] _ (λ _. refl))
                ])
              ])
            ])
          ])
        ])
      ]

  handle_parsed-Handling : IsValid mgr → (x : Parsed) → Handling x (handle_parsed platform p mgr x)
  unfolding handle_parsed
  handle_parsed-Handling v (invalid message) = refuses [] _ (λ _. refl)
  handle_parsed-Handling v (object obj) = elim (Option-cases (json_get_string obj (codes "type"))) [
    | inl absent ↦ rw (absent, handle_parsed) (refuses [] _ (λ _. refl))
    | inr (type, present) ↦ rw (present, handle_parsed) (handle_type-Handling v obj type present)
  ]

  -- With a valid manager, handling a line ends in one of the ways of `Handling`.
  pub handle_request-Handling :
      (parse : Bytes → Parsed)
      → IsValid mgr
      → (line : Bytes) → Handling (parse line) (handle_request platform parse p mgr line)
  unfolding handle_request
  handle_request-Handling parse v line = handle_parsed-Handling v (parse line)
