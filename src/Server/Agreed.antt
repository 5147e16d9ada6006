-- ===== src/Server/Agreed.antt =====
-- `handle_request` with two managers that are alike, and the loop of `main`.
use cqjs.Prelude.{
  ℕ, Bool, true, false, Option, Bytes, codes, str_eq, Option-cases, Bool-cases, inl, inr, refl, sym,
  ◌∙◌,
}
use cqjs.Json.{Response}
use cqjs.Queue.{Request}
use cqjs.Env.{Creation, EnvManager, Platform}
use cqjs.Server.{
  Property, Parsed, invalid, object, json_get_string, submit, submit_to, created, destroyed,
  handle_create_env, handle_destroy_env, handle_list_envs, handle_eval, handle_eval_file,
  handle_exit, handle_type, handle_parsed, handle_request, reply,
}
use cqjs.Server.Alike.{
  Alike, neither, both, lookups, Creations, refused, made, env_create-Creations, Removals, removals,
  env_destroy-Removals, Agrees, env_ids-change,
}

module _ {ℓ} {S : Type ℓ} {mgr mgr' : EnvManager S} (alike : Alike mgr mgr') where
  reply-Agrees : (r : Response) → Agrees (reply mgr r) (reply mgr' r)
  reply-Agrees r = record { same_sent = refl; same_exit = refl; alike = alike }

  created-Agrees :
      (id : Option Bytes) (env_id : Bytes) (out out' : Creation S)
      → Creations out out'
      → Agrees (created id env_id out) (created id env_id out')
  unfolding created
  created-Agrees id env_id out out' (refused events a) = record {
    same_sent = refl;
    same_exit = refl;
    alike = a;
  }
  created-Agrees id env_id out out' (made e e' events a) = record {
    same_sent = refl;
    same_exit = refl;
    alike = a;
  }

  destroyed-Agrees :
      (id : Option Bytes) (env_id : Bytes) (out out' : EnvManager S × Bool)
      → Removals out out'
      → Agrees (destroyed id env_id out) (destroyed id env_id out')
  unfolding destroyed
  destroyed-Agrees id env_id out out' (removals true a) = record {
    same_sent = refl;
    same_exit = refl;
    alike = a;
  }
  destroyed-Agrees id env_id out out' (removals false a) = record {
    same_sent = refl;
    same_exit = refl;
    alike = a;
  }

  module _ (p p' : ℕ) (id : Option Bytes) where
    submit_to-Agrees :
        (env_id before : Bytes) (req : Request)
        → Agrees (submit_to p mgr id env_id before req) (submit_to p' mgr' id env_id before req)
    unfolding submit_to submit
    submit_to-Agrees env_id before req = elim (lookups alike env_id) [
      | neither h h' ↦ rw (h, submit_to, h', submit_to) (reply-Agrees _)
      | both e e' h h' ↦
          rw (h, submit_to, h', submit_to)
            (record {
              same_sent = refl;
              same_exit = refl;
              alike = record {
                same =
                    env_ids-change _ (λ e. refl) mgr.environments env_id
                    ∙ alike.same
                    ∙ sym (env_ids-change _ (λ e. refl) mgr'.environments env_id);
              };
            })
    ]

    module _ (platform : Platform S) (obj : Bytes → Property) where
      handle_create_env-Agrees :
          Agrees (handle_create_env platform mgr id obj) (handle_create_env platform mgr' id obj)
      unfolding handle_create_env
      handle_create_env-Agrees = elim (Option-cases (json_get_string obj (codes "env_id"))) [
        | inl absent ↦ rw (absent, handle_create_env) (reply-Agrees _)
        | inr (env_id, present) ↦
            rw (present, handle_create_env)
              (created-Agrees id env_id _ _ (env_create-Creations alike platform env_id _ _ _))
      ]

      handle_destroy_env-Agrees :
          Agrees (handle_destroy_env mgr id obj) (handle_destroy_env mgr' id obj)
      unfolding handle_destroy_env
      handle_destroy_env-Agrees = elim (Option-cases (json_get_string obj (codes "env_id"))) [
        | inl absent ↦ rw (absent, handle_destroy_env) (reply-Agrees _)
        | inr (env_id, present) ↦
            rw (present, handle_destroy_env)
              (destroyed-Agrees id env_id _ _ (env_destroy-Removals alike env_id))
      ]

      handle_list_envs-Agrees : Agrees (handle_list_envs mgr id) (handle_list_envs mgr' id)
      unfolding handle_list_envs
      handle_list_envs-Agrees = rw alike.same (reply-Agrees _)

      handle_eval-Agrees : Agrees (handle_eval p mgr id obj) (handle_eval p' mgr' id obj)
      unfolding handle_eval
      handle_eval-Agrees = elim (Option-cases (json_get_string obj (codes "env_id"))) [
        | inl absent ↦ rw (absent, handle_eval) (reply-Agrees _)
        | inr (env_id, present) ↦ elim (Option-cases (json_get_string obj (codes "code"))) [
          | inl absent ↦ rw (present, handle_eval, absent, handle_eval) (reply-Agrees _)
          | inr (code, coded) ↦
              rw (present, handle_eval, coded, handle_eval) (submit_to-Agrees env_id _ _)
        ]
      ]

      handle_eval_file-Agrees :
          Agrees (handle_eval_file p mgr id obj) (handle_eval_file p' mgr' id obj)
      unfolding handle_eval_file
      handle_eval_file-Agrees = elim (Option-cases (json_get_string obj (codes "env_id"))) [
        | inl absent ↦ rw (absent, handle_eval_file) (reply-Agrees _)
        | inr (env_id, present) ↦ elim (Option-cases (json_get_string obj (codes "path"))) [
          | inl absent ↦ rw (present, handle_eval_file, absent, handle_eval_file) (reply-Agrees _)
          | inr (path, named) ↦
              rw (present, handle_eval_file, named, handle_eval_file) (submit_to-Agrees env_id _ _)
        ]
      ]

      handle_exit-Agrees : Agrees (handle_exit mgr id) (handle_exit mgr' id)
      unfolding handle_exit
      handle_exit-Agrees = record { same_sent = refl; same_exit = refl; alike = alike }

      handle_type-Agrees :
          (type : Bytes)
          → Agrees
              (handle_type platform p mgr id type obj)
              (handle_type platform p' mgr' id type obj)
      unfolding handle_type
      handle_type-Agrees type = elim (Bool-cases (str_eq type (codes "create_env"))) [
        | inl is ↦ rw is handle_create_env-Agrees
        | inr not_create ↦ rw not_create (elim (Bool-cases (str_eq type (codes "destroy_env"))) [
          | inl is ↦ rw is handle_destroy_env-Agrees
          | inr not_destroy ↦ rw not_destroy (elim (Bool-cases (str_eq type (codes "list_envs"))) [
            | inl is ↦ rw is handle_list_envs-Agrees
            | inr not_list ↦ rw not_list (elim (Bool-cases (str_eq type (codes "eval"))) [
              | inl is ↦ rw is handle_eval-Agrees
              | inr not_eval ↦ rw not_eval (elim (Bool-cases (str_eq type (codes "eval_file"))) [
                | inl is ↦ rw is handle_eval_file-Agrees
                | inr not_file ↦ rw not_file (elim (Bool-cases (str_eq type (codes "exit"))) [
                  | inl is ↦ rw is handle_exit-Agrees
                  | inr not_exit ↦ rw not_exit (reply-Agrees _)
                ])
              ])
            ])
          ])
        ])
      ]

  -- A line is answered alike, with the same responses and the same end, and leaves alike managers.
  pub handle_request-Agrees :
      (platform : Platform S) (parse : Bytes → Parsed) (p p' : ℕ) (line : Bytes)
      → Agrees
          (handle_request platform parse p mgr line)
          (handle_request platform parse p' mgr' line)
  unfolding handle_request handle_parsed
  handle_request-Agrees platform parse p p' line = parsed-Agrees (parse line)
    where
      parsed-Agrees :
          (x : Parsed) → Agrees (handle_parsed platform p mgr x) (handle_parsed platform p' mgr' x)
      parsed-Agrees (invalid message) = reply-Agrees _
      parsed-Agrees (object obj) = elim (Option-cases (json_get_string obj (codes "type"))) [
        | inl absent ↦ rw (absent, handle_parsed) (reply-Agrees _)
        | inr (type, present) ↦
            rw (present, handle_parsed) (handle_type-Agrees p p' _ platform obj type)
      ]
