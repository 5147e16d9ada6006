-- ===== src/Server/Listing.antt =====
-- The answer to list_envs, read as JSON.
use cqjs.Prelude.{
  ℕ, suc, some, true, List, [], ◌∷◌, ◌++◌, append_assoc, length, Option, Bytes, ◌≡◌, refl, ap, sym,
  append-nil, ◌∙◌,
}
use cqjs.Json.{json_escape_string, Response}
use cqjs.Json.Escape.{read-json_escape}
use cqjs.Json.Reader.{after_item, with_item, read_items, read_array}
use cqjs.Env.{EnvManager, JsEnv}
use cqjs.Server.{list_rest, list_text, reply, env_ids, handle_list_envs}

-- Behind a literal that another follows stands a comma.
after_item-next :
    (more : Bytes → Option (List Bytes × Bytes)) (id next : Bytes) (ids : List Bytes) (rest : Bytes)
    → after_item more (some (id, list_rest (next ∷ ids) ++ rest))
      ≡ with_item id (more (json_escape_string (some next) ++ (list_rest ids ++ rest)))
unfolding list_rest after_item
after_item-next more id next ids rest =
    ap (λ t. with_item id (more t))
      (append_assoc (json_escape_string (some next)) (list_rest ids) rest)

read_items-list :
    (id : Bytes) (ids : List Bytes) (rest : Bytes)
    → read_items (suc (length ids)) (json_escape_string (some id) ++ (list_rest ids ++ rest))
      ≡ some (id ∷ ids, rest)
unfolding read_items
read_items-list id [] rest =
    rw (read-json_escape id (list_rest [] ++ rest)) (unfold list_rest after_item in refl)
read_items-list id (next ∷ ids) rest =
    ap (after_item (read_items (suc (length ids))))
      (read-json_escape id (list_rest (next ∷ ids) ++ rest))
    ∙ after_item-next (read_items (suc (length ids))) id next ids rest
    ∙ ap (with_item id) (read_items-list next ids rest)

read_array-literal :
    (fuel : ℕ) (id t : Bytes)
    → read_array fuel (b'[' ∷ (json_escape_string (some id) ++ t))
      ≡ read_items fuel (json_escape_string (some id) ++ t)
unfolding read_array json_escape_string
read_array-literal fuel id t = refl

read_array-list :
    (ids : List Bytes) (rest : Bytes)
    → read_array (length ids) (list_text ids ++ rest) ≡ some (ids, rest)
unfolding list_text
read_array-list [] rest = unfold read_array in refl
read_array-list (id ∷ ids) rest =
    ap (λ t. read_array (suc (length ids)) (b'[' ∷ t))
      (append_assoc (json_escape_string (some id)) (list_rest ids) rest)
    ∙ read_array-literal (suc (length ids)) id (list_rest ids ++ rest)
    ∙ read_items-list id ids rest

length-env_ids {ℓ} : {S : Type ℓ} (es : List (JsEnv S)) → length (env_ids es) ≡ length es
unfolding env_ids
length-env_ids [] = refl
length-env_ids (e ∷ es) = ap suc (length-env_ids es)

-- list_envs sends one response with the request's identifier and changes nothing; its value is raw
-- JSON, from which a reader of JSON arrays reads the identifiers of the environments, in their order.
pub handle_list_envs-reads {ℓ} :
    {S : Type ℓ} (mgr : EnvManager S) (id : Option Bytes)
    → (r : Response) × (text : Bytes) × (handle_list_envs mgr id ≡ reply mgr r)
      × (r.id ≡ id)
      × (r.value ≡ some text)
      × (r.value_is_raw ≡ true)
      × (read_array (length mgr.environments) text ≡ some (env_ids mgr.environments, []))
unfolding handle_list_envs
handle_list_envs-reads mgr id = (
  _,
  list_text (env_ids mgr.environments),
  refl,
  refl,
  refl,
  refl,
  (let whole : read_array (length (env_ids mgr.environments)) (list_text (env_ids mgr.environments))
          ≡ some (env_ids mgr.environments, []) =
        ap (read_array (length (env_ids mgr.environments)))
          (sym (append-nil (list_text (env_ids mgr.environments))))
        ∙ read_array-list (env_ids mgr.environments) [] in
      ap (λ n. read_array n (list_text (env_ids mgr.environments)))
        (sym (length-env_ids mgr.environments))
      ∙ whole),
)
