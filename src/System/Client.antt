-- ===== src/System/Client.antt =====
-- What a client may expect of an environment: the identifiers of the requests whose answers it awaits,
-- computed from what is seen from outside only.
use cqjs.Prelude.{
  Bool, true, false, ◌&&◌, Option, none, some, List, [], ◌∷◌, ◌++◌, Bytes, codes, str_eq,
  str_eq_refl, if◌then◌else◌, ◌≡◌, refl,
}
use cqjs.Json.{Response}
use cqjs.Server.{Parsed}
use cqjs.Server.Handling.{text_at, id_of, is_text, is_destroy}
use cqjs.Json.Answered.{answers}
use cqjs.System.{Act, line, thread}

abbrev pub Ids : Type 0
Ids = List (Option Bytes)

abbrev pub same_id : Option Bytes → Option Bytes → Bool
same_id none none = true
same_id none (some b) = false
same_id (some a) none = false
same_id (some a) (some b) = str_eq a b

pub same_id_refl : (id : Option Bytes) → same_id id id ≡ true
same_id_refl none = refl
same_id_refl (some a) = str_eq_refl a

-- Answers must be to the oldest requests that are awaited; `none` if one is not.
abbrev pub expect : Ids → List Response → Option Ids
expect ids [] = some ids
expect [] (r ∷ rs) = none
expect (id ∷ ids) (r ∷ rs) = if same_id id r.id then expect ids rs else none

abbrev pub names : Bytes → Parsed → Bool
names j x = is_text j (text_at (codes "env_id") x)

-- A request to the environment `j` that is not answered at once is awaited; nothing is, once a response
-- says that the environment is destroyed.
abbrev pub replied : Bytes → Ids → Parsed → List Response → Ids
replied j ids x [] = if names j x then ids ++ id_of x ∷ [] else ids
replied j ids x (r ∷ rs) =
    if str_eq r.type (codes "result") && (is_destroy x && names j x) then [] else ids

module _ (parse : Bytes → Parsed) where
  -- What the environment answers must be expected. Events answer nothing.
  abbrev pub observe : Bytes → Ids → Act → Option Ids
  observe j ids (line text sent) = some (replied j ids (parse text) (answers sent))
  observe j ids (thread i sent) = if str_eq i j then expect ids (answers sent) else some ids

  abbrev pub observe_all : Bytes → List Act → Option Ids → Option Ids
  observe_all j acts none = none
  observe_all j [] (some ids) = some ids
  observe_all j (act ∷ acts) (some ids) = observe_all j acts (observe j ids act)
