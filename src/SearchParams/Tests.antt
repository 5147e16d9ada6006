-- ===== src/SearchParams/Tests.antt =====
-- The parameters of `a=1&b==&c=`.
use cqjs.Prelude.{none, some, List, [], ◌∷◌, codes, str_eq, if◌then◌else◌, ◌≡◌, arith}
use cqjs.SearchParams.{Param, sp_parse, sp_text, sp_find, js_sp_set, js_sp_append, js_sp_delete}
use cqjs.SearchParams.Laws.{first_of, js_sp_lem}
use cqjs.SearchParams.RoundTrip.{sp_parse-sp_text}

abbrev three : List Param
three =
    record { key = codes "a"; text = codes "1" }
    ∷ record { key = codes "b"; text = codes "=" }
    ∷ record { key = codes "c"; text = [] }
    ∷ []

sp_parse-sp_text_example : sp_parse (some (sp_text three)) ≡ three
sp_parse-sp_text_example = sp_parse-sp_text three (omega arith) (omega arith)

js_sp_lem_example :
    (sp_find (codes "b") (js_sp_set three 2 (some (codes "b")) (some (codes "7")))
      ≡ (if str_eq (codes "b") (codes "b") then some (codes "7") else sp_find (codes "b") three))
    × (sp_find (codes "b") (js_sp_delete three 2 (some (codes "b")))
        ≡ (if str_eq (codes "b") (codes "b") then none else sp_find (codes "b") three))
    × (sp_find (codes "b") (js_sp_append three 2 (some (codes "b")) (some (codes "7")))
        ≡ first_of
            (sp_find (codes "b") three)
            (if str_eq (codes "b") (codes "b") then some (codes "7") else none))
js_sp_lem_example = js_sp_lem three (codes "b") (codes "b") (codes "7") 2 (omega arith)
