-- ===== src/Json/Answered.antt =====
-- The answers among what is sent.
use cqjs.Prelude.{List, [], ◌∷◌, ◌++◌, map, ◌≡◌, refl, ap, ◌∙◌}
use cqjs.Json.{Response, Sent, event, answer}

abbrev pub answers : List Sent → List Response
answers [] = []
answers (event r ∷ xs) = answers xs
answers (answer r ∷ xs) = r ∷ answers xs

pub answers-append : (xs ys : List Sent) → answers (xs ++ ys) ≡ answers xs ++ answers ys
answers-append [] ys = refl
answers-append (event r ∷ xs) ys = answers-append xs ys
answers-append (answer r ∷ xs) ys = ap (λ l. r ∷ l) (answers-append xs ys)

pub answers-events : (rs : List Response) → answers (map event rs) ≡ []
answers-events [] = refl
answers-events (r ∷ rs) = answers-events rs

-- Events, and the answer behind them.
abbrev pub after_events : List Response → Response → List Sent
after_events events r = map event events ++ answer r ∷ []

pub answers-after_events :
    (events : List Response) (r : Response) → answers (after_events events r) ≡ r ∷ []
answers-after_events events r =
    answers-append (map event events) (answer r ∷ [])
    ∙ ap (λ l. l ++ r ∷ []) (answers-events events)
