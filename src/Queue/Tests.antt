-- ===== src/Queue/Tests.antt =====
-- A queue with two requests.
use cqjs.Prelude.{none, some, [], ◌∷◌, ◌++◌, codes, arith}
use cqjs.Queue.{Request, Queue, empty, env_submit_request}
use cqjs.Queue.Fifo.{
  Items, Models, TakesFirst, empty-Models, env_submit_request-Models, take_request-Models,
}

abbrev first : Request
first = record {
  request_id = some (codes "1");
  type = codes "eval";
  code = some (codes "1+1");
  filename = none;
  path = none;
}

abbrev second : Request
second = record first { request_id = some (codes "2") }

abbrev one : Queue
one = env_submit_request empty 100 first

abbrev one_item : Items
one_item = (100, first) ∷ []

one-Models : Models one one_item
one-Models = env_submit_request-Models empty [] 100 first empty-Models tt

env_submit_request-Models_example :
    Models (env_submit_request one 200 second) (one_item ++ (200, second) ∷ [])
env_submit_request-Models_example =
    env_submit_request-Models one one_item 200 second one-Models (omega arith)

take_request-Models_example :
    TakesFirst (env_submit_request one 200 second) (one_item ++ (200, second) ∷ [])
take_request-Models_example =
    take_request-Models (env_submit_request one 200 second) (one_item ++ (200, second) ∷ [])
      (env_submit_request-Models one one_item 200 second one-Models (omega arith))
