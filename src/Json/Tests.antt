-- ===== src/Json/Tests.antt =====
-- Concrete runs of the JSON writer.
use cqjs.Prelude.{
  ◌+◌, ◌<◌, ◌≤◌, true, false, none, some, [], ◌∷◌, ◌++◌, length, replicate, Bytes, codes, ◌≡◌, refl,
  arith,
}
use cqjs.Json.{Response, escape_char, buffer_size, send_json_response}
use cqjs.Json.Object.{read_object, read_object-send_json_response}
use cqjs.Json.Stream.{split_lines, send_all, split_lines-send_all}
use cqjs.Json.Line.{send_json_response-fits, send_json_response-overflows}

abbrev greeting : Bytes
greeting = codes "say \"hi\"\n" ++ 1 ∷ []

abbrev answer : Response
answer = record {
  id = some (codes "req-7");
  type = codes "result";
  env_id = some (codes "lx");
  value = some (codes "{\"a\":1}");
  value_is_raw = true;
  message = none;
  name = none;
  data_text = some (codes "x\ny");
  data_is_raw = false;
}

-- A response like the answer to `list_envs` with nothing in it but an identifier of 500 bytes.
abbrev long_id : Response
long_id = record {
  id = some (replicate 500 b'a');
  type = codes "result";
  env_id = none;
  value = none;
  value_is_raw = false;
  message = none;
  name = none;
  data_text = none;
  data_is_raw = false;
}

-- A failure, as the thread of an environment reports it.
abbrev failure : Response
failure = record {
  id = some greeting;
  type = codes "error";
  env_id = none;
  value = none;
  value_is_raw = false;
  message = some (codes "a\nb");
  name = none;
  data_text = none;
  data_is_raw = false;
}

read_object-send_json_response_example :
    read_object 3 (send_json_response failure)
    ≡ some (
        (codes "id", greeting)
        ∷ (codes "type", codes "error")
        ∷ (codes "message", codes "a\nb")
        ∷ [])
read_object-send_json_response_example = read_object-send_json_response failure refl refl

split_lines-send_all_example :
    split_lines (send_all (failure ∷ answer ∷ []) [])
    ≡ (send_json_response failure ∷ send_json_response answer ∷ [], [])
split_lines-send_all_example =
    split_lines-send_all (failure ∷ answer ∷ []) ((tt, tt), ((omega arith, tt), tt))

send_json_response-fits_example : length (send_json_response answer) + 1 ≤ buffer_size answer
unfolding escape_char
send_json_response-fits_example =
    send_json_response-fits answer (omega arith) (omega arith) (omega arith) (omega arith) tt tt
      (omega arith) (omega arith)

send_json_response-overflows_example : buffer_size long_id < length (send_json_response long_id) + 1
send_json_response-overflows_example =
    send_json_response-overflows long_id (replicate 500 b'a') refl (omega arith) refl refl refl refl
