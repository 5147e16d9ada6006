-- ===== src/Host/Tests.antt =====
-- A process that reads one line, with a request to its only environment, which answers it.
use cqjs.Prelude.{ℕ, ◌+◌, true, false, none, [], ◌∷◌, codes, strip_end, attach, refl}
use cqjs.Env.{env_find, find_env, change_env}
use cqjs.Server.{
  submit, json_get_string, submit_to, handle_eval, handle_type, handle_parsed, handle_request,
}
use cqjs.Stdin.{
  stdin_reader_pop, pop_line, read_chunk, ends_line, is_end, push_line, stdin_reader_push, Reader,
}
use cqjs.Main.{read_next, close_input, handled}
use cqjs.System.{worked, world_of}
use cqjs.System.Example.{
  starting, repeating, outside, start, start-IsValid, start-IsFree, start-Waits, parsing, request,
  submitted, left, request_taken, seen,
}
use cqjs.Eval.{handle_one}
use cqjs.Host.{Host, system_of, with_system, Executes, stays, reads, closes, handles, takes}
use cqjs.Host.Serves.{Served, Executes-Served}

abbrev beginning : Host ℕ
beginning = record {
  process = record {
    input = codes "{}\n" ∷ [];
    buffer = [];
    reader = record { lines = []; capacity = 16; eof = false };
    manager = start.manager;
    sent = [];
  };
  cache = none;
}

abbrev line_read : Host ℕ
line_read = record beginning { process = read_next beginning.process (codes "{}\n") [] }

abbrev all_read : Host ℕ
all_read = record line_read { process = close_input line_read.process }

abbrev idle_reader : Reader
idle_reader = record { lines = []; capacity = 16; eof = true }

abbrev given : Host ℕ
given = record all_read {
  process =
      handled all_read.process idle_reader
        (handle_request (starting 0) parsing 100 all_read.process.manager (codes "{}"));
}

abbrev finished : Host ℕ
finished = with_system given (
    worked (system_of given) (codes "lx")
      (handle_one repeating outside request (world_of (system_of given) submitted)) left)

session : Executes repeating starting parsing beginning seen finished
unfolding read_next close_input stdin_reader_pop pop_line read_chunk ends_line is_end strip_end
    push_line stdin_reader_push attach handle_request handle_parsed handle_type handle_eval
    submit_to submit json_get_string env_find find_env change_env handled
session = reads {h = beginning} (codes "{}\n") [] refl (
    closes {h = line_read} refl (
      handles {h = all_read} idle_reader (codes "{}") 100 refl start-IsFree refl
        (takes {h = given} (codes "lx") submitted request left outside refl request_taken stays)))

Executes-Served_example :
    Served repeating starting parsing beginning seen finished (λ n. 100 + n) (codes "lx") []
unfolding handled read_next close_input
Executes-Served_example =
    Executes-Served repeating starting parsing (λ n. 100 + n) (codes "lx") [] session start-IsValid
      refl (refl, refl, refl) start-Waits
