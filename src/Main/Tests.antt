-- ===== src/Main/Tests.antt =====
-- A process that is given one line, which is not JSON.
use cqjs.Prelude.{ℕ, true, false, none, [], ◌∷◌, Bytes, codes, strip_end, attach, refl}
use cqjs.Dispatch.{dt_init}
use cqjs.Env.{Platform}
use cqjs.Server.{Parsed, invalid, handle_request, handle_parsed}
use cqjs.Stdin.{
  stdin_reader_pop, pop_line, read_chunk, ends_line, is_end, push_line, stdin_reader_push,
}
use cqjs.Main.{Process, Runs, stays, reads, closes, handles, read_next, close_input, handled}

abbrev idle_platform : Platform ℕ
idle_platform = record {
  new_runtime = true;
  new_context = λ memory stack. true;
  thread_starts = true;
  boot = λ memory stack code. (0, dt_init, []);
}

abbrev no_json : Bytes → Parsed
no_json line = invalid none

abbrev start : Process ℕ
start = record {
  input = codes "x\n" ∷ [];
  buffer = [];
  reader = record { lines = []; capacity = 16; eof = false };
  manager = record { environments = []; capacity = 16 };
  sent = [];
}

abbrev read_all : Process ℕ
read_all = close_input (read_next start (codes "x\n") [])

abbrev finished : Process ℕ
finished =
    handled read_all (record { lines = []; capacity = 16; eof = true })
      (handle_request idle_platform no_json 5 read_all.manager (codes "x"))

one_line : Runs (λ n. idle_platform) no_json (λ n. 5) start (codes "x" ∷ []) finished
unfolding read_next close_input stdin_reader_pop pop_line read_chunk ends_line is_end strip_end
    push_line stdin_reader_push handle_request handle_parsed attach
one_line = reads {s = start} (codes "x\n") [] refl (
    closes {s = read_next start (codes "x\n") []} refl (
      handles {s = read_all} (record { lines = []; capacity = 16; eof = true }) (codes "x") refl
        refl stays))
