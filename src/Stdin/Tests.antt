-- ===== src/Stdin/Tests.antt =====
-- Two lines, the second cut in two, with an empty line between and an unterminated rest.
use cqjs.Prelude.{List, [], ◌∷◌, ◌++◌, codes, ◌≡◌, refl}
use cqjs.Stdin.{stdin_reader_init, stdin_reader_thread, is_end}
use cqjs.Stdin.Lines.{Cut, all_chunks, all_lines, filled, stdin_reader_thread-lines}

abbrev cuts : List Cut
cuts =
    record { pieces = []; last = codes "{}" }
    ∷ record { pieces = []; last = [] }
    ∷ record { pieces = codes "{\"id\"" ∷ []; last = codes ":1}" }
    ∷ []

stdin_reader_thread-lines_example :
    (stdin_reader_thread (all_chunks cuts ++ codes "exi" ∷ []) stdin_reader_init).lines
    ≡ stdin_reader_init.lines ++ filled (all_lines cuts)
unfolding is_end
stdin_reader_thread-lines_example =
    stdin_reader_thread-lines cuts (codes "exi" ∷ []) stdin_reader_init
      (
        (refl, (refl, tt)),
        (tt, ((refl, (refl, (refl, (refl, (refl, (refl, (refl, (refl, tt)))))))), tt)),
      )
      (refl, (refl, (refl, tt)))
