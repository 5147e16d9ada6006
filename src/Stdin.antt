-- ===== src/Stdin.antt =====
-- The reader of standard input (main.c): the queue of lines, and the thread that puts the pieces that
-- `fgets` reads together to lines. A piece is the text before the first 0 of what was read; the buffer
-- grows as needed.
pub mod Lines
mod Tests
use cqjs.Prelude.{
  ℕ, ◌+◌, ◌*◌, Bool, true, false, ◌||◌, Option, none, some, List, [], ◌∷◌, ◌++◌, length, Bytes, leb,
  ◌==◌, if◌then◌else◌, strip_end,
}

-- `count` is the length of the list.
pub record Reader : Type 0 where
  pub lines : List Bytes
  pub capacity : ℕ
  pub eof : Bool

unfoldable pub stdin_reader_init : Reader
stdin_reader_init = record { lines = []; capacity = 16; eof = false }

unfoldable pub stdin_reader_push : Reader → Bytes → Reader
stdin_reader_push sr line = record sr {
  lines = sr.lines ++ line ∷ [];
  capacity = if leb sr.capacity (length sr.lines) then sr.capacity * 2 else sr.capacity;
}

-- The first line, behind which the others move up.
unfoldable pub pop_line : Reader → List Bytes → Reader × Option Bytes
pop_line sr [] = (sr, none)
pop_line sr (line ∷ lines) = (record sr { lines = lines }, some line)

unfoldable pub stdin_reader_pop : Reader → Reader × Option Bytes
unfolding pop_line
stdin_reader_pop sr = pop_line sr sr.lines

unfoldable pub is_end : ℕ → Bool
is_end c = c == b'\n' || c == b'\r'

-- Whether the last character of the buffer ends a line.
unfoldable pub ends_line : Bytes → Bool
ends_line [] = false
ends_line (c ∷ []) = is_end c
ends_line (c ∷ d ∷ s) = ends_line (d ∷ s)

-- A line that is not empty is pushed.
unfoldable pub push_line : Reader → Bytes → Reader
push_line sr [] = sr
push_line sr (c ∷ s) = stdin_reader_push sr (c ∷ s)

-- A round of the thread's loop, on its buffer and the reader.
unfoldable pub read_chunk : Bytes → Bytes × Reader → Bytes × Reader
read_chunk chunk (buf, sr) =
    let buf' = buf ++ chunk in
    if ends_line buf' then ([], push_line sr (strip_end is_end buf')) else (buf', sr)

unfoldable pub read_chunks : List Bytes → Bytes × Reader → Bytes × Reader
read_chunks [] st = st
read_chunks (chunk ∷ chunks) st = read_chunks chunks (read_chunk chunk st)

-- At the end of the input the buffer is freed.
unfoldable pub stdin_reader_thread : List Bytes → Reader → Reader
stdin_reader_thread chunks sr = record (read_chunks chunks ([], sr)).1 { eof = true }
