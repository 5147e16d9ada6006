-- ===== src/Main.antt =====
-- The process (main.c): the reader's thread and the main thread, which share the queue of lines. A
-- step is what runs under the queue's mutex, with what its thread does around it.
pub mod Order
mod Tests
use cqjs.Prelude.{ℕ, Bool, true, false, none, some, List, [], ◌∷◌, ◌++◌, length, Bytes, ◌≡◌}
use cqjs.Json.{Sent}
use cqjs.Env.{EnvManager, Platform}
use cqjs.Server.{Parsed, Outcome, handle_request}
use cqjs.Stdin.{Reader, read_chunk, stdin_reader_pop}

-- The pieces that `fgets` is yet to read, the buffer of the reader's thread, the queue, the environments,
-- and what was sent, the oldest first.
pub record Process {ℓ} (S : Type ℓ) : Type ℓ where
  pub input : List Bytes
  pub buffer : Bytes
  pub reader : Reader
  pub manager : EnvManager S
  pub sent : List Sent

module _ {ℓ} {S : Type ℓ} where
  -- The reader's thread reads a piece.
  unfoldable pub read_next : Process S → Bytes → List Bytes → Process S
  read_next s chunk rest =
      let read = read_chunk chunk (s.buffer, s.reader) in
      record s { input = rest; buffer = read.0; reader = read.1 }

  -- It ends at the end of the input.
  unfoldable pub close_input : Process S → Process S
  close_input s = record s { reader = record s.reader { eof = true } }

  -- The main thread handled the line that it popped.
  unfoldable pub handled : Process S → Reader → Outcome S → Process S
  handled s reader o = record s { reader = reader; manager = o.manager; sent = s.sent ++ o.sent }

  -- `is_eof`, and nothing is left to read.
  abbrev pub IsFinished : Process S → Type 0
  IsFinished s = (s.input ≡ []) × (s.reader.eof ≡ true) × (s.reader.lines ≡ [])

  module _ (platforms : ℕ → Platform S) (parse : Bytes → Parsed) (fresh : ℕ → ℕ) where
    -- From one state to another, with the lines that are handled on the way, in order. `fresh n` is the
    -- address for a node that is allocated with n of them to go, and `platforms n` what the platform
    -- answers then.
    pub data Runs : Process S → List Bytes → Process S → Type ℓ where
      stays : {s : Process S} → Runs s [] s
      reads :
          {s s' : Process S} {ls : List Bytes} (chunk : Bytes) (rest : List Bytes)
          → s.input ≡ chunk ∷ rest
          → Runs (read_next s chunk rest) ls s'
          → Runs s ls s'
      closes :
          {s s' : Process S} {ls : List Bytes}
          → s.input ≡ []
          → Runs (close_input s) ls s'
          → Runs s ls s'
      handles :
          {s s' : Process S} {ls : List Bytes} (reader : Reader) (line : Bytes)
          → stdin_reader_pop s.reader ≡ (reader, some line)
          → (handle_request (platforms (length ls)) parse (fresh (length ls)) s.manager line).exited
            ≡ false
          → Runs
              (handled s reader
                (handle_request (platforms (length ls)) parse (fresh (length ls)) s.manager line))
              ls
              s'
          → Runs s (line ∷ ls) s'
