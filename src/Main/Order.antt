-- ===== src/Main/Order.antt =====
-- Whatever the interleaving of the two threads, the lines are handled in the order of the input.
use cqjs.Prelude.{
  ℕ, Bool-cases, true, none, some, Option, List, [], ◌∷◌, ◌++◌, append_assoc, append-nil, length,
  Bytes, inl, inr, ◌≡◌, refl, sym, ap, ◌∙◌,
}
use cqjs.Env.{Platform}
use cqjs.Server.{Parsed, Outcome, handle_request, serve}
use cqjs.Stdin.{
  Reader, push_line, read_chunk, read_chunks, stdin_reader_push, stdin_reader_pop, pop_line,
  stdin_reader_thread, ends_line,
}
use cqjs.Main.{
  Process, read_next, close_input, handled, IsFinished, Runs, stays, reads, closes, handles,
}

-- One reader holds a line in front of those of another.
abbrev Ahead : Bytes → Reader → Reader → Type 0
Ahead line sr sr' = sr.lines ≡ line ∷ sr'.lines

push_line-Ahead :
    (line x : Bytes) (sr sr' : Reader)
    → Ahead line sr sr'
    → Ahead line (push_line sr x) (push_line sr' x)
unfolding push_line stdin_reader_push
push_line-Ahead line [] sr sr' h = h
push_line-Ahead line (c ∷ s) sr sr' h = ap (λ l. l ++ (c ∷ s) ∷ []) h

read_chunk-Ahead :
    (line chunk buf buf' : Bytes) (sr sr' : Reader)
    → buf ≡ buf'
    → Ahead line sr sr'
    → ((read_chunk chunk (buf, sr)).0 ≡ (read_chunk chunk (buf', sr')).0)
      × Ahead line (read_chunk chunk (buf, sr)).1 (read_chunk chunk (buf', sr')).1
unfolding read_chunk
read_chunk-Ahead line chunk buf buf' sr sr' same h =
    rw (← same) (elim (Bool-cases (ends_line (buf ++ chunk))) [
      | inl e ↦ rw e (refl, push_line-Ahead line _ sr sr' h)
      | inr e ↦ rw e (refl, h)
    ])

read_chunks-Ahead :
    (line : Bytes) (chunks : List Bytes) (buf buf' : Bytes) (sr sr' : Reader)
    → buf ≡ buf'
    → Ahead line sr sr'
    → Ahead line (read_chunks chunks (buf, sr)).1 (read_chunks chunks (buf', sr')).1
unfolding read_chunks
read_chunks-Ahead line [] buf buf' sr sr' same h = h
read_chunks-Ahead line (chunk ∷ chunks) buf buf' sr sr' same h =
    let (same', h') = read_chunk-Ahead line chunk buf buf' sr sr' same h in
    read_chunks-Ahead line chunks _ _ _ _ same' h'

pop-Ahead :
    (sr reader : Reader) (line : Bytes) (lines : List Bytes)
    → pop_line sr lines ≡ (reader, some line)
    → lines ≡ line ∷ reader.lines
unfolding pop_line
pop-Ahead sr reader line [] e = absurd (clash (ap (λ x. x.1) e))
  where
    clash : ◌≡◌ {A = Option Bytes} none (some line) → ⊥
    clash p = cc
pop-Ahead sr reader line (first ∷ lines) e =
    ap (λ l. l ∷ lines) (same (ap (λ x. x.1) e)) ∙ ap (λ x. line ∷ Reader.lines x.0) e
  where
    same : ◌≡◌ {A = Option Bytes} (some first) (some line) → first ≡ line
    same p = cc

module _ {ℓ} {S : Type ℓ} where
  -- The lines that are queued or will be.
  abbrev pub lines_to_come : Process S → List Bytes
  lines_to_come s = (read_chunks s.input (s.buffer, s.reader)).1.lines

  pub read_next-to_come :
      (s : Process S) (chunk : Bytes) (rest : List Bytes)
      → s.input ≡ chunk ∷ rest
      → lines_to_come s ≡ lines_to_come (read_next s chunk rest)
  unfolding read_next read_chunks
  read_next-to_come s chunk rest e = ap (λ i. (read_chunks i (s.buffer, s.reader)).1.lines) e

  pub close_input-to_come :
      (s : Process S) → s.input ≡ [] → lines_to_come s ≡ lines_to_come (close_input s)
  unfolding close_input read_chunks
  close_input-to_come s e =
      ap (λ i. (read_chunks i (s.buffer, s.reader)).1.lines) e
      ∙ sym (ap (λ i. (read_chunks i (s.buffer, record s.reader { eof = true })).1.lines) e)

  pub handled-to_come :
      (s : Process S) (reader : Reader) (line : Bytes) (o : Outcome S)
      → stdin_reader_pop s.reader ≡ (reader, some line)
      → lines_to_come s ≡ line ∷ lines_to_come (handled s reader o)
  unfolding handled stdin_reader_pop
  handled-to_come s reader line o popped =
      read_chunks-Ahead line s.input s.buffer s.buffer s.reader reader refl
        (pop-Ahead s.reader reader line s.reader.lines popped)

  module _ (platforms : ℕ → Platform S) (parse : Bytes → Parsed) (fresh : ℕ → ℕ) where
    Runs-to_come :
        {s s' : Process S} {ls : List Bytes}
        → Runs platforms parse fresh s ls s'
        → lines_to_come s ≡ ls ++ lines_to_come s'
    Runs-to_come stays = refl
    Runs-to_come {s} (reads chunk rest e run) = read_next-to_come s chunk rest e ∙ Runs-to_come run
    Runs-to_come {s} (closes e run) = close_input-to_come s e ∙ Runs-to_come run
    Runs-to_come {s} (handles reader line popped goes run) =
        handled-to_come s reader line _ popped ∙ ap (λ l. line ∷ l) (Runs-to_come run)

    Runs-serves :
        {s s' : Process S} {ls : List Bytes}
        → Runs platforms parse fresh s ls s'
        → (s'.manager ≡ (serve platforms parse fresh s.manager ls).0)
          × (s'.sent ≡ s.sent ++ (serve platforms parse fresh s.manager ls).1)
    unfolding serve read_next close_input handled
    Runs-serves {s} stays = (refl, sym (append-nil s.sent))
    Runs-serves (reads chunk rest e run) = Runs-serves run
    Runs-serves (closes e run) = Runs-serves run
    Runs-serves {s} {ls = line' ∷ ls} (handles reader line popped goes run) =
        let o = handle_request (platforms (length ls)) parse (fresh (length ls)) s.manager line in
        let (managed, sent) = Runs-serves run in
        rw goes (managed, sent ∙ append_assoc s.sent o.sent _)

    -- However the two threads interleave: when the input is at its end and the queue empty, and no
    -- line made the process exit, then the lines that were handled are those that the reader's thread
    -- pushes for the whole input, in order, and the environments and the responses are those of
    -- handling them one by one.
    pub Runs-serve :
        {s s' : Process S} {ls : List Bytes}
        → Runs platforms parse fresh s ls s'
        → s.buffer ≡ []
        → IsFinished s'
        → (ls ≡ (stdin_reader_thread s.input s.reader).lines)
          × (s'.manager ≡ (serve platforms parse fresh s.manager ls).0)
          × (s'.sent ≡ s.sent ++ (serve platforms parse fresh s.manager ls).1)
    unfolding stdin_reader_thread
    Runs-serve {s} {s'} {ls} run empty (at_end, closed, none_left) =
        let (managed, sent) = Runs-serves run in
        let last : lines_to_come s' ≡ [] =
          ap (λ i. (read_chunks i (s'.buffer, s'.reader)).1.lines) at_end
          ∙ (unfold read_chunks in none_left) in
        (
          sym (append-nil ls)
              ∙ ap (λ l. ls ++ l) (sym last)
              ∙ sym (Runs-to_come run)
              ∙ ap (λ b. (read_chunks s.input (b, s.reader)).1.lines) empty,
          managed,
          sent,
        )
