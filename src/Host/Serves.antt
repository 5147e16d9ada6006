-- ===== src/Host/Serves.antt =====
-- From the input to the responses, whatever the interleaving of all threads.
use cqjs.Prelude.{
  length, ℕ, List, [], ◌∷◌, ◌++◌, append_assoc, append-nil, Bytes, ◌≡◌, refl, sym, ap, ◌∙◌,
}
use cqjs.Dispatch.{Tracker}
use cqjs.Env.{Platform}
use cqjs.Env.Table.{IsValid}
use cqjs.Server.{Parsed, handle_request, serve}
use cqjs.Stdin.{read_chunks, stdin_reader_thread}
use cqjs.Eval.{Engine}
use cqjs.Main.{read_next, close_input, handled, IsFinished}
use cqjs.Main.Order.{lines_to_come, read_next-to_come, close_input-to_come, handled-to_come}
use cqjs.System.{texts, System, Act, line, thread, Runs}
use cqjs.System
use cqjs.System.Client.{Ids}
use cqjs.System.Waits.{Waits}
use cqjs.System.Order.{IsFollowed, Runs-IsFollowed}
use cqjs.System.Responses.{said, Runs-IsAlone}
use cqjs.Host.{Host, system_of, Executes, stays, reads, closes, handles, takes, works}

module _ {ℓ} {S V F : Type ℓ} (engine : Engine (S × Tracker) V F) (platforms : ℕ → Platform S)
    (parse : Bytes → Parsed) where
  -- The reader's thread does not concern the others.
  Executes-Runs :
      {h h' : Host S} {acts : List Act}
      → Executes engine platforms parse h acts h'
      → Runs engine platforms parse (system_of h) acts (system_of h')
  unfolding read_next close_input handled
  Executes-Runs stays = System.stays
  Executes-Runs (reads chunk rest e run) = Executes-Runs run
  Executes-Runs (closes e run) = Executes-Runs run
  Executes-Runs (handles reader text p popped free goes run) =
      System.handles text p free goes (Executes-Runs run)
  Executes-Runs (takes id e req q out there took run) =
      System.takes id e req q out there took (Executes-Runs run)
  Executes-Runs (works id e waiting there run) = System.works id e waiting there (Executes-Runs run)

  Executes-to_come :
      {h h' : Host S} {acts : List Act}
      → Executes engine platforms parse h acts h'
      → lines_to_come h.process ≡ texts acts ++ lines_to_come h'.process
  Executes-to_come stays = refl
  Executes-to_come {h} (reads chunk rest e run) =
      read_next-to_come h.process chunk rest e ∙ Executes-to_come run
  Executes-to_come {h} (closes e run) = close_input-to_come h.process e ∙ Executes-to_come run
  Executes-to_come {h} {acts = line text' sent' ∷ acts}
        (handles reader text p popped free goes run) =
      handled-to_come h.process reader text
        (handle_request (platforms (length (texts acts))) parse p h.process.manager text) popped
      ∙ ap (λ l. text ∷ l) (Executes-to_come run)
  Executes-to_come (takes id e req q out there took run) = Executes-to_come run
  Executes-to_come (works id e waiting there run) = Executes-to_come run

  Executes-sent :
      {h h' : Host S} {acts : List Act}
      → Executes engine platforms parse h acts h'
      → h'.process.sent ≡ h.process.sent ++ said acts
  unfolding read_next close_input handled
  Executes-sent {h} stays = sym (append-nil h.process.sent)
  Executes-sent (reads chunk rest e run) = Executes-sent run
  Executes-sent (closes e run) = Executes-sent run
  Executes-sent {h} (handles reader text p popped free goes run) =
      Executes-sent run ∙ append_assoc h.process.sent _ _
  Executes-sent (takes id e req q out there took run) = Executes-sent run
  Executes-sent (works id e waiting there run) = Executes-sent run

  -- The lines are those of the input, what is sent for them as when they are handled one by one without any
  -- other thread, and the answers of the environment `j` are to the oldest requests that are awaited.
  pub record Served (h : Host S) (acts : List Act) (h' : Host S) (fresh : ℕ → ℕ) (j : Bytes)
      (ids : Ids) : Type ℓ where
    pub lines : texts acts ≡ (stdin_reader_thread h.process.input h.process.reader).lines
    pub responses :
        h'.process.sent
        ≡ h.process.sent ++ (serve platforms parse fresh h.process.manager (texts acts)).1
    pub answers : IsFollowed parse j ids acts (system_of h')

  -- However the threads interleave: with a valid manager at first, when the input is at its end and the
  -- queue of lines empty, and no line made the process exit, then the lines that were handled are those
  -- that the reader's thread pushes for the whole input, in order; what the main thread sends is as when
  -- they are handled one by one without any other thread, with the same answers of the platform to each
  -- line; and every answer of an environment `j`, given what waits in its queue at first, is to the oldest
  -- request that is awaited of it, and what is still awaited waits in its queue.
  pub Executes-Served :
      {h h' : Host S} {acts : List Act} (fresh : ℕ → ℕ) (j : Bytes) (ids : Ids)
      → Executes engine platforms parse h acts h'
      → IsValid h.process.manager
      → h.process.buffer ≡ []
      → IsFinished h'.process
      → Waits h.process.manager j ids
      → Served h acts h' fresh j ids
  unfolding stdin_reader_thread
  Executes-Served {h} {h'} {acts} fresh j ids run v empty (at_end, closed, none_left) waits =
      let run' = Executes-Runs run in
      let alone =
        Runs-IsAlone platforms parse fresh engine h.process.manager (record { same = refl }) run' in
      let last : lines_to_come h'.process ≡ [] =
        ap (λ i. (read_chunks i (h'.process.buffer, h'.process.reader)).1.lines) at_end
        ∙ (unfold read_chunks in none_left) in
      record {
        lines =
            sym (append-nil (texts acts))
            ∙ ap (λ l. texts acts ++ l) (sym last)
            ∙ sym (Executes-to_come run)
            ∙ ap (λ b. (read_chunks h.process.input (b, h.process.reader)).1.lines) empty;
        responses = Executes-sent run ∙ ap (λ l. h.process.sent ++ l) alone.responses;
        answers = Runs-IsFollowed engine platforms parse j ids v waits run';
      }
