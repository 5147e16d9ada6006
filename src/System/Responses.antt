-- ===== src/System/Responses.antt =====
-- What the main thread sends does not depend on the threads of the environments, but for what the
-- platform answers to it.
use cqjs.Prelude.{ℕ, false, List, [], ◌∷◌, ◌++◌, length, Bytes, ◌≡◌, refl, sym, ap, ◌∙◌}
use cqjs.Dispatch.{Tracker}
use cqjs.Env.{EnvManager, Platform}
use cqjs.Server.{Parsed, handle_request, serve}
use cqjs.Server.Alike.{Alike, env_ids-change}
use cqjs.Server.Agreed.{handle_request-Agrees}
use cqjs.Eval.{Engine, World, Sent, handle_one, env_process_jobs}
use cqjs.Queue.{Queue}
use cqjs.System.{
  System, Act, texts, line, thread, world_of, put, worked, Runs, stays, handles, takes, works,
}

-- What was sent for the lines.
abbrev pub said : List Act → List Sent
said [] = []
said (line text sent ∷ acts) = sent ++ said acts
said (thread id sent ∷ acts) = said acts

module _ {ℓ} {S : Type ℓ} where
  worked-Alike :
      (s : System S) (id : Bytes) (w : World (S × Tracker)) (q : Queue) (mgr : EnvManager S)
      → Alike s.manager mgr
      → Alike (worked s id w q).manager mgr
  worked-Alike s id w q mgr alike = record {
    same = env_ids-change (put w q) (λ e. refl) s.manager.environments id ∙ Alike.same alike;
  }

  module _ (platforms : ℕ → Platform S) (parse : Bytes → Parsed) (fresh : ℕ → ℕ) where
    -- The main thread sends what it sends when it handles the lines alone, and the same environments are
    -- left, from any manager with the same environments.
    pub record IsAlone (mgr : EnvManager S) (acts : List Act) (s : System S) : Type 0 where
      pub responses : said acts ≡ (serve platforms parse fresh mgr (texts acts)).1
      pub left : Alike s.manager (serve platforms parse fresh mgr (texts acts)).0

    silent :
        {mgr : EnvManager S} {acts : List Act} {s : System S} (id : Bytes) (sent : List Sent)
        → IsAlone mgr acts s
        → IsAlone mgr (thread id sent ∷ acts) s
    silent id sent a = record { responses = a.responses; left = a.left }

    module _ {V F : Type ℓ} (engine : Engine (S × Tracker) V F) where
      -- However the threads interleave, what the main thread sends, and which environments there are,
      -- are as when the lines are handled one by one without any other thread, with the same answers of
      -- the platform to each line, from any manager with the same environments in the same order.
      pub Runs-IsAlone :
          {s s' : System S} {acts : List Act} (mgr : EnvManager S)
          → Alike s.manager mgr
          → Runs engine platforms parse s acts s'
          → IsAlone mgr acts s'
      unfolding serve
      Runs-IsAlone mgr alike stays = record { responses = refl; left = alike }
      Runs-IsAlone {s} {acts = line text sent ∷ acts} mgr alike (handles text' p free goes run) =
          let p' = fresh (length (texts acts)) in
          let platform = platforms (length (texts acts)) in
          let same = handle_request-Agrees alike platform parse p p' text in
          let next = handle_request platform parse p' mgr text in
          let rest = Runs-IsAlone next.manager same.alike run in
          let goes' : next.exited ≡ false = sym same.same_exit ∙ goes in
          record {
            responses =
                ap (λ l. l ++ said acts) same.same_sent
                ∙ ap (λ l. next.sent ++ l) rest.responses
                ∙ rw goes' refl;
            left = rw goes' rest.left;
          }
      Runs-IsAlone {s} mgr alike (takes id e req q out there took run) = silent id _ (
          Runs-IsAlone mgr
            (worked-Alike s id (handle_one engine out req (world_of s e)) q mgr alike) run)
      Runs-IsAlone {s} mgr alike (works id e waiting there run) = silent id _ (
          Runs-IsAlone mgr
            (worked-Alike s id (env_process_jobs engine waiting (world_of s e)) e.requests mgr
              alike)
            run)
