-- ===== src/Server/Serve.antt =====
-- The main thread over all lines of its input.
use cqjs.Prelude.{ℕ, ◌≤◌, List, [], ◌∷◌, length, length-append, Bytes, Bool-cases, inl, inr, arith}
use cqjs.Json.Answered.{answers, answers-append, answers-after_events}
use cqjs.Env.{EnvManager, Platform}
use cqjs.Env.Table.{IsValid}
use cqjs.Server.{Parsed, handle_request, serve}
use cqjs.Server.Answers.{Answered, Submitted, handle_request-Handled}

module _ {ℓ} {S : Type ℓ} (platforms : ℕ → Platform S) (parse : Bytes → Parsed)
    (fresh : ℕ → ℕ) where
  -- A line sends one response at most.
  sent-le :
      (platform : Platform S) {mgr : EnvManager S} (v : IsValid mgr) (p : ℕ) (line : Bytes)
      → length (answers (handle_request platform parse p mgr line).sent) ≤ 1
  sent-le platform v p line = elim (handle_request-Handled platform v p parse line).1 [
    | inl a ↦
        rw (Answered.sent a, answers-after_events (Answered.events a) (Answered.response a))
          (omega arith)
    | inr s ↦ rw (Submitted.silent s) (omega arith)
  ]

  -- From a valid manager, handling any lines leaves a valid manager, and sends at most one response for
  -- each line.
  pub serve-IsValid :
      (lines : List Bytes) {mgr : EnvManager S}
      → IsValid mgr
      → IsValid (serve platforms parse fresh mgr lines).0
        × (length (answers (serve platforms parse fresh mgr lines).1) ≤ length lines)
  unfolding serve
  serve-IsValid [] v = (v, omega arith)
  serve-IsValid (line ∷ lines) {mgr} v =
      let p = fresh (length lines) in
      let platform = platforms (length lines) in
      let o = handle_request platform parse p mgr line in
      let next = (handle_request-Handled platform v p parse line).0 in
      let one = sent-le platform v p line in
      let (valid, few) = serve-IsValid lines next in
      elim (Bool-cases o.exited) [
        | inl exits ↦ rw exits (next, omega arith)
        | inr goes ↦ rw goes (valid, rw (answers-append, length-append) (omega arith))
      ]
