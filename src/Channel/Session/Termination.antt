-- ===== src/Channel/Session/Termination.antt =====
-- The loop of a turn ends when messages stop coming in.
use xira.Shared.{
  arith, ℕ, zero, suc, ◌+◌, ◌≤◌, ◌≡◌, refl, Option, none, some, List, [], ◌++◌, String, ap, ◌∙◌,
  append-nil, sym, length,
}
use xira.Channel.ChatKey.{ChatKey}
use xira.Channel.Children.{ChildCancelRegistry}
use xira.Channel.Session.{
  Turn, World, RunResult, cleared, ChatKeySessionConfig, next_message, loop, repeated, ran,
  run_turn, ended, begun, cancel_children, concluded, deferred, emit,
}
use xira.Channel.Session.Messages.{next_message-queue}

module _ (cfg : ChatKeySessionConfig) (w : World) (key : ChatKey) where
  abbrev Ends : String → Turn → Type 0
  Ends msg t = (fuel : ℕ) × (p : RunResult × Turn) × (loop fuel cfg w key msg t ≡ some p)

  repeated-Ends :
      (o : Option (String × Turn)) (r : RunResult) (t : Turn)
      → ((m : String) (t' : Turn) → o ≡ some (m, t') → Ends m t')
      → (fuel : ℕ) × (p : RunResult × Turn) × (repeated o (r, t) (loop fuel cfg w key) ≡ some p)
  repeated-Ends none r t h = (zero, (r, t), refl)
  repeated-Ends (some (m, t')) r t h = h m t' refl

  -- One run of the agent, and what repeats it.
  loop-Ends :
      (msg : String) (t : Turn)
      → ((m : String) (t' : Turn)
          → next_message cfg key (w.run_agent t.round msg t.registry).result (ran cfg w msg t)
            ≡ some (m, t')
          → Ends m t')
      → Ends msg t
  unfolding loop
  loop-Ends msg t h =
      let (fuel, p, e) =
        repeated-Ends
          (next_message cfg key (w.run_agent t.round msg t.registry).result (ran cfg w msg t))
          (w.run_agent t.round msg t.registry).result (ran cfg w msg t) h in
      (suc fuel, p, e)

  next-round :
      (msg : String) (t : Turn) (m : String) (t' : Turn)
      → next_message cfg key (w.run_agent t.round msg t.registry).result (ran cfg w msg t)
        ≡ some (m, t')
      → (t'.round ≡ suc t.round)
        × (suc (length t'.queue)
            ≡ length (t.queue ++ (w.run_agent t.round msg t.registry).arrivals))
  unfolding ran cleared cancel_children
  next-round msg t m t' h =
      let (q, e, f) =
        next_message-queue cfg key (w.run_agent t.round msg t.registry).result (ran cfg w msg t) m
          t' h in
      (
        ap (λ (u : Turn). u.round) (sym f),
        ap (λ (u : Turn). suc (length u.queue)) (sym f) ∙ sym (ap length e),
      )

  module _ (last : ℕ)
      (silent : (n : ℕ) (msg : String) (r : ChildCancelRegistry)
        → last ≤ n
        → (w.run_agent n msg r).arrivals ≡ []) where
    shrunk :
        (msg : String) (t : Turn) (m : String) (t' : Turn)
        → last ≤ t.round
        → next_message cfg key (w.run_agent t.round msg t.registry).result (ran cfg w msg t)
          ≡ some (m, t')
        → suc (length t'.queue) ≡ length t.queue
    shrunk msg t m t' l h =
        (next-round msg t m t' h).1
        ∙ ap (λ (a : List String). length (t.queue ++ a)) (silent t.round msg t.registry l)
        ∙ ap length (append-nil t.queue)

    drained-Ends :
        (n : ℕ) (msg : String) (t : Turn) → length t.queue ≤ n → last ≤ t.round → Ends msg t
    drained-Ends zero msg t l r = loop-Ends msg t (λ m t' h.
        let s : suc (length t'.queue) ≡ length t.queue = shrunk msg t m t' r h in
        absurd (omega arith))
    drained-Ends (suc n) msg t l r = loop-Ends msg t (λ m t' h.
        let s : suc (length t'.queue) ≡ length t.queue = shrunk msg t m t' r h in
        let q : t'.round ≡ suc t.round = (next-round msg t m t' h).0 in
        drained-Ends n m t' (omega arith) (omega arith))

    coming-Ends : (k : ℕ) (msg : String) (t : Turn) → last ≤ t.round + k → Ends msg t
    coming-Ends zero msg t h = drained-Ends (length t.queue) msg t (omega arith) (omega arith)
    coming-Ends (suc k) msg t h = loop-Ends msg t (λ m t' e.
        let r : t'.round ≡ suc t.round = (next-round msg t m t' e).0 in
        coming-Ends k m t' (omega arith))

-- If no message comes in from some run on, the turn ends.
pub run_turn-ends :
    (cfg : ChatKeySessionConfig) (w : World) (key : ChatKey) (msg : String) (queue : List String)
    (last : ℕ)
    → ((n : ℕ) (m : String) (r : ChildCancelRegistry)
        → last ≤ n
        → (w.run_agent n m r).arrivals ≡ [])
    → (fuel : ℕ) × (t : Turn) × (run_turn fuel cfg w key msg queue ≡ some t)
unfolding run_turn
run_turn-ends cfg w key msg queue last silent =
    let (fuel, p, e) = coming-Ends cfg w key last silent last msg (begun queue) (omega arith) in
    (
      fuel,
      deferred cfg key (concluded cfg w p.0).0 (emit (concluded cfg w p.0).1 p.1),
      ap (ended cfg w key) e,
    )
