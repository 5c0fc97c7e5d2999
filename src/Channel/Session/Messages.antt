-- ===== src/Channel/Session/Messages.antt =====
-- The messages of a turn: which runs it makes, and what it leaves in the queue.
use mathlib.Core.Path.{subst}
use xira.Shared.{
  arith, ℕ, zero, suc, ◌≡◌, refl, Option, none, some, List, [], ◌∷◌, ◌++◌, String, ap, ◌∙◌,
  append-nil, append_assoc, sym, some_inj,
}
use xira.Channel.ChatKey.{ChatKey}
use xira.Channel.Steering.{try_dequeue}
use xira.Channel.Session.{
  taken, Turn, World, RunResult, emit, cancel_children, cleared, ChatKeySessionConfig, next_message,
  loop, repeated, ran, run_turn, ended, begun, concluded, deferred, replied, failed, steered,
}
use xira.Channel.Session.Effects.{
  collect, collect-append, collect-ending, deferred-queue, IsQuiet, collect-cleared, messages_run,
  messages_in, message_of, arrivals_of,
}

-- Every message is run, or waits in the queue.
abbrev IsKept : List String → Turn → Type 0
IsKept all t = messages_run t.effects ++ t.queue ≡ all ++ messages_in t.effects

abbrev IsKeptWith : List String → String → Turn → Type 0
IsKeptWith all msg t = messages_run t.effects ++ msg ∷ t.queue ≡ all ++ messages_in t.effects

move :
    (l : List String) (msg : String) (a q all i : List String)
    → l ++ msg ∷ q ≡ all ++ i
    → (l ++ msg ∷ []) ++ (q ++ a) ≡ all ++ (i ++ a)
move l msg a q all i h =
    append_assoc l (msg ∷ []) (q ++ a)
    ∙ sym (append_assoc l (msg ∷ q) a)
    ∙ ap (λ (x : List String). x ++ a) h
    ∙ append_assoc all i a

ran-IsKept :
    (all : List String) (cfg : ChatKeySessionConfig) (w : World) (msg : String) (t : Turn)
    → IsKeptWith all msg t
    → IsKept all (ran cfg w msg t)
unfolding ran messages_run messages_in collect
ran-IsKept all cfg w msg t h = rw (collect-append message_of t.effects) (
    rw (collect-append arrivals_of t.effects) (
      rw (append-nil (w.run_agent t.round msg t.registry).arrivals)
        (move (messages_run t.effects) msg _ t.queue all (messages_in t.effects) h)))

taken-queue :
    (cfg : ChatKeySessionConfig) (key : ChatKey) (t : Turn) (queue : List String) (m : String)
    (t' : Turn)
    → taken cfg key t (try_dequeue queue) ≡ some (m, t')
    → (q : List String) × (queue ≡ m ∷ q) × (cleared cfg key (record t { queue = q }) ≡ t')
unfolding try_dequeue
taken-queue cfg key t [] m t' h = grind arith
taken-queue cfg key t (n ∷ q) m t' h =
    let e : (n, cleared cfg key (record t { queue = q })) ≡ (m, t') = some_inj h in
    (
      q,
      ap (λ (x : String). x ∷ q) (ap (λ (p : String × Turn). p.0) e),
      ap (λ (p : String × Turn). p.1) e,
    )

-- What repeats a run: the oldest message of the queue.
pub next_message-queue :
    (cfg : ChatKeySessionConfig) (key : ChatKey) (r : RunResult) (t : Turn) (m : String) (t' : Turn)
    → next_message cfg key r t ≡ some (m, t')
    → (q : List String) × (t.queue ≡ m ∷ q) × (cleared cfg key (record t { queue = q }) ≡ t')
unfolding next_message
next_message-queue cfg key (replied a) t m t' h = grind arith
next_message-queue cfg key (failed a) t m t' h = grind arith
next_message-queue cfg key steered t m t' h = taken-queue cfg key t t.queue m t' h

cleared-IsKept :
    (all : List String) (cfg : ChatKeySessionConfig) (key : ChatKey) (t : Turn) (m : String)
    (q : List String)
    → IsKept all t
    → t.queue ≡ m ∷ q
    → IsKeptWith all m (cleared cfg key (record t { queue = q }))
unfolding cleared cancel_children messages_run messages_in
cleared-IsKept all cfg key t m q h e =
    rw (collect-cleared message_of cfg key (record t { queue = q }) (λ l. refl) refl refl) (
      rw (collect-cleared arrivals_of cfg key (record t { queue = q }) (λ l. refl) refl refl)
        (ap (λ (x : List String). messages_run t.effects ++ x) (sym e) ∙ h))

next-IsKept :
    (all : List String) (cfg : ChatKeySessionConfig) (key : ChatKey) (r : RunResult) (t : Turn)
    (m : String) (t' : Turn)
    → IsKept all t
    → next_message cfg key r t ≡ some (m, t')
    → IsKeptWith all m t'
next-IsKept all cfg key r t m t' h q =
    let (rest, e, f) = next_message-queue cfg key r t m t' q in
    subst (IsKeptWith all m) f (cleared-IsKept all cfg key t m rest h e)

-- A property of the loop's states: `Before` each run with its message, `After` each run.
module _ (Before : String → Turn → Type 0) (After : Turn → Type 0) (cfg : ChatKeySessionConfig)
    (w : World) (key : ChatKey)
    (ran_holds : (msg : String) (t : Turn) → Before msg t → After (ran cfg w msg t))
    (next_holds : (r : RunResult) (t : Turn) (m : String) (t' : Turn)
      → After t
      → next_message cfg key r t ≡ some (m, t')
      → Before m t') where
  repeated-After :
      (o : Option (String × Turn)) (r r' : RunResult) (t t' : Turn)
      (again : String → Turn → Option (RunResult × Turn))
      → next_message cfg key r t ≡ o
      → After t
      → ((m : String) (u : Turn) → Before m u → again m u ≡ some (r', t') → After t')
      → repeated o (r, t) again ≡ some (r', t')
      → After t'
  repeated-After none r r' t t' again q a h e =
      subst After (ap (λ (p : RunResult × Turn). p.1) (some_inj e)) a
  repeated-After (some (m, u)) r r' t t' again q a h e = h m u (next_holds r t m u a q) e

  pub loop-After :
      (fuel : ℕ) (msg : String) (t : Turn) (r : RunResult) (t' : Turn)
      → Before msg t
      → loop fuel cfg w key msg t ≡ some (r, t')
      → After t'
  unfolding loop
  loop-After zero msg t r t' b e = grind arith
  loop-After (suc fuel) msg t r t' b e =
      repeated-After
        (next_message cfg key (w.run_agent t.round msg t.registry).result (ran cfg w msg t))
        (w.run_agent t.round msg t.registry).result r (ran cfg w msg t) t' (loop fuel cfg w key)
        refl (ran_holds msg t b) (λ m u c f. loop-After fuel m u r t' c f) e

-- A turn that ends has run its loop, and then does what `concluded` and `deferred` say.
pub run_turn-loop :
    (fuel : ℕ) (cfg : ChatKeySessionConfig) (w : World) (key : ChatKey) (msg : String)
    (queue : List String) (t : Turn)
    → run_turn fuel cfg w key msg queue ≡ some t
    → (r : RunResult) × (t' : Turn) × (loop fuel cfg w key msg (begun queue) ≡ some (r, t'))
      × (deferred cfg key (concluded cfg w r).0 (emit (concluded cfg w r).1 t') ≡ t)
unfolding run_turn
run_turn-loop fuel cfg w key msg queue t e = go (loop fuel cfg w key msg (begun queue)) refl e
  where
    go :
        (o : Option (RunResult × Turn))
        → loop fuel cfg w key msg (begun queue) ≡ o
        → ended cfg w key o ≡ some t
        → (r : RunResult) × (t' : Turn) × (loop fuel cfg w key msg (begun queue) ≡ some (r, t'))
          × (deferred cfg key (concluded cfg w r).0 (emit (concluded cfg w r).1 t') ≡ t)
    go none q h = grind arith
    go (some (r, t')) q h = (r, t', q, some_inj h)

IsQuiet-message_of : IsQuiet message_of
IsQuiet-message_of = record {
  cancels = λ l. refl;
  resets_spawn = refl;
  reports = λ r. refl;
  gives = λ r. refl;
  ends_turn = refl;
  stops_chat = refl;
}

IsQuiet-arrivals_of : IsQuiet arrivals_of
IsQuiet-arrivals_of = record {
  cancels = λ l. refl;
  resets_spawn = refl;
  reports = λ r. refl;
  gives = λ r. refl;
  ends_turn = refl;
  stops_chat = refl;
}

-- The end of a turn neither runs a message nor takes one in.
concluded-IsKept :
    (all : List String) (cfg : ChatKeySessionConfig) (w : World) (key : ChatKey) (r : RunResult)
    (t : Turn)
    → IsKept all t
    → IsKept all (deferred cfg key (concluded cfg w r).0 (emit (concluded cfg w r).1 t))
unfolding messages_run messages_in
concluded-IsKept all cfg w key r t h =
    rw (collect-ending message_of cfg w key r t IsQuiet-message_of (λ s. refl) refl refl) (
      rw (collect-ending arrivals_of cfg w key r t IsQuiet-arrivals_of (λ s. refl) refl refl) (
        ap (λ (q : List String). collect message_of t.effects ++ q) (deferred-queue cfg key _ _)
        ∙ h))

-- A turn runs its message, then those that waited and those that came in, in order; what it has not
-- run when it ends is in the queue.
pub messages-run_turn :
    (fuel : ℕ) (cfg : ChatKeySessionConfig) (w : World) (key : ChatKey) (msg : String)
    (queue : List String) (t : Turn)
    → run_turn fuel cfg w key msg queue ≡ some t
    → messages_run t.effects ++ t.queue ≡ msg ∷ queue ++ messages_in t.effects
unfolding messages_run messages_in
messages-run_turn fuel cfg w key msg queue t h =
    let (r, t', q, e) = run_turn-loop fuel cfg w key msg queue t h in
    let kept : IsKept (msg ∷ queue) t' =
      loop-After (IsKeptWith (msg ∷ queue)) (IsKept (msg ∷ queue)) cfg w key
        (λ m u b. ran-IsKept (msg ∷ queue) cfg w m u b)
        (λ a u m u' b c. next-IsKept (msg ∷ queue) cfg key a u m u' b c) fuel msg (begun queue) r t'
        (ap (λ (x : List String). msg ∷ x) (sym (append-nil queue))) q in
    subst (IsKept (msg ∷ queue)) e (concluded-IsKept (msg ∷ queue) cfg w key r t' kept)
