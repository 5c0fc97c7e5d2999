-- ===== src/Channel/Session/Ending.antt =====
-- The end of a turn: the release of its dedupe slot and what its children become.
use mathlib.Core.Path.{subst}
use xira.Shared.{
  arith, ℕ, Bool, true, false, not, ◌&&◌, ◌==◌, Bool-cases, ◌≡◌, refl, none, some, List, [], ◌∷◌,
  ◌++◌, String, ap, ◌∙◌, append-nil, if◌then◌else◌, inl, inr, ◌⊎◌,
}
use xira.Shared.Strings.{trim}
use xira.Shared.Dict
use xira.Channel.ChatKey.{ChatKey, key_eq, key_beq_iff}
use xira.Channel.Children.{registered, reset, or_empty}
use xira.Channel.Session.{
  Effect, Turn, World, RunResult, emit, ChatKeySessionConfig, next_message, ran, run_turn, begun,
  concluded, deferred, release, when, replied, failed, steered, completes, forgets,
}
use xira.Channel.Session.Effects.{
  collect, collect-cleared, collect-emit, collect-when, collect-concluded, collect-deferred,
  collect-unsuccessful, IsQuiet, releases, release_of, texts_sent, sent_of,
}
use xira.Channel.Session.Messages.{next_message-queue, loop-After, run_turn-loop}

-- Nothing is released and no final text is sent.
abbrev IsOpen : World → Turn → Type 0
IsOpen w t = (collect release_of t.effects ≡ []) × (collect (sent_of w) t.effects ≡ [])

ran-IsOpen :
    (cfg : ChatKeySessionConfig) (w : World) (msg : String) (t : Turn)
    → IsOpen w t
    → IsOpen w (ran cfg w msg t)
unfolding ran collect
ran-IsOpen cfg w msg t (h, i) =
    (collect-emit release_of _ t refl ∙ h, collect-emit (sent_of w) _ t refl ∙ i)

next-IsOpen :
    (cfg : ChatKeySessionConfig) (w : World) (key : ChatKey) (r : RunResult) (t : Turn) (m : String)
    (t' : Turn)
    → IsOpen w t
    → next_message cfg key r t ≡ some (m, t')
    → IsOpen w t'
next-IsOpen cfg w key r t m t' (h, i) e =
    let (q, f, g) = next_message-queue cfg key r t m t' e in
    subst (IsOpen w) g (
      collect-cleared release_of cfg key (record t { queue = q }) (λ l. refl) refl refl ∙ h,
      collect-cleared (sent_of w) cfg key (record t { queue = q }) (λ l. refl) refl refl ∙ i,
    )

IsQuiet-release_of : IsQuiet release_of
IsQuiet-release_of = record {
  cancels = λ l. refl;
  resets_spawn = refl;
  reports = λ r. refl;
  gives = λ r. refl;
  ends_turn = refl;
  stops_chat = refl;
}

IsQuiet-sent_of : (w : World) → IsQuiet (sent_of w)
IsQuiet-sent_of w = record {
  cancels = λ l. refl;
  resets_spawn = refl;
  reports = λ r. refl;
  gives = λ r. refl;
  ends_turn = refl;
  stops_chat = refl;
}

-- A conclusion that is no success sends nothing that arrives.
sent-concluded :
    (cfg : ChatKeySessionConfig) (w : World) (r : RunResult)
    → (concluded cfg w r).0 ≡ false
    → collect (sent_of w) (concluded cfg w r).1 ≡ []
unfolding concluded collect
sent-concluded cfg w (replied r) h = elim (Bool-cases cfg.on_turn_result) [
  | inl y ↦ rw y refl
  | inr n ↦ rw n (elim (Bool-cases (trim r.final_response == "")) [
    | inl y ↦ rw y refl
    | inr m ↦ rw m (let k : w.send_fails r.final_response ≡ true = ground arith in rw k refl)
  ])
]
sent-concluded cfg w (failed e) h =
    collect-unsuccessful (sent_of w) cfg (failed e) (IsQuiet-sent_of w)
sent-concluded cfg w steered h = collect-unsuccessful (sent_of w) cfg steered (IsQuiet-sent_of w)

sent-release :
    (cfg : ChatKeySessionConfig) (w : World) (b : Bool) → collect (sent_of w) (release cfg b) ≡ []
unfolding release collect
sent-release cfg w b = elim (Bool-cases (not b && cfg.dedupe_forget)) [
  | inl y ↦ rw y refl
  | inr n ↦ rw n (collect-when (sent_of w) cfg.dedupe_complete completes refl)
]

-- The release of a session whose callback completes the slot, if it has one.
abbrev pub completion : ChatKeySessionConfig → List Effect
completion cfg = if cfg.dedupe_complete then completes ∷ [] else []

collect-completion :
    (c : Bool) → collect release_of (when c completes) ≡ (if c then completes ∷ [] else [])
unfolding collect
collect-completion true = refl
collect-completion false = refl

release-forgets :
    (cfg : ChatKeySessionConfig) (b : Bool)
    → (collect release_of (release cfg b) ≡ completion cfg)
      ⊎ ((collect release_of (release cfg b) ≡ forgets ∷ [])
          × (b ≡ false)
          × (cfg.dedupe_forget ≡ true))
unfolding release collect
release-forgets cfg true = inl (collect-completion cfg.dedupe_complete)
release-forgets cfg false = elim (Bool-cases cfg.dedupe_forget) [
  | inl y ↦ rw y (inr (refl, refl, refl))
  | inr n ↦ rw n (inl (collect-completion cfg.dedupe_complete))
]

abbrev pub IsReleased : ChatKeySessionConfig → World → Turn → Type 0
unfolding releases texts_sent
IsReleased cfg w t =
    (releases t.effects ≡ completion cfg)
    ⊎ ((releases t.effects ≡ forgets ∷ [])
        × (texts_sent w t.effects ≡ [])
        × (cfg.dedupe_forget ≡ true))

concluded-IsReleased :
    (cfg : ChatKeySessionConfig) (w : World) (key : ChatKey) (r : RunResult) (t : Turn)
    → IsOpen w t
    → IsReleased cfg w (deferred cfg key (concluded cfg w r).0 (emit (concluded cfg w r).1 t))
unfolding releases texts_sent
concluded-IsReleased cfg w key r t (h, i) =
    let b : Bool = (concluded cfg w r).0 in
    let u : Turn = emit (concluded cfg w r).1 t in
    let released : collect release_of (deferred cfg key b u).effects
        ≡ collect release_of (release cfg b) =
      collect-deferred release_of cfg key b u IsQuiet-release_of
      ∙ ap (λ (l : List Effect). l ++ collect release_of (release cfg b))
          (collect-emit release_of (concluded cfg w r).1 t
              (collect-concluded release_of cfg w r IsQuiet-release_of (λ s. refl))
            ∙ h) in
    elim (release-forgets cfg b) [
      | inl y ↦ inl (released ∙ y)
      | inr (y, f, k) ↦ inr (
        released ∙ y,
        collect-deferred (sent_of w) cfg key b u (IsQuiet-sent_of w)
            ∙ (rw (sent-release cfg w b) (
                append-nil _
                ∙ collect-emit (sent_of w) (concluded cfg w r).1 t (sent-concluded cfg w r f)
                ∙ i)),
        k,
      )
    ]

-- A turn releases its dedupe slot once at most: it completes it, if the session has that callback,
-- or it forgets the message, so that it can come again. It forgets it only where the session has
-- that callback and no final text of the turn has arrived.
pub releases-run_turn :
    (fuel : ℕ) (cfg : ChatKeySessionConfig) (w : World) (key : ChatKey) (msg : String)
    (queue : List String) (t : Turn)
    → run_turn fuel cfg w key msg queue ≡ some t
    → (releases t.effects ≡ (if cfg.dedupe_complete then completes ∷ [] else []))
      ⊎ ((releases t.effects ≡ forgets ∷ [])
          × (texts_sent w t.effects ≡ [])
          × (cfg.dedupe_forget ≡ true))
unfolding releases texts_sent
releases-run_turn fuel cfg w key msg queue t h =
    let (r, t', q, e) = run_turn-loop fuel cfg w key msg queue t h in
    let o : IsOpen w t' =
      loop-After (λ m u. IsOpen w u) (IsOpen w) cfg w key (λ m u b. ran-IsOpen cfg w m u b)
        (λ a u m u' b f. next-IsOpen cfg w key a u m u' b f) fuel msg (begun queue) r t'
        (refl, refl) q in
    subst (IsReleased cfg w) e (concluded-IsReleased cfg w key r t' o)

removed :
    (key : ChatKey) (d : Dict.Dict ChatKey (List ℕ)) → Dict.lookup key (Dict.remove key d) ≡ none
removed key d = rw (Dict.lookup-remove key key d) (rw ((key_beq_iff key key).1 refl) refl)

-- When a turn ends, none of its children is registered.
registered-run_turn :
    (fuel : ℕ) (cfg : ChatKeySessionConfig) (w : World) (key : ChatKey) (msg : String)
    (queue : List String) (t : Turn)
    → run_turn fuel cfg w key msg queue ≡ some t
    → registered key t.registry ≡ []
unfolding registered reset deferred
registered-run_turn fuel cfg w key msg queue t h =
    let (r, t', q, e) = run_turn-loop fuel cfg w key msg queue t h in
    subst (λ u. registered key u.registry ≡ []) e (ap or_empty (removed key t'.registry.cancels))
