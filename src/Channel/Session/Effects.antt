-- ===== src/Channel/Session/Effects.antt =====
-- What is read off the effects of a turn.
use xira.Shared.{
  ℕ, not, Bool-cases, ◌==◌, ◌&&◌, if◌then◌else◌, Bool, true, false, ◌≡◌, refl, List, [], ◌∷◌, ◌++◌,
  String, ◌∙◌, append-nil, append_assoc, inl, inr, sym,
}
use xira.Shared.Strings.{trim}
use xira.Channel.ChatKey.{ChatKey}
use xira.Channel.Children.{registered}
use xira.Channel.Session.{
  Effect, Turn, emit, when, cancel_children, cleared, ChatKeySessionConfig, World, RunResult,
  concluded, deferred, release, runs, resets_chat, resets_spawn, interjected, completes, forgets,
  sends_final,
}

module _ {A : Type 0} where
  unfoldable pub collect : (Effect → List A) → List Effect → List A
  collect f [] = []
  collect f (e ∷ es) = f e ++ collect f es

  pub collect-append :
      (f : Effect → List A) (es fs : List Effect)
      → collect f (es ++ fs) ≡ collect f es ++ collect f fs
  unfolding collect
  collect-append f [] fs = refl
  collect-append f (e ∷ es) fs =
      rw (collect-append f es fs) (sym (append_assoc (f e) (collect f es) (collect f fs)))

  pub collect-when :
      (f : Effect → List A) (b : Bool) (e : Effect) → f e ≡ [] → collect f (when b e) ≡ []
  unfolding collect
  collect-when f true e h = rw h refl
  collect-when f false e h = refl

  -- Effects that a reading does not see leave what it reads.
  pub collect-emit :
      (f : Effect → List A) (es : List Effect) (t : Turn)
      → collect f es ≡ []
      → collect f (emit es t).effects ≡ collect f t.effects
  collect-emit f es t h = collect-append f t.effects es ∙ (rw h (append-nil (collect f t.effects)))

  pub collect-quiet :
      (f : Effect → List A) (es fs : List Effect)
      → collect f es ≡ []
      → collect f fs ≡ []
      → collect f (es ++ fs) ≡ []
  collect-quiet f es fs h k = collect-append f es fs ∙ (rw h k)

  pub collect-cleared :
      (f : Effect → List A) (cfg : ChatKeySessionConfig) (key : ChatKey) (t : Turn)
      → ((tokens : List ℕ) → f (Effect.cancels tokens) ≡ [])
      → f Effect.resets_chat ≡ []
      → f Effect.resets_spawn ≡ []
      → collect f (cleared cfg key t).effects ≡ collect f t.effects
  unfolding cleared cancel_children collect
  collect-cleared f cfg key t h i j =
      collect-emit f _ (cancel_children key t) (
        collect-quiet f (when (not cfg.on_turn_result) resets_chat)
          (when cfg.spawn_resetter resets_spawn)
          (collect-when f (not cfg.on_turn_result) resets_chat i)
          (collect-when f cfg.spawn_resetter resets_spawn j))
      ∙ collect-emit f _ t (rw (h _) refl)

  -- What ends a turn, but for the release of the dedupe slot.
  pub record IsQuiet (f : Effect → List A) : Type 0 where
    pub cancels : (tokens : List ℕ) → f (Effect.cancels tokens) ≡ []
    pub resets_spawn : f Effect.resets_spawn ≡ []
    pub reports : (r : RunResult) → f (Effect.reports r) ≡ []
    pub gives : (r : RunResult) → f (Effect.gives r) ≡ []
    pub ends_turn : f Effect.ends_turn ≡ []
    pub stops_chat : f Effect.stops_chat ≡ []

  collect-one : (f : Effect → List A) (e : Effect) → f e ≡ [] → collect f (e ∷ []) ≡ []
  unfolding collect
  collect-one f e h = rw h refl

  pub collect-unsuccessful :
      (f : Effect → List A) (cfg : ChatKeySessionConfig) (r : RunResult)
      → IsQuiet f
      → collect f
          (when cfg.on_run_error (Effect.reports r) ++ when cfg.on_turn_result (Effect.gives r))
        ≡ []
  collect-unsuccessful f cfg r q =
      collect-quiet f (when cfg.on_run_error (Effect.reports r))
        (when cfg.on_turn_result (Effect.gives r))
        (collect-when f cfg.on_run_error (Effect.reports r) (q.reports r))
        (collect-when f cfg.on_turn_result (Effect.gives r) (q.gives r))

  pub collect-concluded :
      (f : Effect → List A) (cfg : ChatKeySessionConfig) (w : World) (r : RunResult)
      → IsQuiet f
      → ((s : String) → f (Effect.sends_final s) ≡ [])
      → collect f (concluded cfg w r).1 ≡ []
  unfolding concluded collect
  collect-concluded f cfg w (RunResult.replied r) q h = elim (Bool-cases cfg.on_turn_result) [
    | inl y ↦ rw y (collect-one f _ (q.gives (RunResult.replied r)))
    | inr n ↦ rw n (elim (Bool-cases (trim r.final_response == "")) [
      | inl s ↦ rw s refl
      | inr s ↦ rw s (collect-one f _ (h r.final_response))
    ])
  ]
  collect-concluded f cfg w (RunResult.failed e) q h =
      collect-unsuccessful f cfg (RunResult.failed e) q
  collect-concluded f cfg w RunResult.steered q h = collect-unsuccessful f cfg RunResult.steered q

  -- Of what is deferred, a quiet reading sees the release alone.
  pub collect-deferred :
      (f : Effect → List A) (cfg : ChatKeySessionConfig) (key : ChatKey) (b : Bool) (t : Turn)
      → IsQuiet f
      → collect f (deferred cfg key b t).effects ≡ collect f t.effects ++ collect f (release cfg b)
  unfolding deferred cancel_children collect
  collect-deferred f cfg key b t q =
      collect-append f t1.effects (Effect.stops_chat ∷ release cfg b)
      ∙ (rw (collect-emit f (Effect.cancels tokens ∷ []) t0 (collect-one f _ (q.cancels tokens))) (
          rw
            (collect-emit f es t (
              collect-quiet f _ _ (collect-when f cfg.on_turn_end Effect.ends_turn q.ends_turn)
                (collect-when f cfg.spawn_resetter Effect.resets_spawn q.resets_spawn)))
            (rw q.stops_chat refl)))
    where
      es : List Effect
      es = when cfg.on_turn_end Effect.ends_turn ++ when cfg.spawn_resetter Effect.resets_spawn

      t0 : Turn
      t0 = emit es t

      tokens : List ℕ
      tokens = registered key t.registry

      t1 : Turn
      t1 = emit (Effect.cancels tokens ∷ []) t0

  collect-release :
      (f : Effect → List A) (cfg : ChatKeySessionConfig) (b : Bool)
      → f Effect.completes ≡ []
      → f Effect.forgets ≡ []
      → collect f (release cfg b) ≡ []
  unfolding release
  collect-release f cfg b c g = elim (Bool-cases (not b && cfg.dedupe_forget)) [
    | inl y ↦ rw y (collect-one f Effect.forgets g)
    | inr n ↦ rw n (collect-when f cfg.dedupe_complete Effect.completes c)
  ]

  pub collect-ending :
      (f : Effect → List A) (cfg : ChatKeySessionConfig) (w : World) (key : ChatKey) (r : RunResult)
      (t : Turn)
      → IsQuiet f
      → ((s : String) → f (Effect.sends_final s) ≡ [])
      → f Effect.completes ≡ []
      → f Effect.forgets ≡ []
      → collect f (deferred cfg key (concluded cfg w r).0 (emit (concluded cfg w r).1 t)).effects
        ≡ collect f t.effects
  collect-ending f cfg w key r t q h c g =
      collect-deferred f cfg key (concluded cfg w r).0 (emit (concluded cfg w r).1 t) q
      ∙ (rw (collect-release f cfg (concluded cfg w r).0 c g)
          (append-nil _ ∙ collect-emit f (concluded cfg w r).1 t (collect-concluded f cfg w r q h)))

pub deferred-queue :
    (cfg : ChatKeySessionConfig) (key : ChatKey) (b : Bool) (t : Turn)
    → (deferred cfg key b t).queue ≡ t.queue
unfolding deferred cancel_children
deferred-queue cfg key b t = refl

abbrev pub message_of : Effect → List String
message_of e = elim e [ runs m b ↦ m ∷ [] | _ ↦ [] ]

-- The messages of the runs, in order.
unfoldable pub messages_run : List Effect → List String
unfolding collect
messages_run es = collect message_of es

abbrev pub arrivals_of : Effect → List String
arrivals_of e = elim e [ interjected ms ↦ ms | _ ↦ [] ]

-- The messages that came in during the runs, in order.
unfoldable pub messages_in : List Effect → List String
unfolding collect
messages_in es = collect arrivals_of es

abbrev pub release_of : Effect → List Effect
release_of e = elim e [ completes ↦ completes ∷ [] | forgets ↦ forgets ∷ [] | _ ↦ [] ]

-- The releases of the dedupe slot.
unfoldable pub releases : List Effect → List Effect
unfolding collect
releases es = collect release_of es

-- The final texts that are sent and arrive.
abbrev pub sent_of : World → Effect → List String
sent_of w e = elim e [ sends_final s ↦ if w.send_fails s then [] else s ∷ [] | _ ↦ [] ]

unfoldable pub texts_sent : World → List Effect → List String
unfolding collect
texts_sent w es = collect (sent_of w) es
