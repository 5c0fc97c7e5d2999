-- ===== src/Channel/Session.antt =====
-- apps/xira/internal/channelrunner/progress/chatkey_session.go: one turn of a conversation, from its
-- message to the release of its dedupe slot. The runs of the agent and the sending of the final text
-- are the World's. A steered run is repeated on the next message of the queue, so the loop has fuel.
pub mod Effects
pub mod Ending
pub mod Messages
pub mod Termination
use xira.Shared.{
  ℕ, zero, suc, String, Bool, true, false, not, ◌&&◌, Option, none, some, List, [], ◌∷◌, ◌++◌, ◌==◌,
  if◌then◌else◌,
}
use xira.Shared.Strings.{trim}
use xira.Shared.Dict
use xira.Channel.ChatKey.{ChatKey, key_eq}
use xira.Channel.Steering.{SteeringQueue, try_dequeue}
use xira.Channel.Children.{ChildCancelRegistry, new_registry, cancel_all, registered, reset}

-- Which of the optional callbacks the channel has wired.
pub record ChatKeySessionConfig : Type 0 where
  pub dedupe_complete : Bool
  pub dedupe_forget : Bool
  pub spawn_resetter : Bool
  pub on_run_error : Bool
  pub on_turn_result : Bool
  pub on_raw_event : Bool
  pub on_turn_end : Bool

pub record TurnResponse : Type 0 where
  pub run_id : String
  pub status : String
  pub final_response : String

-- What `RunAgent` returns; `steered` is `ErrSteered`.
pub data RunResult : Type 0 where
  replied : TurnResponse → RunResult
  failed : String → RunResult
  steered : RunResult

-- A run of the agent: the messages that come in meanwhile, and the children it leaves.
pub record Ran : Type 0 where
  pub arrivals : List String
  pub registry : ChildCancelRegistry
  pub result : RunResult

pub record World : Type 0 where
  pub run_agent : ℕ → String → ChildCancelRegistry → Ran
  pub send_fails : String → Bool

-- What the turn does, in order. `runs` says whether the run has the event bus.
pub data Effect : Type 0 where
  runs : String → Bool → Effect
  interjected : List String → Effect
  cancels : List ℕ → Effect
  resets_chat : Effect
  resets_spawn : Effect
  reports : RunResult → Effect
  gives : RunResult → Effect
  sends_final : String → Effect
  ends_turn : Effect
  stops_chat : Effect
  completes : Effect
  forgets : Effect

pub record Turn : Type 0 where
  pub round : ℕ
  pub queue : SteeringQueue
  pub registry : ChildCancelRegistry
  pub effects : List Effect

abbrev pub emit : List Effect → Turn → Turn
emit es t = record t { effects = t.effects ++ es }

abbrev pub when : Bool → Effect → List Effect
when true e = e ∷ []
when false e = []

-- `childCancels.CancelAll(key)`
unfoldable pub cancel_children : ChatKey → Turn → Turn
unfolding cancel_all registered
cancel_children key t =
    emit (cancels (registered key t.registry) ∷ [])
      (record t { registry = (cancel_all key t.registry).1 })

-- One call of `RunAgent`.
unfoldable pub ran : ChatKeySessionConfig → World → String → Turn → Turn
ran cfg w msg t =
    let r = w.run_agent t.round msg t.registry in
    emit (runs msg (not cfg.on_turn_result && not cfg.on_raw_event) ∷ interjected r.arrivals ∷ [])
      (record t { round = suc t.round; queue = t.queue ++ r.arrivals; registry = r.registry })

-- What is cleared before a steered run is repeated.
unfoldable pub cleared : ChatKeySessionConfig → ChatKey → Turn → Turn
unfolding cancel_children
cleared cfg key t =
    emit (when (not cfg.on_turn_result) resets_chat ++ when cfg.spawn_resetter resets_spawn)
      (cancel_children key t)

abbrev pub taken :
    ChatKeySessionConfig → ChatKey → Turn → Option String × SteeringQueue → Option (String × Turn)
taken cfg key t (none, q) = none
taken cfg key t (some m, q) = some (m, cleared cfg key (record t { queue = q }))

-- The message to repeat the run on, if it was steered and one is waiting.
unfoldable pub next_message :
    ChatKeySessionConfig → ChatKey → RunResult → Turn → Option (String × Turn)
unfolding try_dequeue
next_message cfg key (replied r) t = none
next_message cfg key (failed e) t = none
next_message cfg key steered t = taken cfg key t (try_dequeue t.queue)

abbrev pub repeated :
    Option (String × Turn)
    → RunResult × Turn
    → (String → Turn → Option (RunResult × Turn))
    → Option (RunResult × Turn)
repeated none done again = some done
repeated (some (msg, t)) done again = again msg t

-- The loop of `runTurn` and of `runTurnStructured`.
unfoldable pub loop :
    ℕ → ChatKeySessionConfig → World → ChatKey → String → Turn → Option (RunResult × Turn)
unfolding ran next_message
loop zero cfg w key msg t = none
loop (suc fuel) cfg w key msg t =
    let result = (w.run_agent t.round msg t.registry).result in
    let after = ran cfg w msg t in
    repeated (next_message cfg key result after) (result, after) (loop fuel cfg w key)

-- What follows the loop: whether the turn has succeeded, and what it does.
unfoldable pub concluded : ChatKeySessionConfig → World → RunResult → Bool × List Effect
concluded cfg w (replied r) =
    if cfg.on_turn_result
    then (true, gives (replied r) ∷ [])
    else (if trim r.final_response == ""
        then (true, [])
        else (not (w.send_fails r.final_response), sends_final r.final_response ∷ []))
concluded cfg w (failed e) = (
  false,
  when cfg.on_run_error (reports (failed e)) ++ when cfg.on_turn_result (gives (failed e)),
)
concluded cfg w steered =
    (false, when cfg.on_run_error (reports steered) ++ when cfg.on_turn_result (gives steered))

-- The deferred release of the dedupe slot.
unfoldable pub release : ChatKeySessionConfig → Bool → List Effect
release cfg succeeded =
    if not succeeded && cfg.dedupe_forget then forgets ∷ [] else when cfg.dedupe_complete completes

-- The deferred calls, the last one first.
unfoldable pub deferred : ChatKeySessionConfig → ChatKey → Bool → Turn → Turn
unfolding cancel_children release
deferred cfg key succeeded t =
    let t1 =
      cancel_children key
        (emit (when cfg.on_turn_end ends_turn ++ when cfg.spawn_resetter resets_spawn) t) in
    emit (stops_chat ∷ release cfg succeeded) (record t1 { registry = reset key t1.registry })

abbrev pub begun : SteeringQueue → Turn
begun queue = record { round = 0; queue = queue; registry = new_registry; effects = [] }

unfoldable pub ended :
    ChatKeySessionConfig → World → ChatKey → Option (RunResult × Turn) → Option Turn
unfolding concluded deferred
ended cfg w key none = none
ended cfg w key (some (result, t)) =
    let c = concluded cfg w result in some (deferred cfg key c.0 (emit c.1 t))

-- `runTurn`, with `runTurnStructured` where the channel takes the result.
unfoldable pub run_turn :
    ℕ → ChatKeySessionConfig → World → ChatKey → String → SteeringQueue → Option Turn
unfolding loop ended
run_turn fuel cfg w key msg queue = ended cfg w key (loop fuel cfg w key msg (begun queue))
