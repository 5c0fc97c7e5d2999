-- ===== src/Runtime/AgentTurn/Order.antt =====
-- How the states of a turn are ordered, and the histories that the valid moves allow.
use xira.Shared.{
  ℕ, Bool, true, false, not, ◌&&◌, ◌||◌, if◌then◌else◌, ◌≡◌, ◌≤◌, ◌↔◌, refl, ap, ◌∙◌, sym, none,
  some, Option, arith, ltb, eqb,
}
use xira.Runtime.AgentTurn.{
  AgentTurnStatus, is_valid_transition, is_terminal, same_status, requested, running, waiting_human,
  completed, other, TransitionError,
}

-- 0 before the start, 1 while a turn is under way, 2 at its end, 3 for a status that is not one.
abbrev pub stage : AgentTurnStatus → ℕ
stage s = elim s [ requested ↦ 0 | running ↦ 1 | waiting_human ↦ 1 | other r ↦ 3 | _ ↦ 2 ]

-- The moves in terms of the stages: on by one stage, or to an end from anywhere before it, except
-- that what has not started cannot be completed; within the stage under way, between its two
-- states; and from an end to itself.
abbrev pub allows : AgentTurnStatus → AgentTurnStatus → Bool
allows s t =
    if eqb (stage s) (stage t)
    then (eqb (stage s) 1 && not (same_status s t)) || (eqb (stage s) 2 && same_status s t)
    else ltb (stage s) (stage t)
      && ltb (stage t) 3
      && not (same_status s requested && (same_status t completed || same_status t waiting_human))

accepted : Option TransitionError → Bool
accepted none = true
accepted (some e) = false

-- A move is valid just when the stages allow it.
pub is_valid_transition-allows :
    (from to : AgentTurnStatus) → (is_valid_transition from to ≡ none) ↔ (allows from to ≡ true)
unfolding is_valid_transition
is_valid_transition-allows from to = ground arith

-- A history of valid moves.
pub data History : AgentTurnStatus → AgentTurnStatus → Type 0 where
  here : {s : AgentTurnStatus} → History s s
  moved : {s t u : AgentTurnStatus} → is_valid_transition s t ≡ none → History t u → History s u

valid-terminal :
    (s t : AgentTurnStatus) → is_terminal s ≡ true → is_valid_transition s t ≡ none → s ≡ t
unfolding is_valid_transition
valid-terminal s t h v = ground arith

-- Along a history whose moves IsValidTransition all accepts, a terminal status is never left.
pub history-terminal : {s t : AgentTurnStatus} → is_terminal s ≡ true → History s t → s ≡ t
history-terminal h here = refl
history-terminal {s} h (moved {t = t} v rest) =
    let e : s ≡ t = valid-terminal s t h v in e ∙ history-terminal (ap is_terminal (sym e) ∙ h) rest

valid-stage : (s t : AgentTurnStatus) → is_valid_transition s t ≡ none → stage s ≤ stage t
unfolding is_valid_transition
valid-stage s t v = ground arith

-- A turn never goes back to an earlier stage: not to its request, nor from an end to work.
history-stage : {s t : AgentTurnStatus} → History s t → stage s ≤ stage t
history-stage here = omega arith
history-stage {s} {t} (moved {t = m} v rest) =
    let a : stage s ≤ stage m = valid-stage s m v in
    let b : stage m ≤ stage t = history-stage rest in omega arith
