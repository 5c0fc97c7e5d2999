-- ===== src/Runtime/AgentTurn.antt =====
-- apps/xira/internal/runtime/agent_turn.go: the states of a turn and the moves between them.
pub mod Order
use xira.Shared.{String, Bool, true, false, if◌then◌else◌, ◌&&◌, Option, none, some, ◌==◌}

pub data AgentTurnStatus : Type 0 where
  requested running waiting_human completed failed canceled timeout : AgentTurnStatus
  other : String → AgentTurnStatus

pub record TransitionError : Type 0 where
  pub from : AgentTurnStatus
  pub to : AgentTurnStatus

-- `IsTerminal`
unfoldable pub is_terminal : AgentTurnStatus → Bool
is_terminal s = elim s [
  | completed ↦ true
  | failed ↦ true
  | canceled ↦ true
  | timeout ↦ true
  | _ ↦ false
]

-- Go's `==` on two statuses.
unfoldable pub same_status : AgentTurnStatus → AgentTurnStatus → Bool
same_status requested t = elim t [ requested ↦ true | _ ↦ false ]
same_status running t = elim t [ running ↦ true | _ ↦ false ]
same_status waiting_human t = elim t [ waiting_human ↦ true | _ ↦ false ]
same_status completed t = elim t [ completed ↦ true | _ ↦ false ]
same_status failed t = elim t [ failed ↦ true | _ ↦ false ]
same_status canceled t = elim t [ canceled ↦ true | _ ↦ false ]
same_status timeout t = elim t [ timeout ↦ true | _ ↦ false ]
same_status (other s) t = elim t [ other r ↦ s == r | _ ↦ false ]

-- The cases of the `switch`.
unfoldable pub is_listed : AgentTurnStatus → AgentTurnStatus → Bool
is_listed requested t = elim t [
  | running ↦ true
  | failed ↦ true
  | canceled ↦ true
  | timeout ↦ true
  | _ ↦ false
]
is_listed running t = elim t [
  | waiting_human ↦ true
  | completed ↦ true
  | failed ↦ true
  | timeout ↦ true
  | canceled ↦ true
  | _ ↦ false
]
is_listed waiting_human t = elim t [
  | running ↦ true
  | completed ↦ true
  | failed ↦ true
  | canceled ↦ true
  | timeout ↦ true
  | _ ↦ false
]
is_listed completed t = false
is_listed failed t = false
is_listed canceled t = false
is_listed timeout t = false
is_listed (other s) t = false

-- `IsValidTransition`; `none` is Go's nil.
unfoldable pub is_valid_transition : AgentTurnStatus → AgentTurnStatus → Option TransitionError
unfolding is_terminal same_status is_listed
is_valid_transition from to =
    let refused : Option TransitionError = some (record { from = from; to = to }) in
    if same_status from to && is_terminal to
    then none
    else (if is_terminal from then refused else (if is_listed from to then none else refused))
