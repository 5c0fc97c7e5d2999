-- ===== src/Channel/Events.antt =====
-- apps/xira/internal/runtime/message_bus.go: the events of a turn. The fields that every event has
-- stand in `Event`, those of its own in `Body`.
use xira.Shared.{ℕ, String}

pub data AgentTurnKind : Type 0 where
  flow agent : AgentTurnKind
  other : String → AgentTurnKind

pub record HumanRequested : Type 0 where
  pub question : String
  pub request_id : String
  pub responder_type : String
  pub delivery_status : String
  pub signal_kind : String

pub data Body : Type 0 where
  agent_turn_started : AgentTurnKind → Body
  agent_turn_completed : AgentTurnKind → String → Body
  agent_turn_failed : AgentTurnKind → String → Body
  agent_turn_canceled : AgentTurnKind → String → Body
  human_requested : HumanRequested → Body
  human_responded : String → Body
  assistant_status : String → Body
  tool_called : String → Body
  tool_result : String → Body
  assistant_final : ℕ → Body

pub record Event : Type 0 where
  pub message_id : String
  pub agent_turn_id : String
  pub parent_agent_turn_id : String
  pub timestamp : ℕ
  pub body : Body

-- `Kind`
unfoldable pub kind : Body → String
kind (agent_turn_started k) = "agent_turn.started"
kind (agent_turn_completed k s) = "agent_turn.completed"
kind (agent_turn_failed k e) = "agent_turn.failed"
kind (agent_turn_canceled k r) = "agent_turn.canceled"
kind (human_requested r) = "human.requested"
kind (human_responded r) = "human.responded"
kind (assistant_status t) = "assistant.status"
kind (tool_called n) = "tool.called"
kind (tool_result n) = "tool.result"
kind (assistant_final n) = "assistant.final"

-- `Priority`: 0 is `PriorityDroppable`, 1 is `PriorityCritical`.
unfoldable pub priority : Body → ℕ
priority b = elim b [ assistant_status t ↦ 0 | tool_called n ↦ 0 | tool_result n ↦ 0 | _ ↦ 1 ]
