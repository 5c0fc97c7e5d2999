-- ===== src/Flow/Run.antt =====
-- apps/xira/internal/flow/types.go: the state of a run, and what an executor returns for a step
-- (kernel.go). A `time.Time` is a number, with 0 for the zero time; a pointer is an `Option`. The
-- numbers of Go's `any` are exact for the integers and the bits of the value for `float64`.
use xira.Shared.{ℕ, String, Bool, List, Option}
use xira.Shared.Dict.{Dict}
use xira.Shared.Int.{ℤ}

pub data RunStatus : Type 0 where
  pending running waiting_human waiting_signal recoverable failed canceled completed : RunStatus
  other : String → RunStatus

pub data StepStatus : Type 0 where
  unset pending running waiting_human waiting skipped failed recoverable completed : StepStatus
  other : String → StepStatus

mutual
  -- A value of Go's `any` as YAML gives it: `opaque` is anything else, as it prints.
  pub data Value : Type 0 where
    nil : Value
    text : String → Value
    flag : Bool → Value
    int int64 : ℤ → Value
    float64 : ℕ → Value
    object : Entries → Value
    opaque : String → Value

  pub data Entries : Type 0 where
    none_left : Entries
    entry : String → Value → Entries → Entries

pub record ArtifactRef : Type 0 where
  pub path : String
  pub content_type : String

pub record OutputRef : Type 0 where
  pub artifact : String
  pub artifacts : List String
  pub value : Value
  pub summary : String

pub record StepState : Type 0 where
  pub status : StepStatus
  pub started_at : Option ℕ
  pub completed_at : Option ℕ
  pub attempts : ℕ
  pub agent_run_id : String
  pub human_request_ids : List String
  pub interrupt : Option Entries
  pub signal : String
  pub outputs : Dict String OutputRef
  pub artifacts : List ArtifactRef
  pub error : String

-- Go's zero value of a step's state: what a missing key of `Steps` reads as.
abbrev pub no_state : StepState
no_state = record {
  status = StepStatus.unset;
  started_at = Option.none;
  completed_at = Option.none;
  attempts = 0;
  agent_run_id = "";
  human_request_ids = List.[];
  interrupt = Option.none;
  signal = "";
  outputs = List.[];
  artifacts = List.[];
  error = "";
}

pub record MentionTarget : Type 0 where
  pub key : String
  pub id : String
  pub id_type : String
  pub name : String

pub data AddressTarget : Type 0 where
  agent owner : AddressTarget
  other : String → AddressTarget

pub record InboundContext : Type 0 where
  pub channel : String
  pub entrypoint_id : String
  pub account : String
  pub channel_app_id : String
  pub bot_id : String
  pub chat_id : String
  pub chat_type : String
  pub chat_name : String
  pub topic_id : String
  pub space_id : String
  pub space_type : String
  pub sender_id : String
  pub sender_id_type : String
  pub sender_name : String
  pub message_id : String
  pub message_type : String
  pub original_content : String
  pub mentioned : Bool
  pub mention_targets : List MentionTarget
  pub addressed_to : List AddressTarget
  pub reply_to_message_id : String
  pub reply_to_sender_id : String
  pub raw : Dict String String

pub record Run : Type 0 where
  pub schema_version : String
  pub id : String
  pub flow_id : String
  pub flow_version : String
  pub status : RunStatus
  pub current_step_id : String
  pub entrypoint_id : String
  pub input : Dict String String
  pub context : Option InboundContext
  pub steps : Dict String StepState
  pub pending_signals : List String
  pub pending_human_requests : List String
  pub artifacts : List ArtifactRef
  pub events_ref : String
  pub created_at : ℕ
  pub updated_at : ℕ

-- A nil slice or map of the result is `none`: it leaves what the step's state has.
pub record StepExecutionResult : Type 0 where
  pub status : StepStatus
  pub agent_run_id : String
  pub human_request_ids : Option (List String)
  pub outputs : Option (Dict String OutputRef)
  pub artifacts : Option (List ArtifactRef)
  pub interrupt : Option Entries
  pub error : String

pub record ResolvedHumanRequest : Type 0 where
  pub id : String
  pub source : String
  pub kind : String
  pub status : String
  pub response_kind : String
  pub response_message : String

-- The errors, by what the caller can tell apart.
pub data FlowError : Type 0 where
  validation canceled not_found io conflict completed_step unresolvable still_pending unconfigured :
      FlowError
