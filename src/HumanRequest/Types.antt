-- ===== src/HumanRequest/Types.antt =====
-- apps/xira/internal/humanrequest/types.go: the records that the store keeps, and the errors of
-- store.go. A `time.Time` is a number of nanoseconds with 0 for the zero time, a pointer is an
-- `Option`, and a string type has a constructor for each constant and `other` for the rest.
use xira.Shared.{ℕ, String, Bool, true, false, List, Option, ◌==◌}

pub data RequestKind : Type 0 where
  freeform approval : RequestKind
  other : String → RequestKind

pub data RequestStatus : Type 0 where
  unset pending resolved failed : RequestStatus
  other : String → RequestStatus

abbrev pub status_eq : RequestStatus → RequestStatus → Bool
status_eq RequestStatus.unset RequestStatus.unset = true
status_eq RequestStatus.pending RequestStatus.pending = true
status_eq RequestStatus.resolved RequestStatus.resolved = true
status_eq RequestStatus.failed RequestStatus.failed = true
status_eq (RequestStatus.other a) (RequestStatus.other b) = a == b
status_eq _ _ = false

-- The responder's type stays text: `normalize_responder_policy` works on its letters.
abbrev pub responder_current_sender : String
responder_current_sender = "current_sender"

abbrev pub responder_owner : String
responder_owner = "owner"

pub record ResponderPolicy : Type 0 where
  pub responder_type : String
  pub entrypoint_id : String
  pub sender_id : String
  pub sender_id_type : String

pub data DeliveryStatus : Type 0 where
  unset not_required pending sent failed : DeliveryStatus

pub record DeliveryState : Type 0 where
  pub status : DeliveryStatus
  pub message_id : String
  pub attempts : ℕ
  pub last_error : String
  pub last_attempt : Option ℕ
  pub delivered_at : Option ℕ

pub record DeliveryAttempt : Type 0 where
  pub message_id : String
  pub error : String
  pub attempted_at : ℕ

pub data ResumeStatus : Type 0 where
  unset waiting_response pending running completed failed : ResumeStatus

pub record ResumeState : Type 0 where
  pub status : ResumeStatus
  pub attempts : ℕ
  pub last_error : String
  pub started_at : Option ℕ
  pub completed_at : Option ℕ

pub data ResponseKind : Type 0 where
  approve deny cancel answer : ResponseKind
  other : String → ResponseKind

abbrev pub kind_eq : ResponseKind → ResponseKind → Bool
kind_eq ResponseKind.approve ResponseKind.approve = true
kind_eq ResponseKind.deny ResponseKind.deny = true
kind_eq ResponseKind.cancel ResponseKind.cancel = true
kind_eq ResponseKind.answer ResponseKind.answer = true
kind_eq (ResponseKind.other a) (ResponseKind.other b) = a == b
kind_eq _ _ = false

pub record HumanOption : Type 0 where
  pub id : String
  pub label : String

pub record HumanResponse : Type 0 where
  pub id : String
  pub request_id : String
  pub kind : ResponseKind
  pub actor : String
  pub actor_id_type : String
  pub entrypoint_id : String
  pub delivery_message_id : String
  pub message : String
  pub idempotency_key : String
  pub created_at : ℕ

pub record AuditRecord : Type 0 where
  pub time : ℕ
  pub actor : String
  pub action : String
  pub from_status : RequestStatus
  pub to_status : RequestStatus
  pub signal : Option ResponseKind
  pub message : String

pub record HumanRequest : Type 0 where
  pub id : String
  pub workspace_id : String
  pub workspace_key : String
  pub run_id : String
  pub agent_id : String
  pub session_id : String
  pub tool_call_id : String
  pub source : String
  pub kind : RequestKind
  pub status : RequestStatus
  pub question : String
  pub options : List HumanOption
  pub dedupe_key : String
  pub responder : ResponderPolicy
  pub correlation_token : String
  pub delivery : DeliveryState
  pub resume : ResumeState
  pub expires_at : Option ℕ
  pub chat_key : String
  pub created_at : ℕ
  pub resolved_at : Option ℕ
  pub response : Option HumanResponse
  pub metadata : List (String × String)
  pub audit : List AuditRecord

pub record HumanResponseEnvelope : Type 0 where
  pub workspace_key : String
  pub request_id : String
  pub correlation_token : String
  pub entrypoint_id : String
  pub sender_id : String
  pub sender_id_type : String
  pub sender_identities : List (String × String)
  pub delivery_message_id : String
  pub kind : ResponseKind
  pub message : String
  pub idempotency_key : String
  pub resolved_at : ℕ

pub record CreateRequest : Type 0 where
  pub id : String
  pub workspace_id : String
  pub workspace_key : String
  pub run_id : String
  pub agent_id : String
  pub session_id : String
  pub tool_call_id : String
  pub source : String
  pub kind : RequestKind
  pub question : String
  pub options : List HumanOption
  pub dedupe_key : String
  pub responder : ResponderPolicy
  pub correlation_token : String
  pub delivery_required : Bool
  pub expires_at : Option ℕ
  pub chat_key : String
  pub created_at : ℕ
  pub metadata : List (String × String)

pub record ResolveRequest : Type 0 where
  pub workspace_key : String
  pub request_id : String
  pub kind : ResponseKind
  pub actor : String
  pub message : String
  pub idempotency_key : String
  pub resolved_at : ℕ

pub record ListQuery : Type 0 where
  pub workspace_key : String
  pub status : RequestStatus
  pub chat_key : String

-- The sentinel errors that callers test for, a canceled context, and a file operation that failed.
pub data Error : Type 0 where
  validation not_found conflict expired canceled io : Error
