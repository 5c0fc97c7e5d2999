-- ===== src/HumanRequest/Transitions.antt =====
-- What one operation does to one request: the response of store.go, and the transition tables of
-- apps/xira/internal/humanrequest/interaction_store.go. A request is loaded before each is called,
-- so the tests for a nil request have no counterpart.
use Prim.Native.String.{◌++◌ as append}
use xira.Shared.{
  ℕ, String, Bool, true, false, not, ◌&&◌, [], ◌∷◌, ◌++◌, Option, none, some, ◌==◌, ◌+◌,
  if◌then◌else◌,
}
use xira.Shared.Strings.{trim}
use xira.Shared.Result.{Result, ok, err, guard, ◌>>=◌, ◌>>◌}
use xira.HumanRequest.Types.{
  RequestStatus, status_eq, DeliveryStatus, DeliveryAttempt, ResumeStatus, ResponseKind, kind_eq,
  HumanResponse, HumanRequest, HumanResponseEnvelope, ResolveRequest, Error,
}
use xira.HumanRequest.Validate.{validate_exact_response}
use xira.HumanRequest.Disk.{Env}
use xira.HumanRequest.Store.{or_now, audit_line}

-- What is to be written: nothing, the request, or a response and then the request.
pub data Edit : Type 0 where
  unchanged : Edit
  write : HumanRequest → Edit
  respond : HumanResponse → HumanRequest → Edit

-- `sameResponseRetry` past its test for a nil response.
unfoldable pub same_response :
    (String → String) → HumanResponse → ResolveRequest → Option HumanResponseEnvelope → Bool
same_response to_lower existing input exact =
    not (trim input.idempotency_key == "")
    && existing.idempotency_key == trim input.idempotency_key
    && kind_eq existing.kind input.kind
    && existing.actor == trim input.actor
    && existing.message == trim input.message
    && (elim exact [
      | none ↦ true
      | some x ↦
          existing.actor_id_type == to_lower (trim x.sender_id_type)
          && existing.entrypoint_id == trim x.entrypoint_id
          && existing.delivery_message_id == trim x.delivery_message_id
    ])

unfoldable pub same_response_retry :
    (String → String) → Option HumanResponse → ResolveRequest → Option HumanResponseEnvelope → Bool
unfolding same_response
same_response_retry to_lower none input exact = false
same_response_retry to_lower (some existing) input exact =
    same_response to_lower existing input exact

-- The response that `resolve` records.
unfoldable pub new_response :
    Env → HumanRequest → ResolveRequest → Option HumanResponseEnvelope → HumanResponse
new_response e req input exact = record {
  id = append "hrs_" e.fresh_id;
  request_id = req.id;
  kind = input.kind;
  actor = trim input.actor;
  actor_id_type = elim exact [ none ↦ "" | some x ↦ e.to_lower (trim x.sender_id_type) ];
  entrypoint_id = elim exact [ none ↦ "" | some x ↦ trim x.entrypoint_id ];
  delivery_message_id = elim exact [ none ↦ "" | some x ↦ trim x.delivery_message_id ];
  message = trim input.message;
  idempotency_key = trim input.idempotency_key;
  created_at = or_now e.now input.resolved_at;
}

-- A resume that waited for the response is now due.
unfoldable pub due : ResumeStatus → ResumeStatus
due ResumeStatus.waiting_response = ResumeStatus.pending
due s = s

unfoldable pub cleared : ResumeStatus → String → String
cleared ResumeStatus.waiting_response error = ""
cleared s error = error

-- The request that `resolve` writes.
unfoldable pub resolved_request : HumanRequest → HumanResponse → HumanRequest
unfolding due cleared
resolved_request req response = record req {
  status = RequestStatus.resolved;
  resolved_at = some response.created_at;
  response = some response;
  resume = record req.resume {
    status = due req.resume.status;
    last_error = cleared req.resume.status req.resume.last_error;
  };
  audit =
      req.audit
      ++ record {
        time = response.created_at;
        actor = response.actor;
        action = "human_request.resolved";
        from_status = RequestStatus.pending;
        to_status = RequestStatus.resolved;
        signal = some response.kind;
        message = response.message;
      }
        ∷ [];
}

unfoldable pub check_exact :
    Env → HumanRequest → Option HumanResponseEnvelope → ℕ → Result Error (Unit {0})
check_exact e req none now = ok tt
check_exact e req (some x) now = validate_exact_response e.to_lower req x now

-- The part of `resolve` between the load and the writes.
unfoldable pub apply_resolve :
    Env → ResolveRequest → Option HumanResponseEnvelope → HumanRequest → Result Error Edit
unfolding check_exact
apply_resolve e input exact req = do
  guard (not (kind_eq input.kind ResponseKind.answer && trim input.message == "")) Error.validation
  check_exact e req exact (or_now e.now input.resolved_at)
  if status_eq req.status RequestStatus.pending
      then ok (
          respond (new_response e req input exact)
            (resolved_request req (new_response e req input exact)))
      else if same_response_retry e.to_lower req.response input exact
      then ok unchanged
      else err Error.conflict

-- Whether a delivery may be tried.
unfoldable pub deliverable : DeliveryStatus → Bool
deliverable DeliveryStatus.pending = true
deliverable DeliveryStatus.failed = true
deliverable _ = false

-- The request after one attempt, by whether it carries an error.
unfoldable pub delivered_request : HumanRequest → String → ℕ → HumanRequest
delivered_request req message_id now = record req {
  delivery = record req.delivery {
    status = DeliveryStatus.sent;
    message_id = message_id;
    attempts = req.delivery.attempts + 1;
    last_error = "";
    last_attempt = some now;
    delivered_at = some now;
  };
  audit = req.audit ++ audit_line now "human_request.delivery_sent" "" ∷ [];
}

unfoldable pub undelivered_request : HumanRequest → String → ℕ → HumanRequest
undelivered_request req error now = record req {
  delivery = record req.delivery {
    status = DeliveryStatus.failed;
    attempts = req.delivery.attempts + 1;
    last_error = error;
    last_attempt = some now;
  };
  audit = req.audit ++ audit_line now "human_request.delivery_failed" error ∷ [];
}

unfoldable pub same_truth : Bool → Bool → Bool
same_truth true b = b
same_truth false b = not b

unfoldable pub apply_delivery_attempt :
    HumanRequest → DeliveryAttempt → ℕ → Result Error HumanRequest
unfolding same_truth deliverable
apply_delivery_attempt req attempt now = do
  let message_id = trim attempt.message_id
  let error = trim attempt.error
  guard (not (same_truth (message_id == "") (error == ""))) Error.validation
  guard (status_eq req.status RequestStatus.pending) Error.conflict
  guard (deliverable req.delivery.status) Error.conflict
  ok (
      if error == ""
      then delivered_request req message_id now
      else undelivered_request req error now)

-- What a delivery that is given up for good makes of the request.
unfoldable pub failed_request : HumanRequest → String → ℕ → HumanRequest
failed_request req error now = record req {
  status = RequestStatus.failed;
  resume = record {
    status = ResumeStatus.unset;
    attempts = 0;
    last_error = "";
    started_at = none;
    completed_at = none;
  };
  audit =
      req.audit
      ++ record (audit_line now "human_request.failed" error) {
        from_status = RequestStatus.pending;
        to_status = RequestStatus.failed;
      }
        ∷ [];
}

unfoldable pub apply_terminal_delivery_failure :
    HumanRequest → DeliveryAttempt → ℕ → Result Error HumanRequest
apply_terminal_delivery_failure req attempt now = do
  guard (status_eq req.status RequestStatus.pending) Error.conflict
  guard (not (trim attempt.error == "") && trim attempt.message_id == "") Error.validation
  tried ← apply_delivery_attempt req attempt now
  ok (failed_request tried (trim attempt.error) now)

unfoldable pub claimed_request : HumanRequest → ℕ → HumanRequest
claimed_request req t = record req {
  resume = record {
    status = ResumeStatus.running;
    attempts = req.resume.attempts + 1;
    last_error = "";
    started_at = some t;
    completed_at = none;
  };
  audit = req.audit ++ audit_line t "human_request.resume_started" "" ∷ [];
}

unfoldable pub claim_by : ResumeStatus → HumanRequest → ℕ → Result Error Edit
claim_by ResumeStatus.pending req t = ok (write (claimed_request req t))
claim_by ResumeStatus.failed req t = ok (write (claimed_request req t))
claim_by ResumeStatus.running req t = ok unchanged
claim_by ResumeStatus.completed req t = ok unchanged
claim_by _ req t = err Error.conflict

unfoldable pub is_some : Option HumanResponse → Bool
is_some none = false
is_some (some _) = true

unfoldable pub apply_resume_claim : ℕ → HumanRequest → Result Error Edit
unfolding claim_by is_some
apply_resume_claim t req = do
  guard (status_eq req.status RequestStatus.resolved && is_some req.response) Error.conflict
  claim_by req.resume.status req t

unfoldable pub completed_request : HumanRequest → ℕ → HumanRequest
completed_request req t = record req {
  resume = record req.resume {
    status = ResumeStatus.completed;
    last_error = "";
    completed_at = some t;
  };
  audit = req.audit ++ audit_line t "human_request.resume_completed" "" ∷ [];
}

-- A resume that failed, or that the process did not live to finish.
unfoldable pub stopped_request : HumanRequest → String → String → ℕ → HumanRequest
stopped_request req action reason t = record req {
  resume = record req.resume {
    status = ResumeStatus.failed;
    last_error = reason;
    completed_at = none;
  };
  audit = req.audit ++ audit_line t action reason ∷ [];
}

unfoldable pub finish_running : HumanRequest → String → ℕ → Edit
finish_running req failure t =
    if failure == ""
    then write (completed_request req t)
    else write (stopped_request req "human_request.resume_failed" failure t)

unfoldable pub finish_by : ResumeStatus → HumanRequest → String → ℕ → Result Error Edit
finish_by ResumeStatus.completed req failure t =
    if failure == "" then ok unchanged else err Error.conflict
finish_by ResumeStatus.running req failure t = ok (finish_running req failure t)
finish_by _ req failure t = err Error.conflict

unfoldable pub apply_resume_finish : String → ℕ → HumanRequest → Result Error Edit
unfolding finish_by finish_running
apply_resume_finish failure t req = finish_by req.resume.status req failure t

abbrev pub interrupted : String
interrupted = "resume interrupted before completion"

-- `recoverInterruptedResume`: the recovered request, if the resume was running.
unfoldable pub recover_by : ResumeStatus → HumanRequest → ℕ → Option HumanRequest
recover_by ResumeStatus.running req t =
    some (stopped_request req "human_request.resume_recovered" interrupted t)
recover_by _ req t = none

unfoldable pub recover_interrupted_resume : HumanRequest → ℕ → Option HumanRequest
unfolding recover_by
recover_interrupted_resume req t = recover_by req.resume.status req t
