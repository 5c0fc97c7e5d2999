-- ===== src/HumanRequest/Operations.antt =====
-- The operations on one stored request: `Resolve`, `ResolveExact`, `Get` (store.go), and those of
-- apps/xira/internal/humanrequest/interaction_store.go.
use xira.Shared.{
  ℕ, String, Bool, true, false, not, List, [], ◌∷◌, Option, none, some, ◌==◌, ◌+◌, if◌then◌else◌,
  select,
}
use xira.Shared.Strings.{trim}
use xira.Shared.Result.{Result, ok, err, guard}
use xira.Shared.Exec.{pure, lift, ◌>>=◌, ◌>>◌}
use xira.HumanRequest.Types.{
  RequestStatus, DeliveryAttempt, ResumeStatus, HumanRequest, HumanResponseEnvelope, ResolveRequest,
  ListQuery, Error,
}
use xira.HumanRequest.Validate.{validate_path_id, validate_workspace_key, validate_response_kind}
use xira.HumanRequest.Disk.{
  Env, Disk, Op, check_ctx, load_request, write_request, write_response, list_locked,
}
use xira.HumanRequest.Store.{or_now}
use xira.HumanRequest.Transitions.{
  Edit, unchanged, write, respond, apply_resolve, apply_delivery_attempt,
  apply_terminal_delivery_failure, apply_resume_claim, apply_resume_finish,
  recover_interrupted_resume,
}

-- The checks that every operation on one request begins with.
unfoldable pub check_call : Env → String → String → Op (Unit {0})
check_call e ws id = do
  lift (check_ctx e)
  lift (validate_workspace_key ws)
  lift (validate_path_id id)

-- The request as it is after the edit, and whether it was written.
unfoldable pub save : Env → HumanRequest → Edit → Op (HumanRequest × Bool)
save e req unchanged = pure (req, false)
save e req (write r) = do write_request e r; pure (r, true)
save e req (respond response r) = do
  write_response e r.workspace_key response
  write_request e r
  pure (r, true)

-- Load a request, decide what to do with it, and write what was decided.
unfoldable pub edit_request :
    Env → String → String → (HumanRequest → Result Error Edit) → Op (HumanRequest × Bool)
edit_request e ws id decide = do
  req ← load_request e ws id
  edit ← lift (decide req)
  save e req edit

-- `resolve`; `none` for a call of `Resolve`.
unfoldable pub resolve_as : Env → ResolveRequest → Option HumanResponseEnvelope → Op HumanRequest
resolve_as e input exact = do
  check_call e input.workspace_key input.request_id
  lift (validate_response_kind input.kind)
  done ← edit_request e input.workspace_key input.request_id (apply_resolve e input exact)
  pure done.0

unfoldable pub resolve : Env → ResolveRequest → Op HumanRequest
unfolding resolve_as
resolve e input = resolve_as e input none

abbrev pub resolve_request_of : HumanResponseEnvelope → ResolveRequest
resolve_request_of x = record {
  workspace_key = x.workspace_key;
  request_id = x.request_id;
  kind = x.kind;
  actor = x.sender_id;
  message = x.message;
  idempotency_key = x.idempotency_key;
  resolved_at = x.resolved_at;
}

unfoldable pub resolve_exact : Env → HumanResponseEnvelope → Op HumanRequest
unfolding resolve_as
resolve_exact e x = resolve_as e (resolve_request_of x) (some x)

unfoldable pub get : Env → String → String → Op HumanRequest
get e ws id = do check_call e ws id; load_request e ws id

unfoldable pub written : Result Error HumanRequest → Result Error Edit
written (ok r) = ok (write r)
written (err x) = err x

unfoldable pub record_delivery : Env → String → String → DeliveryAttempt → Op HumanRequest
unfolding written
record_delivery e ws id attempt = do
  check_call e ws id
  done ←
      edit_request e ws id
        (λ req. written (apply_delivery_attempt req attempt (or_now e.now attempt.attempted_at)))
  pure done.0

unfoldable pub fail_delivery : Env → String → String → DeliveryAttempt → Op HumanRequest
unfolding written
fail_delivery e ws id attempt = do
  check_call e ws id
  done ← edit_request e ws id (λ req.
      written (apply_terminal_delivery_failure req attempt (or_now e.now attempt.attempted_at)))
  pure done.0

-- The request, and whether this call claimed the resume.
unfoldable pub claim_resume : Env → String → String → ℕ → Op (HumanRequest × Bool)
claim_resume e ws id started_at = do
  check_call e ws id
  edit_request e ws id (apply_resume_claim (or_now e.now started_at))

unfoldable pub finish_resume : Env → String → String → String → ℕ → Op HumanRequest
finish_resume e ws id failure finished_at = do
  check_call e ws id
  done ← edit_request e ws id (apply_resume_finish failure (or_now e.now finished_at))
  pure done.0

unfoldable pub complete_resume : Env → String → String → ℕ → Op HumanRequest
unfolding finish_resume
complete_resume e ws id completed_at = finish_resume e ws id "" completed_at

unfoldable pub fail_resume : Env → String → String → String → ℕ → Op HumanRequest
unfolding finish_resume
fail_resume e ws id reason failed_at = do
  lift (guard (not (trim reason == "")) Error.validation)
  finish_resume e ws id (trim reason) failed_at

-- `resumeNeedsRetry`
unfoldable pub resume_needs_retry : ResumeStatus → Bool
resume_needs_retry ResumeStatus.pending = true
resume_needs_retry ResumeStatus.failed = true
resume_needs_retry _ = false

abbrev pub resolved_in : String → ListQuery
resolved_in ws = record { workspace_key = ws; status = RequestStatus.resolved; chat_key = "" }

unfoldable pub list_resumable : Env → String → Op (List HumanRequest)
list_resumable e ws = do
  lift (check_ctx e)
  lift (validate_workspace_key ws)
  resolved ← list_locked e (resolved_in ws)
  pure (select (λ r. resume_needs_retry r.resume.status) resolved)

-- The disk, the number of requests recovered, and the number of failures.
abbrev pub Recovery : Type 0
Recovery = Disk × ℕ × ℕ

unfoldable pub counted : Result Error (Unit {0}) → Disk → Recovery
counted (ok _) d = (d, 1, 0)
counted (err _) d = (d, 0, 1)

unfoldable pub persist : Env → Option HumanRequest → Disk → Recovery
persist e none d = (d, 0, 0)
persist e (some r) d = let (result, d') = write_request e r d in counted result d'

-- One round of `recoverInterruptedRequests`: a failed write is counted and passed over.
unfoldable pub recover_one : Env → ℕ → HumanRequest → Disk → Recovery
unfolding persist counted
recover_one e t req d = persist e (recover_interrupted_resume req t) d

-- The loop, at its `i`-th round; a context that is canceled then ends it.
unfoldable pub recover_requests : Env → ℕ → ℕ → List HumanRequest → Disk → Recovery
recover_requests e t i [] d = (d, 0, 0)
recover_requests e t i (req ∷ rest) d =
    let (d', recovered, failures) = recover_one e t req d in
    let (d'', more_recovered, more_failures) = recover_requests e t (i + 1) rest d' in
    if e.canceled_in_round i
    then (d, 0, 1)
    else (d'', recovered + more_recovered, failures + more_failures)

-- The number recovered and the number of failures that are joined into the error.
unfoldable pub recover_listed : Env → ℕ → List HumanRequest → Op (ℕ × ℕ)
recover_listed e t rs d =
    let (d', recovered, failures) = recover_requests e t 0 rs d in (ok (recovered, failures), d')

unfoldable pub recover_interrupted_resumes : Env → String → ℕ → Op (ℕ × ℕ)
recover_interrupted_resumes e ws recovered_at = do
  lift (check_ctx e)
  lift (validate_workspace_key ws)
  resolved ← list_locked e (resolved_in ws)
  recover_listed e (or_now e.now recovered_at) resolved
