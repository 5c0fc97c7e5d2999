-- ===== src/HumanRequest/Store.antt =====
-- The operations of apps/xira/internal/humanrequest/store.go. Each holds the store's mutex from its
-- first read to its last write, so an operation is one step from a disk to a disk.
use xira.Shared.{
  ℕ, String, Bool, ◌&&◌, ◌||◌, List, [], ◌∷◌, Option, none, some, ◌==◌, eqb, if◌then◌else◌,
}
use Prim.Native.String.{◌++◌ as append}
use xira.Shared.Strings.{trim}
use xira.Shared.Result.{ok}
use xira.Shared.Exec.{pure, lift, ◌>>=◌, ◌>>◌}
use xira.HumanRequest.Types.{
  RequestStatus, DeliveryStatus, ResumeStatus, HumanRequest, CreateRequest, ListQuery, AuditRecord,
}
use xira.HumanRequest.Validate.{validate_path_id, normalize_responder_policy, validate_create}
use xira.HumanRequest.Disk.{Env, Op, check_ctx, write_request, list_locked}

-- `if t.IsZero() { t = time.Now() }`
abbrev pub or_now : ℕ → ℕ → ℕ
or_now now t = if eqb t 0 then now else t

-- A timestamped audit line with no actor, states or signal.
abbrev pub audit_line : ℕ → String → String → AuditRecord
audit_line t action message = record {
  time = t;
  actor = "";
  action = action;
  from_status = RequestStatus.unset;
  to_status = RequestStatus.unset;
  signal = none;
  message = message;
}

-- The request that `Create` builds.
unfoldable pub new_request : Env → CreateRequest → HumanRequest
new_request e input =
    let now = or_now e.now input.created_at in
    let id = trim input.id in
    let token = trim input.correlation_token in
    record {
      id = if id == "" then append "hrq_" e.fresh_id else id;
      workspace_id = trim input.workspace_id;
      workspace_key = trim input.workspace_key;
      run_id = trim input.run_id;
      agent_id = trim input.agent_id;
      session_id = trim input.session_id;
      tool_call_id = trim input.tool_call_id;
      source = trim input.source;
      kind = input.kind;
      status = RequestStatus.pending;
      question = trim input.question;
      options = input.options;
      dedupe_key = trim input.dedupe_key;
      responder = normalize_responder_policy e.to_lower input.responder;
      correlation_token = if token == "" then e.fresh_token else token;
      delivery = record {
        status =
            if input.delivery_required then DeliveryStatus.pending else DeliveryStatus.not_required;
        message_id = "";
        attempts = 0;
        last_error = "";
        last_attempt = none;
        delivered_at = none;
      };
      resume = record {
        status = ResumeStatus.waiting_response;
        attempts = 0;
        last_error = "";
        started_at = none;
        completed_at = none;
      };
      expires_at = input.expires_at;
      chat_key = trim input.chat_key;
      created_at = now;
      resolved_at = none;
      response = none;
      metadata = input.metadata;
      audit =
          record (audit_line now "human_request.created" "") { to_status = RequestStatus.pending }
          ∷ [];
    }

unfoldable pub is_duplicate_of : CreateRequest → HumanRequest → Bool
is_duplicate_of input r =
    r.run_id == trim input.run_id
    && r.tool_call_id == trim input.tool_call_id
    && r.dedupe_key == trim input.dedupe_key

unfoldable pub first_such : (HumanRequest → Bool) → List HumanRequest → Option HumanRequest
first_such p [] = none
first_such p (r ∷ rs) = let later = first_such p rs in if p r then some r else later

-- The query for what is pending in a workspace.
abbrev pub pending_in : String → ListQuery
pending_in ws = record { workspace_key = ws; status = RequestStatus.pending; chat_key = "" }

unfoldable pub find_pending_duplicate : Env → CreateRequest → Op (Option HumanRequest)
find_pending_duplicate e input =
    if trim input.dedupe_key == "" || trim input.run_id == "" || trim input.tool_call_id == ""
    then pure none
    else (do
      pending ← list_locked e (pending_in input.workspace_key)
      pure (first_such (is_duplicate_of input) pending))

-- The part of `Create` past the search for a duplicate.
unfoldable pub create_new : Env → CreateRequest → Op HumanRequest
create_new e input = do
  lift (if trim input.id == "" then ok tt else validate_path_id (trim input.id))
  write_request e (new_request e input)
  pure (new_request e input)

unfoldable pub create_unless : Env → CreateRequest → Option HumanRequest → Op HumanRequest
create_unless e input (some existing) = pure existing
create_unless e input none = create_new e input

unfoldable pub create : Env → CreateRequest → Op HumanRequest
unfolding create_unless
create e input = do
  lift (check_ctx e)
  lift (validate_create e.to_lower input)
  existing ← find_pending_duplicate e input
  create_unless e input existing
