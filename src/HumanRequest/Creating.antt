-- ===== src/HumanRequest/Creating.antt =====
-- `Create` of store.go, and `Get` after it.
use mathlib.Core.Path.{subst}
use Prim.Native.String.{◌++◌ as append}
use xira.Shared.{refl, ◌==◌, if◌then◌else◌, ◌≡◌, sym, ap, ◌∙◌, none, some, arith}
use xira.Shared.Strings.{trim}
use xira.Shared.Dict.{pair_eq, lookup-insert_self}
use xira.Shared.Result.{Result, ok}
use xira.HumanRequest.Types.{
  RequestStatus, DeliveryStatus, ResumeStatus, HumanRequest, CreateRequest, Error,
}
use xira.HumanRequest.Validate.{normalize_responder_policy}
use xira.HumanRequest.Disk.{Env, Disk, found}
use xira.HumanRequest.Store.{create, new_request, find_pending_duplicate}
use xira.HumanRequest.Operations.{get}
use xira.HumanRequest.Edits.{stored, put}
use xira.HumanRequest.Creation.{Created, rejected, repeated, created, create-Created}
use xira.HumanRequest.Inversion.{IsValidName, CanRead, check_call_ok, load_request-found}

-- What a successful creation returns: an earlier request, the disk unchanged, or the new one, stored.
Created-ok :
    (e : Env) (input : CreateRequest) (d : Disk) {r : HumanRequest} {d' : Disk}
    {x : Result Error HumanRequest × Disk}
    → Created e input d x
    → x ≡ (ok r, d')
    → (find_pending_duplicate e input d).0 ≡ ok none
    → (r ≡ new_request e input) × (d' ≡ put (new_request e input) d)
Created-ok e input d (rejected y) h n = cc
Created-ok e input d (repeated s k) h n = cc
Created-ok e input d (created k) h n = (ground arith, ground arith)

-- The request asked for: its texts trimmed, its letters of the responder's types lowered, a blank id
-- or token drawn, the sender for a blank type of responder, and nothing yet delivered, answered or resumed.
pub record IsAsked (e : Env) (input : CreateRequest) (r : HumanRequest) : Type 0 where
  pub id : r.id ≡ (if trim input.id == "" then append "hrq_" e.fresh_id else trim input.id)
  pub workspace_id : r.workspace_id ≡ trim input.workspace_id
  pub workspace_key : r.workspace_key ≡ trim input.workspace_key
  pub run_id : r.run_id ≡ trim input.run_id
  pub agent_id : r.agent_id ≡ trim input.agent_id
  pub session_id : r.session_id ≡ trim input.session_id
  pub tool_call_id : r.tool_call_id ≡ trim input.tool_call_id
  pub source : r.source ≡ trim input.source
  pub kind : r.kind ≡ input.kind
  pub question : r.question ≡ trim input.question
  pub options : r.options ≡ input.options
  pub dedupe_key : r.dedupe_key ≡ trim input.dedupe_key
  pub responder_type : r.responder.responder_type ≡ (
      if e.to_lower (trim input.responder.responder_type) == ""
      then "current_sender"
      else e.to_lower (trim input.responder.responder_type))
  pub entrypoint_id : r.responder.entrypoint_id ≡ trim input.responder.entrypoint_id
  pub sender_id : r.responder.sender_id ≡ trim input.responder.sender_id
  pub sender_id_type : r.responder.sender_id_type ≡ e.to_lower (trim input.responder.sender_id_type)
  pub token :
      r.correlation_token
      ≡ (if trim input.correlation_token == "" then e.fresh_token else trim input.correlation_token)
  pub pending : r.status ≡ RequestStatus.pending
  pub deliveries : (r.delivery.attempts ≡ 0) × (r.delivery.message_id ≡ "")
  pub delivery_status :
      r.delivery.status
      ≡ (if input.delivery_required then DeliveryStatus.pending else DeliveryStatus.not_required)
  pub resumes : (r.resume.attempts ≡ 0) × (r.resume.status ≡ ResumeStatus.waiting_response)
  pub expires_at : r.expires_at ≡ input.expires_at
  pub chat_key : r.chat_key ≡ trim input.chat_key
  pub unanswered : (r.response ≡ none) × (r.resolved_at ≡ none)
  pub metadata : r.metadata ≡ input.metadata

new_request-IsAsked : (e : Env) (input : CreateRequest) → IsAsked e input (new_request e input)
unfolding new_request normalize_responder_policy
new_request-IsAsked e input = record {
  id = refl;
  workspace_id = refl;
  workspace_key = refl;
  run_id = refl;
  agent_id = refl;
  session_id = refl;
  tool_call_id = refl;
  source = refl;
  kind = refl;
  question = refl;
  options = refl;
  dedupe_key = refl;
  responder_type = refl;
  entrypoint_id = refl;
  sender_id = refl;
  sender_id_type = refl;
  token = refl;
  pending = refl;
  delivery_status = refl;
  expires_at = refl;
  chat_key = refl;
  metadata = refl;
  deliveries = (refl, refl);
  resumes = (refl, refl);
  unanswered = (refl, refl);
}

-- Where no pending request is a duplicate, a request that `Create` returns is the one asked for; and
-- if its workspace key and id are valid, a `Get` that is not canceled and can read the file returns
-- it from the disk that `Create` left.
pub get-create :
    (e : Env) (input : CreateRequest) (d : Disk) {r : HumanRequest} {d' : Disk}
    → (find_pending_duplicate e input d).0 ≡ ok none
    → create e input d ≡ (ok r, d')
    → (e' : Env) → IsValidName r.workspace_key r.id
    → CanRead e' r.workspace_key r.id
    → (get e' r.workspace_key r.id d' ≡ (ok r, d')) × IsAsked e input r
unfolding get found
get-create e input d {r} {d'} n h e' v c =
    let (p, q) = Created-ok e input d (create-Created e input d) h n in
    let held : stored r.workspace_key (trim r.id) d' ≡ some r =
      ap (stored r.workspace_key (trim r.id)) (q ∙ ap (λ s. put s d) (sym p))
      ∙ lookup-insert_self (r.workspace_key, trim r.id) r d.requests in
    (
      check_call_ok e' r.workspace_key r.id v c d' _
          ∙ load_request-found e' r.workspace_key r.id v c d'
          ∙ ap (λ o. (found o, d')) held,
      subst (IsAsked e input) (sym p) (new_request-IsAsked e input),
    )
