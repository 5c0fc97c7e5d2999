-- ===== src/HumanRequest/Validate.antt =====
-- The checks of apps/xira/internal/humanrequest/store.go that read no file.
use xira.Shared.{
  ℕ, String, Bool, true, false, not, ◌&&◌, ◌||◌, List, [], ◌∷◌, Option, none, some, ◌==◌, ltb,
  if◌then◌else◌,
}
use xira.Shared.Strings.{trim, has_prefix, contains}
use xira.Shared.Result.{Result, ok, err, guard, ◌>>◌}
use xira.HumanRequest.Types.{
  RequestKind, ResponderPolicy, responder_current_sender, responder_owner, ResponseKind,
  HumanOption, HumanRequest, HumanResponseEnvelope, CreateRequest, Error,
}

abbrev pub Checked : Type 0
Checked = Result Error (Unit {0})

-- `filepath.IsAbs` of a path with no "/" in it is false, so that test adds nothing to "contains /".
unfoldable pub validate_path_id : String → Checked
validate_path_id raw = do
  let id = trim raw
  guard (not (id == "")) Error.validation
  guard (not (has_prefix id "." || contains id "/" || contains id "\\" || contains id ".."))
      Error.validation

abbrev pub validate_workspace_key : String → Checked
validate_workspace_key = validate_path_id

unfoldable pub validate_response_kind : ResponseKind → Checked
validate_response_kind (ResponseKind.other _) = err Error.validation
validate_response_kind _ = ok tt

-- strings.ToLower follows the Unicode tables of the Go release, and is a parameter.
unfoldable pub normalize_responder_policy : (String → String) → ResponderPolicy → ResponderPolicy
normalize_responder_policy to_lower p =
    let t = to_lower (trim p.responder_type) in
    record {
      responder_type = if t == "" then responder_current_sender else t;
      entrypoint_id = trim p.entrypoint_id;
      sender_id = trim p.sender_id;
      sender_id_type = to_lower (trim p.sender_id_type);
    }

unfoldable pub validate_responder_policy : ResponderPolicy → Checked
validate_responder_policy p =
    if p.responder_type == responder_current_sender
    then ok tt
    else if p.responder_type == responder_owner
    then (do
      guard (not (p.entrypoint_id == "")) Error.validation
      guard (not (p.sender_id == "")) Error.validation
      guard (not (p.sender_id_type == "")) Error.validation)
    else err Error.validation

-- Whether an id was seen already.
unfoldable pub seen : String → List String → Bool
seen id [] = false
seen id (x ∷ xs) = x == id || seen id xs

unfoldable pub validate_options : List String → List HumanOption → Checked
validate_options ids [] = ok tt
validate_options ids (o ∷ rest) =
    let id = trim o.id in
    let later = validate_options (id ∷ ids) rest in
    if id == "" then err Error.validation else if seen id ids then err Error.validation else later

valid_request_kind : RequestKind → Bool
valid_request_kind (RequestKind.other _) = false
valid_request_kind _ = true

unfoldable pub validate_create : (String → String) → CreateRequest → Checked
unfolding valid_request_kind
validate_create to_lower input = do
  validate_workspace_key input.workspace_key
  if trim input.id == "" then ok tt else validate_path_id input.id
  guard (not (trim input.workspace_id == "")) Error.validation
  guard (not (trim input.run_id == "")) Error.validation
  guard (not (trim input.agent_id == "")) Error.validation
  guard (not (trim input.session_id == "")) Error.validation
  guard (valid_request_kind input.kind) Error.validation
  guard (not (trim input.question == "")) Error.validation
  validate_responder_policy (normalize_responder_policy to_lower input.responder)
  validate_options [] input.options

-- An optional authority that was persisted must be met; an empty one is not checked.
unfoldable pub meets : String → String → Bool
meets persisted given = persisted == "" || given == persisted

-- `now.After(*req.ExpiresAt)`
unfoldable pub past_expiry : Option ℕ → ℕ → Bool
past_expiry none now = false
past_expiry (some t) now = ltb t now

unfoldable pub validate_exact_response :
    (String → String) → HumanRequest → HumanResponseEnvelope → ℕ → Checked
unfolding meets past_expiry
validate_exact_response to_lower req input now = do
  let correlation = trim input.correlation_token
  guard (not (correlation == "") && correlation == req.correlation_token) Error.conflict
  guard (meets req.responder.entrypoint_id (trim input.entrypoint_id)) Error.conflict
  guard (meets req.responder.sender_id (trim input.sender_id)) Error.conflict
  guard (meets req.responder.sender_id_type (to_lower (trim input.sender_id_type))) Error.conflict
  guard (meets req.delivery.message_id (trim input.delivery_message_id)) Error.conflict
  guard (not (past_expiry req.expires_at now)) Error.expired
