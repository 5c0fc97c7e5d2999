-- ===== src/HumanRequest/Sample.antt =====
-- Concrete calls and disks that the tests start from.
use xira.Shared.{true, false, [], ◌∷◌, none}
use xira.Shared.Dict.{pair_eq}
use xira.HumanRequest.Types.{RequestKind, ResponseKind, CreateRequest, ResolveRequest}
use xira.HumanRequest.Disk.{Env, Disk}
use xira.HumanRequest.Store.{new_request}

abbrev pub calm : Env
calm = record {
  canceled = false;
  canceled_in_round = λ i. false;
  now = 100;
  fresh_id = "u1";
  fresh_token = "t1";
  to_lower = λ s. s;
  read_fails = λ f. false;
  write_fails = λ f. false;
}

abbrev pub empty_disk : Disk
empty_disk = record { requests = []; responses = [] }

abbrev pub question : CreateRequest
question = record {
  id = "q1";
  workspace_id = "w";
  workspace_key = "ws_1";
  run_id = "run";
  agent_id = "agent";
  session_id = "session";
  tool_call_id = "call";
  source = "agent_request";
  kind = RequestKind.freeform;
  question = "  proceed? ";
  options = [];
  dedupe_key = "key";
  responder = record {
    responder_type = "";
    entrypoint_id = "";
    sender_id = "";
    sender_id_type = "";
  };
  correlation_token = "";
  delivery_required = true;
  expires_at = none;
  chat_key = "cli/c/s";
  created_at = 0;
  metadata = [];
}

abbrev pub answer : ResolveRequest
answer = record {
  workspace_key = "ws_1";
  request_id = "q1";
  kind = ResponseKind.answer;
  actor = "s";
  message = "yes";
  idempotency_key = "k";
  resolved_at = 0;
}

abbrev pub asked : Disk
asked = record { requests = (("ws_1", "q1"), new_request calm question) ∷ []; responses = [] }
