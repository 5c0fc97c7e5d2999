-- ===== src/Flow/Sample.antt =====
-- A concrete flow, its surroundings and the runs that the tests start from.
use xira.Shared.{String, false, List, [], ◌∷◌, Option, none, some, ◌==◌, if◌then◌else◌}
use xira.Shared.Dict.{string_eq}
use xira.Shared.Result.{Result, ok}
use xira.Shared.Int.{ℤ}
use xira.Flow.Types.{Executor, Branch, Step, Definition}
use xira.Flow.Run.{
  RunStatus, StepStatus, StepState, no_state, OutputRef, Value, Run, StepExecutionResult,
  ResolvedHumanRequest, FlowError,
}
use xira.Flow.Store.{World, System}
use xira.Flow.Start.{StartRequest, trigger_context}
use xira.Entry.Texts.{Texts}
use xira.Entry.Inbound.{new_inbound_context}

abbrev pub idle : Executor
idle = record {
  agent = "";
  executor_type = "";
  engine_hint = "";
  tools = [];
  tool_input_allowlist = [];
  tools_configured = false;
  prompt = "";
  question = "";
  options = [];
  responder = "";
  artifacts = [];
  signal = "";
  timeout_seconds = ℤ.pos 0;
  subflow_flow = "";
  subflow_entrypoint = "";
}

abbrev pub plain : String → Executor → String → List Branch → Step
plain id executor on_success branches = record {
  id = id;
  description = "";
  objective = "do it";
  inputs = [];
  instructions = [];
  constraints = [];
  required_skills = [];
  preferred_methods = [];
  prompt = none;
  executor = executor;
  output_contract = record {
    artifact_policy = "";
    required_slots = [];
    optional_slots = [];
    completion_criteria = [];
  };
  transitions = record { on_success = on_success; on_failure = ""; branches = branches };
  retry = none;
}

abbrev pub draft : Step
draft = plain "draft" (record idle { agent = "writer" }) "check" []

abbrev pub check : Step
check =
    plain "check" (record idle { executor_type = "human_approval" }) ""
      (record { condition = "${outputs.check.approval_signal == 'approve'}"; next = "ship" } ∷ [])

abbrev pub ship : Step
ship = plain "ship" (record idle { agent = "shipper" }) "" []

abbrev pub flow : Definition
flow = record {
  schema_version = "xira.flow.v0";
  id = "f";
  version = "1";
  name = "flow";
  description = "";
  objective = "";
  invocation = none;
  inputs = none;
  entrypoints =
      record {
        id = "main";
        description = "";
        start_step = "draft";
        required_inputs = [];
        optional_inputs = [];
        aliases = [];
      }
      ∷ [];
  context = none;
  agents = [];
  permissions = none;
  artifacts = none;
  verification = none;
  evolution = none;
  steps = draft ∷ check ∷ ship ∷ [];
}

abbrev pub result : StepStatus → Option (List String) → StepExecutionResult
result status ids = record {
  status = status;
  agent_run_id = "a1";
  human_request_ids = ids;
  outputs = none;
  artifacts = none;
  interrupt = none;
  error = "";
}

abbrev pub work : Run → Definition → Step → StepExecutionResult × Option String
work run def step = (
  if step.id == "check"
      then result StepStatus.waiting_human (some ("h1" ∷ []))
      else result StepStatus.completed none,
  none,
)

abbrev pub answered : String → Result FlowError ResolvedHumanRequest
answered id = ok (record {
  id = id;
  source = "flow_human_approval";
  kind = "approval";
  status = "resolved";
  response_kind = "approve";
  response_message = "";
})

abbrev pub calm : World
calm = record {
  now = 100;
  canceled = λ n. false;
  read_fails = λ n. false;
  write_fails = λ n. false;
  to_lower = λ s. s;
  equal_fold = ◌==◌;
  executor = some work;
  definitions = none;
  policy = none;
  resolver = some answered;
  agent_status = none;
  sprint = λ v. "";
  describe = λ e. "";
  parse_float = λ s. none;
  float_of = λ n. 0;
  float_eq = λ a b. false;
  float_lt = λ a b. false;
}

abbrev pub begun_run : Run
begun_run = record {
  schema_version = "xira.flow_run.v0";
  id = "fr_1";
  flow_id = "f";
  flow_version = "1";
  status = RunStatus.running;
  current_step_id = "check";
  entrypoint_id = "main";
  input = [];
  context = none;
  steps = ("check", record no_state { status = StepStatus.pending }) ∷ [];
  pending_signals = [];
  pending_human_requests = [];
  artifacts = [];
  events_ref = "";
  created_at = 1;
  updated_at = 1;
}

abbrev pub system_with : Run → System
system_with r = record { runs = ("fr_1", r) ∷ []; saved = []; registry = ("f", flow) ∷ [] }

abbrev pub asked_state : StepState
asked_state = record no_state {
  status = StepStatus.waiting_human;
  started_at = some 100;
  attempts = 1;
  agent_run_id = "a1";
  human_request_ids = "h1" ∷ [];
}

abbrev pub asked_run : Run
asked_run = record begun_run {
  status = RunStatus.waiting_human;
  steps = ("check", asked_state) ∷ [];
  pending_human_requests = "h1" ∷ [];
  updated_at = 100;
}

abbrev pub approval : OutputRef
approval = record { artifact = ""; artifacts = []; value = Value.text "approve"; summary = "" }

abbrev pub approved : Run
approved = record asked_run {
  status = RunStatus.running;
  current_step_id = "ship";
  steps =
      (
        "check",
        record asked_state {
          status = StepStatus.completed;
          completed_at = some 100;
          human_request_ids = [];
          outputs = ("approval_signal", approval) ∷ [];
        },
      )
      ∷ ("ship", record no_state { status = StepStatus.pending })
      ∷ [];
  pending_human_requests = [];
}

abbrev pub texts : Texts
texts = record { to_lower = λ s. s; equal_fold = ◌==◌; path_match = λ p s. some (p == s) }

abbrev pub request : StartRequest
request = record {
  flow_path = "";
  flow_id = "f";
  entrypoint_id = "main";
  input = [];
  context = new_inbound_context texts "cli" "" [];
}

-- The run of the request, under the id that was drawn for it.
abbrev pub started_run : Run
started_run = record {
  schema_version = "xira.flow_run.v0";
  id = "fr_2";
  flow_id = "f";
  flow_version = "1";
  status = RunStatus.running;
  current_step_id = "draft";
  entrypoint_id = "main";
  input = [];
  context = some (trigger_context texts request.context);
  steps = ("draft", record no_state { status = StepStatus.pending }) ∷ [];
  pending_signals = [];
  pending_human_requests = [];
  artifacts = [];
  events_ref = "";
  created_at = 100;
  updated_at = 100;
}

abbrev pub started_system : System
started_system = record {
  runs = ("fr_1", begun_run) ∷ ("fr_2", started_run) ∷ [];
  saved = ("fr_2", flow) ∷ [];
  registry = ("f", flow) ∷ [];
}
