-- ===== src/Flow/Types.antt =====
-- apps/xira/internal/flow/types.go: the types of a flow's definition.
use xira.Shared.{String, Bool, List, Option}
use xira.Shared.Dict.{Dict}
use xira.Shared.Int.{ℤ}

pub record Invocation : Type 0 where
  pub aliases : List String
  pub description : String

pub record InputSpec : Type 0 where
  pub required : List String
  pub optional : List String

pub record Entrypoint : Type 0 where
  pub id : String
  pub description : String
  pub start_step : String
  pub required_inputs : List String
  pub optional_inputs : List String
  pub aliases : List String

pub record ContextSpec : Type 0 where
  pub required : List String
  pub optional : List String
  pub forbidden : List String

pub record AgentRef : Type 0 where
  pub id : String
  pub role : String
  pub profile : String

pub record Permissions : Type 0 where
  pub permission_mode : String
  pub tools : List String
  pub secrets : List String

pub record ArtifactPolicy : Type 0 where
  pub output_dir : String
  pub retention : String

pub record Verification : Type 0 where
  pub default_checks : List String
  pub acceptance_cases : List String
  pub golden_tasks : List String

pub record Evolution : Type 0 where
  pub enabled : Bool
  pub candidate_only : Bool
  pub candidate_dir : String

pub record Executor : Type 0 where
  pub agent : String
  pub executor_type : String
  pub engine_hint : String
  pub tools : List String
  pub tool_input_allowlist : Dict String (Dict String (List String))
  pub tools_configured : Bool
  pub prompt : String
  pub question : String
  pub options : List String
  pub responder : String
  pub artifacts : List String
  pub signal : String
  pub timeout_seconds : ℤ
  pub subflow_flow : String
  pub subflow_entrypoint : String

pub record PromptSpec : Type 0 where
  pub template : String
  pub inline : String
  pub inputs : Dict String String

pub record OutputSlot : Type 0 where
  pub id : String
  pub description : String
  pub formats : List String
  pub required : Option Bool

pub record OutputContract : Type 0 where
  pub artifact_policy : String
  pub required_slots : List OutputSlot
  pub optional_slots : List OutputSlot
  pub completion_criteria : List String

pub record Branch : Type 0 where
  pub condition : String
  pub next : String

pub record Transitions : Type 0 where
  pub on_success : String
  pub on_failure : String
  pub branches : List Branch

pub record RetryPolicy : Type 0 where
  pub max_attempts : ℤ
  pub on_exhausted : String

pub record Step : Type 0 where
  pub id : String
  pub description : String
  pub objective : String
  pub inputs : Dict String String
  pub instructions : List String
  pub constraints : List String
  pub required_skills : List String
  pub preferred_methods : List String
  pub prompt : Option PromptSpec
  pub executor : Executor
  pub output_contract : OutputContract
  pub transitions : Transitions
  pub retry : Option RetryPolicy

pub record Definition : Type 0 where
  pub schema_version : String
  pub id : String
  pub version : String
  pub name : String
  pub description : String
  pub objective : String
  pub invocation : Option Invocation
  pub inputs : Option InputSpec
  pub entrypoints : List Entrypoint
  pub context : Option ContextSpec
  pub agents : List AgentRef
  pub permissions : Option Permissions
  pub artifacts : Option ArtifactPolicy
  pub verification : Option Verification
  pub evolution : Option Evolution
  pub steps : List Step
