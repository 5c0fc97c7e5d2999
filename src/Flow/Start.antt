-- ===== src/Flow/Start.antt =====
-- apps/xira/internal/flow/kernel.go and store.go: the start of a run. A definition file is read by the
-- parameter `load`; the id that `generateFlowRunID` draws is `fresh`. The accesses of the store are
-- numbered as the World's: 0 creates the run, 1 saves its definition, 2 and 3 update and read it.
use xira.Shared.{
  ℕ, String, Bool, true, not, ◌&&◌, ◌||◌, List, [], ◌∷◌, ◌++◌, Option, none, some, ◌==◌,
  if◌then◌else◌,
}
use xira.Shared.Strings.{trim, contains}
use xira.Shared.Dict
use xira.Shared.Dict.{Dict, string_eq}
use xira.Shared.Result
use xira.Shared.Result.{Result, ok, err, guard}
use xira.Shared.Exec.{lift, pure, ◌>>=◌, ◌>>◌}
use xira.Flow.Types.{Definition, Entrypoint, Step, InputSpec}
use xira.Flow.Run.{Run, RunStatus, StepStatus, no_state, InboundContext, FlowError}
use xira.Flow.Definition.{Accepted, resolve_entrypoint}
use xira.Flow.Store.{World, Act, validate_flow_run_id, read_run, get_run, update_run, written_run}
use xira.Flow.Kernel.{defined_by}
use xira.Entry.Texts.{Texts}
use xira.Entry.Inbound.{normalize_inbound_context, new_inbound_context}

pub record StartRequest : Type 0 where
  pub flow_path : String
  pub flow_id : String
  pub entrypoint_id : String
  pub input : Dict String String
  pub context : InboundContext

pub record CreateRunRequest : Type 0 where
  pub id : String
  pub flow_id : String
  pub flow_version : String
  pub entrypoint_id : String
  pub current_step_id : String
  pub input : Dict String String
  pub context : Option InboundContext

-- `validateFlowID`
unfoldable pub validate_flow_id : String → Accepted
validate_flow_id id =
    let s = trim id in
    Result.◌>>◌ (guard (not (s == "")) FlowError.validation)
      (guard (not (contains s "/" || contains s "\\" || contains s "..")) FlowError.validation)

abbrev pub given_value : Option String → String
given_value none = ""
given_value (some v) = v

-- Each key of a list that is not blank has a value that is not.
unfoldable pub has_inputs : List String → Dict String String → Bool
has_inputs [] input = true
has_inputs (key ∷ keys) input =
    (trim key == "" || not (trim (given_value (Dict.lookup (trim key) input)) == ""))
    && has_inputs keys input

abbrev pub required_keys : Option InputSpec → List String
required_keys none = []
required_keys (some i) = i.required

-- `validateStartInputs`
unfoldable pub validate_start_inputs : Definition → Entrypoint → Dict String String → Accepted
unfolding has_inputs
validate_start_inputs def ep input =
    guard (has_inputs (required_keys def.inputs ++ ep.required_inputs) input) FlowError.validation

-- `registerDefinition`
unfoldable pub register_definition : Definition → Act (Unit {0})
register_definition def s = (ok tt, record s { registry = Dict.insert def.id def s.registry })

unfoldable pub known_definition : World → String → Option Definition → Result FlowError Definition
unfolding defined_by
known_definition w id (some def) = ok def
known_definition w id none = elim (defined_by w id) [
  | none ↦ err FlowError.unconfigured
  | some def ↦ ok def
]

-- `resolveDefinition`
unfoldable pub resolve_definition :
    World → (String → Result FlowError Definition) → StartRequest → Act Definition
unfolding register_definition known_definition
resolve_definition w load req s =
    if not (trim req.flow_path == "")
    then (do def ← lift (load req.flow_path); register_definition def; pure def) s
    else (known_definition w req.flow_id (Dict.lookup req.flow_id s.registry), s)

-- The run that `CreateRun` writes.
abbrev pub new_run : ℕ → String → CreateRunRequest → Run
new_run now id req = record {
  schema_version = "xira.flow_run.v0";
  id = id;
  flow_id = req.flow_id;
  flow_version = req.flow_version;
  status = RunStatus.pending;
  current_step_id = req.current_step_id;
  entrypoint_id = req.entrypoint_id;
  input = req.input;
  context = req.context;
  steps = [];
  pending_signals = [];
  pending_human_requests = [];
  artifacts = [];
  events_ref = "";
  created_at = now;
  updated_at = now;
}

abbrev pub chosen_id : String → CreateRunRequest → String
chosen_id fresh req = if trim req.id == "" then fresh else trim req.id

-- The checks of `CreateRun` before the lock.
unfoldable pub may_create : World → ℕ → CreateRunRequest → Accepted
unfolding validate_flow_id
may_create w n req = Result.◌>>◌ (guard (not (w.canceled n)) FlowError.canceled) (
    Result.◌>>◌ (validate_flow_id req.flow_id)
      (if trim req.id == "" then ok tt else validate_flow_run_id (trim req.id)))

-- The run to write, which is checked once more.
unfoldable pub writable : World → ℕ → Run → Result FlowError Run
writable w n run =
    Result.◌>>◌ (validate_flow_run_id run.id)
      (Result.◌>>◌ (guard (not (w.write_fails n)) FlowError.io) (ok run))

-- The choice of `CreateRun` by what stands at the id.
unfoldable pub create_at : World → ℕ → String → CreateRunRequest → Result FlowError Run → Act Run
unfolding writable written_run
create_at w n id req (ok existing) s =
    if existing.flow_id == req.flow_id then (ok existing, s) else (err FlowError.conflict, s)
create_at w n id req (err FlowError.not_found) s =
    written_run (writable w n (new_run w.now id req)) s
create_at w n id req (err e) s = (err e, s)

-- `CreateRun`
unfoldable pub create_run : World → ℕ → String → CreateRunRequest → Act Run
unfolding may_create create_at read_run
create_run w n fresh req = do
  lift (may_create w n req)
  λ s. create_at w n (chosen_id fresh req) req (read_run w n (chosen_id fresh req) s) s

-- `SaveDefinition`
unfoldable pub save_definition : World → ℕ → String → Definition → Act (Unit {0})
save_definition w n id def = do
  lift (validate_flow_run_id id)
  lift (guard (not (w.write_fails n)) FlowError.io)
  λ s. (ok tt, record s { saved = Dict.insert id def s.saved })

-- The trigger's context.
unfoldable pub trigger_context : Texts → InboundContext → InboundContext
unfolding normalize_inbound_context
trigger_context x ctx =
    if ctx.channel == "" then new_inbound_context x "cli" "" [] else normalize_inbound_context x ctx

-- `r.Status = RunRunning` and the pending state of the first step.
unfoldable pub begin_run : String → Run → Result FlowError Run
begin_run step run = ok (record run {
  status = RunStatus.running;
  steps = Dict.insert step (record no_state { status = StepStatus.pending }) run.steps;
})

unfoldable pub create_request :
    Texts → StartRequest → Definition → Entrypoint × Step → CreateRunRequest
unfolding trigger_context
create_request x req def (ep, step) = record {
  id = "";
  flow_id = def.id;
  flow_version = def.version;
  entrypoint_id = ep.id;
  current_step_id = step.id;
  input = req.input;
  context = some (trigger_context x req.context);
}

-- The entrypoint of a request, whose inputs are given.
unfoldable pub entered : StartRequest → Definition → Result FlowError (Entrypoint × Step)
unfolding validate_start_inputs
entered req def =
    Result.◌>>=◌ (resolve_entrypoint def req.entrypoint_id)
      (λ p. Result.◌>>◌ (validate_start_inputs def p.0 req.input) (ok p))

-- `Start`
unfoldable pub start :
    World → (String → Result FlowError Definition) → Texts → String → StartRequest → Act Run
unfolding resolve_definition entered create_run save_definition register_definition begin_run
    create_request
start w load x fresh req = do
  def ← resolve_definition w load req
  entry ← lift (entered req def)
  run ← create_run w 0 fresh (create_request x req def entry)
  save_definition w 1 run.id def
  register_definition def
  _ ← update_run w 2 run.id (begin_run entry.1.id)
  get_run w 3 run.id
