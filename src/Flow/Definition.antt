-- ===== src/Flow/Definition.antt =====
-- apps/xira/internal/flow/definition.go: the structural checks of a definition, and lookups in it.
use xira.Shared.{
  String, Bool, true, false, not, ◌&&◌, ◌||◌, List, [], ◌∷◌, Option, none, some, ◌==◌,
  if◌then◌else◌, map,
}
use xira.Shared.Strings.{trim}
use xira.Shared.Result.{Result, ok, err, guard, ◌>>◌}
use xira.Flow.Types.{Entrypoint, Branch, Step, Definition, RetryPolicy}
use xira.Flow.Run.{FlowError}

abbrev pub Accepted : Type 0
Accepted = Result FlowError (Unit {0})

-- A key of a set of ids.
unfoldable pub known : String → List String → Bool
known x [] = false
known x (y ∷ ys) = x == y || known x ys

unfoldable pub control_executor_type : String → Bool
control_executor_type t =
    t == "human_approval" || t == "decision" || t == "wait_signal" || t == "subflow"

unfoldable pub validate_executor : Step → Accepted
unfolding control_executor_type
validate_executor step = do
  let has_agent = not (trim step.executor.agent == "")
  let has_type = not (trim step.executor.executor_type == "")
  let responder = trim step.executor.responder
  guard (responder == "" || step.executor.executor_type == "human_approval") FlowError.validation
  guard (responder == "" || responder == "current_sender" || responder == "owner")
      FlowError.validation
  guard (not (has_agent && has_type)) FlowError.validation
  guard (has_agent || has_type) FlowError.validation
  guard (not has_type || control_executor_type step.executor.executor_type) FlowError.validation

-- A target that is given is a step of the flow.
unfoldable pub leads : List String → String → Bool
leads ids target = target == "" || known target ids

unfoldable pub validate_branches : List String → List Branch → Accepted
validate_branches ids [] = ok tt
validate_branches ids (b ∷ bs) = do
  guard (not (trim b.condition == "")) FlowError.validation
  guard (not (trim b.next == "")) FlowError.validation
  guard (known b.next ids) FlowError.validation
  validate_branches ids bs

unfoldable pub retry_leads : List String → Option RetryPolicy → Bool
unfolding leads
retry_leads ids none = true
retry_leads ids (some retry) = leads ids retry.on_exhausted

unfoldable pub validate_step_transitions : List String → Step → Accepted
unfolding leads validate_branches retry_leads
validate_step_transitions ids step = do
  guard (leads ids step.transitions.on_success) FlowError.validation
  guard (leads ids step.transitions.on_failure) FlowError.validation
  validate_branches ids step.transitions.branches
  guard (retry_leads ids step.retry) FlowError.validation

-- The first pass over the steps, with the ids met so far.
unfoldable pub validate_steps : List String → List Step → Accepted
unfolding known validate_executor
validate_steps met [] = ok tt
validate_steps met (step ∷ rest) = do
  guard (not (trim step.id == "")) FlowError.validation
  guard (not (known step.id met)) FlowError.validation
  guard (not (trim step.objective == "")) FlowError.validation
  validate_executor step
  validate_steps (step.id ∷ met) rest

-- The second pass, with all ids.
unfoldable pub validate_targets : List String → List Step → Accepted
unfolding validate_step_transitions
validate_targets ids [] = ok tt
validate_targets ids (step ∷ rest) = do
  validate_step_transitions ids step
  validate_targets ids rest

unfoldable pub validate_entrypoints : List String → List String → List Entrypoint → Accepted
validate_entrypoints ids met [] = ok tt
validate_entrypoints ids met (ep ∷ rest) = do
  guard (not (trim ep.id == "")) FlowError.validation
  guard (not (known ep.id met)) FlowError.validation
  guard (not (trim ep.start_step == "")) FlowError.validation
  guard (known ep.start_step ids) FlowError.validation
  validate_entrypoints ids (ep.id ∷ met) rest

unfoldable pub is_empty {ℓ} : {A : Type ℓ} → List A → Bool
is_empty [] = true
is_empty (x ∷ xs) = false

abbrev pub step_ids : List Step → List String
step_ids = map (λ (s : Step). s.id)

unfoldable pub validate_definition : Definition → Accepted
unfolding validate_steps validate_targets validate_entrypoints is_empty
validate_definition def = do
  guard (def.schema_version == "xira.flow.v0") FlowError.validation
  guard (not (trim def.id == "")) FlowError.validation
  guard (not (trim def.name == "")) FlowError.validation
  guard (not (trim def.version == "")) FlowError.validation
  guard (not (is_empty def.steps)) FlowError.validation
  validate_steps [] def.steps
  validate_targets (step_ids def.steps) def.steps
  guard (not (is_empty def.entrypoints)) FlowError.validation
  validate_entrypoints (step_ids def.steps) [] def.entrypoints

unfoldable pub step_by_id : String → List Step → Option Step
step_by_id id [] = none
step_by_id id (step ∷ rest) = if step.id == id then some step else step_by_id id rest

unfoldable pub entrypoint_step : Entrypoint → Option Step → Result FlowError (Entrypoint × Step)
entrypoint_step ep none = err FlowError.validation
entrypoint_step ep (some step) = ok (ep, step)

unfoldable pub entrypoint_in :
    String → List Step → List Entrypoint → Result FlowError (Entrypoint × Step)
unfolding entrypoint_step step_by_id
entrypoint_in id steps [] = err FlowError.validation
entrypoint_in id steps (ep ∷ rest) =
    if ep.id == id
    then entrypoint_step ep (step_by_id ep.start_step steps)
    else entrypoint_in id steps rest

unfoldable pub resolve_entrypoint : Definition → String → Result FlowError (Entrypoint × Step)
unfolding entrypoint_in
resolve_entrypoint def id = entrypoint_in id def.steps def.entrypoints
