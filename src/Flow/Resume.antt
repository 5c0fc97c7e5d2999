-- ===== src/Flow/Resume.antt =====
-- apps/xira/internal/flow/kernel_resume.go: `Resume`, which takes a run on from the step that waits
-- for a person. The accesses of the store are numbered as in Advance, and 5 is that of `cancel`.
use Prim.Native.String.{◌++◌ as append}
use xira.Shared.{
  String, Bool, false, not, ◌&&◌, ◌||◌, List, [], ◌∷◌, Option, none, some, ◌==◌, if◌then◌else◌,
  select,
}
use xira.Shared.Strings.{trim, contains}
use xira.Shared.Dict
use xira.Shared.Dict.{Dict, string_eq}
use xira.Shared.Result.{ok, guard}
use xira.Shared.Exec.{pure, lift, ◌>>=◌, ◌>>◌}
use xira.Flow.Types.{OutputSlot, Branch, Step}
use xira.Flow.Run.{RunStatus, StepStatus, StepState, Value, Run, ResolvedHumanRequest, FlowError}
use xira.Flow.Definition.{step_by_id}
use xira.Flow.Store.{World, Act, get_run, update_run, validate_flow_run_id, step_state, set_step}
use xira.Flow.Expressions.{present}
use xira.Flow.Kernel.{configured, resolve_definition_by_id, advance_transition, mark_failed}

-- `containsString`
unfoldable pub contains_string : List String → String → Bool
contains_string [] target = false
contains_string (v ∷ vs) target = v == target || contains_string vs target

-- A text whose trimmed form is among the trimmed values.
unfoldable pub dropped : List String → String → Bool
dropped [] v = false
dropped (x ∷ xs) v = trim x == trim v || dropped xs v

-- `removeStrings`
unfoldable pub remove_strings : List String → List String → List String
unfolding dropped select
remove_strings list values = select (λ v. not (dropped values v)) list

-- The option that a response names, in lower case.
unfoldable pub named_option : World → String → List String → Option String
named_option w kind [] = none
named_option w kind (o ∷ os) =
    if w.equal_fold o kind then some (w.to_lower o) else named_option w kind os

unfoldable pub has_option : World → List String → String → Bool
has_option w [] option = false
has_option w (o ∷ os) option = w.equal_fold o option || has_option w os option

-- `mapApprovalResponseToSignal`
unfoldable pub map_approval_response_to_signal : World → String → Step → String
unfolding named_option has_option
map_approval_response_to_signal w response_kind step =
    let kind = trim (w.to_lower response_kind) in
    elim (named_option w kind step.executor.options) [
      | some option ↦ option
      | none ↦
          if kind == "deny"
          then if has_option w step.executor.options "reject" then "reject" else "deny"
          else if kind == "answer"
          then "approve"
          else kind
    ]

-- `stepHasBranchFor`
unfoldable pub has_branch_for : List Branch → String → Bool
has_branch_for [] signal = false
has_branch_for (b ∷ bs) signal =
    contains b.condition (append "'" (append signal "'"))
    || contains b.condition (append "\"" (append signal "\""))
    || has_branch_for bs signal

unfoldable pub slot_id : List OutputSlot → String
slot_id [] = "approval_signal"
slot_id (s ∷ ss) = s.id

-- The run no longer waits for the requests of the step's state.
unfoldable pub released : String → StepState → Run → Run
released id s r =
    set_step id (record s { human_request_ids = [] })
      (record r {
        pending_human_requests = remove_strings r.pending_human_requests s.human_request_ids;
      })

unfoldable pub approved_run : World → Step → String → Run → Run
unfolding released slot_id
approved_run w step signal r =
    record (released step.id
      (record (step_state r step.id) {
        status = StepStatus.completed;
        outputs =
            (
              slot_id step.output_contract.required_slots,
              record { artifact = ""; artifacts = []; value = Value.text signal; summary = "" },
            )
            ∷ [];
        completed_at = some w.now;
      })
      r) { status = RunStatus.running }

unfoldable pub canceled_run : Step → ResolvedHumanRequest → Run → Run
unfolding released
canceled_run step resolved r =
    record (released step.id
      (record (step_state r step.id) {
        status = StepStatus.failed;
        error =
            if resolved.response_message == ""
            then append "flow canceled by human: " resolved.response_kind
            else resolved.response_message;
      })
      r) { status = RunStatus.canceled; current_step_id = "" }

unfoldable pub cancel : World → Run → Step → ResolvedHumanRequest → Act Run
unfolding canceled_run
cancel w run step resolved = update_run w 5 run.id (λ r. ok (canceled_run step resolved r))

unfoldable pub resume_explicit_approval : World → Run → Step → ResolvedHumanRequest → Act Run
unfolding map_approval_response_to_signal approved_run has_branch_for cancel
resume_explicit_approval w run step resolved = do
  let signal = map_approval_response_to_signal w resolved.response_kind step
  approved ← update_run w 3 run.id (λ r. ok (approved_run w step signal r))
  (if signal == "cancel" && not (has_branch_for step.transitions.branches "cancel")
      then cancel w approved step resolved
      else advance_transition w approved step)

-- The step is over with the given status and error, and nothing is pending for it.
unfoldable pub finished_run : World → Step → StepStatus → Option String → Run → Run
unfolding released
finished_run w step status error r =
    let s = step_state r step.id in
    record (released step.id
      (record s {
        status = status;
        error = (elim error [ none ↦ s.error | some e ↦ e ]);
        completed_at = some w.now;
        interrupt = none;
      })
      r) { status = RunStatus.running }

unfoldable pub finish_failed : World → Run → Step → String → Act Run
unfolding finished_run
finish_failed w run step error = do
  failed ← update_run w 3 run.id (λ r. ok (finished_run w step StepStatus.failed (some error) r))
  mark_failed w failed

unfoldable pub finish_completed : World → Run → Step → Act Run
unfolding finished_run
finish_completed w run step = do
  finished ← update_run w 3 run.id (λ r. ok (finished_run w step StepStatus.completed none r))
  advance_transition w finished step

unfoldable pub denial : ResolvedHumanRequest → String
denial resolved =
    if resolved.response_message == ""
    then append "human denied: " resolved.response_kind
    else resolved.response_message

-- What the agent's run has come to decides how the step goes on.
unfoldable pub follow_agent : World → Run → Step → String → Act Run
unfolding finish_completed finish_failed
follow_agent w run step status =
    if status == "completed"
    then finish_completed w run step
    else if status == "failed"
    then finish_failed w run step "agent run failed after human response"
    else get_run w 3 run.id

unfoldable pub resume_agent_generated : World → Run → Step → ResolvedHumanRequest → Act Run
unfolding finish_failed denial follow_agent
resume_agent_generated w run step resolved =
    if resolved.response_kind == "deny" || resolved.response_kind == "cancel"
    then finish_failed w run step (denial resolved)
    else elim w.agent_status [
      | none ↦ get_run w 3 run.id
      | some hook ↦ do status ← lift (hook run step); follow_agent w run step status
    ]

unfoldable pub resume_source : World → Run → Step → ResolvedHumanRequest → Act Run
unfolding resume_agent_generated resume_explicit_approval
resume_source w run step resolved =
    if resolved.source == "agent_request"
    then resume_agent_generated w run step resolved
    else resume_explicit_approval w run step resolved

-- The resolved request, where it is linked to the current step.
unfoldable pub linked_request : World → Run → String → Act ResolvedHumanRequest
unfolding contains_string present configured
linked_request w run request_id = do
  lift (guard (not (run.current_step_id == "")) FlowError.validation)
  s ← lift (present (Dict.lookup run.current_step_id run.steps))
  lift (guard (contains_string s.human_request_ids request_id) FlowError.validation)
  resolver ← lift (configured w.resolver)
  resolved ← lift (resolver request_id)
  lift (guard (w.equal_fold resolved.status "resolved") FlowError.still_pending)
  pure resolved

unfoldable pub resume_waiting : World → Run → String → Act Run
unfolding resume_source linked_request resolve_definition_by_id present
resume_waiting w run request_id = do
  resolved ← linked_request w run request_id
  def ← resolve_definition_by_id w run
  step ← lift (present (step_by_id run.current_step_id def.steps))
  resume_source w run step resolved

unfoldable pub resume_run : World → Run → String → Act Run
unfolding resume_waiting
resume_run w run request_id = elim run.status [
  | RunStatus.waiting_human ↦ resume_waiting w run request_id
  | _ ↦ pure run
]

unfoldable pub resume : World → String → String → Act Run
unfolding resume_run
resume w id request_id = do
  lift (guard (not (trim request_id == "")) FlowError.validation)
  lift (validate_flow_run_id id)
  run ← get_run w 0 id
  resume_run w run request_id
