-- ===== src/Flow/Kernel.antt =====
-- apps/xira/internal/flow/kernel.go: `Advance` and the transitions it takes. A call holds the run's
-- lock, and the clock is read as one time. The accesses of the store are numbered: 0 reads the run,
-- 1 the definition, 2 marks the step, 3 records its result, 4 takes the transition.
use xira.Shared.{
  ℕ, zero, suc, String, Bool, true, false, ◌||◌, List, [], ◌∷◌, Option, none, some, ◌==◌, ltb,
  if◌then◌else◌,
}
use xira.Shared.Strings.{trim}
use xira.Shared.Dict
use xira.Shared.Dict.{Dict, string_eq}
use xira.Shared.Result.{Result, ok, err}
use xira.Shared.Exec.{pure, raise, lift, ◌>>=◌, ◌>>◌}
use xira.Shared.Int.{ℤ}
use xira.Flow.Types.{Branch, Step, Definition}
use xira.Flow.Run.{RunStatus, StepStatus, StepState, no_state, Run, StepExecutionResult, FlowError}
use xira.Flow.Definition.{known, step_by_id}
use xira.Flow.Store.{
  World, System, Act, get_run, update_run, validate_flow_run_id, step_state, set_step,
  mark_step_running,
}
use xira.Flow.Expressions.{eval_when, present}

-- `appendUniqueStrings`
unfoldable pub append_unique_strings : List String → List String → List String
unfolding known
append_unique_strings dst [] = dst
append_unique_strings dst (v ∷ vs) =
    append_unique_strings
      (if trim v == "" || known (trim v) dst then dst else add_last (trim v) dst) vs
  where
    add_last : String → List String → List String
    add_last x [] = x ∷ []
    add_last x (y ∷ ys) = y ∷ add_last x ys

unfoldable pub lookup_saved : World → String → System → Result FlowError Definition
unfolding present
lookup_saved w id s = present (if w.read_fails 1 then none else Dict.lookup id s.saved)

-- The definition saved beside the run, which enters the registry.
unfoldable pub load_saved : World → Run → Act Definition
unfolding lookup_saved
load_saved w run = do
  lift (validate_flow_run_id run.id)
  def ← (λ s. (lookup_saved w run.id s, s))
  λ s. (ok def, record s { registry = Dict.insert def.id def s.registry })

unfoldable pub defined_by : World → String → Option Definition
defined_by w id = elim w.definitions [ none ↦ none | some d ↦ d id ]

-- `resolveDefinitionByID`
unfoldable pub resolve_definition_by_id : World → Run → Act Definition
unfolding load_saved defined_by
resolve_definition_by_id w run s = elim (Dict.lookup run.flow_id s.registry) [
  | some def ↦ (ok def, s)
  | none ↦ elim (defined_by w run.flow_id) [ some def ↦ (ok def, s) | none ↦ load_saved w run s ]
]

unfoldable pub or_completed : StepStatus → StepStatus
or_completed StepStatus.unset = StepStatus.completed
or_completed s = s

unfoldable pub ends : StepStatus → Bool
ends StepStatus.completed = true
ends StepStatus.failed = true
ends _ = false

unfoldable pub or_kept {ℓ} : {A : Type ℓ} → Option A → A → A
or_kept none kept = kept
or_kept (some a) kept = a

unfoldable pub step_after : StepState → StepExecutionResult → ℕ → StepState
unfolding or_completed ends or_kept
step_after s result now = record s {
  status = or_completed result.status;
  agent_run_id = result.agent_run_id;
  human_request_ids = or_kept result.human_request_ids s.human_request_ids;
  outputs = or_kept result.outputs s.outputs;
  artifacts = or_kept result.artifacts s.artifacts;
  interrupt = (elim result.interrupt [ none ↦ s.interrupt | some i ↦ some i ]);
  error = trim result.error;
  completed_at = if ends (or_completed result.status) then some now else s.completed_at;
}

unfoldable pub apply_step_result : String → StepExecutionResult → ℕ → Run → Result FlowError Run
unfolding step_after
apply_step_result id result now run =
    ok (set_step id (step_after (step_state run id) result now) run)

unfoldable pub waiting_run : StepState → Run → Run
unfolding append_unique_strings
waiting_run s r = record r {
  status = RunStatus.waiting_human;
  pending_human_requests = append_unique_strings r.pending_human_requests s.human_request_ids;
}

unfoldable pub mark_waiting_human : World → Run → StepState → Act Run
unfolding waiting_run
mark_waiting_human w run s = update_run w 4 run.id (λ r. ok (waiting_run s r))

abbrev pub failed_run : Run → Run
failed_run r = record r { status = RunStatus.failed }

unfoldable pub mark_failed : World → Run → Act Run
mark_failed w run = update_run w 4 run.id (λ r. ok (failed_run r))

abbrev pub completed_run : Run → Run
completed_run r = record r { status = RunStatus.completed; current_step_id = "" }

unfoldable pub complete : World → Run → Act Run
complete w run = update_run w 4 run.id (λ r. ok (completed_run r))

-- A step enters the run as pending; one that is there stays as it is.
unfoldable pub with_step : String → Dict String StepState → Dict String StepState
with_step next steps = elim (Dict.lookup next steps) [
  | some s ↦ steps
  | none ↦ Dict.insert next (record no_state { status = StepStatus.pending }) steps
]

unfoldable pub moved_run : String → Run → Run
unfolding with_step
moved_run next r = record r { current_step_id = next; steps = with_step next r.steps }

unfoldable pub routed_run : String → Run → Run
unfolding moved_run
routed_run next r = record (moved_run next r) { status = RunStatus.running }

unfoldable pub route_after_failure : World → Run → String → Act Run
unfolding routed_run
route_after_failure w run next = update_run w 4 run.id (λ r. ok (routed_run next r))

unfoldable pub retried_run : String → Run → Run
retried_run id r =
    record (set_step id
      (record (step_state r id) {
        status = StepStatus.pending;
        error = "";
        started_at = none;
        completed_at = none;
      })
      r) { status = RunStatus.running }

unfoldable pub schedule_retry : World → Run → String → Act Run
unfolding retried_run
schedule_retry w run id = update_run w 4 run.id (λ r. ok (retried_run id r))

-- The number of attempts that a policy allows.
unfoldable pub allowed : ℤ → ℕ
allowed (ℤ.pos zero) = 1
allowed (ℤ.pos (suc n)) = suc n
allowed (ℤ.negsuc n) = 1

-- Where a failed step leads without a retry.
unfoldable pub give_up : World → Run → Step → Act Run
unfolding route_after_failure mark_failed
give_up w run step =
    if step.transitions.on_failure == ""
    then mark_failed w run
    else route_after_failure w run step.transitions.on_failure

unfoldable pub handle_step_failure : World → Run → StepState → Step → Act Run
unfolding schedule_retry give_up allowed route_after_failure
handle_step_failure w run s step = elim step.retry [
  | none ↦ give_up w run step
  | some retry ↦
      if ltb s.attempts (allowed retry.max_attempts)
      then schedule_retry w run step.id
      else if retry.on_exhausted == ""
      then give_up w run step
      else route_after_failure w run retry.on_exhausted
]

-- The first branch whose condition holds, or the empty text.
unfoldable pub first_branch : World → Run → List Branch → Result FlowError String
first_branch w run [] = ok ""
first_branch w run (b ∷ bs) =
    let later = first_branch w run bs in
    elim (eval_when w run b.condition) [
      | err e ↦ err e
      | ok holds ↦ if holds then ok b.next else later
    ]

unfoldable pub matched : Result FlowError String → Result FlowError String
matched (err e) = err e
matched (ok next) = if next == "" then err FlowError.unresolvable else ok next

unfoldable pub resolve_next : World → Run → Step → Result FlowError String
unfolding first_branch matched
resolve_next w run step = elim step.transitions.branches [
  | [] ↦ ok step.transitions.on_success
  | b ∷ bs ↦ matched (first_branch w run (b ∷ bs))
]

unfoldable pub unresolved_run : String → String → Run → Run
unresolved_run id message r =
    let s = step_state r id in
    record (set_step id
      (record s { status = StepStatus.failed; error = if s.error == "" then message else s.error })
      r) { status = RunStatus.failed }

-- `failTransition`
unfoldable pub fail_transition : World → Run → Step → FlowError → Act Run
unfolding unresolved_run
fail_transition w run step e = do
  kept ← update_run w 4 run.id (λ r. ok (unresolved_run step.id (w.describe e) r))
  raise e

unfoldable pub take_transition : World → Run → Step → Result FlowError String → Act Run
unfolding fail_transition complete moved_run
take_transition w run step (err e) = fail_transition w run step e
take_transition w run step (ok next) =
    if next == "" then complete w run else update_run w 4 run.id (λ r. ok (moved_run next r))

unfoldable pub advance_transition : World → Run → Step → Act Run
unfolding take_transition resolve_next
advance_transition w run step = take_transition w run step (resolve_next w run step)

-- After the step has run.
unfoldable pub settle : World → Run → Step → StepState → Act Run
unfolding mark_waiting_human handle_step_failure advance_transition
settle w run step s = elim s.status [
  | StepStatus.waiting_human ↦ mark_waiting_human w run s
  | StepStatus.failed ↦ handle_step_failure w run s step
  | StepStatus.completed ↦ advance_transition w run step
  | _ ↦ pure run
]

-- An executor that reports an error has failed the step.
unfoldable pub outcome : StepExecutionResult × Option String → StepExecutionResult
outcome (result, none) = result
outcome (result, some e) = record result { status = StepStatus.failed; error = e }

abbrev pub Execution : Type 0
Execution = Run → Definition → Step → StepExecutionResult × Option String

unfoldable pub run_step : World → Execution → String → Definition → Step → Act Run
unfolding settle outcome
run_step w execute id def step = do
  running ← update_run w 2 id (mark_step_running false w.now step.id)
  after ← update_run w 3 id (apply_step_result step.id (outcome (execute running def step)) w.now)
  settle w after step (step_state after step.id)

unfoldable pub advance_step : World → Execution → String → Run → Definition → Step → Act Run
unfolding run_step advance_transition mark_waiting_human
advance_step w execute id run def step = elim (step_state run step.id).status [
  | StepStatus.completed ↦ advance_transition w run step
  | StepStatus.failed ↦ pure run
  | StepStatus.waiting_human ↦ mark_waiting_human w run (step_state run step.id)
  | _ ↦ run_step w execute id def step
]

unfoldable pub advance_current : World → Execution → String → Run → Act Run
unfolding complete advance_step resolve_definition_by_id present
advance_current w execute id run = if trim run.current_step_id == "" then complete w run else do
  def ← resolve_definition_by_id w run
  step ← lift (present (step_by_id run.current_step_id def.steps))
  advance_step w execute id run def step

-- A run that is over, or waits for a person, is returned as it is.
unfoldable pub advance_run : World → Execution → String → Run → Act Run
unfolding advance_current
advance_run w execute id run = elim run.status [
  | RunStatus.completed ↦ pure run
  | RunStatus.failed ↦ pure run
  | RunStatus.canceled ↦ pure run
  | RunStatus.waiting_human ↦ pure run
  | _ ↦ advance_current w execute id run
]

unfoldable pub configured {ℓ} : {A : Type ℓ} → Option A → Result FlowError A
configured none = err FlowError.unconfigured
configured (some a) = ok a

unfoldable pub advance : World → String → Act Run
unfolding advance_run configured
advance w id = do
  execute ← lift (configured w.executor)
  lift (validate_flow_run_id id)
  run ← get_run w 0 id
  advance_run w execute id run
