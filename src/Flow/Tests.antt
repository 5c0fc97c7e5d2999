-- ===== src/Flow/Tests.antt =====
-- Runs of the kernel on a concrete flow, and its theorems at those runs: a draft by an agent, an
-- approval by a person, and a step that ships.
use xira.Shared.{String, false, ◌≡◌, ◌≢◌, refl, [], some, select, Memᴰ, ◌==◌, ◌⊎◌, eq_iff, arith}
use xira.Shared.Strings.{trim, has_prefix, contains}
use xira.Shared.Dict
use xira.Shared.Dict.{string_eq}
use xira.Shared.Result.{ok}
use xira.Flow.Types.{Entrypoint, Step}
use xira.Flow.Run.{RunStatus, Run}
use xira.Flow.Definition
use xira.Flow.Definition.{validate_definition, step_by_id, resolve_entrypoint}
use xira.Flow.Store
use xira.Flow.Store.{World, System, get_run, update_run}
use xira.Flow.Expressions
use xira.Flow.Parsing
use xira.Flow.Kernel
use xira.Flow.Kernel.{advance, resolve_next}
use xira.Flow.Resume
use xira.Flow.Resume.{resume}
use xira.Flow.Lookups.{step_by_id_unique, resolve_entrypoint-ok}
use xira.Flow.Targets.{IsStep, resolve_next-IsStep}
use xira.Flow.Keeping.{run_at, IsFiledSystem}
use xira.Flow.Advancing.{advance-stored, advance-advance, CanAdvance, is_stopped}
use xira.Flow.Resuming.{resume-stored, resume-resume}
use xira.Flow.Sample.{draft, check, flow, work, calm, begun_run, system_with, asked_run, approved}

-- What the runs below compute with.
evaluated : Unit {0}
unfolding advance resume get_run update_run validate_definition resolve_next trim has_prefix
    contains select Dict.lookup Dict.insert Store.written_run Store.updated_run Store.read_run
    Store.found_run Store.validate_flow_run_id Store.validate_run_artifacts Store.mark_step_running
    Store.started Store.or_no_state Kernel.advance_run Kernel.advance_current Kernel.advance_step
    Kernel.run_step Kernel.settle Kernel.apply_step_result Kernel.step_after Kernel.outcome
    Kernel.mark_waiting_human Kernel.waiting_run Kernel.append_unique_strings
    Kernel.resolve_definition_by_id Kernel.advance_transition Kernel.take_transition
    Kernel.moved_run Kernel.with_step Kernel.first_branch Kernel.matched Definition.step_by_id
    Definition.known Expressions.eval_when Parsing.split_comparison Expressions.resolve_output_path
    Expressions.compare_values Expressions.equals_value Parsing.trim_quotes Resume.resume_run
    Resume.resume_waiting Resume.linked_request Resume.resume_source Resume.resume_explicit_approval
    Resume.approved_run Resume.released Resume.remove_strings Resume.map_approval_response_to_signal
    is_stopped
evaluated = tt

advance_run_check :
    advance calm "fr_1" (system_with begun_run) ≡ (ok asked_run, system_with asked_run)
unfolding evaluated
advance_run_check = refl

resume_run_check :
    resume calm "fr_1" "h1" (system_with asked_run) ≡ (ok approved, system_with approved)
unfolding evaluated
resume_run_check = refl

filed_with : (r : Run) → r.id ≡ "fr_1" → IsFiledSystem (system_with r)
unfolding Dict.lookup
filed_with r e id q h = grind (arith, eq_iff "fr_1" id)

flow_valid : validate_definition flow ≡ ok tt
unfolding evaluated
flow_valid = refl

draft_next : resolve_next calm begun_run draft ≡ ok "check"
unfolding evaluated
draft_next = refl

abbrev next_id : String
next_id = "check"

resolve_next-IsStep_example : (next_id ≡ "") ⊎ IsStep flow.steps next_id
resolve_next-IsStep_example =
    resolve_next-IsStep calm flow begun_run draft "check" flow_valid (Memᴰ.head refl) draft_next

advance-stored_example :
    (run_at "fr_1" (system_with asked_run) ≡ some asked_run)
    × IsFiledSystem (system_with asked_run)
    × ((j : String)
        → ("fr_1" == j) ≡ false
        → run_at j (system_with asked_run) ≡ run_at j (system_with begun_run))
advance-stored_example =
    advance-stored calm "fr_1" (system_with begun_run) (filed_with begun_run refl) advance_run_check

calm-CanAdvance : CanAdvance calm
calm-CanAdvance = record { execute = work; configured_with = refl; live = refl; readable = refl }

advance-advance_example :
    advance calm "fr_1" (system_with asked_run) ≡ (ok asked_run, system_with asked_run)
unfolding is_stopped
advance-advance_example =
    advance-advance calm "fr_1" (system_with begun_run) (filed_with begun_run refl)
      advance_run_check refl calm calm-CanAdvance

resume-stored_example :
    (run_at "fr_1" (system_with approved) ≡ some approved)
    × IsFiledSystem (system_with approved)
    × ((j : String)
        → ("fr_1" == j) ≡ false
        → run_at j (system_with approved) ≡ run_at j (system_with asked_run))
resume-stored_example =
    resume-stored calm "fr_1" "h1" (system_with asked_run) (filed_with asked_run refl)
      resume_run_check

approved_moved : approved.status ≢ RunStatus.waiting_human
approved_moved = λ e. cc

again_given : trim "h1" ≢ ""
unfolding trim
again_given = λ e. grind (arith, eq_iff "h1" "")

resume-resume_example :
    resume calm "fr_1" "h1" (system_with approved) ≡ (ok approved, system_with approved)
resume-resume_example =
    resume-resume calm "fr_1" "h1" (system_with asked_run) (filed_with asked_run refl)
      resume_run_check approved_moved calm "h1" again_given refl refl

step_by_id_unique_example : step_by_id "check" flow.steps ≡ some check
step_by_id_unique_example = step_by_id_unique flow check flow_valid (Memᴰ.tail (Memᴰ.head refl))

abbrev main : Entrypoint
main = record {
  id = "main";
  description = "";
  start_step = "draft";
  required_inputs = [];
  optional_inputs = [];
  aliases = [];
}

resolve_entrypoint-ok_example :
    (s : Step) × (resolve_entrypoint flow "main" ≡ ok (main, s))
    × (step_by_id "draft" flow.steps ≡ some s)
    × (s.id ≡ main.start_step)
resolve_entrypoint-ok_example = resolve_entrypoint-ok flow main flow_valid (Memᴰ.head refl)
