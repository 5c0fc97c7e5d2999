-- ===== src/Flow/Stepping.antt =====
-- What a step of `Advance` of kernel.go does to the run files.
use xira.Shared.{String, Bool, false, ◌≡◌, refl, sym, ap, ◌∙◌, some, ◌==◌, arith}
use xira.Shared.Dict
use xira.Shared.Dict.{string_eq}
use xira.Shared.Result.{ok}
use xira.Shared.Exec.{pure}
use xira.Shared.Strings.{trim}
use xira.Flow.Types.{Step, Definition}
use xira.Flow.Run.{RunStatus, StepStatus, StepState, Run}
use xira.Flow.Definition.{step_by_id}
use xira.Flow.Store.{World, System, Act, update_run, mark_step_running, step_state}
use xira.Flow.Expressions.{present}
use xira.Flow.Kernel
use xira.Flow.Kernel.{
  Execution, advance, advance_run, advance_current, advance_step, advance_transition,
  take_transition, resolve_next, fail_transition, complete, mark_failed, mark_waiting_human,
  handle_step_failure, give_up, schedule_retry, route_after_failure, run_step, settle, outcome,
  apply_step_result, resolve_definition_by_id, load_saved, defined_by, configured, allowed,
  lookup_saved,
}
use xira.Flow.Keeping.{
  run_at, IsFiledSystem, Serves, Serves-pure, Serves-proceed, Serves-update_run, ok-inj,
}
use xira.Flow.Serving.{
  Serves-advance_transition, Serves-changed, Serves-handle_step_failure, Serves-if, Serves-lift,
  Serves-next,
}

module _ (w : World) where
  Serves-mark_waiting_human :
      (run : Run) (st : StepState) (s : System)
      → IsFiledSystem s
      → Serves run.id s (mark_waiting_human w run st s)
  unfolding mark_waiting_human Kernel.waiting_run
  Serves-mark_waiting_human run st s filed =
      Serves-changed w 4 run.id (Kernel.waiting_run st) s (λ x. refl) filed

  Serves-settle :
      (run : Run) (step : Step) (st : StepState) (s : System)
      → IsFiledSystem s
      → run_at run.id s ≡ some run
      → Serves run.id s (settle w run step st s)
  unfolding settle
  Serves-settle run step st s filed at = by_status st.status
    where
      by_status :
          (x : StepStatus)
          → Serves run.id s (
              let m : Act Run = (elim x [
                | StepStatus.waiting_human ↦ mark_waiting_human w run st
                | StepStatus.failed ↦ handle_step_failure w run st step
                | StepStatus.completed ↦ advance_transition w run step
                | _ ↦ pure run
              ]) in
              m s)
      by_status StepStatus.waiting_human = Serves-mark_waiting_human run st s filed
      by_status StepStatus.failed = Serves-handle_step_failure w run st step s filed
      by_status StepStatus.completed = Serves-advance_transition w run step s filed
      by_status _ = Serves-pure run.id s run filed at

  mark_step_running-id :
      (again : Bool) (id : String) (x y : Run)
      → mark_step_running again w.now id x ≡ ok y
      → y.id ≡ x.id
  unfolding mark_step_running
  mark_step_running-id again id x y h = ground arith

  Serves-run_step :
      (execute : Execution) (id : String) (def : Definition) (step : Step) (s : System)
      → IsFiledSystem s
      → Serves id s (run_step w execute id def step s)
  unfolding run_step apply_step_result
  Serves-run_step execute id def step s filed =
      let first =
        Serves-update_run w 2 id (mark_step_running false w.now step.id) s
          (mark_step_running-id false step.id) filed in
      Serves-proceed id s (update_run w 2 id (mark_step_running false w.now step.id) s) _
        first.keeps
        λ running e.
          Serves-next id _ _ _
            (Serves-update_run w 3 id
              (apply_step_result step.id (outcome (execute running def step)) w.now) _
              (λ x y k. ap (λ (r : Run). r.id) (sym (ok-inj k))) first.keeps.filed)
            λ after s2 f2 at. Serves-settle after step (step_state after step.id) s2 f2 at

  Serves-advance_step :
      (execute : Execution) (run : Run) (def : Definition) (step : Step) (s : System)
      → IsFiledSystem s
      → run_at run.id s ≡ some run
      → Serves run.id s (advance_step w execute run.id run def step s)
  unfolding advance_step
  Serves-advance_step execute run def step s filed at = by_status (step_state run step.id).status
    where
      by_status :
          (x : StepStatus)
          → Serves run.id s (
              let m : Act Run = (elim x [
                | StepStatus.completed ↦ advance_transition w run step
                | StepStatus.failed ↦ pure run
                | StepStatus.waiting_human ↦ mark_waiting_human w run (step_state run step.id)
                | _ ↦ run_step w execute run.id def step
              ]) in
              m s)
      by_status StepStatus.completed = Serves-advance_transition w run step s filed
      by_status StepStatus.failed = Serves-pure run.id s run filed at
      by_status StepStatus.waiting_human =
          Serves-mark_waiting_human run (step_state run step.id) s filed
      by_status _ = Serves-run_step execute run.id def step s filed

  -- Finding the definition leaves the runs alone.
  pub resolve_definition_by_id-runs :
      (run : Run) (s : System) → (resolve_definition_by_id w run s).1.runs ≡ s.runs
  unfolding resolve_definition_by_id load_saved
  resolve_definition_by_id-runs run s = ground arith

  Serves-advance_current :
      (execute : Execution) (run : Run) (s : System)
      → IsFiledSystem s
      → run_at run.id s ≡ some run
      → Serves run.id s (advance_current w execute run.id run s)
  unfolding advance_current complete
  Serves-advance_current execute run s filed at =
      let same = resolve_definition_by_id-runs run s in
      Serves-if run.id s (trim run.current_step_id == "") (complete w run) _
        (Serves-changed w 4 run.id Kernel.completed_run s (λ x. refl) filed)
        (Serves-proceed run.id s (resolve_definition_by_id w run s) _
          (record {
            filed = λ id r h. filed id r (ap (Dict.lookup id) (sym same) ∙ h);
            others = λ j n. ap (Dict.lookup j) same;
          })
          λ def e.
            Serves-lift run.id _ (present (step_by_id run.current_step_id def.steps)) _
              (λ id r h. filed id r (ap (Dict.lookup id) (sym same) ∙ h))
              λ step.
                Serves-advance_step execute run def step _
                  (λ id r h. filed id r (ap (Dict.lookup id) (sym same) ∙ h))
                  (ap (Dict.lookup run.id) same ∙ at))

  pub Serves-advance_run :
      (execute : Execution) (run : Run) (s : System)
      → IsFiledSystem s
      → run_at run.id s ≡ some run
      → Serves run.id s (advance_run w execute run.id run s)
  unfolding advance_run
  Serves-advance_run execute run s filed at = by_status run.status
    where
      by_status :
          (x : RunStatus)
          → Serves run.id s (
              let m : Act Run = (elim x [
                | RunStatus.completed ↦ pure run
                | RunStatus.failed ↦ pure run
                | RunStatus.canceled ↦ pure run
                | RunStatus.waiting_human ↦ pure run
                | _ ↦ advance_current w execute run.id run
              ]) in
              m s)
      by_status RunStatus.completed = Serves-pure run.id s run filed at
      by_status RunStatus.failed = Serves-pure run.id s run filed at
      by_status RunStatus.canceled = Serves-pure run.id s run filed at
      by_status RunStatus.waiting_human = Serves-pure run.id s run filed at
      by_status _ = Serves-advance_current execute run s filed at
