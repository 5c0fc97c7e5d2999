-- ===== src/Flow/Following.antt =====
-- What the branches of `Resume` of kernel_resume.go do to the run files.
use xira.Shared.{ℕ, String, not, ◌&&◌, refl, Option, none, some, ◌==◌, ◌||◌}
use xira.Shared.Dict.{string_eq}
use xira.Shared.Result.{Result}
use xira.Shared.Exec.{lift, ◌>>=◌}
use xira.Flow.Types.{Step}
use xira.Flow.Run.{StepStatus, Run, ResolvedHumanRequest, FlowError}
use xira.Flow.Store.{World, System, Act, get_run}
use xira.Flow.Kernel.{advance_transition}
use xira.Flow.Resume
use xira.Flow.Resume.{
  resume, resume_run, resume_waiting, resume_source, resume_agent_generated,
  resume_explicit_approval, follow_agent, finish_completed, finish_failed, cancel, linked_request,
  has_branch_for, map_approval_response_to_signal, approved_run, finished_run, canceled_run, denial,
}
use xira.Flow.Keeping.{IsFiledSystem, Serves, Keeps-same}
use xira.Flow.Serving.{
  Serves-lift, Serves-if, Serves-next, Serves-changed, Serves-advance_transition,
  Serves-mark_failed,
}
use xira.Flow.Advancing.{get_run-ok}

module _ (w : World) where
  Serves-cancel :
      (run : Run) (step : Step) (x : ResolvedHumanRequest) (s : System)
      → IsFiledSystem s
      → Serves run.id s (cancel w run step x s)
  unfolding cancel canceled_run Resume.released
  Serves-cancel run step x s filed =
      Serves-changed w 5 run.id (canceled_run step x) s (λ r. refl) filed

  Serves-resume_explicit_approval :
      (run : Run) (step : Step) (x : ResolvedHumanRequest) (s : System)
      → IsFiledSystem s
      → Serves run.id s (resume_explicit_approval w run step x s)
  unfolding resume_explicit_approval approved_run Resume.released
  Serves-resume_explicit_approval run step x s filed =
      let signal = map_approval_response_to_signal w x.response_kind step in
      Serves-next run.id s _ _
        (Serves-changed w 3 run.id (approved_run w step signal) s (λ r. refl) filed)
        λ approved s1 f1 at.
          Serves-if approved.id s1
            (signal == "cancel" && not (has_branch_for step.transitions.branches "cancel"))
            (cancel w approved step x) (advance_transition w approved step)
            (Serves-cancel approved step x s1 f1) (Serves-advance_transition w approved step s1 f1)

  Serves-finish_failed :
      (run : Run) (step : Step) (error : String) (s : System)
      → IsFiledSystem s
      → Serves run.id s (finish_failed w run step error s)
  unfolding finish_failed finished_run Resume.released
  Serves-finish_failed run step error s filed =
      Serves-next run.id s _ _
        (Serves-changed w 3 run.id (finished_run w step StepStatus.failed (some error)) s
          (λ r. refl) filed)
        λ failed s1 f1 at. Serves-mark_failed w failed s1 f1

  Serves-finish_completed :
      (run : Run) (step : Step) (s : System)
      → IsFiledSystem s
      → Serves run.id s (finish_completed w run step s)
  unfolding finish_completed finished_run Resume.released
  Serves-finish_completed run step s filed =
      Serves-next run.id s _ _
        (Serves-changed w 3 run.id (finished_run w step StepStatus.completed none) s (λ r. refl)
          filed)
        λ finished s1 f1 at. Serves-advance_transition w finished step s1 f1

  pub Serves-get_run :
      (n : ℕ) (id : String) (s : System) → IsFiledSystem s → Serves id s (get_run w n id s)
  unfolding get_run
  Serves-get_run n id s filed = record {
    keeps = Keeps-same id s _ filed;
    returns = λ r h. get_run-ok w n id s r h;
  }

  Serves-follow_agent :
      (run : Run) (step : Step) (status : String) (s : System)
      → IsFiledSystem s
      → Serves run.id s (follow_agent w run step status s)
  unfolding follow_agent
  Serves-follow_agent run step status s filed =
      Serves-if run.id s (status == "completed") (finish_completed w run step) _
        (Serves-finish_completed run step s filed)
        (Serves-if run.id s (status == "failed")
          (finish_failed w run step "agent run failed after human response") (get_run w 3 run.id)
          (Serves-finish_failed run step "agent run failed after human response" s filed)
          (Serves-get_run 3 run.id s filed))

  Serves-resume_agent_generated :
      (run : Run) (step : Step) (x : ResolvedHumanRequest) (s : System)
      → IsFiledSystem s
      → Serves run.id s (resume_agent_generated w run step x s)
  unfolding resume_agent_generated
  Serves-resume_agent_generated run step x s filed =
      Serves-if run.id s (x.response_kind == "deny" || x.response_kind == "cancel")
        (finish_failed w run step (denial x)) _ (Serves-finish_failed run step (denial x) s filed)
        (by_hook w.agent_status)
    where
      by_hook :
          (o : Option (Run → Step → Result FlowError String))
          → Serves run.id s (
              let m : Act Run = (elim o [
                | none ↦ get_run w 3 run.id
                | some hook ↦ do status ← lift (hook run step); follow_agent w run step status
              ]) in
              m s)
      by_hook none = Serves-get_run 3 run.id s filed
      by_hook (some hook) =
          Serves-lift run.id s (hook run step) (follow_agent w run step) filed
            λ status. Serves-follow_agent run step status s filed

  pub Serves-resume_source :
      (run : Run) (step : Step) (x : ResolvedHumanRequest) (s : System)
      → IsFiledSystem s
      → Serves run.id s (resume_source w run step x s)
  unfolding resume_source
  Serves-resume_source run step x s filed =
      Serves-if run.id s (x.source == "agent_request") (resume_agent_generated w run step x)
        (resume_explicit_approval w run step x) (Serves-resume_agent_generated run step x s filed)
        (Serves-resume_explicit_approval run step x s filed)
