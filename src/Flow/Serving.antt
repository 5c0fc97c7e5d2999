-- ===== src/Flow/Serving.antt =====
-- What the transitions of kernel.go do to the run files.
use xira.Shared.{
  ℕ, String, Bool, true, false, ◌≡◌, refl, sym, ap, ◌∙◌, Option, none, some, if◌then◌else◌, ◌==◌,
  ltb,
}
use xira.Shared.Dict.{string_eq}
use mathlib.Core.Path.{subst}
use xira.Shared.Result.{Result, ok, err}
use xira.Shared.Exec.{proceed}
use xira.Flow.Types.{Step, RetryPolicy}
use xira.Flow.Run.{StepState, Run, FlowError}
use xira.Flow.Store.{World, System, Act, update_run}
use xira.Flow.Kernel
use xira.Flow.Kernel.{
  Execution, advance, advance_run, advance_current, advance_step, advance_transition,
  take_transition, resolve_next, fail_transition, complete, mark_failed, mark_waiting_human,
  handle_step_failure, give_up, schedule_retry, route_after_failure, run_step, settle, outcome,
  apply_step_result, resolve_definition_by_id, load_saved, defined_by, configured, allowed,
  lookup_saved,
}
use xira.Flow.Keeping.{
  run_at, IsFiledSystem, Serves, Serves-err, Serves-proceed, Serves-update_run, ok-inj,
}

-- A next call on the run that the first one returned.
pub Serves-next :
    (id : String) (s : System) (p : Result FlowError Run × System) (f : Run → Act Run)
    → Serves id s p
    → ((r : Run) (s' : System)
        → IsFiledSystem s'
        → run_at r.id s' ≡ some r
        → Serves r.id s' (f r s'))
    → Serves id s (proceed p.0 f p.1)
Serves-next id s p f v g = Serves-proceed id s p f v.keeps λ r e.
    let at = v.returns r e in
    let same : r.id ≡ id = v.keeps.filed id r at in
    subst (λ k. Serves k p.1 (f r p.1)) same
      (g r p.1 v.keeps.filed (ap (λ k. run_at k p.1) same ∙ at))

-- A first call that leaves the system alone.
pub Serves-lift :
    {A : Type 0} (id : String) (s : System) (x : Result FlowError A) (f : A → Act Run)
    → IsFiledSystem s
    → ((a : A) → Serves id s (f a s))
    → Serves id s (proceed x f s)
Serves-lift id s (ok a) f filed g = g a
Serves-lift id s (err e) f filed g = Serves-err id s e filed

pub Serves-if :
    (id : String) (s : System) (b : Bool) (m k : Act Run)
    → Serves id s (m s)
    → Serves id s (k s)
    → Serves id s ((if b then m else k) s)
Serves-if id s true m k p q = p
Serves-if id s false m k p q = q

module _ (w : World) where
  pub Serves-changed :
      (n : ℕ) (id : String) (g : Run → Run) (s : System)
      → ((x : Run) → (g x).id ≡ x.id)
      → IsFiledSystem s
      → Serves id s (update_run w n id (λ r. ok (g r)) s)
  Serves-changed n id g s same filed =
      Serves-update_run w n id (λ r. ok (g r)) s
        (λ x y e. ap (λ (r : Run). r.id) (sym (ok-inj e)) ∙ same x) filed

  pub Serves-take_transition :
      (run : Run) (step : Step) (x : Result FlowError String) (s : System)
      → IsFiledSystem s
      → Serves run.id s (take_transition w run step x s)
  unfolding take_transition fail_transition complete Kernel.unresolved_run Kernel.moved_run
  Serves-take_transition run step (ok next) s filed = by_end (next == "")
    where
      by_end :
          (b : Bool)
          → Serves run.id s (
              (if b
                  then complete w run
                  else update_run w 4 run.id (λ r. ok (Kernel.moved_run next r)))
                s)
      by_end true = Serves-changed 4 run.id Kernel.completed_run s (λ x. refl) filed
      by_end false = Serves-changed 4 run.id (Kernel.moved_run next) s (λ x. refl) filed
  Serves-take_transition run step (err e) s filed =
      Serves-proceed run.id s _ _
        (Serves-changed 4 run.id (Kernel.unresolved_run step.id (w.describe e)) s (λ x. refl)
          filed).keeps
        λ a h.
          Serves-err run.id _ e
            (Serves-changed 4 run.id (Kernel.unresolved_run step.id (w.describe e)) s (λ x. refl)
              filed).keeps.filed

  pub Serves-advance_transition :
      (run : Run) (step : Step) (s : System)
      → IsFiledSystem s
      → Serves run.id s (advance_transition w run step s)
  unfolding advance_transition
  Serves-advance_transition run step s filed =
      Serves-take_transition run step (resolve_next w run step) s filed

  Serves-route_after_failure :
      (run : Run) (next : String) (s : System)
      → IsFiledSystem s
      → Serves run.id s (route_after_failure w run next s)
  unfolding route_after_failure Kernel.routed_run Kernel.moved_run
  Serves-route_after_failure run next s filed =
      Serves-changed 4 run.id (Kernel.routed_run next) s (λ x. refl) filed

  pub Serves-mark_failed :
      (run : Run) (s : System) → IsFiledSystem s → Serves run.id s (mark_failed w run s)
  unfolding mark_failed
  Serves-mark_failed run s filed = Serves-changed 4 run.id Kernel.failed_run s (λ x. refl) filed

  Serves-give_up :
      (run : Run) (step : Step) (s : System)
      → IsFiledSystem s
      → Serves run.id s (give_up w run step s)
  unfolding give_up
  Serves-give_up run step s filed = by_route (step.transitions.on_failure == "")
    where
      by_route :
          (b : Bool)
          → Serves run.id s (
              (if b
                  then mark_failed w run
                  else route_after_failure w run step.transitions.on_failure)
                s)
      by_route true = Serves-mark_failed run s filed
      by_route false = Serves-route_after_failure run step.transitions.on_failure s filed

  pub Serves-handle_step_failure :
      (run : Run) (st : StepState) (step : Step) (s : System)
      → IsFiledSystem s
      → Serves run.id s (handle_step_failure w run st step s)
  unfolding handle_step_failure schedule_retry Kernel.retried_run
  Serves-handle_step_failure run st step s filed = by_retry step.retry
    where
      by_retry :
          (o : Option RetryPolicy)
          → Serves run.id s (
              let m : Act Run = (elim o [
                | none ↦ give_up w run step
                | some retry ↦
                    if ltb st.attempts (allowed retry.max_attempts)
                    then schedule_retry w run step.id
                    else if retry.on_exhausted == ""
                    then give_up w run step
                    else route_after_failure w run retry.on_exhausted
              ]) in
              m s)
      by_retry none = Serves-give_up run step s filed
      by_retry (some retry) =
          Serves-if run.id s (ltb st.attempts (allowed retry.max_attempts))
            (schedule_retry w run step.id) _
            (Serves-changed 4 run.id (Kernel.retried_run step.id) s (λ x. refl) filed)
            (Serves-if run.id s (retry.on_exhausted == "") (give_up w run step)
              (route_after_failure w run retry.on_exhausted) (Serves-give_up run step s filed)
              (Serves-route_after_failure run retry.on_exhausted s filed))
