-- ===== src/Flow/Resuming.antt =====
-- `Resume` of kernel_resume.go as a whole, and a second call after the first.
use mathlib.Core.Path.{subst}
use xira.Shared.{String, true, false, not, ◌≡◌, ◌≢◌, sym, ap, ◌∙◌, some, arith, ◌==◌, eq_iff}
use xira.Shared.Strings.{trim}
use xira.Shared.Dict
use xira.Shared.Dict.{string_eq}
use xira.Shared.Result.{ok, guard}
use xira.Shared.Exec.{proceed, pure, lift, ◌>>=◌, ◌>>◌}
use xira.Flow.Run.{RunStatus, Run, ResolvedHumanRequest, FlowError}
use xira.Flow.Definition.{step_by_id}
use xira.Flow.Store.{World, System, Act, get_run, validate_flow_run_id}
use xira.Flow.Expressions.{present}
use xira.Flow.Kernel.{resolve_definition_by_id}
use xira.Flow.Resume.{resume, resume_run, resume_waiting, resume_source, linked_request}
use xira.Flow.Keeping.{run_at, IsFiledSystem, Serves, Serves-proceed, Serves-pure, Keeps-same}
use xira.Flow.Serving.{Serves-lift}
use xira.Flow.Stepping.{resolve_definition_by_id-runs}
use xira.Flow.Advancing.{get_run-ok, get_run-found}
use xira.Flow.Following.{Serves-resume_source}

module _ (w : World) where
  linked_request-same :
      (run : Run) (request_id : String) (s : System) → (linked_request w run request_id s).1 ≡ s
  unfolding linked_request
  linked_request-same run request_id s = ground arith

  Serves-resume_waiting :
      (run : Run) (request_id : String) (s : System)
      → IsFiledSystem s
      → Serves run.id s (resume_waiting w run request_id s)
  unfolding resume_waiting
  Serves-resume_waiting run request_id s filed =
      let kept = linked_request-same run request_id s in
      Serves-proceed run.id s (linked_request w run request_id s) _
        (record {
          filed = subst IsFiledSystem (sym kept) filed;
          others = λ j n. ap (run_at j) kept;
        })
        λ x e. after_request x _ (subst IsFiledSystem (sym kept) filed)
    where
      after_request :
          (x : ResolvedHumanRequest) (s1 : System)
          → IsFiledSystem s1
          → Serves run.id s1 (
              let m : Act Run = (do
                def ← resolve_definition_by_id w run
                step ← lift (present (step_by_id run.current_step_id def.steps))
                resume_source w run step x) in
              m s1)
      after_request x s1 f1 =
          let same = resolve_definition_by_id-runs w run s1 in
          let f2 : IsFiledSystem (resolve_definition_by_id w run s1).1 =
            λ id r h. f1 id r (ap (Dict.lookup id) (sym same) ∙ h) in
          Serves-proceed run.id s1 (resolve_definition_by_id w run s1) _
            (record { filed = f2; others = λ j n. ap (Dict.lookup j) same })
            λ def e.
              Serves-lift run.id _ (present (step_by_id run.current_step_id def.steps)) _ f2
                λ step. Serves-resume_source w run step x _ f2

  Serves-resume_run :
      (run : Run) (request_id : String) (s : System)
      → IsFiledSystem s
      → run_at run.id s ≡ some run
      → Serves run.id s (resume_run w run request_id s)
  unfolding resume_run
  Serves-resume_run run request_id s filed at = by_status run.status
    where
      by_status :
          (x : RunStatus)
          → Serves run.id s (
              let m : Act Run = (elim x [
                | RunStatus.waiting_human ↦ resume_waiting w run request_id
                | _ ↦ pure run
              ]) in
              m s)
      by_status RunStatus.waiting_human = Serves-resume_waiting run request_id s filed
      by_status _ = Serves-pure run.id s run filed at

  Serves-resume :
      (id request_id : String) (s : System)
      → IsFiledSystem s
      → Serves id s (resume w id request_id s)
  unfolding resume get_run
  Serves-resume id request_id s filed =
      Serves-lift id s (guard (not (trim request_id == "")) FlowError.validation) _ filed λ _.
        Serves-lift id s (validate_flow_run_id id) _ filed λ _.
          Serves-proceed id s (get_run w 0 id s) _ (Keeps-same id s _ filed) λ run e.
            let at = get_run-ok w 0 id s run e in
            let same : run.id ≡ id = filed id run at in
            subst (λ k. Serves k s (resume_run w run request_id s)) same
              (Serves-resume_run run request_id s filed (ap (λ k. run_at k s) same ∙ at))

-- On a system whose files each hold the run of their own id, what `Resume` returns is what is stored
-- under the id, the files of all other runs are as they were, and each file still holds the run of
-- its own id, whatever the request's response, the agent and the disk do.
pub resume-stored :
    (w : World) (id request_id : String) (s : System) {r : Run} {s' : System}
    → IsFiledSystem s
    → resume w id request_id s ≡ (ok r, s')
    → (run_at id s' ≡ some r)
      × IsFiledSystem s'
      × ((j : String) → (id == j) ≡ false → run_at j s' ≡ run_at j s)
resume-stored w id request_id s {r} {s'} filed h =
    let v = Serves-resume w id request_id s filed in
    let out : (resume w id request_id s).1 ≡ s' = ap (λ x. x.1) h in
    (
      subst (λ t. run_at id t ≡ some r) out (v.returns r (ap (λ x. x.0) h)),
      subst IsFiledSystem out v.keeps.filed,
      (λ j n. ap (run_at j) (sym out) ∙ v.keeps.others j n),
    )

resume_run-moved :
    (w : World) (run : Run) (request_id : String) (s : System)
    → run.status ≢ RunStatus.waiting_human
    → resume_run w run request_id s ≡ (ok run, s)
unfolding resume_run
resume_run-moved w run request_id s n = ground arith

resume_valid :
    (w : World) (id request_id : String) (s : System) {r : Run} {s' : System}
    → resume w id request_id s ≡ (ok r, s')
    → validate_flow_run_id id ≡ ok tt
unfolding resume
resume_valid w id request_id s h = ground arith

-- On a system whose files each hold the run of their own id, once `Resume` has returned a run that
-- no longer waits for a person, resuming it again, for any request whose id is not blank, by any
-- kernel that is not canceled and can read the file, returns the same run and changes nothing.
pub resume-resume :
    (w : World) (id request_id : String) (s : System) {r : Run} {s' : System}
    → IsFiledSystem s
    → resume w id request_id s ≡ (ok r, s')
    → r.status ≢ RunStatus.waiting_human
    → (w' : World) (again : String) → trim again ≢ ""
    → w'.canceled 0 ≡ false
    → w'.read_fails 0 ≡ false
    → resume w' id again s' ≡ (ok r, s')
unfolding resume
resume-resume w id request_id s {r} {s'} filed h moved w' again given live readable =
    let (at, filed', _) = resume-stored w id request_id s filed h in
    let v = resume_valid w id request_id s h in
    let blank : not (trim again == "") ≡ true = ground (arith, eq_iff (trim again) "") in
    ap
      (λ x.
        proceed (guard x FlowError.validation)
          (λ _. do lift (validate_flow_run_id id); run ← get_run w' 0 id; resume_run w' run again)
          s')
      blank
    ∙ ap (λ x. proceed x (λ _. do run ← get_run w' 0 id; resume_run w' run again) s') v
    ∙ ap (λ p. proceed p.0 (λ run. resume_run w' run again) p.1)
        (get_run-found w' live readable id s' r v at)
    ∙ resume_run-moved w' r again s' moved
