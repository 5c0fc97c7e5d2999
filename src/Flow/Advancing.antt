-- ===== src/Flow/Advancing.antt =====
-- `Advance` of kernel.go as a whole, and a second call after the first.
use mathlib.Core.Path.{subst}
use xira.Shared.{ℕ, String, Bool, true, false, ◌≡◌, sym, ap, ◌∙◌, some, arith, ◌==◌}
use xira.Shared.Dict.{string_eq}
use xira.Shared.Result.{ok}
use xira.Shared.Exec.{proceed, lift, ◌>>=◌, ◌>>◌}
use xira.Flow.Run.{RunStatus, Run}
use xira.Flow.Store.{World, System, get_run, read_run, found_run, validate_flow_run_id}
use xira.Flow.Kernel.{Execution, advance, advance_run, configured}
use xira.Flow.Keeping.{run_at, IsFiledSystem, Serves, Serves-proceed, Keeps-same}
use xira.Flow.Serving.{Serves-lift}
use xira.Flow.Stepping.{Serves-advance_run}

pub get_run-ok :
    (w : World) (n : ℕ) (id : String) (s : System) (r : Run)
    → (get_run w n id s).0 ≡ ok r
    → run_at id s ≡ some r
unfolding get_run read_run found_run
get_run-ok w n id s r h = ground arith

Serves-advance :
    (w : World) (id : String) (s : System) → IsFiledSystem s → Serves id s (advance w id s)
unfolding advance get_run
Serves-advance w id s filed = Serves-lift id s (configured w.executor) _ filed λ execute.
    Serves-lift id s (validate_flow_run_id id) _ filed λ _.
      Serves-proceed id s (get_run w 0 id s) _ (Keeps-same id s _ filed) λ run e.
        let at = get_run-ok w 0 id s run e in
        let same : run.id ≡ id = filed id run at in
        subst (λ k. Serves k s (advance_run w execute k run s)) same
          (Serves-advance_run w execute run s filed (ap (λ k. run_at k s) same ∙ at))

-- On a system whose files each hold the run of their own id, what `Advance` returns is what is
-- stored under the id, the files of all other runs are as they were, and each file still holds the
-- run of its own id, whatever the executor, the policy and the disk do.
pub advance-stored :
    (w : World) (id : String) (s : System) {r : Run} {s' : System}
    → IsFiledSystem s
    → advance w id s ≡ (ok r, s')
    → (run_at id s' ≡ some r)
      × IsFiledSystem s'
      × ((j : String) → (id == j) ≡ false → run_at j s' ≡ run_at j s)
advance-stored w id s {r} {s'} filed h =
    let v = Serves-advance w id s filed in
    let out : (advance w id s).1 ≡ s' = ap (λ x. x.1) h in
    (
      subst (λ t. run_at id t ≡ some r) out (v.returns r (ap (λ x. x.0) h)),
      subst IsFiledSystem out v.keeps.filed,
      (λ j n. ap (run_at j) (sym out) ∙ v.keeps.others j n),
    )

-- A run that is over, or waits for a person.
unfoldable pub is_stopped : RunStatus → Bool
is_stopped RunStatus.completed = true
is_stopped RunStatus.failed = true
is_stopped RunStatus.canceled = true
is_stopped RunStatus.waiting_human = true
is_stopped _ = false

advance_run-stopped :
    (w : World) (execute : Execution) (id : String) (run : Run) (s : System)
    → is_stopped run.status ≡ true
    → advance_run w execute id run s ≡ (ok run, s)
unfolding advance_run is_stopped
advance_run-stopped w execute id run s h = ground arith

-- A kernel that has an executor, is not canceled, and can read the run's file.
pub record CanAdvance (w : World) : Type 0 where
  pub execute : Execution
  pub configured_with : w.executor ≡ some execute
  pub live : w.canceled 0 ≡ false
  pub readable : w.read_fails 0 ≡ false

advance_valid :
    (w : World) (id : String) (s : System) {r : Run} {s' : System}
    → advance w id s ≡ (ok r, s')
    → validate_flow_run_id id ≡ ok tt
unfolding advance configured
advance_valid w id s h = ground arith

pub get_run-found :
    (w : World)
    → w.canceled 0 ≡ false
    → w.read_fails 0 ≡ false
    → (id : String) (s : System) (r : Run) → validate_flow_run_id id ≡ ok tt
    → run_at id s ≡ some r
    → get_run w 0 id s ≡ (ok r, s)
unfolding get_run read_run found_run
get_run-found w live readable id s r v at = ground arith

-- On a system whose files each hold the run of their own id, once `Advance` has returned a run that
-- is over or waits for a person, advancing it again, by any kernel that has an executor, is not
-- canceled and can read the file, returns the same run and changes nothing.
pub advance-advance :
    (w : World) (id : String) (s : System) {r : Run} {s' : System}
    → IsFiledSystem s
    → advance w id s ≡ (ok r, s')
    → is_stopped r.status ≡ true
    → (w' : World) → CanAdvance w'
    → advance w' id s' ≡ (ok r, s')
unfolding advance configured
advance-advance w id s {r} {s'} filed h stopped w' c =
    let (at, filed', _) = advance-stored w id s filed h in
    let v = advance_valid w id s h in
    ap
      (λ x.
        proceed x
          (λ execute. do
            lift (validate_flow_run_id id)
            run ← get_run w' 0 id
            advance_run w' execute id run)
          s')
      (ap configured c.configured_with)
    ∙ ap (λ x. proceed x (λ _. do run ← get_run w' 0 id; advance_run w' c.execute id run) s') v
    ∙ ap (λ p. proceed p.0 (advance_run w' c.execute id) p.1)
        (get_run-found w' c.live c.readable id s' r v at)
    ∙ advance_run-stopped w' c.execute id r s' stopped
