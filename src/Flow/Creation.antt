-- ===== src/Flow/Creation.antt =====
-- `CreateRun` and `SaveDefinition` of store.go: the run that comes back, and the files after.
use xira.Shared.{
  ℕ, String, Bool, not, none, true, false, ◌≡◌, refl, sym, ap, ◌∙◌, some, ◌==◌, arith,
  if◌then◌else◌,
}
use xira.Shared.Dict
use xira.Shared.Dict.{string_eq, lookup-insert_self}
use xira.Shared.Result
use xira.Shared.Result.{Result, ok, err, guard}
use xira.Shared.Exec.{proceed}
use xira.Flow.Types.{Definition}
use xira.Flow.Run.{Run, FlowError}
use xira.Flow.Store.{World, System, Act, read_run, found_run, written_run, validate_flow_run_id}
use xira.Flow.Keeping.{run_at, IsFiledSystem, Serves, Serves-err, Serves-pure, put_run, ok-inj}
use xira.Flow.Serving.{Serves-lift}
use xira.Flow.Start.{
  StartRequest, CreateRunRequest, new_run, chosen_id, may_create, writable, create_at, create_run,
  save_definition, register_definition, resolve_definition,
}

-- The first of two steps that succeed together.
pub proceed-ok :
    {A B : Type 0} {b : B} {s' : System} (p : Result FlowError A × System) (f : A → Act B)
    → proceed p.0 f p.1 ≡ (ok b, s')
    → (a : A) × (p.0 ≡ ok a) × (f a p.1 ≡ (ok b, s'))
proceed-ok (ok a, s) f h = (a, refl, h)
proceed-ok (err e, s) f h = cc

pub writable-ok : (w : World) (n : ℕ) (q r : Run) → writable w n q ≡ ok r → r ≡ q
unfolding writable
writable-ok w n q r h =
    guarded (validate_flow_run_id q.id) (guard (not (w.write_fails n)) FlowError.io) h
  where
    guarded :
        (v u : Result FlowError (Unit {0})) → Result.◌>>◌ v (Result.◌>>◌ u (ok q)) ≡ ok r → r ≡ q
    guarded (ok _) (ok _) h = sym (ok-inj h)
    guarded (err e) u h = cc
    guarded (ok _) (err e) h = cc

Serves-written :
    (id : String) (s : System) (q : Run) (x : Result FlowError Run)
    → ((r : Run) → x ≡ ok r → r ≡ q)
    → IsFiledSystem s
    → q.id ≡ id
    → Serves id s (written_run x s)
Serves-written id s q (err e) g filed h = unfold written_run in Serves-err id s e filed
Serves-written id s q (ok r) g filed h =
    put_run id s r filed (ap (λ (x : Run). x.id) (g r refl) ∙ h)

Serves-existing :
    (id : String) (s : System) (b : Bool) (r : Run)
    → IsFiledSystem s
    → run_at id s ≡ some r
    → Serves id s (if b then (ok r, s) else (err FlowError.conflict, s))
Serves-existing id s true r filed at = Serves-pure id s r filed at
Serves-existing id s false r filed at = Serves-err id s FlowError.conflict filed

Serves-create_at :
    (w : World) (n : ℕ) (id : String) (req : CreateRunRequest) (s : System)
    (x : Result FlowError Run)
    → ((r : Run) → x ≡ ok r → run_at id s ≡ some r)
    → IsFiledSystem s
    → Serves id s (create_at w n id req x s)
unfolding create_at
Serves-create_at w n id req s (ok r) at filed =
    Serves-existing id s (r.flow_id == req.flow_id) r filed (at r refl)
Serves-create_at w n id req s (err FlowError.not_found) at filed =
    Serves-written id s (new_run w.now id req) (writable w n (new_run w.now id req))
      (writable-ok w n (new_run w.now id req)) filed refl
Serves-create_at w n id req s (err e) at filed = Serves-err id s e filed

pub read_run-ok :
    (w : World) (n : ℕ) (id : String) (s : System) (r : Run)
    → read_run w n id s ≡ ok r
    → run_at id s ≡ some r
unfolding read_run found_run
read_run-ok w n id s r h = ground arith

-- The run that `CreateRun` returns is the one under the id chosen for it.
pub Serves-create_run :
    (w : World) (n : ℕ) (fresh : String) (req : CreateRunRequest) (s : System)
    → IsFiledSystem s
    → Serves (chosen_id fresh req) s (create_run w n fresh req s)
unfolding create_run
Serves-create_run w n fresh req s filed =
    Serves-lift (chosen_id fresh req) s (may_create w n req) _ filed λ _.
      Serves-create_at w n (chosen_id fresh req) req s (read_run w n (chosen_id fresh req) s)
        (read_run-ok w n (chosen_id fresh req) s) filed

pub runs-resolve_definition :
    (w : World) (load : String → Result FlowError Definition) (req : StartRequest) (s : System)
    → (resolve_definition w load req s).1.runs ≡ s.runs
unfolding resolve_definition register_definition
runs-resolve_definition w load req s = ground arith

pub runs-save_definition :
    (w : World) (n : ℕ) (id : String) (def : Definition) (s : System)
    → (save_definition w n id def s).1.runs ≡ s.runs
unfolding save_definition
runs-save_definition w n id def s = ground arith

pub IsFiled-same : (s t : System) → t.runs ≡ s.runs → IsFiledSystem s → IsFiledSystem t
IsFiled-same s t e filed id r at = filed id r (ap (Dict.lookup id) (sym e) ∙ at)

written-new :
    (x : Result FlowError Run) (s : System) (q r : Run)
    → ((y : Run) → x ≡ ok y → y ≡ q)
    → (written_run x s).0 ≡ ok r
    → r ≡ q
unfolding written_run
written-new (ok y) s q r f h = f r h
written-new (err e) s q r f h = cc

create_at-new :
    (w : World) (n : ℕ) (id : String) (req : CreateRunRequest) (s : System)
    (x : Result FlowError Run) (r : Run)
    → ((q : Run) → ¬ (x ≡ ok q))
    → (create_at w n id req x s).0 ≡ ok r
    → r ≡ new_run w.now id req
unfolding create_at
create_at-new w n id req s (ok q) r f h = elim (f q refl) [ ]
create_at-new w n id req s (err FlowError.not_found) r f h =
    written-new (writable w n (new_run w.now id req)) s (new_run w.now id req) r
      (writable-ok w n (new_run w.now id req)) h
create_at-new w n id req s (err e) r f h = cc

checked-ok :
    (x : Result FlowError (Unit {0})) (f : Unit {0} → Act Run) (s : System) (r : Run)
    → (proceed x f s).0 ≡ ok r
    → (f tt s).0 ≡ ok r
checked-ok (ok _) f s r h = h
checked-ok (err e) f s r h = cc

-- Where no run has the id, `CreateRun` makes a new one.
pub create_run-new :
    (w : World) (n : ℕ) (fresh : String) (req : CreateRunRequest) (s : System) (r : Run)
    → run_at (chosen_id fresh req) s ≡ none
    → (create_run w n fresh req s).0 ≡ ok r
    → r ≡ new_run w.now (chosen_id fresh req) req
unfolding create_run
create_run-new w n fresh req s r free h =
    let id = chosen_id fresh req in
    create_at-new w n id req s (read_run w n id s) r
      (λ q e. let at = read_run-ok w n id s q e in cc) (checked-ok (may_create w n req) _ s r h)
