-- ===== src/Flow/Recording.antt =====
-- The accesses of `Start` of kernel.go to the store that follow the creation of its run.
use mathlib.Core.Path.{subst}
use xira.Shared.{ℕ, String, not, ◌≡◌, refl, sym, ap, ◌∙◌, some}
use xira.Shared.Dict
use xira.Shared.Dict.{string_eq, lookup-insert_self}
use xira.Shared.Result.{Result, ok, err, guard}
use xira.Shared.Exec.{lift, ◌>>=◌, ◌>>◌}
use xira.Flow.Types.{Definition}
use xira.Flow.Run.{RunStatus, StepStatus, no_state, Run, FlowError}
use xira.Flow.Store.{
  World, System, Act, get_run, update_run, written_run, updated_run, validate_flow_run_id,
}
use xira.Flow.Keeping.{run_at, IsFiledSystem, Serves-update_run, updated_run-ok, ok-inj}
use xira.Flow.Advancing.{get_run-ok}
use xira.Flow.Start.{save_definition, register_definition, begin_run}
use xira.Flow.Creation.{proceed-ok, runs-save_definition, IsFiled-same}

get_run-same :
    (w : World) (n : ℕ) (id : String) (s s' : System) (r : Run)
    → get_run w n id s ≡ (ok r, s')
    → (run_at id s' ≡ some r) × (s' ≡ s)
unfolding get_run
get_run-same w n id s s' r h =
    let same : s ≡ s' = ap (λ x. x.1) h in
    (subst (λ t. run_at id t ≡ some r) same (get_run-ok w n id s r (ap (λ x. x.0) h)), sym same)

-- The run as the start leaves it, from the one it has created.
abbrev pub begun_from : World → String → Run → Run
begun_from w step old = record old {
  status = RunStatus.running;
  steps = Dict.insert step (record no_state { status = StepStatus.pending }) old.steps;
  updated_at = w.now;
}

begin_run-id : (step : String) (old made : Run) → begin_run step old ≡ ok made → made.id ≡ old.id
unfolding begin_run
begin_run-id step old made h = ap (λ (r : Run). r.id) (sym (ok-inj h))

begin_run-begun :
    (w : World) (step : String) (old made : Run)
    → begin_run step old ≡ ok made
    → record made { updated_at = w.now } ≡ begun_from w step old
unfolding begin_run
begin_run-begun w step old made h =
    ap (λ (r : Run). record r { updated_at = w.now }) (sym (ok-inj h))

written_run-ok :
    (x : Result FlowError Run) (s : System) (r : Run) → (written_run x s).0 ≡ ok r → x ≡ ok r
unfolding written_run
written_run-ok (ok q) s r h = h
written_run-ok (err e) s r h = cc

some-inj : {a b : Run} → some a ≡ some b → a ≡ b
some-inj h = cc

updated-begin_run :
    (w : World) (id step : String) (s : System) (u old : Run)
    → run_at id s ≡ some old
    → (update_run w 2 id (begin_run step) s).0 ≡ ok u
    → u ≡ begun_from w step old
unfolding update_run
updated-begin_run w id step s u old held h =
    let (found, made, at, made_by, eq) =
      updated_run-ok w 2 id (begin_run step) s u
        (written_run-ok (updated_run w 2 id (begin_run step) s) s u h) in
    eq
    ∙ begin_run-begun w step found made made_by
    ∙ ap (begun_from w step) (some-inj (sym at ∙ held))

saved-update_run :
    (w : World) (n : ℕ) (id : String) (f : Run → Result FlowError Run) (s : System)
    → (update_run w n id f s).1.saved ≡ s.saved
unfolding update_run written_run
saved-update_run w n id f s = written (updated_run w n id f s)
  where
    written : (x : Result FlowError Run) → (written_run x s).1.saved ≡ s.saved
    written (ok r) = refl
    written (err e) = refl

-- What a start returns and stores, by the run that it created.
record IsRecorded (w : World) (id step : String) (old run : Run) (s s' : System) : Type 0 where
  stored : run_at id s' ≡ some run
  started_from : run ≡ begun_from w step old
  saved : s'.saved ≡ s.saved

-- The last two accesses of a start.
begun :
    (w : World) (id step : String) (s : System) (old : Run) {run : Run} {s' : System}
    → IsFiledSystem s
    → run_at id s ≡ some old
    → (update_run w 2 id (begin_run step) >>= λ _. get_run w 3 id) s ≡ (ok run, s')
    → IsRecorded w id step old run s s'
begun w id step s old {run} {s'} filed held h =
    let (u, made_ok, last) = proceed-ok (update_run w 2 id (begin_run step) s) _ h in
    let (at, same) = get_run-same w 3 id _ s' run last in
    let v = Serves-update_run w 2 id (begin_run step) s (begin_run-id step) filed in
    let eq : u ≡ run = some-inj (sym (v.returns u made_ok) ∙ (ap (run_at id) (sym same) ∙ at)) in
    record {
      stored = at;
      started_from = sym eq ∙ updated-begin_run w id step s u old held made_ok;
      saved = ap (λ (t : System). t.saved) same ∙ saved-update_run w 2 id (begin_run step) s;
    }

-- `SaveDefinition`, when it succeeds.
save_definition-saved :
    (w : World) (id : String) (def : Definition) (s : System) (u : Unit {0})
    → (save_definition w 1 id def s).0 ≡ ok u
    → Dict.lookup id (save_definition w 1 id def s).1.saved ≡ some def
unfolding save_definition
save_definition-saved w id def s u h =
    checked (validate_flow_run_id id) (guard (not (w.write_fails 1)) FlowError.io) h
  where
    put : Act (Unit {0})
    put t = (ok tt, record t { saved = Dict.insert id def t.saved })

    checked :
        (v g : Result FlowError (Unit {0}))
        → ((lift v >> (lift g >> put)) s).0 ≡ ok u
        → Dict.lookup id ((lift v >> (lift g >> put)) s).1.saved ≡ some def
    checked (ok _) (ok _) h = lookup-insert_self id def s.saved
    checked (err e) g h = cc
    checked (ok _) (err e) h = cc

-- The accesses of a start that follow the creation of its run.
pub recorded :
    (w : World) (id step : String) (def : Definition) (s : System) (old : Run) {run : Run}
    {s' : System}
    → IsFiledSystem s
    → run_at id s ≡ some old
    → (save_definition w 1 id def
          >> (register_definition def
              >> (update_run w 2 id (begin_run step) >>= λ _. get_run w 3 id)))
        s
      ≡ (ok run, s')
    → (run_at id s' ≡ some run)
      × (run ≡ begun_from w step old)
      × (Dict.lookup id s'.saved ≡ some def)
unfolding register_definition
recorded w id step def s old filed held h =
    let last = λ (u : Unit {0}). update_run w 2 id (begin_run step) >>= λ _. get_run w 3 id in
    let (u, saved, h1) =
      proceed-ok (save_definition w 1 id def s) (λ u. register_definition def >>= last) h in
    let s1 = (save_definition w 1 id def s).1 in
    let s2 = (register_definition def s1).1 in
    let same : s2.runs ≡ s.runs = runs-save_definition w 1 id def s in
    let (_, kept, h2) = proceed-ok (register_definition def s1) last h1 in
    let v =
      begun w id step s2 old (IsFiled-same s s2 same filed) (ap (Dict.lookup id) same ∙ held) h2 in
    (
      v.stored,
      v.started_from,
      ap (Dict.lookup id) v.saved ∙ save_definition-saved w id def s u saved,
    )
