-- ===== src/Flow/Keeping.antt =====
-- What one access of the store of store.go does to the run files.
use xira.Shared.{
  ℕ, String, false, ◌≡◌, refl, sym, ap, ◌∙◌, Option, none, some, arith, ◌==◌, eq_iff, not,
}
use xira.Shared.Dict
use xira.Shared.Dict.{string_eq, lookup-insert, lookup-insert_self}
use xira.Shared.Result.{Result, ok, err, guard, ◌>>=◌, ◌>>◌}
use xira.Shared.Exec.{proceed}
use xira.Flow.Run.{Run, FlowError}
use xira.Flow.Store.{
  World, System, Act, update_run, updated_run, written_run, read_run, found_run,
  validate_run_artifacts, validate_flow_run_id,
}

abbrev pub run_at : String → System → Option Run
run_at id s = Dict.lookup id s.runs

-- Every run file holds the run of its own id.
abbrev pub IsFiledSystem : System → Type 0
IsFiledSystem s = (id : String) (r : Run) → run_at id s ≡ some r → r.id ≡ id

-- A call on a run from one system to another.
pub record Keeps {A : Type 0} (id : String) (s : System) (p : Result FlowError A × System)
    : Type 0 where
  pub filed : IsFiledSystem p.1
  pub others : (j : String) → (id == j) ≡ false → run_at j p.1 ≡ run_at j s

abbrev pub Returns : String → Result FlowError Run × System → Type 0
Returns id p = (r : Run) → p.0 ≡ ok r → run_at id p.1 ≡ some r

-- A call that keeps the other runs and returns what it stores.
pub record Serves (id : String) (s : System) (p : Result FlowError Run × System) : Type 0 where
  pub keeps : Keeps id s p
  pub returns : Returns id p

abbrev pub okay : {A : Type 0} → A → Result FlowError A
okay a = ok a

pub ok-inj : {A : Type 0} {a b : A} → okay a ≡ ok b → a ≡ b
ok-inj h = cc

pub Keeps-same :
    {A : Type 0} (id : String) (s : System) (x : Result FlowError A)
    → IsFiledSystem s
    → Keeps id s (x, s)
Keeps-same id s x f = record { filed = f; others = λ j n. refl }

pub Serves-err :
    (id : String) (s : System) (e : FlowError) → IsFiledSystem s → Serves id s (err e, s)
Serves-err id s e f = record { keeps = Keeps-same id s (err e) f; returns = λ r h. cc }

pub Serves-pure :
    (id : String) (s : System) (r : Run)
    → IsFiledSystem s
    → run_at id s ≡ some r
    → Serves id s (ok r, s)
Serves-pure id s r f at = record {
  keeps = Keeps-same id s (ok r) f;
  returns = λ q h. at ∙ ap some (ok-inj h);
}

-- One call after another that left the runs alone, or stored the run it returned.
pub Serves-proceed :
    {A : Type 0} (id : String) (s : System) (p : Result FlowError A × System) (f : A → Act Run)
    → Keeps id s p
    → ((a : A) → p.0 ≡ ok a → Serves id p.1 (f a p.1))
    → Serves id s (proceed p.0 f p.1)
Serves-proceed id s (err e, s') f k g = record {
  keeps = record { filed = k.filed; others = k.others };
  returns = λ r h. cc;
}
Serves-proceed id s (ok a, s') f k g =
    let v = g a refl in
    record {
      keeps = record { filed = v.keeps.filed; others = λ j n. v.keeps.others j n ∙ k.others j n };
      returns = v.returns;
    }

checked-ok : (v g u : Result FlowError (Unit {0})) (x r : Run) → (do v; g; u; ok x) ≡ ok r → r ≡ x
checked-ok (ok _) (ok _) (ok _) x r h = sym (ok-inj h)
checked-ok (err e) g u x r h = cc
checked-ok (ok _) (err e) u x r h = cc
checked-ok (ok _) (ok _) (err e) x r h = cc

module _ (v g : Run → Result FlowError (Unit {0})) (u : Result FlowError (Unit {0})) (t : ℕ)
    (r : Run) where
  made-ok :
      (m : Result FlowError Run)
      → (do made ← m; v made; g made; u; ok (record made { updated_at = t })) ≡ ok r
      → (made : Run) × (m ≡ ok made) × (r ≡ record made { updated_at = t })
  made-ok (ok made) h =
      (made, refl, checked-ok (v made) (g made) u (record made { updated_at = t }) r h)
  made-ok (err e) h = cc

  read-ok :
      (a b c : Result FlowError (Unit {0})) (o : Option Run) (f : Run → Result FlowError Run)
      → (do
        a
        b
        old ← (do c; found_run o)
        made ← f old
        v made
        g made
        u
        ok (record made { updated_at = t }))
        ≡ ok r
      → (old made : Run) × (o ≡ some old) × (f old ≡ ok made) × (r ≡ record made { updated_at = t })
  unfolding found_run
  read-ok (ok _) (ok _) (ok _) (some old) f h =
      let (made, p, q) = made-ok (f old) h in (old, made, refl, p, q)
  read-ok (ok _) (ok _) (ok _) none f h = cc
  read-ok (err e) b c o f h = cc
  read-ok (ok _) (err e) c o f h = cc
  read-ok (ok _) (ok _) (err e) o f h = cc

-- What an update writes is the run that its function made of the stored one, at a new time.
pub updated_run-ok :
    (w : World) (n : ℕ) (id : String) (f : Run → Result FlowError Run) (s : System) (r : Run)
    → updated_run w n id f s ≡ ok r
    → (old made : Run) × (run_at id s ≡ some old)
      × (f old ≡ ok made)
      × (r ≡ record made { updated_at = w.now })
unfolding updated_run read_run
updated_run-ok w n id f s r h =
    read-ok validate_run_artifacts (λ x. validate_flow_run_id x.id)
      (guard (not (w.write_fails n)) FlowError.io) w.now r
      (guard (not (w.canceled n)) FlowError.canceled) (validate_flow_run_id id)
      (guard (not (w.read_fails n)) FlowError.io) (run_at id s) f h

pub put_run :
    (id : String) (s : System) (r : Run)
    → IsFiledSystem s
    → r.id ≡ id
    → Serves id s (written_run (ok r) s)
unfolding written_run
put_run id s r filed e = record {
  keeps = record {
    filed = λ j q at. ground (arith, lookup-insert r.id j r s.runs, eq_iff r.id j, filed j q);
    others = λ j n. ground (arith, lookup-insert r.id j r s.runs, eq_iff r.id j, eq_iff id j);
  };
  returns = λ q h.
      ap (λ k. Dict.lookup k (Dict.insert r.id r s.runs)) (sym e)
      ∙ lookup-insert_self r.id r s.runs
      ∙ ap some (ok-inj h);
}

-- An update whose function keeps the run's id.
pub Serves-update_run :
    (w : World) (n : ℕ) (id : String) (f : Run → Result FlowError Run) (s : System)
    → ((x y : Run) → f x ≡ ok y → y.id ≡ x.id)
    → IsFiledSystem s
    → Serves id s (update_run w n id f s)
unfolding update_run
Serves-update_run w n id f s same filed = written (updated_run w n id f s) refl
  where
    written :
        (x : Result FlowError Run) → updated_run w n id f s ≡ x → Serves id s (written_run x s)
    written (err e) h = unfold written_run in Serves-err id s e filed
    written (ok r) h =
        let (old, made, at, made_by, eq) = updated_run-ok w n id f s r h in
        put_run id s r filed (ap (λ (x : Run). x.id) eq ∙ same old made made_by ∙ filed id old at)
