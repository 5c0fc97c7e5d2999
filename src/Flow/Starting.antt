-- ===== src/Flow/Starting.antt =====
-- `Start` of kernel.go as a whole: what stands in the store after it.
use mathlib.Core.Path.{subst}
use xira.Shared.{
  String, Bool, not, true, false, ◌≡◌, ◌≢◌, refl, sym, ap, ◌∙◌, List, [], ◌∷◌, ◌++◌, none, some,
  ◌==◌, arith, ◌⊎◌, eq_iff, All, ◌||◌,
}
use xira.Shared.Dict
use xira.Shared.Dict.{string_eq, lookup-insert_self}
use xira.Shared.Result
use xira.Shared.Result.{Result, ok, err, guard}
use xira.Shared.Exec.{lift}
use xira.Shared.Strings.{trim}
use xira.Flow.Types.{Definition, Entrypoint, Step}
use xira.Flow.Run.{RunStatus, StepStatus, no_state, Run, FlowError}
use xira.Flow.Store.{World, System}
use xira.Flow.Keeping.{run_at, IsFiledSystem, ok-inj}
use xira.Flow.Start.{
  StartRequest, new_run, chosen_id, create_run, resolve_definition, entered, create_request, start,
  given_value, has_inputs, required_keys, validate_start_inputs,
}
use xira.Entry.Texts.{Texts}
use xira.Flow.Definition.{resolve_entrypoint}
use xira.Flow.Creation.{
  proceed-ok, runs-resolve_definition, IsFiled-same, Serves-create_run, create_run-new,
}
use xira.Flow.Recording.{begun_from, recorded}

-- A required input that is named has a value that is not blank.
abbrev pub IsGiven : Dict.Dict String String → String → Type 0
IsGiven input key = (trim key ≡ "") ⊎ (trim (given_value (Dict.lookup (trim key) input)) ≢ "")

is_given :
    (key : String) (input : Dict.Dict String String)
    → (trim key == "" || not (trim (given_value (Dict.lookup (trim key) input)) == "")) ≡ true
    → IsGiven input key
is_given key input h =
    ground
      (arith, eq_iff (trim key) "", eq_iff (trim (given_value (Dict.lookup (trim key) input))) "")

has_inputs-All :
    (keys : List String) (input : Dict.Dict String String)
    → has_inputs keys input ≡ true
    → All (IsGiven input) keys
unfolding has_inputs
has_inputs-All [] input h = tt
has_inputs-All (key ∷ keys) input h =
    (is_given key input (ground arith), has_inputs-All keys input (ground arith))

entered-ok :
    (req : StartRequest) (def : Definition) (entry : Entrypoint × Step)
    → entered req def ≡ ok entry
    → (resolve_entrypoint def req.entrypoint_id ≡ ok entry)
      × All (IsGiven req.input) (required_keys def.inputs ++ entry.0.required_inputs)
unfolding entered validate_start_inputs
entered-ok req def entry h = checked (resolve_entrypoint def req.entrypoint_id) h
  where
    keys : Entrypoint × Step → List String
    keys p = required_keys def.inputs ++ p.0.required_inputs

    given :
        (p : Entrypoint × Step) (b : Bool)
        → has_inputs (keys p) req.input ≡ b
        → Result.◌>>◌ (guard b FlowError.validation) (ok p) ≡ ok entry
        → (p ≡ entry) × All (IsGiven req.input) (keys p)
    given p true e h = (ok-inj h, has_inputs-All (keys p) req.input e)
    given p false e h = cc

    checked :
        (x : Result FlowError (Entrypoint × Step))
        → Result.◌>>=◌ x
            (λ p. Result.◌>>◌ (guard (has_inputs (keys p) req.input) FlowError.validation) (ok p))
          ≡ ok entry
        → (x ≡ ok entry) × All (IsGiven req.input) (keys entry)
    checked (ok p) h =
        let (e, all) = given p (has_inputs (keys p) req.input) refl h in
        (ap ok e, subst (λ q. All (IsGiven req.input) (keys q)) e all)
    checked (err f) h = cc

-- The run that a request asks for, at the first step of its entrypoint, under an id.
pub record IsStarted (id : String) (req : StartRequest) (def : Definition)
    (entry : Entrypoint × Step) (run : Run) : Type 0 where
  pub id_drawn : run.id ≡ id
  pub flow_id : run.flow_id ≡ def.id
  pub flow_version : run.flow_version ≡ def.version
  pub entrypoint : run.entrypoint_id ≡ entry.0.id
  pub current_step : run.current_step_id ≡ entry.1.id
  pub input : run.input ≡ req.input
  pub running : run.status ≡ RunStatus.running
  pub steps : run.steps ≡ (entry.1.id, record no_state { status = StepStatus.pending }) ∷ []
  pub unasked : (run.pending_human_requests ≡ []) × (run.pending_signals ≡ [])

begun_from-IsStarted :
    (w : World) (x : Texts) (id : String) (req : StartRequest) (def : Definition)
    (entry : Entrypoint × Step)
    → IsStarted id req def entry
        (begun_from w entry.1.id (new_run w.now id (create_request x req def entry)))
unfolding Dict.insert create_request
begun_from-IsStarted w x id req def entry = record {
  id_drawn = refl;
  flow_id = refl;
  flow_version = refl;
  entrypoint = refl;
  current_step = refl;
  input = refl;
  running = refl;
  steps = refl;
  unasked = (refl, refl);
}

chosen_id-create_request :
    (x : Texts) (fresh : String) (req : StartRequest) (def : Definition) (entry : Entrypoint × Step)
    → chosen_id fresh (create_request x req def entry) ≡ fresh
unfolding create_request trim
chosen_id-create_request x fresh req def entry = refl

-- A start under an id that no stored run has, on a system whose files each hold the run of their own
-- id, returns, when it succeeds, a new run of the definition that the request names: it is running
-- at the first step of the entrypoint asked for, which is pending, it has the request's input, in
-- which every input that the definition or the entrypoint requires has a value that is not blank,
-- and it is stored, with its definition beside it.
pub start-IsStarted :
    (w : World) (load : String → Result FlowError Definition) (x : Texts) (fresh : String)
    (req : StartRequest) (s : System) {run : Run} {s' : System}
    → IsFiledSystem s
    → run_at fresh s ≡ none
    → start w load x fresh req s ≡ (ok run, s')
    → (def : Definition) × (entry : Entrypoint × Step) × ((resolve_definition w load req s).0
        ≡ ok def)
      × (resolve_entrypoint def req.entrypoint_id ≡ ok entry)
      × All (IsGiven req.input) (required_keys def.inputs ++ entry.0.required_inputs)
      × IsStarted fresh req def entry run
      × (run_at fresh s' ≡ some run)
      × (Dict.lookup fresh s'.saved ≡ some def)
unfolding start
start-IsStarted w load x fresh req s {run} {s'} filed free h =
    let (def, defined, h1) = proceed-ok (resolve_definition w load req s) _ h in
    let s1 = (resolve_definition w load req s).1 in
    let same1 = runs-resolve_definition w load req s in
    let (entry, at_entry, h2) = proceed-ok (lift (entered req def) s1) _ h1 in
    let (resolved, given) = entered-ok req def entry at_entry in
    let asked = create_request x req def entry in
    let (run0, created, h3) = proceed-ok (create_run w 0 fresh asked s1) _ h2 in
    let s2 = (create_run w 0 fresh asked s1).1 in
    let v = Serves-create_run w 0 fresh asked s1 (IsFiled-same s s1 same1 filed) in
    let drawn : chosen_id fresh asked ≡ fresh = chosen_id-create_request x fresh req def entry in
    let is_free : run_at (chosen_id fresh asked) s1 ≡ none =
      ap (λ k. run_at k s1) drawn ∙ (ap (Dict.lookup fresh) same1 ∙ free) in
    let made : run0 ≡ new_run w.now fresh asked =
      create_run-new w 0 fresh asked s1 run0 is_free created
      ∙ ap (λ k. new_run w.now k asked) drawn in
    let named : run0.id ≡ fresh = ap (λ (r : Run). r.id) made in
    let held : run_at run0.id s2 ≡ some run0 =
      ap (λ k. run_at k s2) (named ∙ sym drawn) ∙ v.returns run0 created in
    let (stored, begun_by, saved) =
      recorded w run0.id entry.1.id def s2 run0 v.keeps.filed held h3 in
    (
      def,
      entry,
      defined,
      resolved,
      given,
      subst (IsStarted fresh req def entry) (sym (begun_by ∙ ap (begun_from w entry.1.id) made))
          (begun_from-IsStarted w x fresh req def entry),
      ap (λ k. run_at k s') (sym named) ∙ stored,
      ap (λ k. Dict.lookup k s'.saved) (sym named) ∙ saved,
    )
