-- ===== src/Flow/Store.antt =====
-- apps/xira/internal/flow/store.go: the run files. `writeAtomic` renames a finished file into place,
-- so a write that fails changes nothing. One call of the kernel meets the store several times, and
-- each time its context may have been canceled and the disk may fail: the World says so by the
-- number of the access.
use Prim.Native.Char.{code}
use Prim.Native.String.{String as Text}
use xira.Shared.{
  ℕ, suc, String, Bool, true, not, ◌&&◌, ◌||◌, List, [], ◌∷◌, Option, none, some, ◌==◌, leb, eqb,
  if◌then◌else◌, ◌+◌,
}
use xira.Shared.Strings.{trim, has_prefix, contains}
use xira.Shared.Dict
use xira.Shared.Dict.{Dict, string_eq}
use xira.Shared.Result.{Result, ok, err, guard, ◌>>=◌, ◌>>◌}
use xira.Shared.Exec.{Exec}
use xira.Shared.Int.{ℤ}
use xira.Flow.Types.{Step, Definition}
use xira.Flow.Run.{
  StepStatus, StepState, no_state, ArtifactRef, Run, Value, StepExecutionResult,
  ResolvedHumanRequest, FlowError,
}
use xira.Flow.Definition.{Accepted}

-- What surrounds a call: the store's surroundings, the parts that callers plug into the kernel, and
-- the library functions on letters, floats and printing; `describe` is the
-- text of an error. A float64 is its bits.
pub record World : Type 0 where
  pub now : ℕ
  pub canceled : ℕ → Bool
  pub read_fails : ℕ → Bool
  pub write_fails : ℕ → Bool
  pub to_lower : String → String
  pub equal_fold : String → String → Bool
  pub executor : Option (Run → Definition → Step → StepExecutionResult × Option String)
  pub definitions : Option (String → Option Definition)
  pub policy : Option (Run → String → Option Value)
  pub resolver : Option (String → Result FlowError ResolvedHumanRequest)
  pub agent_status : Option (Run → Step → Result FlowError String)
  pub sprint : Value → String
  pub describe : FlowError → String
  pub parse_float : String → Option ℕ
  pub float_of : ℤ → ℕ
  pub float_eq : ℕ → ℕ → Bool
  pub float_lt : ℕ → ℕ → Bool

-- The run files by id, the definitions saved beside them, and the kernel's registry by flow id.
pub record System : Type 0 where
  pub runs : Dict String Run
  pub saved : Dict String Definition
  pub registry : Dict String Definition

abbrev pub Act : Type 0 → Type 0
Act A = Exec System FlowError A

-- The bytes of a character in UTF-8.
unfoldable pub bytes_of : ℕ → ℕ
bytes_of c = if leb c 0x7F then 1 else if leb c 0x7FF then 2 else if leb c 0xFFFF then 3 else 4

unfoldable pub byte_length : String → ℕ
unfolding bytes_of
byte_length Text.[] = 0
byte_length (Text.◌∷◌ c s) = bytes_of (code c) + byte_length s

unfoldable pub id_char : ℕ → Bool
id_char c =
    (leb 0x61 c && leb c 0x7A)
    || (leb 0x41 c && leb c 0x5A)
    || (leb 0x30 c && leb c 0x39)
    || eqb c 0x5F
    || eqb c 0x2D

unfoldable pub id_chars : String → Bool
unfolding id_char
id_chars Text.[] = true
id_chars (Text.◌∷◌ c s) = id_char (code c) && id_chars s

unfoldable pub validate_flow_run_id : String → Accepted
unfolding byte_length id_chars
validate_flow_run_id id = do
  guard (not (trim id == "")) FlowError.validation
  guard (leb (byte_length (trim id)) 128) FlowError.validation
  guard (id_chars (trim id)) FlowError.validation

unfoldable pub validate_artifact_path : String → Accepted
validate_artifact_path path = do
  guard (not (trim path == "")) FlowError.validation
  guard (not (has_prefix (trim path) "/")) FlowError.validation
  guard (not (contains (trim path) "..")) FlowError.validation

unfoldable pub validate_artifacts : List ArtifactRef → Accepted
validate_artifacts [] = ok tt
validate_artifacts (a ∷ rest) = do validate_artifact_path a.path; validate_artifacts rest

unfoldable pub validate_step_artifacts : Dict String StepState → Accepted
unfolding validate_artifacts
validate_step_artifacts [] = ok tt
validate_step_artifacts ((k, s) ∷ rest) = do
  validate_artifacts s.artifacts
  validate_step_artifacts rest

unfoldable pub validate_run_artifacts : Run → Accepted
unfolding validate_step_artifacts validate_artifacts
validate_run_artifacts run = do validate_step_artifacts run.steps; validate_artifacts run.artifacts

unfoldable pub found_run : Option Run → Result FlowError Run
found_run none = err FlowError.not_found
found_run (some run) = ok run

-- `readRunLocked`, as the n-th access of the call.
unfoldable pub read_run : World → ℕ → String → System → Result FlowError Run
unfolding found_run
read_run w n id s = do guard (not (w.read_fails n)) FlowError.io; found_run (Dict.lookup id s.runs)

unfoldable pub get_run : World → ℕ → String → Act Run
unfolding read_run
get_run w n id s = (
  (do guard (not (w.canceled n)) FlowError.canceled; validate_flow_run_id id; read_run w n id s),
  s,
)

-- What `UpdateRun` writes: the run as the function changed it, with a new time.
unfoldable pub updated_run :
    World → ℕ → String → (Run → Result FlowError Run) → System → Result FlowError Run
unfolding read_run
updated_run w n id f s = do
  guard (not (w.canceled n)) FlowError.canceled
  validate_flow_run_id id
  run ← read_run w n id s
  changed ← f run
  validate_run_artifacts changed
  validate_flow_run_id changed.id
  guard (not (w.write_fails n)) FlowError.io
  ok (record changed { updated_at = w.now })

unfoldable pub written_run : Result FlowError Run → System → Result FlowError Run × System
written_run (ok run) s = (ok run, record s { runs = Dict.insert run.id run s.runs })
written_run (err e) s = (err e, s)

unfoldable pub update_run : World → ℕ → String → (Run → Result FlowError Run) → Act Run
unfolding updated_run written_run
update_run w n id f s = written_run (updated_run w n id f s) s

-- `run.Steps[id]`
unfoldable pub or_no_state : Option StepState → StepState
or_no_state none = no_state
or_no_state (some s) = s

abbrev pub step_state : Run → String → StepState
step_state run id = or_no_state (Dict.lookup id run.steps)

abbrev pub set_step : String → StepState → Run → Run
set_step id s run = record run { steps = Dict.insert id s run.steps }

-- `markStepRunning`, by whether the step may be run again.
unfoldable pub started : Bool → ℕ → StepState → Result FlowError StepState
started again now s = elim s.status [
  | StepStatus.completed ↦
      if again
      then ok (record s {
        status = StepStatus.running;
        attempts = s.attempts + 1;
        completed_at = none;
        outputs = [];
        started_at = some now;
        error = "";
      })
      else err FlowError.completed_step
  | _ ↦ ok (record s {
    status = StepStatus.running;
    attempts = counted_attempts s.started_at s.attempts;
    started_at = some now;
  })
]
  where
    counted_attempts : Option ℕ → ℕ → ℕ
    counted_attempts none n = suc n
    counted_attempts (some t) n = n

unfoldable pub mark_step_running : Bool → ℕ → String → Run → Result FlowError Run
unfolding started or_no_state
mark_step_running again now id run = do
  guard (not (trim id == "")) FlowError.validation
  s ← started again now (step_state run id)
  ok (set_step id s run)
