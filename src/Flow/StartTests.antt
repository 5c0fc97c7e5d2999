-- ===== src/Flow/StartTests.antt =====
-- A start of the concrete flow beside an earlier run of it.
use xira.Shared.{some, none, All, ◌++◌, String, ◌≡◌, refl, select, eq_iff, arith}
use xira.Shared.Strings.{trim, has_prefix, contains}
use xira.Shared.Dict
use xira.Shared.Dict.{string_eq}
use xira.Shared.Result.{Result, ok, err}
use xira.Flow.Types.{Definition, Entrypoint, Step}
use xira.Flow.Run.{FlowError}
use xira.Flow.Definition
use xira.Flow.Definition.{resolve_entrypoint}
use xira.Flow.Store
use xira.Flow.Store.{update_run, get_run}
use xira.Flow.Start
use xira.Flow.Start.{start, resolve_definition, entered, required_keys}
use xira.Flow.Keeping.{IsFiledSystem, run_at}
use xira.Flow.Starting.{start-IsStarted, IsStarted, IsGiven}
use xira.Flow.Sample.{begun_run, system_with, calm, texts, request, started_run, started_system}

abbrev no_file : String → Result FlowError Definition
no_file path = err FlowError.io

start_run_check :
    start calm no_file texts "fr_2" request (system_with begun_run)
    ≡ (ok started_run, started_system)
unfolding start resolve_definition Start.known_definition entered Start.has_inputs
    Start.validate_start_inputs Start.create_run Start.create_at Start.may_create Start.writable
    Start.validate_flow_id Start.save_definition Start.register_definition Start.begin_run
    Start.create_request update_run get_run Store.written_run Store.updated_run Store.read_run
    Store.found_run Store.validate_flow_run_id Store.validate_run_artifacts Store.byte_length
    Store.id_chars Dict.lookup Dict.insert trim has_prefix contains resolve_entrypoint
    Definition.step_by_id select
start_run_check = refl

filed_start : IsFiledSystem (system_with begun_run)
unfolding Dict.lookup
filed_start id q h = grind (arith, eq_iff "fr_1" id)

fr_2_free : run_at "fr_2" (system_with begun_run) ≡ none
unfolding Dict.lookup
fr_2_free = refl

start-IsStarted_example :
    (def : Definition) × (entry : Entrypoint × Step) × ((resolve_definition calm no_file request
        (system_with begun_run)).0
      ≡ ok def)
    × (resolve_entrypoint def request.entrypoint_id ≡ ok entry)
    × All (IsGiven request.input) (required_keys def.inputs ++ entry.0.required_inputs)
    × IsStarted "fr_2" request def entry started_run
    × (run_at "fr_2" started_system ≡ some started_run)
    × (Dict.lookup "fr_2" started_system.saved ≡ some def)
start-IsStarted_example =
    start-IsStarted calm no_file texts "fr_2" request (system_with begun_run) filed_start fr_2_free
      start_run_check
