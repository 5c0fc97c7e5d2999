-- ===== src/Channel/Spawn.antt =====
-- apps/xira/internal/channelrunner/progress/spawn_collector.go: the results of child turns, by the
-- turn's id (runtime/spawn_turn.go, runtime/types.go). Its mutex is held through each operation.
use xira.Shared.{String, Bool, true, false, Option, List, [], ◌∷◌, map}
use xira.Shared.Dict
use xira.Shared.Dict.{Dict, string_eq}

pub record PendingQuestion : Type 0 where
  pub question : String
  pub human_request_id : String

pub record DelegateAgentResult : Type 0 where
  pub agent_id : String
  pub run_id : String
  pub status : String
  pub summary : String
  pub evidence_refs : List String
  pub limitations : List String
  pub confidence : String
  pub followup_needed : Bool
  pub error : String
  pub pending_questions : List PendingQuestion

pub record PendingResult : Type 0 where
  pub turn_id : String
  pub result : DelegateAgentResult
  pub err : String

abbrev pub SpawnCollector : Type 0
SpawnCollector = Dict String PendingResult

-- `Deliver`
unfoldable pub deliver : PendingResult → SpawnCollector → SpawnCollector
deliver pr c = Dict.insert pr.turn_id pr c

-- `TryResult`
unfoldable pub try_result : String → SpawnCollector → Option PendingResult
try_result child_id c = Dict.lookup child_id c

-- `HasResult`
unfoldable pub has_result : SpawnCollector → Bool
has_result [] = false
has_result (e ∷ c) = true

-- `DrainAll`; the order of the results is that of the map.
unfoldable pub drain_all : SpawnCollector → List PendingResult × SpawnCollector
drain_all c = (map (λ (e : String × PendingResult). e.1) c, [])

-- `Reset`
unfoldable pub reset : SpawnCollector → SpawnCollector
reset c = []
