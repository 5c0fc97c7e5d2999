-- ===== src/HumanRequest/Queries.antt =====
-- The queries of apps/xira/internal/humanrequest/store.go over one workspace: `List`,
-- `ListByChatKey`, `FindByCorrelation`.
use xira.Shared.{
  String, Bool, true, false, not, ◌&&◌, List, [], ◌∷◌, Option, none, some, ◌==◌, if◌then◌else◌,
}
use xira.Shared.Strings.{trim}
use xira.Shared.Result.{Result, ok, err, guard}
use xira.Shared.Exec.{lift, ◌>>=◌, ◌>>◌}
use xira.HumanRequest.Types.{RequestStatus, HumanRequest, ListQuery, Error}
use xira.HumanRequest.Validate.{validate_workspace_key}
use xira.HumanRequest.Disk.{Env, Op, check_ctx, list_locked}

unfoldable pub valid_filter : RequestStatus → Bool
valid_filter (RequestStatus.other _) = false
valid_filter _ = true

unfoldable pub list : Env → ListQuery → Op (List HumanRequest)
unfolding valid_filter
list e q = do
  lift (check_ctx e)
  lift (validate_workspace_key q.workspace_key)
  lift (guard (valid_filter q.status) Error.validation)
  list_locked e q

unfoldable pub list_by_chat_key : Env → String → String → Op (List HumanRequest)
unfolding list
list_by_chat_key e ws chat_key = do
  lift (guard (not (trim chat_key == "")) Error.validation)
  list e (record { workspace_key = ws; status = RequestStatus.pending; chat_key = trim chat_key })

-- Whether a request carries the token, which is not empty.
unfoldable pub carries : String → HumanRequest → Bool
carries token r = not (trim r.correlation_token == "") && trim r.correlation_token == token

-- The loop of `FindByCorrelation`; a second match is a conflict.
unfoldable pub sole_match :
    String → Option HumanRequest → List HumanRequest → Result Error HumanRequest
sole_match token none [] = err Error.not_found
sole_match token (some r) [] = ok r
sole_match token none (r ∷ rs) = sole_match token (if carries token r then some r else none) rs
sole_match token (some m) (r ∷ rs) =
    let later = sole_match token (some m) rs in
    if carries token r then err Error.conflict else later

unfoldable pub find_by_correlation : Env → String → String → Op HumanRequest
find_by_correlation e ws correlation = do
  lift (check_ctx e)
  lift (validate_workspace_key ws)
  lift (guard (not (trim correlation == "")) Error.validation)
  requests ←
      list_locked e (record { workspace_key = ws; status = RequestStatus.unset; chat_key = "" })
  lift (sole_match (trim correlation) none requests)
