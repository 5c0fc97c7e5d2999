-- ===== src/HumanRequest/Disk.antt =====
-- The files under the store's root, and the reads and writes of store.go. A request's file is keyed
-- by the workspace's directory and the file's name. `writeJSONAtomic` renames a finished file into
-- place, so a write that fails changes nothing.
use xira.Shared.{
  ℕ, String, Bool, false, not, ◌&&◌, ◌||◌, List, [], ◌∷◌, Option, none, some, ◌==◌, ltb, eqb,
  if◌then◌else◌, select,
}
use xira.Shared.Strings.{trim, str_lt}
use xira.Shared.Dict
use xira.Shared.Dict.{Dict, pair_eq}
use xira.Shared.Result.{Result, ok, err, guard}
use xira.Shared.Exec.{Exec, lift, ◌>>◌}
use xira.HumanRequest.Types.{
  RequestStatus, status_eq, HumanRequest, HumanResponse, ListQuery, Error,
}
use xira.HumanRequest.Validate.{validate_path_id, validate_workspace_key}

pub data FileName : Type 0 where
  request_file : String → String → FileName
  response_file : String → String → FileName
  requests_dir : String → FileName

-- What one call meets: its context, the clock, fresh ids, letter tables, and which files fail.
pub record Env : Type 0 where
  pub canceled : Bool
  pub canceled_in_round : ℕ → Bool
  pub now : ℕ
  pub fresh_id : String
  pub fresh_token : String
  pub to_lower : String → String
  pub read_fails : FileName → Bool
  pub write_fails : FileName → Bool

pub record Disk : Type 0 where
  pub requests : Dict (String × String) HumanRequest
  pub responses : Dict (String × String) HumanResponse

abbrev pub Op : Type 0 → Type 0
Op A = Exec Disk Error A

abbrev pub check_ctx : Env → Result Error (Unit {0})
check_ctx e = if e.canceled then err Error.canceled else ok tt

unfoldable pub found : Option HumanRequest → Result Error HumanRequest
found none = err Error.not_found
found (some r) = ok r

-- `loadRequest`
unfoldable pub load_request : Env → String → String → Op HumanRequest
unfolding found
load_request e ws id = do
  lift (validate_workspace_key ws)
  lift (validate_path_id id)
  lift (guard (not (e.read_fails (request_file ws (trim id)))) Error.io)
  λ d. (found (Dict.lookup (ws, trim id) d.requests), d)

-- `writeRequest`
unfoldable pub write_request : Env → HumanRequest → Op (Unit {0})
write_request e req = do
  lift (validate_workspace_key req.workspace_key)
  lift (validate_path_id req.id)
  lift (guard (not (e.write_fails (request_file req.workspace_key (trim req.id)))) Error.io)
  λ d. (ok tt, record d { requests = Dict.insert (req.workspace_key, trim req.id) req d.requests })

-- `writeResponse`
unfoldable pub write_response : Env → String → HumanResponse → Op (Unit {0})
write_response e ws response = do
  lift (validate_workspace_key ws)
  lift (validate_path_id response.id)
  lift (validate_path_id response.request_id)
  lift (guard (not (e.write_fails (response_file ws response.id))) Error.io)
  λ d. (ok tt, record d { responses = Dict.insert (ws, response.id) response d.responses })

-- The files of one workspace's directory, in the directory's order.
unfoldable pub read_dir : String → Dict (String × String) HumanRequest → List HumanRequest
read_dir ws [] = []
read_dir ws ((k, r) ∷ rest) = let more = read_dir ws rest in if k.0 == ws then r ∷ more else more

-- The order of `sort.SliceStable`: newest first, then by id.
unfoldable pub listed_before : HumanRequest → HumanRequest → Bool
listed_before a b =
    if eqb a.created_at b.created_at then str_lt a.id b.id else ltb b.created_at a.created_at

unfoldable pub sort_insert : HumanRequest → List HumanRequest → List HumanRequest
sort_insert r [] = r ∷ []
sort_insert r (x ∷ xs) = if listed_before x r then x ∷ sort_insert r xs else r ∷ x ∷ xs

unfoldable pub sort_requests : List HumanRequest → List HumanRequest
sort_requests [] = []
sort_requests (x ∷ xs) = sort_insert x (sort_requests xs)

-- The filters of `listLocked`; an empty status or chat key filters nothing.
unfoldable pub passes : ListQuery → HumanRequest → Bool
passes q r =
    (status_eq q.status RequestStatus.unset || status_eq r.status q.status)
    && (q.chat_key == "" || r.chat_key == q.chat_key)

-- Some file of the directory cannot be read.
unfoldable pub some_unreadable : Env → String → Dict (String × String) HumanRequest → Bool
some_unreadable e ws [] = false
some_unreadable e ws ((k, r) ∷ rest) =
    (k.0 == ws && e.read_fails (request_file k.0 k.1)) || some_unreadable e ws rest

-- `listLocked`; a directory that does not exist holds no request.
unfoldable pub list_locked : Env → ListQuery → Op (List HumanRequest)
list_locked e q d =
    if e.read_fails (requests_dir q.workspace_key) || some_unreadable e q.workspace_key d.requests
    then (err Error.io, d)
    else (ok (sort_requests (select (passes q) (read_dir q.workspace_key d.requests))), d)
