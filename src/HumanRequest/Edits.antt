-- ===== src/HumanRequest/Edits.antt =====
-- What `load_request`, `write_request` and `edit_request` can come to: the facts from which the
-- theorems on single operations follow.
use xira.Shared.{String, Bool, true, false, not, ◌≡◌, refl, ap, Option, none, some}
use xira.Shared.Strings.{trim}
use xira.Shared.Dict
use xira.Shared.Dict.{pair_eq}
use xira.Shared.Result.{Result, ok, err, guard}
use xira.Shared.Exec.{pure, lift, proceed, ◌>>=◌, ◌>>◌}
use xira.HumanRequest.Types.{HumanRequest, HumanResponse, Error}
use xira.HumanRequest.Validate.{Checked, validate_path_id, validate_workspace_key}
use xira.HumanRequest.Disk.{
  Env, Disk, found, load_request, write_request, write_response, request_file, response_file,
}
use xira.HumanRequest.Transitions.{Edit, unchanged, write, respond}
use xira.HumanRequest.Operations.{save, edit_request}

-- The request that the file of an id in a workspace holds.
abbrev pub stored : String → String → Disk → Option HumanRequest
stored ws id d = Dict.lookup (ws, id) d.requests

-- The disk with one request written to its file.
abbrev pub put : HumanRequest → Disk → Disk
put r d = record d { requests = Dict.insert (r.workspace_key, trim r.id) r d.requests }

pub data Loaded (ws id : String) (d : Disk) : Result Error HumanRequest × Disk → Type 0 where
  missed : (x : Error) → Loaded ws id d (err x, d)
  loaded : (r : HumanRequest) → stored ws (trim id) d ≡ some r → Loaded ws id d (ok r, d)

found-Loaded :
    (ws id : String) (d : Disk) (o : Option HumanRequest)
    → stored ws (trim id) d ≡ o
    → Loaded ws id d (found o, d)
unfolding found
found-Loaded ws id d none h = missed Error.not_found
found-Loaded ws id d (some r) h = loaded r h

checked-Loaded :
    (ws id : String) (d : Disk) (v w g : Checked)
    → Loaded ws id d ((lift v >> lift w >> lift g >> λ d'. (found (stored ws (trim id) d'), d')) d)
checked-Loaded ws id d (ok _) (ok _) (ok _) = found-Loaded ws id d (stored ws (trim id) d) refl
checked-Loaded ws id d (err x) w g = missed x
checked-Loaded ws id d (ok _) (err x) g = missed x
checked-Loaded ws id d (ok _) (ok _) (err x) = missed x

pub load_request-Loaded :
    (e : Env) (ws id : String) (d : Disk) → Loaded ws id d (load_request e ws id d)
unfolding load_request
load_request-Loaded e ws id d =
    checked-Loaded ws id d (validate_workspace_key ws) (validate_path_id id)
      (guard (not (e.read_fails (request_file ws (trim id)))) Error.io)

pub data Written (r : HumanRequest) (d : Disk) : Result Error (Unit {0}) × Disk → Type 0 where
  unwritten : (x : Error) → Written r d (err x, d)
  written : Written r d (ok tt, put r d)

put-Written :
    (r : HumanRequest) (d : Disk) (v w g : Checked)
    → Written r d ((lift v >> lift w >> lift g >> λ d'. (ok tt, put r d')) d)
put-Written r d (ok _) (ok _) (ok _) = written
put-Written r d (err x) w g = unwritten x
put-Written r d (ok _) (err x) g = unwritten x
put-Written r d (ok _) (ok _) (err x) = unwritten x

pub write_request-Written :
    (e : Env) (r : HumanRequest) (d : Disk) → Written r d (write_request e r d)
unfolding write_request
write_request-Written e r d =
    put-Written r d (validate_workspace_key r.workspace_key) (validate_path_id r.id)
      (guard (not (e.write_fails (request_file r.workspace_key (trim r.id)))) Error.io)

pub data Responded (d : Disk) : Result Error (Unit {0}) × Disk → Type 0 where
  unanswered : (x : Error) → Responded d (err x, d)
  answered :
      (more : Dict.Dict (String × String) HumanResponse)
      → Responded d (ok tt, record d { responses = more })

response-Responded :
    (more : Disk → Dict.Dict (String × String) HumanResponse) (d : Disk) (u v w g : Checked)
    → Responded d (
        (lift u >> lift v >> lift w >> lift g >> λ d'. (ok tt, record d' { responses = more d' }))
          d)
response-Responded more d (ok _) (ok _) (ok _) (ok _) = answered (more d)
response-Responded more d (err x) v w g = unanswered x
response-Responded more d (ok _) (err x) w g = unanswered x
response-Responded more d (ok _) (ok _) (err x) g = unanswered x
response-Responded more d (ok _) (ok _) (ok _) (err x) = unanswered x

pub write_response-Responded :
    (e : Env) (ws : String) (response : HumanResponse) (d : Disk)
    → Responded d (write_response e ws response d)
unfolding write_response
write_response-Responded e ws s d =
    response-Responded (λ d'. Dict.insert (ws, s.id) s d'.responses) d (validate_workspace_key ws)
      (validate_path_id s.id) (validate_path_id s.request_id)
      (guard (not (e.write_fails (response_file ws s.id))) Error.io)

-- The request that an edit writes.
abbrev pub Writes : Edit → HumanRequest → Type 0
Writes unchanged r = ⊥
Writes (write r') r = r' ≡ r
Writes (respond _ r') r = r' ≡ r

-- An operation fails and leaves the requests as they were, or returns a request unwritten, or
-- writes the request that was decided on.
pub data Edited (decide : HumanRequest → Result Error Edit) (ws id : String) (d : Disk)
    : Result Error (HumanRequest × Bool) × Disk → Type 0 where
  refused : (x : Error) (d' : Disk) → d'.requests ≡ d.requests → Edited decide ws id d (err x, d')
  kept :
      (r : HumanRequest)
      → stored ws (trim id) d ≡ some r
      → decide r ≡ ok unchanged
      → Edited decide ws id d (ok (r, false), d)
  edited :
      (r r' : HumanRequest) (edit : Edit) (d' : Disk)
      → stored ws (trim id) d ≡ some r
      → decide r ≡ ok edit
      → Writes edit r'
      → d'.requests ≡ (put r' d).requests
      → Edited decide ws id d (ok (r', true), d')

-- What follows a write in `save`.
abbrev reply :
    HumanRequest → Result Error (Unit {0}) × Disk → Result Error (HumanRequest × Bool) × Disk
reply r (o, d) = proceed o (λ _. pure (r, true)) d

module _ (decide : HumanRequest → Result Error Edit) (ws id : String) (d : Disk)
    (r : HumanRequest) where
  written-Edited :
      (r' : HumanRequest) (edit : Edit) (d' : Disk)
      → stored ws (trim id) d ≡ some r
      → decide r ≡ ok edit
      → Writes edit r'
      → d'.requests ≡ d.requests
      → {o : Result Error (Unit {0}) × Disk} → Written r' d' o
      → Edited decide ws id d (reply r' o)
  written-Edited r' edit d' h k w same (unwritten x) = refused x d' same
  written-Edited r' edit d' h k w same written =
      edited r r' edit (put r' d') h k w (ap (Dict.insert (r'.workspace_key, trim r'.id) r') same)

  responded-Edited :
      (e : Env) (r' : HumanRequest) (response : HumanResponse)
      → stored ws (trim id) d ≡ some r
      → decide r ≡ ok (respond response r')
      → {o : Result Error (Unit {0}) × Disk} → Responded d o
      → Edited decide ws id d (proceed o.0 (λ _ s. reply r' (write_request e r' s)) o.1)
  responded-Edited e r' response h k (unanswered x) = refused x d refl
  responded-Edited e r' response h k (answered more) =
      written-Edited r' (respond response r') (record d { responses = more }) h k refl refl
        (write_request-Written e r' (record d { responses = more }))

  save-Edited :
      (e : Env) (edit : Edit)
      → stored ws (trim id) d ≡ some r
      → decide r ≡ ok edit
      → Edited decide ws id d (save e r edit d)
  unfolding save
  save-Edited e unchanged h k = kept r h k
  save-Edited e (write r') h k =
      written-Edited r' (write r') d h k refl refl (write_request-Written e r' d)
  save-Edited e (respond response r') h k =
      responded-Edited e r' response h k (write_response-Responded e r'.workspace_key response d)

  decided-Edited :
      (e : Env) (o : Result Error Edit)
      → stored ws (trim id) d ≡ some r
      → decide r ≡ o
      → Edited decide ws id d (proceed o (save e r) d)
  decided-Edited e (ok edit) h k = save-Edited e edit h k
  decided-Edited e (err x) h k = refused x d refl

module _ (decide : HumanRequest → Result Error Edit) (ws id : String) (d : Disk) (e : Env) where
  Loaded-Edited :
      {o : Result Error HumanRequest × Disk}
      → Loaded ws id d o
      → Edited decide ws id d (proceed o.0 (λ r. lift (decide r) >>= save e r) o.1)
  Loaded-Edited (missed x) = refused x d refl
  Loaded-Edited (loaded r h) = decided-Edited decide ws id d r e (decide r) h refl

  pub edit_request-Edited : Edited decide ws id d (edit_request e ws id decide d)
  unfolding edit_request
  edit_request-Edited = Loaded-Edited (load_request-Loaded e ws id d)
