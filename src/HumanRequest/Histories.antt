-- ===== src/HumanRequest/Histories.antt =====
-- Histories of the store: any sequence of its operations, by any callers, whatever fails.
use xira.Shared.{ℕ, String, not, ◌≡◌, ◌≢◌, refl, none, some, ◌==◌, Extends}
use mathlib.Core.Path.{subst}
use xira.Shared.Strings.{trim}
use xira.Shared.Result.{Result, guard}
use xira.HumanRequest.Types.{
  RequestStatus, HumanRequest, HumanResponseEnvelope, CreateRequest, ResolveRequest,
  DeliveryAttempt, Error,
}
use xira.HumanRequest.Disk.{Env, Disk}
use xira.HumanRequest.Store.{create, new_request}
use xira.HumanRequest.Operations.{
  resolve, resolve_exact, resolve_request_of, record_delivery, fail_delivery, claim_resume,
  complete_resume, fail_resume, recover_interrupted_resumes,
}
use xira.HumanRequest.Edits.{stored}
use xira.HumanRequest.Creation.{
  Created, rejected, repeated, created, create-Created, new_request-IsWellFormed,
}
use xira.HumanRequest.Lifecycle.{
  SameQuestion, phase, ◌⟶*◌, Steps-⟶*, Steps-Extends, Steps-SameQuestion, Steps-response,
}
use xira.HumanRequest.Evolution.{IsFiled, IsOrderly, Later, Evolves-of_put, IsOrderly-of_put}
use xira.HumanRequest.Calls.{
  Follows, Follows-of_same, Follows-trans, lift-Keeps, resolve_as-Keeps, record_delivery-Keeps,
  fail_delivery-Keeps, claim_resume-Keeps, finish_resume-Keeps,
}
use xira.HumanRequest.Recovery.{recover_interrupted_resumes-Follows}

-- A call of an operation that may write.
pub data Call : Type 0 where
  creating : CreateRequest → Call
  resolving : ResolveRequest → Call
  resolving_exactly : HumanResponseEnvelope → Call
  delivering : String → String → DeliveryAttempt → Call
  giving_up : String → String → DeliveryAttempt → Call
  claiming : String → String → ℕ → Call
  completing : String → String → ℕ → Call
  failing : String → String → String → ℕ → Call
  recovering : String → ℕ → Call

-- The disk that a call leaves.
abbrev pub after : Env → Call → Disk → Disk
after e (Call.creating input) d = (create e input d).1
after e (Call.resolving input) d = (resolve e input d).1
after e (Call.resolving_exactly x) d = (resolve_exact e x d).1
after e (Call.delivering ws id a) d = (record_delivery e ws id a d).1
after e (Call.giving_up ws id a) d = (fail_delivery e ws id a d).1
after e (Call.claiming ws id t) d = (claim_resume e ws id t d).1
after e (Call.completing ws id t) d = (complete_resume e ws id t d).1
after e (Call.failing ws id reason t) d = (fail_resume e ws id reason t d).1
after e (Call.recovering ws t) d = (recover_interrupted_resumes e ws t d).1

-- A request is created under an id that no file has; `Create` does not look.
abbrev pub IsFresh : Env → Call → Disk → Type 0
IsFresh e (Call.creating input) d =
    stored (new_request e input).workspace_key (trim (new_request e input).id) d ≡ none
IsFresh e _ d = Unit

pub data History (d : Disk) : Disk → Type 0 where
  start : History d d
  call :
      {d' d'' : Disk} (e : Env) (c : Call)
      → History d d'
      → IsFresh e c d'
      → after e c d' ≡ d''
      → History d d''

create-Follows :
    (e : Env) (input : CreateRequest) (d : Disk)
    → IsOrderly d
    → IsFresh e (Call.creating input) d
    → {x : Result Error HumanRequest × Disk} → Created e input d x
    → Follows d x.1
create-Follows e input d o f (rejected x) = Follows-of_same o refl
create-Follows e input d o f (repeated r h) = Follows-of_same o refl
create-Follows e input d o f (created h) = record {
  evolves = Evolves-of_put (new_request e input) d f;
  orderly = IsOrderly-of_put (new_request e input) d f (new_request-IsWellFormed e input) o;
}

pub after-Follows :
    (e : Env) (c : Call) (d : Disk) → IsOrderly d → IsFresh e c d → Follows d (after e c d)
unfolding resolve resolve_exact complete_resume fail_resume
after-Follows e (Call.creating input) d o f =
    create-Follows e input d o f (create-Created e input d)
after-Follows e (Call.resolving input) d o f = resolve_as-Keeps e d o input none
after-Follows e (Call.resolving_exactly x) d o f =
    resolve_as-Keeps e d o (resolve_request_of x) (some x)
after-Follows e (Call.delivering ws id a) d o f = record_delivery-Keeps e d o ws id a
after-Follows e (Call.giving_up ws id a) d o f = fail_delivery-Keeps e d o ws id a
after-Follows e (Call.claiming ws id t) d o f = claim_resume-Keeps e d o ws id t
after-Follows e (Call.completing ws id t) d o f = finish_resume-Keeps e d o ws id "" t
after-Follows e (Call.failing ws id reason t) d o f =
    lift-Keeps d o (guard (not (trim reason == "")) Error.validation) _
      λ _. finish_resume-Keeps e d o ws id (trim reason) t
after-Follows e (Call.recovering ws t) d o f = recover_interrupted_resumes-Follows e d o ws t

-- Whatever is done to an orderly disk, it stays orderly, and every request on it lives on in its
-- own file by legal steps.
pub History-Follows : {d d' : Disk} → IsOrderly d → History d d' → Follows d d'
History-Follows o start = Follows-of_same o refl
History-Follows {d} o (call {d' = m} e c h f p) =
    let g = History-Follows o h in
    subst (Follows d) p (Follows-trans g (after-Follows e c m g.orderly f))

module _ {d d' : Disk} (o : IsOrderly d) (h : History d d') (ws id : String) {r : HumanRequest}
    (held : stored ws id d ≡ some r) where
  lasting : Later ws id d' r
  lasting = (History-Follows o h).evolves.later ws id r held

  -- On an orderly disk, any request is still in its own file after any history whose creations use
  -- fresh ids: it is the same question, its phase came of the old one along the graph, its audit
  -- trail was only added to, and it is well formed.
  pub request_lives :
      (r' : HumanRequest) × (stored ws id d' ≡ some r')
      × SameQuestion r r'
      × (phase r ⟶* phase r')
      × Extends r.audit r'.audit
      × IsFiled ws id r'
  request_lives = (
    lasting.now,
    lasting.held,
    Steps-SameQuestion lasting.steps,
    Steps-⟶* lasting.steps (o.filed ws id r held).well_formed,
    Steps-Extends lasting.steps,
    (History-Follows o h).orderly.filed ws id lasting.now lasting.held,
  )

  -- On an orderly disk, a request that is no longer pending keeps its status, its response and the
  -- time of its resolution through any history whose creations use fresh ids.
  pub response_stays :
      r.status ≢ RequestStatus.pending
      → (r' : HumanRequest) × (stored ws id d' ≡ some r')
        × (r'.status ≡ r.status)
        × (r'.response ≡ r.response)
        × (r'.resolved_at ≡ r.resolved_at)
  response_stays n =
      let (p, q, t) = Steps-response lasting.steps n in (lasting.now, lasting.held, p, q, t)
