-- ===== src/HumanRequest/Resolving.antt =====
-- `Resolve` and `ResolveExact`: who may answer, and what a repeated answer comes to.
use xira.Shared.{
  Bool, true, false, not, ◌≡◌, ◌≢◌, refl, sym, ap, ◌∙◌, ◌⊎◌, Option, none, some, arith, ◌==◌,
  eq_iff, eq_refl, ◌&&◌,
}
use mathlib.Core.Path.{subst}
use xira.Shared.Strings.{trim}
use xira.Shared.Result.{ok}
use xira.HumanRequest.Types.{
  RequestStatus, status_eq, ResponseKind, kind_eq, HumanRequest, HumanResponseEnvelope,
  ResolveRequest,
}
use xira.HumanRequest.Validate.{validate_response_kind}
use xira.HumanRequest.Disk.{Env, Disk}
use xira.HumanRequest.Store.{or_now}
use xira.HumanRequest.Transitions.{
  Edit, unchanged, respond, same_response, same_response_retry, new_response, resolved_request,
  check_exact, apply_resolve,
}
use xira.HumanRequest.Operations.{resolve_as, edit_request}
use xira.HumanRequest.Edits.{stored, put, Writes, edit_request-Edited}
use xira.HumanRequest.Inversion.{
  IsValidName, lift-eq-ok, check_call-eq-ok, first_of-eq-ok, Edited-written, Edited-kept,
}
use xira.HumanRequest.Evolution.{IsOrderly}
use xira.HumanRequest.Lifecycle.{Step, SameQuestion, Step-SameQuestion}
use xira.HumanRequest.Claiming.{stored_after}
use xira.HumanRequest.Decisions.{status_of_eq}

-- What `apply_resolve` checked, where it did not fail.
record Judged (e : Env) (input : ResolveRequest) (exact : Option HumanResponseEnvelope)
    (r : HumanRequest) (edit : Edit) : Type 0 where
  said : not (kind_eq input.kind ResponseKind.answer && trim input.message == "") ≡ true
  authorized : check_exact e r exact (or_now e.now input.resolved_at) ≡ ok tt
  outcome :
      ((status_eq r.status RequestStatus.pending ≡ true)
        × (edit
            ≡ respond
                (new_response e r input exact)
                (resolved_request r (new_response e r input exact))))
      ⊎ ((status_eq r.status RequestStatus.pending ≡ false)
          × (same_response_retry e.to_lower r.response input exact ≡ true)
          × (edit ≡ unchanged))

apply_resolve-Judged :
    (e : Env) (input : ResolveRequest) (exact : Option HumanResponseEnvelope) (r : HumanRequest)
    (edit : Edit)
    → apply_resolve e input exact r ≡ ok edit
    → Judged e input exact r edit
unfolding apply_resolve
apply_resolve-Judged e input exact r edit h = ground arith

pub kind_eq_refl : (k : ResponseKind) → kind_eq k k ≡ true
kind_eq_refl (ResponseKind.other s) = eq_refl s
kind_eq_refl ResponseKind.approve = refl
kind_eq_refl _ = refl

-- The response that a call records is the same response as that of the same call.
same_response_self :
    (e : Env) (r : HumanRequest) (input : ResolveRequest) (exact : Option HumanResponseEnvelope)
    → trim input.idempotency_key ≢ ""
    → same_response e.to_lower (new_response e r input exact) input exact ≡ true
unfolding same_response new_response
same_response_self e r input none n =
    simp (eq_refl, kind_eq_refl) (ground (arith, eq_iff (trim input.idempotency_key) ""))
same_response_self e r input (some x) n =
    simp (eq_refl, kind_eq_refl) (ground (arith, eq_iff (trim input.idempotency_key) ""))

-- What a call of `resolve` that succeeds has found and left: the request `r`, stored and no longer
-- pending, whose response is the one that the call brought.
pub record Resolved (e : Env) (input : ResolveRequest) (exact : Option HumanResponseEnvelope)
    (d : Disk) (r : HumanRequest) (d' : Disk) : Type 0 where
  pub valid : IsValidName input.workspace_key input.request_id
  pub kind_ok : validate_response_kind input.kind ≡ ok tt
  pub said : not (kind_eq input.kind ResponseKind.answer && trim input.message == "") ≡ true
  pub before : HumanRequest
  pub held : stored input.workspace_key (trim input.request_id) d ≡ some before
  pub authorized : check_exact e before exact (or_now e.now input.resolved_at) ≡ ok tt
  pub stored_now : stored input.workspace_key (trim input.request_id) d' ≡ some r
  pub closed : status_eq r.status RequestStatus.pending ≡ false
  pub same_place : SameQuestion before r
  pub same_delivery : r.delivery ≡ before.delivery
  pub same_again :
      trim input.idempotency_key ≢ "" → same_response_retry e.to_lower r.response input exact ≡ true

module _ (e : Env) (input : ResolveRequest) (exact : Option HumanResponseEnvelope) (d : Disk)
    (o : IsOrderly d) {r : HumanRequest} {d' : Disk} where
  written-Resolved :
      IsValidName input.workspace_key input.request_id
      → validate_response_kind input.kind ≡ ok tt
      → (r0 : HumanRequest) (edit : Edit)
      → stored input.workspace_key (trim input.request_id) d ≡ some r0
      → Judged e input exact r0 edit
      → Writes edit r
      → d'.requests ≡ (put r d).requests
      → Resolved e input exact d r d'
  unfolding resolved_request same_response_retry
  written-Resolved v k r0 edit at j w e' =
      let response = new_response e r0 input exact in
      let built : resolved_request r0 response ≡ r = unfold resolved_request in ground (arith, j) in
      let p : r0.status ≡ RequestStatus.pending = status_of_eq r0 r0.status (ground (arith, j)) in
      let same : SameQuestion r0 r =
        subst (SameQuestion r0) built
          (Step-SameQuestion (Step.answer r0 response p (unfold new_response in refl))) in
      record {
        valid = v;
        kind_ok = k;
        said = j.said;
        before = r0;
        held = at;
        authorized = j.authorized;
        stored_now =
            stored_after input.workspace_key (trim input.request_id) r0 r d d'
              (o.filed input.workspace_key (trim input.request_id) r0 at) same e';
        closed = ap (λ (q : HumanRequest). status_eq q.status RequestStatus.pending) (sym built);
        same_place = same;
        same_delivery = ap (λ (q : HumanRequest). q.delivery) (sym built);
        same_again = λ n.
            ap (λ (q : HumanRequest). same_response_retry e.to_lower q.response input exact)
              (sym built)
            ∙ same_response_self e r0 input exact n;
      }

  kept-Resolved :
      IsValidName input.workspace_key input.request_id
      → validate_response_kind input.kind ≡ ok tt
      → stored input.workspace_key (trim input.request_id) d ≡ some r
      → Judged e input exact r unchanged
      → d' ≡ d
      → Resolved e input exact d r d'
  kept-Resolved v k at j e' = record {
    valid = v;
    kind_ok = k;
    said = j.said;
    before = r;
    held = at;
    authorized = j.authorized;
    stored_now = ap (stored input.workspace_key (trim input.request_id)) e' ∙ at;
    closed = ground (arith, j);
    same_place = ground arith;
    same_delivery = refl;
    same_again = λ n. ground (arith, j);
  }

  split-Resolved :
      IsValidName input.workspace_key input.request_id
      → validate_response_kind input.kind ≡ ok tt
      → (b : Bool)
      → edit_request e input.workspace_key input.request_id (apply_resolve e input exact) d
        ≡ (ok (r, b), d')
      → Resolved e input exact d r d'
  split-Resolved v k true h =
      let decide = apply_resolve e input exact in
      let (r0, edit, at, decided, w, e') =
        Edited-written (edit_request-Edited decide input.workspace_key input.request_id d e) h in
      written-Resolved v k r0 edit at (apply_resolve-Judged e input exact r0 edit decided) w e'
  split-Resolved v k false h =
      let decide = apply_resolve e input exact in
      let (at, decided, e') =
        Edited-kept (edit_request-Edited decide input.workspace_key input.request_id d e) h in
      kept-Resolved v k at (apply_resolve-Judged e input exact r unchanged decided) e'

  pub resolve_as-Resolved : resolve_as e input exact d ≡ (ok r, d') → Resolved e input exact d r d'
  unfolding resolve_as
  resolve_as-Resolved h =
      let (v, h') = check_call-eq-ok e input.workspace_key input.request_id _ h in
      let (u, k, h'') = lift-eq-ok (validate_response_kind input.kind) _ h' in
      let (b, h3) = first_of-eq-ok _ h'' in split-Resolved v k b h3
