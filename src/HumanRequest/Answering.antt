-- ===== src/HumanRequest/Answering.antt =====
-- The theorems on `Resolve` and `ResolveExact`: repeated answers, second answers, and authority.
use xira.Shared.{
  ℕ, String, Bool, true, false, not, ◌≡◌, ◌≢◌, refl, sym, ap, ◌∙◌, ◌⊎◌, Option, none, some, arith,
  ◌==◌, eq_iff, eq_refl, ◌&&◌, if◌then◌else◌, inl, inr, Bool-cases,
}
use mathlib.Core.Path.{subst}
use xira.Shared.Strings.{trim}
use xira.Shared.Result.{Result, ok, err}
use xira.Shared.Exec.{proceed, pure}
use xira.HumanRequest.Types.{
  RequestStatus, status_eq, ResponseKind, kind_eq, HumanRequest, HumanResponse,
  HumanResponseEnvelope, ResolveRequest, Error,
}
use xira.HumanRequest.Validate.{meets, past_expiry, validate_exact_response, validate_response_kind}
use xira.HumanRequest.Disk.{Env, Disk}
use xira.HumanRequest.Store.{or_now}
use xira.HumanRequest.Transitions.{
  unchanged, same_response, same_response_retry, check_exact, apply_resolve,
}
use xira.HumanRequest.Operations.{
  resolve, resolve_as, resolve_exact, resolve_request_of, save, edit_request,
}
use xira.HumanRequest.Edits.{stored}
use xira.HumanRequest.Inversion.{IsValidName, CanRead, check_call_ok, edit_request_found}
use xira.HumanRequest.Evolution.{IsOrderly}
use xira.HumanRequest.Resolving.{resolve_as-Resolved, kind_eq_refl}

-- The decision on a request that is no longer pending.
closed_decision :
    (e : Env) (input : ResolveRequest) (exact : Option HumanResponseEnvelope) (r : HumanRequest)
    → not (kind_eq input.kind ResponseKind.answer && trim input.message == "") ≡ true
    → check_exact e r exact (or_now e.now input.resolved_at) ≡ ok tt
    → status_eq r.status RequestStatus.pending ≡ false
    → apply_resolve e input exact r ≡ (
        if same_response_retry e.to_lower r.response input exact
        then ok unchanged
        else err Error.conflict)
unfolding apply_resolve
closed_decision e input exact r p q s = ground arith

closed_reply :
    (e : Env) (r : HumanRequest) (d : Disk) (b : Bool)
    → proceed
        (proceed {S = Disk} (if b then ok unchanged else err Error.conflict) (save e r) d).0
        (λ p. pure p.0)
        (proceed {S = Disk} (if b then ok unchanged else err Error.conflict) (save e r) d).1
      ≡ (if b then ok r else err Error.conflict, d)
unfolding save
closed_reply e r d true = refl
closed_reply e r d false = refl

-- A call on a stored request that is no longer pending.
resolve_closed :
    (e : Env) (input : ResolveRequest) (exact : Option HumanResponseEnvelope) (r : HumanRequest)
    (d : Disk)
    → IsValidName input.workspace_key input.request_id
    → CanRead e input.workspace_key input.request_id
    → validate_response_kind input.kind ≡ ok tt
    → not (kind_eq input.kind ResponseKind.answer && trim input.message == "") ≡ true
    → check_exact e r exact (or_now e.now input.resolved_at) ≡ ok tt
    → stored input.workspace_key (trim input.request_id) d ≡ some r
    → status_eq r.status RequestStatus.pending ≡ false
    → resolve_as e input exact d ≡ (
      if same_response_retry e.to_lower r.response input exact then ok r else err Error.conflict,
      d,
    )
unfolding resolve_as
resolve_closed e input exact r d v c k said auth at closed =
    check_call_ok e input.workspace_key input.request_id v c d _
    ∙ ap
        (λ (x : Result Error Unit).
          proceed x
            (λ _ s.
              let y =
                edit_request e input.workspace_key input.request_id (apply_resolve e input exact)
                  s in
              proceed y.0 (λ p. pure p.0) y.1)
            d)
        k
    ∙ ap (λ y. proceed y.0 (λ p. pure p.0) y.1)
        (edit_request_found e input.workspace_key input.request_id v c d
            (apply_resolve e input exact) r at
          ∙ ap (λ x. proceed x (save e r) d) (closed_decision e input exact r said auth closed))
    ∙ closed_reply e r d (same_response_retry e.to_lower r.response input exact)

-- A recorded response is the one that a call without an envelope brings again: the call carries an
-- idempotency key, and its key, kind, actor and message are those recorded.
pub record IsRepeat (p : HumanResponse) (input : ResolveRequest) : Type 0 where
  pub keyed : trim input.idempotency_key ≢ ""
  pub key : p.idempotency_key ≡ trim input.idempotency_key
  pub kind : p.kind ≡ input.kind
  pub actor : p.actor ≡ trim input.actor
  pub message : p.message ≡ trim input.message

abbrev pub Repeats : Option HumanResponse → ResolveRequest → Type 0
Repeats none input = ⊥
Repeats (some p) input = IsRepeat p input

kind_eq_iff : (a b : ResponseKind) → kind_eq a b ≡ true → a ≡ b
kind_eq_iff (ResponseKind.other s) (ResponseKind.other t) h =
    ap ResponseKind.other ((eq_iff s t).0 h)
kind_eq_iff a b h = ground arith

same_response-IsRepeat :
    (to_lower : String → String) (p : HumanResponse) (input : ResolveRequest)
    → same_response to_lower p input none ≡ true
    → IsRepeat p input
unfolding same_response
same_response-IsRepeat to_lower p input h = record {
  keyed = ground (arith, eq_iff (trim input.idempotency_key) "");
  key = ground (arith, eq_iff p.idempotency_key (trim input.idempotency_key));
  kind = kind_eq_iff p.kind input.kind (ground arith);
  actor = ground (arith, eq_iff p.actor (trim input.actor));
  message = ground (arith, eq_iff p.message (trim input.message));
}

IsRepeat-same_response :
    (to_lower : String → String) (p : HumanResponse) (input : ResolveRequest)
    → IsRepeat p input
    → same_response to_lower p input none ≡ true
unfolding same_response
IsRepeat-same_response to_lower p input w = rw w.key (
    rw w.kind (
      rw w.actor (
        rw w.message (
          simp (eq_refl, kind_eq_refl)
            (ground (arith, w.keyed, eq_iff (trim input.idempotency_key) ""))))))

-- Both outcomes of a repeated call, by whether it is the recorded response again.
told_apart :
    (to_lower : String → String) (o : Option HumanResponse) (input : ResolveRequest)
    → ((same_response_retry to_lower o input none ≡ true) × Repeats o input)
      ⊎ ((same_response_retry to_lower o input none ≡ false) × (¬ Repeats o input))
unfolding same_response_retry
told_apart to_lower none input = inr (refl, λ w. w)
told_apart to_lower (some p) input = elim (Bool-cases (same_response to_lower p input none)) [
  | inl y ↦ inl (y, same_response-IsRepeat to_lower p input y)
  | inr n ↦ inr (n, λ w. let same = IsRepeat-same_response to_lower p input w in cc)
]

module _ (e : Env) (input : ResolveRequest) (d : Disk) (o : IsOrderly d) {r : HumanRequest}
    {d' : Disk} where
  -- On an orderly disk, a call of `Resolve` that succeeded and carried an idempotency key that is
  -- not blank may be repeated, by a caller that is not canceled, can read the file and lowers
  -- letters alike: the same request is returned and the disk stays as it is.
  pub resolve_retry :
      resolve e input d ≡ (ok r, d')
      → trim input.idempotency_key ≢ ""
      → (e' : Env) → CanRead e' input.workspace_key input.request_id
      → e'.to_lower ≡ e.to_lower
      → resolve e' input d' ≡ (ok r, d')
  unfolding resolve check_exact
  resolve_retry h n e' c low =
      let w = resolve_as-Resolved e input none d o h in
      resolve_closed e' input none r d' w.valid c w.kind_ok w.said refl w.stored_now w.closed
      ∙ ap (λ (b : Bool). (if b then ok r else err Error.conflict, d'))
          (ap (λ (f : String → String). same_response_retry f r.response input none) low
            ∙ w.same_again n)

  -- On an orderly disk, once a call of `Resolve` has succeeded, another answer to the same request,
  -- of a known kind and not an empty one, by a caller that is not canceled and can read the file,
  -- changes nothing: it returns the request if it carries an idempotency key, and its key, kind, actor
  -- and message are those of the recorded response; otherwise it is a conflict.
  pub resolve_once :
      resolve e input d ≡ (ok r, d')
      → (e' : Env) (again : ResolveRequest) → again.workspace_key ≡ input.workspace_key
      → again.request_id ≡ input.request_id
      → CanRead e' input.workspace_key input.request_id
      → validate_response_kind again.kind ≡ ok tt
      → not (kind_eq again.kind ResponseKind.answer && trim again.message == "") ≡ true
      → (Repeats r.response again × (resolve e' again d' ≡ (ok r, d')))
        ⊎ ((¬ Repeats r.response again) × (resolve e' again d' ≡ (err Error.conflict, d')))
  unfolding resolve check_exact
  resolve_once h e' again same_ws same_id c k said =
      let w = resolve_as-Resolved e input none d o h in
      let v : IsValidName again.workspace_key again.request_id =
        subst (λ x. IsValidName x again.request_id) (sym same_ws)
          (subst (IsValidName input.workspace_key) (sym same_id) w.valid) in
      let c' : CanRead e' again.workspace_key again.request_id =
        subst (λ x. CanRead e' x again.request_id) (sym same_ws)
          (subst (CanRead e' input.workspace_key) (sym same_id) c) in
      let reply =
        resolve_closed e' again none r d' v c' k said refl
          ((λ i. stored (same_ws i) (trim (same_id i)) d') ∙ w.stored_now) w.closed in
      let answer : Bool → Result Error HumanRequest × Disk =
        λ b. (if b then ok r else err Error.conflict, d') in
      elim (told_apart e'.to_lower r.response again) [
        | inl (y, same) ↦ inl (same, reply ∙ ap answer y)
        | inr (n, other) ↦ inr (other, reply ∙ ap answer n)
      ]

-- The authority of a caller over a request: an empty persisted value asks for nothing.
pub record IsAuthorized (to_lower : String → String) (x : HumanResponseEnvelope) (r : HumanRequest)
    (now : ℕ) : Type 0 where
  pub token_given : trim x.correlation_token ≢ ""
  pub token : trim x.correlation_token ≡ r.correlation_token
  pub entrypoint :
      (r.responder.entrypoint_id ≡ "") ⊎ (trim x.entrypoint_id ≡ r.responder.entrypoint_id)
  pub sender : (r.responder.sender_id ≡ "") ⊎ (trim x.sender_id ≡ r.responder.sender_id)
  pub sender_type :
      (r.responder.sender_id_type ≡ "")
      ⊎ (to_lower (trim x.sender_id_type) ≡ r.responder.sender_id_type)
  pub message : (r.delivery.message_id ≡ "") ⊎ (trim x.delivery_message_id ≡ r.delivery.message_id)
  pub in_time : past_expiry r.expires_at now ≡ false

meets-eq : (a b : String) → meets a b ≡ true → (a ≡ "") ⊎ (b ≡ a)
unfolding meets
meets-eq a b h = ground (arith, eq_iff a "", eq_iff b a)

validate_exact_response-IsAuthorized :
    (to_lower : String → String) (x : HumanResponseEnvelope) (r : HumanRequest) (now : ℕ)
    → validate_exact_response to_lower r x now ≡ ok tt
    → IsAuthorized to_lower x r now
unfolding validate_exact_response
validate_exact_response-IsAuthorized to_lower x r now h = record {
  token_given = ground (arith, eq_iff (trim x.correlation_token) "");
  token = ground (arith, eq_iff (trim x.correlation_token) r.correlation_token);
  entrypoint = meets-eq _ _ (ground arith);
  sender = meets-eq _ _ (ground arith);
  sender_type = meets-eq _ _ (ground arith);
  message = meets-eq _ _ (ground arith);
  in_time = ground arith;
}

-- On an orderly disk, a call of `ResolveExact` that succeeds, whether it resolves the request or
-- repeats a response, came with the authority that the stored request asks for, before it expired.
pub resolve_exact-IsAuthorized :
    (e : Env) (x : HumanResponseEnvelope) (d : Disk) {r : HumanRequest} {d' : Disk}
    → IsOrderly d
    → resolve_exact e x d ≡ (ok r, d')
    → (r0 : HumanRequest) × (stored x.workspace_key (trim x.request_id) d ≡ some r0)
      × IsAuthorized e.to_lower x r0 (or_now e.now x.resolved_at)
unfolding resolve_exact check_exact
resolve_exact-IsAuthorized e x d o h =
    let w = resolve_as-Resolved e (resolve_request_of x) (some x) d o h in
    (
      w.before,
      w.held,
      validate_exact_response-IsAuthorized e.to_lower x w.before (or_now e.now x.resolved_at)
          w.authorized,
    )
