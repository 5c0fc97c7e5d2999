-- ===== src/HumanRequest/Claiming.antt =====
-- `ClaimResume` of interaction_store.go, and a second claim after the first.
use xira.Shared.{ℕ, String, true, false, ◌≡◌, sym, ap, ◌∙◌, ◌⊎◌, some, arith, ◌+◌}
use mathlib.Core.Path.{subst}
use xira.Shared.Strings.{trim}
use xira.Shared.Dict
use xira.Shared.Dict.{pair_eq, lookup-insert_self}
use xira.Shared.Result.{ok}
use xira.Shared.Exec.{proceed}
use xira.HumanRequest.Types.{RequestStatus, ResumeStatus, HumanRequest}
use xira.HumanRequest.Disk.{Env, Disk}
use xira.HumanRequest.Store.{or_now}
use xira.HumanRequest.Transitions.{
  Edit, unchanged, write, respond, is_some, claim_by, claimed_request, apply_resume_claim,
}
use xira.HumanRequest.Operations.{claim_resume, save, edit_request}
use xira.HumanRequest.Edits.{stored, put, Writes, edit_request-Edited}
use xira.HumanRequest.Inversion.{
  IsValidName, CanRead, check_call-eq-ok, check_call_ok, edit_request_found, Edited-written,
}
use xira.HumanRequest.Evolution.{IsFiled, IsOrderly}
use xira.HumanRequest.Lifecycle.{Step, SameQuestion, Step-SameQuestion}

-- What a claim writes.
apply_resume_claim-Writes :
    (t : ℕ) (r s : HumanRequest) (edit : Edit)
    → apply_resume_claim t r ≡ ok edit
    → Writes edit s
    → (s ≡ claimed_request r t)
      × (r.status ≡ RequestStatus.resolved)
      × (is_some r.response ≡ true)
      × ((r.resume.status ≡ ResumeStatus.pending) ⊎ (r.resume.status ≡ ResumeStatus.failed))
unfolding apply_resume_claim claim_by is_some
apply_resume_claim-Writes t r s (write q) h w = ground arith
apply_resume_claim-Writes t r s unchanged h w = elim w [ ]
apply_resume_claim-Writes t r s (respond x q) h w = ground arith

-- A request whose resume is running is not claimed again.
apply_resume_claim-running :
    (t : ℕ) (r : HumanRequest)
    → r.status ≡ RequestStatus.resolved
    → is_some r.response ≡ true
    → r.resume.status ≡ ResumeStatus.running
    → apply_resume_claim t r ≡ ok unchanged
unfolding apply_resume_claim claim_by is_some
apply_resume_claim-running t r p q h = ground arith

-- What is stored after a write that changed nothing of the request's place.
pub stored_after :
    (ws id : String) (r s : HumanRequest) (d d' : Disk)
    → IsFiled ws id r
    → SameQuestion r s
    → d'.requests ≡ (put s d).requests
    → stored ws id d' ≡ some s
stored_after ws id r s d d' f q e =
    ap (Dict.lookup (ws, id)) e
    ∙ ap (λ k. Dict.lookup k (put s d).requests)
        (λ i. (sym (q.workspace_key ∙ f.workspace) i, sym (ap trim q.id ∙ f.name) i))
    ∙ lookup-insert_self (s.workspace_key, trim s.id) s d.requests

-- What a claim that succeeds has found and written.
record Won (e : Env) (ws id : String) (t : ℕ) (d : Disk) (r : HumanRequest) (d' : Disk)
    : Type 0 where
  valid : IsValidName ws id
  before : HumanRequest
  held : stored ws (trim id) d ≡ some before
  resolved : before.status ≡ RequestStatus.resolved
  answered : is_some before.response ≡ true
  open_resume :
      (before.resume.status ≡ ResumeStatus.pending) ⊎ (before.resume.status ≡ ResumeStatus.failed)
  written : r ≡ claimed_request before (or_now e.now t)
  stored_now : stored ws (trim id) d' ≡ some r

module _ (e : Env) (ws id : String) (t : ℕ) (d : Disk) (o : IsOrderly d) {r : HumanRequest}
    {d' : Disk} (h : claim_resume e ws id t d ≡ (ok (r, true), d')) where
  claim_resume-Won : Won e ws id t d r d'
  unfolding claim_resume
  claim_resume-Won =
      let decide = apply_resume_claim (or_now e.now t) in
      let (v, k) = check_call-eq-ok e ws id (edit_request e ws id decide) h in
      let (r0, edit, at, decided, w, e') =
        Edited-written (edit_request-Edited decide ws id d e) k in
      let (built, p, q, s) = apply_resume_claim-Writes (or_now e.now t) r0 r edit decided w in
      let same : SameQuestion r0 r =
        subst (SameQuestion r0) (sym built)
          (Step-SameQuestion (Step.claim r0 (or_now e.now t) p s)) in
      record {
        valid = v;
        before = r0;
        held = at;
        resolved = p;
        answered = q;
        open_resume = s;
        written = built;
        stored_now = stored_after ws (trim id) r0 r d d' (o.filed ws (trim id) r0 at) same e';
      }

  -- On an orderly disk, a claim that succeeds finds a resolved request whose resume is due or retryable, and stores it
  -- as running with one more attempt.
  pub claim_resume-true :
      (r0 : HumanRequest) × (stored ws (trim id) d ≡ some r0)
      × (r0.status ≡ RequestStatus.resolved)
      × ((r0.resume.status ≡ ResumeStatus.pending) ⊎ (r0.resume.status ≡ ResumeStatus.failed))
      × (stored ws (trim id) d' ≡ some r)
      × (r.resume.status ≡ ResumeStatus.running)
      × (r.resume.attempts ≡ r0.resume.attempts + 1)
  unfolding claimed_request
  claim_resume-true =
      let w = claim_resume-Won in
      (
        w.before,
        w.held,
        w.resolved,
        w.open_resume,
        w.stored_now,
        ap (λ (q : HumanRequest). q.resume.status) w.written,
        ap (λ (q : HumanRequest). q.resume.attempts) w.written,
      )

  running_now :
      (r.status ≡ RequestStatus.resolved)
      × (is_some r.response ≡ true)
      × (r.resume.status ≡ ResumeStatus.running)
  unfolding claimed_request
  running_now =
      let w = claim_resume-Won in
      (
        ap (λ (q : HumanRequest). q.status) w.written ∙ w.resolved,
        ap (λ (q : HumanRequest). is_some q.response) w.written ∙ w.answered,
        ap (λ (q : HumanRequest). q.resume.status) w.written,
      )

  -- On an orderly disk, once a claim has succeeded the next claim of the same request, by any
  -- caller that is not canceled and can read the file, does not succeed: it returns the request as
  -- the first caller stored it, reports that it was not claimed, and changes nothing.
  pub claim-claim :
      (e' : Env) (t' : ℕ) → CanRead e' ws id → claim_resume e' ws id t' d' ≡ (ok (r, false), d')
  unfolding claim_resume save
  claim-claim e' t' c =
      let w = claim_resume-Won in
      let (p, q, s) = running_now in
      check_call_ok e' ws id w.valid c d' _
      ∙ edit_request_found e' ws id w.valid c d' (apply_resume_claim (or_now e'.now t')) r
          w.stored_now
      ∙ ap (λ x. proceed x (save e' r) d') (apply_resume_claim-running (or_now e'.now t') r p q s)
