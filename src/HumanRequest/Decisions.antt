-- ===== src/HumanRequest/Decisions.antt =====
-- Each decision of Transitions.antt is a step of the request's life, or writes nothing.
use xira.Shared.{
  ℕ, String, Bool, true, false, not, ◌&&◌, ◌≡◌, ◌≢◌, refl, inl, inr, Option, some, ◌==◌, eq_iff,
  arith, if◌then◌else◌,
}
use mathlib.Core.Path.{subst}
use xira.Shared.Strings.{trim}
use xira.Shared.Result.{Result, ok, err, guard, ◌>>=◌, ◌>>◌}
use xira.HumanRequest.Types.{
  RequestStatus, status_eq, ResumeStatus, HumanRequest, HumanResponse, HumanResponseEnvelope,
  ResolveRequest, DeliveryAttempt, Error,
}
use xira.HumanRequest.Validate.{Checked}
use xira.HumanRequest.Disk.{Env}
use xira.HumanRequest.Store.{or_now}
use xira.HumanRequest.Transitions.{
  Edit, unchanged, write, respond, same_truth, check_exact, same_response_retry, new_response,
  resolved_request, apply_resolve, deliverable, delivered_request, undelivered_request,
  failed_request, apply_delivery_attempt, apply_terminal_delivery_failure, claim_by,
  apply_resume_claim, finish_by, finish_running, apply_resume_finish, recover_by,
  recover_interrupted_resume, completed_request, stopped_request, interrupted,
}
use xira.HumanRequest.Operations.{written}
use xira.HumanRequest.Edits.{Writes}
use xira.HumanRequest.Lifecycle.{Step}

-- What is written, if anything is, is one step on.
abbrev pub IsLawful : HumanRequest → Result Error Edit → Type 0
IsLawful r (err x) = Unit
IsLawful r (ok unchanged) = Unit
IsLawful r (ok (write s)) = Step r s
IsLawful r (ok (respond response s)) = Step r s

pub Step_of_IsLawful :
    (r s : HumanRequest) (edit : Edit) → IsLawful r (ok edit) → Writes edit s → Step r s
Step_of_IsLawful r s unchanged l w = elim w [ ]
Step_of_IsLawful r s (write q) l w = subst (Step r) w l
Step_of_IsLawful r s (respond x q) l w = subst (Step r) w l

module _ (r : HumanRequest) where
  guard-IsLawful :
      (b : Bool) (x : Error) (m : Result Error Edit)
      → (b ≡ true → IsLawful r m)
      → IsLawful r (guard b x >> m)
  guard-IsLawful true x m h = h refl
  guard-IsLawful false x m h = tt

  checked-IsLawful : (c : Checked) (m : Result Error Edit) → IsLawful r m → IsLawful r (c >> m)
  checked-IsLawful (ok _) m h = h
  checked-IsLawful (err x) m h = tt

  pub status_of_eq :
      (s : RequestStatus) → status_eq s RequestStatus.pending ≡ true → s ≡ RequestStatus.pending
  status_of_eq s h = ground arith

  answer-IsLawful :
      (response : HumanResponse) (retry pending : Bool)
      → status_eq r.status RequestStatus.pending ≡ pending
      → response.request_id ≡ r.id
      → IsLawful r (
          if pending
          then ok (respond response (resolved_request r response))
          else if retry
          then ok unchanged
          else err Error.conflict)
  answer-IsLawful response true true h e = Step.answer r response (status_of_eq r.status h) e
  answer-IsLawful response false true h e = Step.answer r response (status_of_eq r.status h) e
  answer-IsLawful response true false h e = tt
  answer-IsLawful response false false h e = tt

  pub apply_resolve-IsLawful :
      (e : Env) (input : ResolveRequest) (exact : Option HumanResponseEnvelope)
      → IsLawful r (apply_resolve e input exact r)
  unfolding apply_resolve
  apply_resolve-IsLawful e input exact = guard-IsLawful _ Error.validation _ λ _.
      checked-IsLawful (check_exact e r exact (or_now e.now input.resolved_at)) _ (
        answer-IsLawful (new_response e r input exact)
          (same_response_retry e.to_lower r.response input exact)
          (status_eq r.status RequestStatus.pending) refl (unfold new_response in refl))

  claim_by-IsLawful :
      (t : ℕ) (s : ResumeStatus)
      → r.resume.status ≡ s
      → r.status ≡ RequestStatus.resolved
      → IsLawful r (claim_by s r t)
  unfolding claim_by
  claim_by-IsLawful t ResumeStatus.pending h p = Step.claim r t p (inl h)
  claim_by-IsLawful t ResumeStatus.failed h p = Step.claim r t p (inr h)
  claim_by-IsLawful t _ h p = tt

  pub apply_resume_claim-IsLawful : (t : ℕ) → IsLawful r (apply_resume_claim t r)
  unfolding apply_resume_claim
  apply_resume_claim-IsLawful t =
      guard-IsLawful _ Error.conflict _ λ h. claim_by-IsLawful t r.resume.status refl (ground arith)

  finish_running-IsLawful :
      (failure : String) (t : ℕ)
      → r.resume.status ≡ ResumeStatus.running
      → (b : Bool)
      → IsLawful r (
          ok (
            if b
            then write (completed_request r t)
            else write (stopped_request r "human_request.resume_failed" failure t)))
  finish_running-IsLawful failure t h true = Step.complete r t h
  finish_running-IsLawful failure t h false = Step.stop r _ failure t h

  unless-IsLawful : (b : Bool) → IsLawful r (if b then ok unchanged else err Error.conflict)
  unless-IsLawful true = tt
  unless-IsLawful false = tt

  finish_by-IsLawful :
      (failure : String) (t : ℕ) (s : ResumeStatus)
      → r.resume.status ≡ s
      → IsLawful r (finish_by s r failure t)
  unfolding finish_by finish_running
  finish_by-IsLawful failure t ResumeStatus.completed h = unless-IsLawful (failure == "")
  finish_by-IsLawful failure t ResumeStatus.running h =
      finish_running-IsLawful failure t h (failure == "")
  finish_by-IsLawful failure t _ h = tt

  pub apply_resume_finish-IsLawful :
      (failure : String) (t : ℕ) → IsLawful r (apply_resume_finish failure t r)
  unfolding apply_resume_finish
  apply_resume_finish-IsLawful failure t = finish_by-IsLawful failure t r.resume.status refl

  recover_by-Step :
      (t : ℕ) (s : ResumeStatus) (q : HumanRequest)
      → r.resume.status ≡ s
      → recover_by s r t ≡ some q
      → Step r q
  unfolding recover_by
  recover_by-Step t ResumeStatus.running q h k =
      subst (Step r) (ground arith) (Step.stop r "human_request.resume_recovered" interrupted t h)
  recover_by-Step t _ q h k = cc

  pub recover_interrupted_resume-Step :
      (t : ℕ) (q : HumanRequest) → recover_interrupted_resume r t ≡ some q → Step r q
  unfolding recover_interrupted_resume
  recover_interrupted_resume-Step t q k = recover_by-Step t r.resume.status q refl k

-- A delivery attempt is judged before it is written.
abbrev pub IsStep : HumanRequest → Result Error HumanRequest → Type 0
IsStep r (err x) = Unit
IsStep r (ok s) = Step r s

module _ (r : HumanRequest) where
  guard-IsStep :
      (b : Bool) (x : Error) (m : Result Error HumanRequest)
      → (b ≡ true → IsStep r m)
      → IsStep r (guard b x >> m)
  guard-IsStep true x m h = h refl
  guard-IsStep false x m h = tt

  attempt-IsStep :
      (message_id error : String) (t : ℕ) (b : Bool)
      → (error == "") ≡ b
      → not (same_truth (message_id == "") (error == "")) ≡ true
      → status_eq r.status RequestStatus.pending ≡ true
      → deliverable r.delivery.status ≡ true
      → IsStep r
          (ok (if b then delivered_request r message_id t else undelivered_request r error t))
  unfolding same_truth
  attempt-IsStep m x t true h one p q =
      Step.deliver r m t (status_of_eq r r.status p) q (ground (arith, eq_iff m ""))
  attempt-IsStep m x t false h one p q =
      Step.miss r x t (status_of_eq r r.status p) q (ground (arith, eq_iff x ""))

  pub apply_delivery_attempt-IsStep :
      (a : DeliveryAttempt) (t : ℕ) → IsStep r (apply_delivery_attempt r a t)
  unfolding apply_delivery_attempt
  apply_delivery_attempt-IsStep a t = guard-IsStep _ Error.validation _ λ one.
      guard-IsStep _ Error.conflict _ λ p.
        guard-IsStep _ Error.conflict _
          λ q. attempt-IsStep (trim a.message_id) (trim a.error) t (trim a.error == "") refl one p q

  -- An attempt that carries only an error, on a request that is pending.
  pub attempt-error :
      (a : DeliveryAttempt) (t : ℕ)
      → status_eq r.status RequestStatus.pending ≡ true
      → (not (trim a.error == "") && trim a.message_id == "") ≡ true
      → apply_delivery_attempt r a t ≡ (
          if deliverable r.delivery.status
          then ok (undelivered_request r (trim a.error) t)
          else err Error.conflict)
  unfolding apply_delivery_attempt same_truth
  attempt-error a t p one = ground arith

  give_up-IsStep :
      (x : String) (t : ℕ) (b : Bool) (o : Result Error HumanRequest)
      → o ≡ (if b then ok (undelivered_request r x t) else err Error.conflict)
      → deliverable r.delivery.status ≡ b
      → status_eq r.status RequestStatus.pending ≡ true
      → x ≢ ""
      → IsStep r (o >>= λ tried. ok (failed_request tried x t))
  give_up-IsStep x t true o h q p n = rw h (Step.give_up r x t (status_of_eq r r.status p) q n)
  give_up-IsStep x t false o h q p n = rw h tt

  pub apply_terminal_delivery_failure-IsStep :
      (a : DeliveryAttempt) (t : ℕ) → IsStep r (apply_terminal_delivery_failure r a t)
  unfolding apply_terminal_delivery_failure
  apply_terminal_delivery_failure-IsStep a t = guard-IsStep _ Error.conflict _ λ p.
      guard-IsStep _ Error.validation _ λ one.
        give_up-IsStep (trim a.error) t (deliverable r.delivery.status)
          (apply_delivery_attempt r a t) (attempt-error a t p one) refl p
          (ground (arith, eq_iff (trim a.error) ""))

  pub written-IsLawful : (o : Result Error HumanRequest) → IsStep r o → IsLawful r (written o)
  unfolding written
  written-IsLawful (ok s) h = h
  written-IsLawful (err x) h = tt
