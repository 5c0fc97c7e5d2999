-- ===== src/HumanRequest/Lifecycle.antt =====
-- What may happen to one request: the steps of its life, its phases, and when it is well formed.
-- This is the specification that the operations of store.go and interaction_store.go implement.
use xira.Shared.{
  ℕ, String, true, ◌≡◌, ◌≢◌, ◌⊎◌, refl, sym, ◌∙◌, ◌≤◌, Option, none, some, arith, Extends,
  Extends-refl, Extends-append, Extends-trans,
}
use xira.HumanRequest.Types.{
  RequestStatus, DeliveryStatus, ResumeStatus, HumanResponse, HumanRequest,
}
use xira.HumanRequest.Transitions.{
  deliverable, delivered_request, undelivered_request, failed_request, resolved_request,
  claimed_request, completed_request, stopped_request,
}

-- The response of a request that is resolved answers that request.
abbrev pub Answers : Option HumanResponse → String → Type 0
Answers none id = ⊥
Answers (some s) id = s.request_id ≡ id

pub data Step : HumanRequest → HumanRequest → Type 0 where
  deliver :
      (r : HumanRequest) (message_id : String) (t : ℕ)
      → r.status ≡ RequestStatus.pending
      → deliverable r.delivery.status ≡ true
      → message_id ≢ ""
      → Step r (delivered_request r message_id t)
  miss :
      (r : HumanRequest) (error : String) (t : ℕ)
      → r.status ≡ RequestStatus.pending
      → deliverable r.delivery.status ≡ true
      → error ≢ ""
      → Step r (undelivered_request r error t)
  give_up :
      (r : HumanRequest) (error : String) (t : ℕ)
      → r.status ≡ RequestStatus.pending
      → deliverable r.delivery.status ≡ true
      → error ≢ ""
      → Step r (failed_request (undelivered_request r error t) error t)
  answer :
      (r : HumanRequest) (s : HumanResponse)
      → r.status ≡ RequestStatus.pending
      → s.request_id ≡ r.id
      → Step r (resolved_request r s)
  claim :
      (r : HumanRequest) (t : ℕ)
      → r.status ≡ RequestStatus.resolved
      → (r.resume.status ≡ ResumeStatus.pending) ⊎ (r.resume.status ≡ ResumeStatus.failed)
      → Step r (claimed_request r t)
  complete :
      (r : HumanRequest) (t : ℕ)
      → r.resume.status ≡ ResumeStatus.running
      → Step r (completed_request r t)
  stop :
      (r : HumanRequest) (action reason : String) (t : ℕ)
      → r.resume.status ≡ ResumeStatus.running
      → Step r (stopped_request r action reason t)

pub data Steps (r : HumanRequest) : HumanRequest → Type 0 where
  here : Steps r r
  next : {s t : HumanRequest} → Steps r s → Step s t → Steps r t

pub Steps-trans : {r s t : HumanRequest} → Steps r s → Steps s t → Steps r t
Steps-trans a here = a
Steps-trans a (next b c) = next (Steps-trans a b) c

-- The phases, and their graph.
pub data Phase : Type 0 where
  asking undeliverable due resuming retryable done legacy : Phase

abbrev pub phase_of : RequestStatus → ResumeStatus → Phase
phase_of RequestStatus.pending ResumeStatus.waiting_response = asking
phase_of RequestStatus.failed ResumeStatus.unset = undeliverable
phase_of RequestStatus.resolved ResumeStatus.pending = due
phase_of RequestStatus.resolved ResumeStatus.running = resuming
phase_of RequestStatus.resolved ResumeStatus.failed = retryable
phase_of RequestStatus.resolved ResumeStatus.completed = done
phase_of _ _ = legacy

abbrev pub phase : HumanRequest → Phase
phase r = phase_of r.status r.resume.status

infix 40 ◌⟶◌
pub data ◌⟶◌ : Phase → Phase → Type 0 where
  still_asking : asking ⟶ asking
  given_up : asking ⟶ undeliverable
  answered : asking ⟶ due
  claimed : due ⟶ resuming
  claimed_again : retryable ⟶ resuming
  completed : resuming ⟶ done
  stopped : resuming ⟶ retryable

ruleset edges = (still_asking, given_up, answered, claimed, claimed_again, completed, stopped)

pub record IsWellFormed (r : HumanRequest) : Type 0 where
  pub lives : phase r ≢ legacy
  pub pending_open : r.status ≡ RequestStatus.pending → r.response ≡ none
  pub failed_open : r.status ≡ RequestStatus.failed → r.response ≡ none
  pub resolved_answered : r.status ≡ RequestStatus.resolved → Answers r.response r.id
  pub failed_undelivered :
      r.status ≡ RequestStatus.failed → r.delivery.status ≡ DeliveryStatus.failed
  pub sent_addressed : r.delivery.status ≡ DeliveryStatus.sent → r.delivery.message_id ≢ ""

-- The functions that build the next request, for the lines of the proofs below.
edited_fields : Unit {0}
unfolding delivered_request undelivered_request failed_request resolved_request claimed_request
    completed_request stopped_request
edited_fields = tt

pub Step-IsWellFormed : {r s : HumanRequest} → Step r s → IsWellFormed r → IsWellFormed s
unfolding edited_fields
Step-IsWellFormed (deliver r m t p q n) w = ground arith
Step-IsWellFormed (miss r x t p q n) w = ground arith
Step-IsWellFormed (give_up r x t p q n) w = ground arith
Step-IsWellFormed (answer r s p q) w = ground arith
Step-IsWellFormed (claim r t p q) w = ground arith
Step-IsWellFormed (complete r t p) w = ground arith
Step-IsWellFormed (stop r a x t p) w = ground arith

pub Step-⟶ : {r s : HumanRequest} → Step r s → IsWellFormed r → phase r ⟶ phase s
unfolding edited_fields
Step-⟶ (deliver r m t p q n) w = grind (arith, edges)
Step-⟶ (miss r x t p q n) w = grind (arith, edges)
Step-⟶ (give_up r x t p q n) w = grind (arith, edges)
Step-⟶ (answer r s p q) w = grind (arith, edges)
Step-⟶ (claim r t p q) w = grind (arith, edges)
Step-⟶ (complete r t p) w = grind (arith, edges)
Step-⟶ (stop r a x t p) w = grind (arith, edges)

-- A step adds to the audit trail and rewrites none of it.
pub Step-Extends : {r s : HumanRequest} → Step r s → Extends r.audit s.audit
unfolding edited_fields
Step-Extends (deliver r m t p q n) = Extends-append r.audit _
Step-Extends (miss r x t p q n) = Extends-append r.audit _
Step-Extends (give_up r x t p q n) =
    Extends-trans (Extends-append r.audit _) (Extends-append (undelivered_request r x t).audit _)
Step-Extends (answer r s p q) = Extends-append r.audit _
Step-Extends (claim r t p q) = Extends-append r.audit _
Step-Extends (complete r t p) = Extends-append r.audit _
Step-Extends (stop r a x t p) = Extends-append r.audit _

-- What was asked, of whom and where never changes.
pub record SameQuestion (r s : HumanRequest) : Type 0 where
  pub id : s.id ≡ r.id
  pub workspace_key : s.workspace_key ≡ r.workspace_key
  pub question : s.question ≡ r.question
  pub options : s.options ≡ r.options
  pub responder : s.responder ≡ r.responder
  pub correlation_token : s.correlation_token ≡ r.correlation_token
  pub chat_key : s.chat_key ≡ r.chat_key
  pub expires_at : s.expires_at ≡ r.expires_at
  pub created_at : s.created_at ≡ r.created_at

pub Step-SameQuestion : {r s : HumanRequest} → Step r s → SameQuestion r s
unfolding edited_fields
Step-SameQuestion (deliver r m t p q n) = ground arith
Step-SameQuestion (miss r x t p q n) = ground arith
Step-SameQuestion (give_up r x t p q n) = ground arith
Step-SameQuestion (answer r s p q) = ground arith
Step-SameQuestion (claim r t p q) = ground arith
Step-SameQuestion (complete r t p) = ground arith
Step-SameQuestion (stop r a x t p) = ground arith

-- A response that was given stays, and so does a terminal state.
pub Step-response :
    {r s : HumanRequest}
    → Step r s
    → r.status ≢ RequestStatus.pending
    → (s.status ≡ r.status) × (s.response ≡ r.response) × (s.resolved_at ≡ r.resolved_at)
unfolding edited_fields
Step-response (deliver r m t p q n) h = absurd (h p)
Step-response (miss r x t p q n) h = absurd (h p)
Step-response (give_up r x t p q n) h = absurd (h p)
Step-response (answer r s p q) h = absurd (h p)
Step-response (claim r t p q) h = (refl, refl, refl)
Step-response (complete r t p) h = (refl, refl, refl)
Step-response (stop r a x t p) h = (refl, refl, refl)

-- A resume's attempts count its claims.
pub Step-attempts :
    {r s : HumanRequest}
    → Step r s
    → r.status ≡ RequestStatus.resolved
    → r.resume.attempts ≤ s.resume.attempts
unfolding edited_fields
Step-attempts (deliver r m t p q n) h = ground arith
Step-attempts (miss r x t p q n) h = ground arith
Step-attempts (give_up r x t p q n) h = ground arith
Step-attempts (answer r s p q) h = ground arith
Step-attempts (claim r t p q) h = ground arith
Step-attempts (complete r t p) h = ground arith
Step-attempts (stop r a x t p) h = ground arith

pub Steps-IsWellFormed : {r s : HumanRequest} → Steps r s → IsWellFormed r → IsWellFormed s
Steps-IsWellFormed here w = w
Steps-IsWellFormed (next a b) w = Step-IsWellFormed b (Steps-IsWellFormed a w)

pub Steps-Extends : {r s : HumanRequest} → Steps r s → Extends r.audit s.audit
Steps-Extends {r} here = Extends-refl r.audit
Steps-Extends (next a b) = Extends-trans (Steps-Extends a) (Step-Extends b)

pub Steps-SameQuestion : {r s : HumanRequest} → Steps r s → SameQuestion r s
Steps-SameQuestion here = ground arith
Steps-SameQuestion (next a b) = ground (arith, Steps-SameQuestion a, Step-SameQuestion b)

pub Steps-response :
    {r s : HumanRequest}
    → Steps r s
    → r.status ≢ RequestStatus.pending
    → (s.status ≡ r.status) × (s.response ≡ r.response) × (s.resolved_at ≡ r.resolved_at)
Steps-response here h = (refl, refl, refl)
Steps-response (next a b) h =
    let (p, q, t) = Steps-response a h in
    let (p', q', t') = Step-response b (λ e. h (sym p ∙ e)) in (p' ∙ p, q' ∙ q, t' ∙ t)

-- The phases that one can come to from a phase.
infix 40 ◌⟶*◌
pub data ◌⟶*◌ : Phase → Phase → Type 0 where
  stay : {a : Phase} → a ⟶* a
  move : {a b c : Phase} → a ⟶* b → b ⟶ c → a ⟶* c

pub Steps-⟶* : {r s : HumanRequest} → Steps r s → IsWellFormed r → phase r ⟶* phase s
Steps-⟶* here w = stay
Steps-⟶* (next a b) w = move (Steps-⟶* a w) (Step-⟶ b (Steps-IsWellFormed a w))
