-- ===== src/HumanRequest/Calls.antt =====
-- Every operation of the store that changes a disk, as one step of a history. The store's mutex
-- makes each operation one step, so a history is an interleaving of any number of callers.
use xira.Shared.{ℕ, String, Bool, ◌≡◌, refl, Option, some}
use xira.Shared.Strings.{trim}
use xira.Shared.Result.{Result, ok, err}
use xira.Shared.Exec.{pure, lift, proceed, ◌>>=◌, ◌>>◌}
use xira.HumanRequest.Types.{
  HumanRequest, HumanResponseEnvelope, ResolveRequest, DeliveryAttempt, Error,
}
use xira.HumanRequest.Validate.{
  Checked, validate_response_kind, validate_workspace_key, validate_path_id,
}
use xira.HumanRequest.Disk.{Env, Disk, Op, check_ctx}
use xira.HumanRequest.Store.{or_now}
use xira.HumanRequest.Transitions.{Edit, apply_resolve}
use xira.HumanRequest.Operations.{
  check_call, edit_request, resolve_as, record_delivery, fail_delivery, claim_resume, finish_resume,
}
use xira.HumanRequest.Edits.{stored, put, Edited, refused, kept, edited, edit_request-Edited}
use xira.HumanRequest.Lifecycle.{Step}
use xira.HumanRequest.Decisions.{
  IsLawful, Step_of_IsLawful, apply_resolve-IsLawful, apply_resume_claim-IsLawful,
  apply_resume_finish-IsLawful, apply_delivery_attempt-IsStep,
  apply_terminal_delivery_failure-IsStep, written-IsLawful,
}
use xira.HumanRequest.Evolution.{
  IsOrderly, Evolves, Evolves-of_same, Evolves-trans, IsOrderly-of_same, Evolves-of_step,
  IsOrderly-of_step,
}

-- A disk that came of another by the rules.
pub record Follows (d d' : Disk) : Type 0 where
  pub evolves : Evolves d d'
  pub orderly : IsOrderly d'

pub Follows-of_same : {d d' : Disk} → IsOrderly d → d'.requests ≡ d.requests → Follows d d'
Follows-of_same o e = record { evolves = Evolves-of_same e; orderly = IsOrderly-of_same e o }

pub Follows-of_step :
    (ws id : String) (r s : HumanRequest) (d d' : Disk)
    → IsOrderly d
    → stored ws id d ≡ some r
    → Step r s
    → d'.requests ≡ (put s d).requests
    → Follows d d'
Follows-of_step ws id r s d d' o h st e = record {
  evolves = Evolves-of_step ws id r s d d' h (o.filed ws id r h) st e;
  orderly = IsOrderly-of_step ws id r s d d' h (o.filed ws id r h) st e o;
}

pub Follows-trans : {a b c : Disk} → Follows a b → Follows b c → Follows a c
Follows-trans p q = record { evolves = Evolves-trans p.evolves q.evolves; orderly = q.orderly }

module _ (d : Disk) where
  -- The disk after an operation follows, whether the operation fails or not.
  abbrev pub Keeps : {A : Type 0} → Op A → Type 0
  Keeps m = Follows d (m d).1

  module _ (o : IsOrderly d) {B : Type 0} where
    pub lift-Keeps :
        {A : Type 0} (c : Result Error A) (f : A → Op B)
        → ((a : A) → Keeps (f a))
        → Keeps (lift c >>= f)
    lift-Keeps (ok a) f h = h a
    lift-Keeps (err x) f h = Follows-of_same o refl

    calls-Keeps : (a b c : Checked) (m : Op B) → Keeps m → Keeps ((lift a >> lift b >> lift c) >> m)
    calls-Keeps (ok _) (ok _) (ok _) m h = h
    calls-Keeps (err x) b c m h = Follows-of_same o refl
    calls-Keeps (ok _) (err x) c m h = Follows-of_same o refl
    calls-Keeps (ok _) (ok _) (err x) m h = Follows-of_same o refl

    pub check_call-Keeps :
        (e : Env) (ws id : String) (m : Op B) → Keeps m → Keeps (check_call e ws id >> m)
    unfolding check_call
    check_call-Keeps e ws id m h =
        calls-Keeps (check_ctx e) (validate_workspace_key ws) (validate_path_id id) m h

  first_of-Follows :
      {A : Type 0} (x : Result Error (A × Bool) × Disk)
      → Follows d x.1
      → Follows d (proceed x.0 (λ p. pure p.0) x.1).1
  first_of-Follows (ok a, d') h = h
  first_of-Follows (err x, d') h = h

module _ (decide : HumanRequest → Result Error Edit) (ws id : String) (d : Disk) (o : IsOrderly d)
    (lawful : (r : HumanRequest) → IsLawful r (decide r)) where
  Edited-Follows :
      {x : Result Error (HumanRequest × Bool) × Disk} → Edited decide ws id d x → Follows d x.1
  Edited-Follows (refused x d' e) = Follows-of_same o e
  Edited-Follows (kept r h k) = Follows-of_same o refl
  Edited-Follows (edited r s edit d' h k w e) =
      Follows-of_step ws (trim id) r s d d' o h (Step_of_IsLawful r s edit (rw k at (lawful r)) w) e

  pub edit_request-Follows : (e : Env) → Follows d (edit_request e ws id decide d).1
  edit_request-Follows e = Edited-Follows (edit_request-Edited decide ws id d e)

module _ (e : Env) (d : Disk) (o : IsOrderly d) where
  pub resolve_as-Keeps :
      (input : ResolveRequest) (exact : Option HumanResponseEnvelope)
      → Keeps d (resolve_as e input exact)
  unfolding resolve_as
  resolve_as-Keeps input exact = check_call-Keeps d o e input.workspace_key input.request_id _ (
      lift-Keeps d o (validate_response_kind input.kind) _ λ _. first_of-Follows d _ (
        edit_request-Follows (apply_resolve e input exact) input.workspace_key input.request_id d o
          (λ r. apply_resolve-IsLawful r e input exact) e))

  pub record_delivery-Keeps :
      (ws id : String) (a : DeliveryAttempt) → Keeps d (record_delivery e ws id a)
  unfolding record_delivery
  record_delivery-Keeps ws id a = check_call-Keeps d o e ws id _ (
      first_of-Follows d _ (
        edit_request-Follows _ ws id d o
          (λ r.
            written-IsLawful r _ (apply_delivery_attempt-IsStep r a (or_now e.now a.attempted_at)))
          e))

  pub fail_delivery-Keeps :
      (ws id : String) (a : DeliveryAttempt) → Keeps d (fail_delivery e ws id a)
  unfolding fail_delivery
  fail_delivery-Keeps ws id a = check_call-Keeps d o e ws id _ (
      first_of-Follows d _ (
        edit_request-Follows _ ws id d o
          (λ r.
            written-IsLawful r _
              (apply_terminal_delivery_failure-IsStep r a (or_now e.now a.attempted_at)))
          e))

  pub claim_resume-Keeps : (ws id : String) (t : ℕ) → Keeps d (claim_resume e ws id t)
  unfolding claim_resume
  claim_resume-Keeps ws id t =
      check_call-Keeps d o e ws id _
        (edit_request-Follows _ ws id d o (λ r. apply_resume_claim-IsLawful r (or_now e.now t)) e)

  pub finish_resume-Keeps :
      (ws id failure : String) (t : ℕ) → Keeps d (finish_resume e ws id failure t)
  unfolding finish_resume
  finish_resume-Keeps ws id failure t = check_call-Keeps d o e ws id _ (
      first_of-Follows d _ (
        edit_request-Follows _ ws id d o
          (λ r. apply_resume_finish-IsLawful r failure (or_now e.now t)) e))
