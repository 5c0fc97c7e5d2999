-- ===== src/HumanRequest/Inversion.antt =====
-- What a successful call tells of its checks, and what a call comes to whose checks pass.
use xira.Shared.{String, Bool, true, false, ◌≡◌, refl, sym, ap, ◌∙◌, some, arith}
use mathlib.Core.Path.{subst, subst₂}
use xira.Shared.Strings.{trim}
use xira.Shared.Result.{Result, ok, err}
use xira.Shared.Exec.{pure, lift, proceed, ◌>>=◌, ◌>>◌}
use xira.HumanRequest.Types.{HumanRequest, Error}
use xira.HumanRequest.Validate.{Checked, validate_path_id, validate_workspace_key}
use xira.HumanRequest.Disk.{Env, Disk, Op, check_ctx, found, load_request, request_file}
use xira.HumanRequest.Transitions.{Edit, unchanged}
use xira.HumanRequest.Operations.{check_call, save, edit_request}
use xira.HumanRequest.Edits.{stored, put, Edited, refused, kept, edited, Writes}

-- A workspace key and a request id that pass the checks.
pub record IsValidName (ws id : String) : Type 0 where
  pub workspace : validate_workspace_key ws ≡ ok tt
  pub request : validate_path_id id ≡ ok tt

-- A call that is not canceled, and can read the request's file.
pub record CanRead (e : Env) (ws id : String) : Type 0 where
  pub live : e.canceled ≡ false
  pub readable : e.read_fails (request_file ws (trim id)) ≡ false

module _ {B : Type 0} {x : B} {d d' : Disk} where
  pub lift-eq-ok :
      {A : Type 0} (c : Result Error A) (f : A → Op B)
      → (lift c >>= f) d ≡ (ok x, d')
      → (a : A) × (c ≡ ok a) × (f a d ≡ (ok x, d'))
  lift-eq-ok (ok a) f h = (a, refl, h)
  lift-eq-ok (err y) f h = cc

  calls-eq-ok :
      (a b c : Checked) (m : Op B)
      → ((lift a >> lift b >> lift c) >> m) d ≡ (ok x, d')
      → (b ≡ ok tt) × (c ≡ ok tt) × (m d ≡ (ok x, d'))
  calls-eq-ok (ok _) (ok _) (ok _) m h = (refl, refl, h)
  calls-eq-ok (err y) b c m h = cc
  calls-eq-ok (ok _) (err y) c m h = cc
  calls-eq-ok (ok _) (ok _) (err y) m h = cc

  pub check_call-eq-ok :
      (e : Env) (ws id : String) (m : Op B)
      → (check_call e ws id >> m) d ≡ (ok x, d')
      → IsValidName ws id × (m d ≡ (ok x, d'))
  unfolding check_call
  check_call-eq-ok e ws id m h =
      let (p, q, r) =
        calls-eq-ok (check_ctx e) (validate_workspace_key ws) (validate_path_id id) m h in
      (record { workspace = p; request = q }, r)

pub first_of-eq-ok :
    {B : Type 0} {x : B} {d' : Disk} (y : Result Error (B × Bool) × Disk)
    → proceed y.0 (λ p. pure p.0) y.1 ≡ (ok x, d')
    → (b : Bool) × (y ≡ (ok (x, b), d'))
first_of-eq-ok (ok (r, b), d'') h = (b, ground arith)
first_of-eq-ok (err z, d'') h = cc

-- A call with valid names that can read its request.
module _ (e : Env) (ws id : String) (v : IsValidName ws id) (c : CanRead e ws id) (d : Disk) where
  pub check_call_ok : {B : Type 0} (m : Op B) → (check_call e ws id >> m) d ≡ m d
  unfolding check_call
  check_call_ok m = rw (c.live, v.workspace, v.request)

  pub load_request-found : load_request e ws id d ≡ (found (stored ws (trim id) d), d)
  unfolding load_request
  load_request-found = rw (v.workspace, v.request, c.readable)

  pub edit_request_found :
      (decide : HumanRequest → Result Error Edit) (r : HumanRequest)
      → stored ws (trim id) d ≡ some r
      → edit_request e ws id decide d ≡ proceed (decide r) (save e r) d
  unfolding edit_request found
  edit_request_found decide r h =
      ap
        (λ (p : Result Error HumanRequest × Disk).
          proceed p.0 (λ q. lift (decide q) >>= save e q) p.1)
        (load_request-found ∙ ap (λ o. (found o, d)) h)

-- What a successful edit did.
module _ {decide : HumanRequest → Result Error Edit} {ws id : String} {d d' : Disk}
    {r' : HumanRequest} where
  pub Edited-written :
      {x : Result Error (HumanRequest × Bool) × Disk}
      → Edited decide ws id d x
      → x ≡ (ok (r', true), d')
      → (r : HumanRequest) × (edit : Edit) × (stored ws (trim id) d ≡ some r)
        × (decide r ≡ ok edit)
        × Writes edit r'
        × (d'.requests ≡ (put r' d).requests)
  Edited-written (refused y d'' e) h = cc
  Edited-written (kept r k l) h = cc
  Edited-written (edited r s edit d'' k l w e) h =
      let s_eq : s ≡ r' = ground arith in
      let d_eq : d'' ≡ d' = ground arith in
      (
        r,
        edit,
        k,
        l,
        subst (Writes edit) s_eq w,
        subst₂ (λ q f. f.requests ≡ (put q d).requests) s_eq d_eq e,
      )

  pub Edited-kept :
      {x : Result Error (HumanRequest × Bool) × Disk}
      → Edited decide ws id d x
      → x ≡ (ok (r', false), d')
      → (stored ws (trim id) d ≡ some r') × (decide r' ≡ ok unchanged) × (d' ≡ d)
  Edited-kept (refused y d'' e) h = cc
  Edited-kept (kept r k l) h =
      let r_eq : r ≡ r' = ground arith in
      let d_eq : d' ≡ d = ground arith in (k ∙ ap some r_eq, ap decide (sym r_eq) ∙ l, d_eq)
  Edited-kept (edited r s edit d'' k l w e) h = cc
