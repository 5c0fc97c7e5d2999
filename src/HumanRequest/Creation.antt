-- ===== src/HumanRequest/Creation.antt =====
-- What `create` can come to: a request that is asked already, a new one, or a failure that writes
-- nothing.
use xira.Shared.{◌≡◌, refl, sym, ◌∙◌, ap, Option, none, some, arith}
use xira.Shared.Result.{Result, ok, err}
use xira.Shared.Exec.{pure, lift, proceed, ◌>>=◌, ◌>>◌}
use xira.HumanRequest.Types.{HumanRequest, CreateRequest, ListQuery, Error}
use xira.HumanRequest.Validate.{Checked, validate_create}
use xira.HumanRequest.Disk.{Env, Disk, check_ctx, list_locked, write_request}
use xira.HumanRequest.Store.{
  create, create_new, create_unless, new_request, find_pending_duplicate, pending_in,
}
use xira.HumanRequest.Edits.{put, Written, unwritten, written, write_request-Written}
use xira.HumanRequest.Lifecycle.{IsWellFormed}

pub new_request-IsWellFormed :
    (e : Env) (input : CreateRequest) → IsWellFormed (new_request e input)
unfolding new_request
new_request-IsWellFormed e input = ground arith

pub data Created (e : Env) (input : CreateRequest) (d : Disk)
    : Result Error HumanRequest × Disk → Type 0 where
  rejected : (x : Error) → Created e input d (err x, d)
  repeated :
      (r : HumanRequest)
      → (find_pending_duplicate e input d).0 ≡ ok (some r)
      → Created e input d (ok r, d)
  created :
      (find_pending_duplicate e input d).0 ≡ ok none
      → Created e input d (ok (new_request e input), put (new_request e input) d)

module _ (e : Env) (input : CreateRequest) (d : Disk)
    (none_found : (find_pending_duplicate e input d).0 ≡ ok none) where
  written-Created :
      {o : Result Error Unit × Disk}
      → Written (new_request e input) d o
      → Created e input d (proceed o.0 (λ _. pure (new_request e input)) o.1)
  written-Created (unwritten x) = rejected x
  written-Created written = created none_found

  create_new-Created :
      (c : Checked)
      → Created e input d (
          (lift c >> (write_request e (new_request e input) >>= λ _. pure (new_request e input))) d)
  create_new-Created (ok _) = written-Created (write_request-Written e (new_request e input) d)
  create_new-Created (err x) = rejected x

-- Listing and searching read the disk, and leave it.
pub list_locked-disk : (e : Env) (q : ListQuery) (d : Disk) → (list_locked e q d).1 ≡ d
unfolding list_locked
list_locked-disk e q d = ground arith

pub find_pending_duplicate-disk :
    (e : Env) (input : CreateRequest) (d : Disk) → (find_pending_duplicate e input d).1 ≡ d
unfolding find_pending_duplicate
find_pending_duplicate-disk e input d =
    ground (arith, list_locked-disk e (pending_in input.workspace_key) d)

module _ (e : Env) (input : CreateRequest) (d : Disk) where
  unless-Created :
      (x : Option HumanRequest)
      → (find_pending_duplicate e input d).0 ≡ ok x
      → Created e input d (create_unless e input x d)
  unfolding create_unless create_new
  unless-Created none h = create_new-Created e input d h _
  unless-Created (some r) h = repeated r h

  searched-Created :
      (o : Result Error (Option HumanRequest) × Disk)
      → find_pending_duplicate e input d ≡ o
      → Created e input d (proceed o.0 (create_unless e input) o.1)
  searched-Created (ok x, d') h =
      rw
        (sym (ap (λ (p : Result Error (Option HumanRequest) × Disk). p.1) h)
          ∙ find_pending_duplicate-disk e input d)
        (unless-Created x (ap (λ (p : Result Error (Option HumanRequest) × Disk). p.0) h))
  searched-Created (err x, d') h =
      rw
        (sym (ap (λ (p : Result Error (Option HumanRequest) × Disk). p.1) h)
          ∙ find_pending_duplicate-disk e input d)
        (rejected x)

  checked-Created :
      (a b : Checked)
      → Created e input d
          ((lift a >> lift b >> (find_pending_duplicate e input >>= create_unless e input)) d)
  checked-Created (ok _) (ok _) = searched-Created (find_pending_duplicate e input d) refl
  checked-Created (err x) b = rejected x
  checked-Created (ok _) (err x) = rejected x

  pub create-Created : Created e input d (create e input d)
  unfolding create
  create-Created = checked-Created (check_ctx e) (validate_create e.to_lower input)
