-- ===== src/HumanRequest/Recovery.antt =====
-- `recoverInterruptedRequests` of interaction_store.go over the requests that it is given.
use xira.Shared.{
  ℕ, String, Bool, true, false, ◌+◌, ◌≡◌, refl, sym, ap, ◌∙◌, List, [], ◌∷◌, Option, none, some,
  if◌then◌else◌, Memᴰ,
}
use mathlib.Core.Path.{subst}
use xira.Shared.Strings.{trim}
use xira.Shared.Dict
use xira.Shared.Dict.{Dict, pair_eq, pair_beq, lookup-insert, lookup-insert_self}
use xira.Shared.Result.{Result, ok, err}
use xira.HumanRequest.Types.{ResumeStatus, HumanRequest, Error}
use xira.Shared.Exec.{proceed}
use xira.HumanRequest.Validate.{validate_workspace_key}
use xira.HumanRequest.Disk.{Env, Disk, check_ctx, write_request, list_locked}
use xira.HumanRequest.Store.{or_now}
use xira.HumanRequest.Creation.{list_locked-disk}
use xira.HumanRequest.Transitions.{
  recover_by, recover_interrupted_resume, stopped_request, interrupted,
}
use xira.HumanRequest.Operations.{
  Recovery, counted, persist, recover_one, recover_requests, recover_listed,
  recover_interrupted_resumes, resolved_in,
}
use xira.HumanRequest.Edits.{put, Written, unwritten, written, write_request-Written}
use xira.HumanRequest.Lifecycle.{Step, Step-SameQuestion}
use xira.HumanRequest.Decisions.{recover_interrupted_resume-Step}
use xira.HumanRequest.Evolution.{IsOrderly}
use xira.HumanRequest.Held.{key, Apart, Held, pair_beq_sym, list_locked-Held}
use xira.HumanRequest.Calls.{
  Follows, Follows-of_same, Follows-of_step, Follows-trans, Keeps, lift-Keeps,
}

-- One round writes nothing, or the next state of the request.
data Recovered (r : HumanRequest) (d : Disk) : Recovery → Type 0 where
  left_alone : (n m : ℕ) → Recovered r d (d, n, m)
  moved : (q : HumanRequest) (n m : ℕ) → Step r q → Recovered r d (put q d, n, m)

counted-Recovered :
    (r q : HumanRequest) (d : Disk)
    → Step r q
    → {o : Result Error Unit × Disk} → Written q d o
    → Recovered r d (counted o.0 o.1)
unfolding counted
counted-Recovered r q d st (unwritten x) = left_alone 0 1
counted-Recovered r q d st written = moved q 1 0 st

persist-Recovered :
    (e : Env) (r : HumanRequest) (d : Disk) (o : Option HumanRequest)
    → ((q : HumanRequest) → o ≡ some q → Step r q)
    → Recovered r d (persist e o d)
unfolding persist
persist-Recovered e r d none st = left_alone 0 0
persist-Recovered e r d (some q) st =
    counted-Recovered r q d (st q refl) (write_request-Written e q d)

recover_one-Recovered :
    (e : Env) (t : ℕ) (r : HumanRequest) (d : Disk) → Recovered r d (recover_one e t r d)
unfolding recover_one
recover_one-Recovered e t r d =
    persist-Recovered e r d (recover_interrupted_resume r t) (recover_interrupted_resume-Step r t)

-- A step leaves a request in its file.
key-Step : {r q : HumanRequest} → Step r q → key q ≡ key r
key-Step st = let s = Step-SameQuestion st in λ i. (s.workspace_key i, trim (s.id i))

lookup-put_apart :
    (k : String × String) (r q : HumanRequest) (d : Disk)
    → Step r q
    → pair_beq (key r) k ≡ false
    → Dict.lookup k (put q d).requests ≡ Dict.lookup k d.requests
lookup-put_apart k r q d st h =
    lookup-insert (key q) k q d.requests
    ∙ ap (λ b. if b then some q else Dict.lookup k d.requests)
        (ap (λ p. pair_beq p k) (key-Step st) ∙ h)

Held-put :
    (r q : HumanRequest) (d : Disk) (rs : List HumanRequest)
    → Step r q
    → Apart (key r) rs
    → Held d rs
    → Held (put q d) rs
Held-put r q d [] st a h = tt
Held-put r q d (x ∷ xs) st a h =
    (lookup-put_apart (key x) r q d st a.0 ∙ h.0, h.1, Held-put r q d xs st a.1 h.2)

module _ (r : HumanRequest) (d : Disk) (o : IsOrderly d)
    (held : Dict.lookup (key r) d.requests ≡ some r) where
  Recovered-Follows : {x : Recovery} → Recovered r d x → Follows d x.0
  Recovered-Follows (left_alone n m) = Follows-of_same o refl
  Recovered-Follows (moved q n m st) =
      Follows-of_step r.workspace_key (trim r.id) r q d (put q d) o held st refl

Recovered-Held :
    (r : HumanRequest) (d : Disk) (rs : List HumanRequest)
    → Apart (key r) rs
    → Held d rs
    → {x : Recovery} → Recovered r d x
    → Held x.0 rs
Recovered-Held r d rs a h (left_alone n m) = h
Recovered-Held r d rs a h (moved q n m st) = Held-put r q d rs st a h

if_both : (b : Bool) (x y : Recovery) (P : Disk → Type 0) → P x.0 → P y.0 → P (if b then x else y).0
if_both true x y P p q = p
if_both false x y P p q = q

pub recover_requests-Follows :
    (e : Env) (t i : ℕ) (rs : List HumanRequest) (d : Disk)
    → IsOrderly d
    → Held d rs
    → Follows d (recover_requests e t i rs d).0
unfolding recover_requests
recover_requests-Follows e t i [] d o h = Follows-of_same o refl
recover_requests-Follows e t i (r ∷ rs) d o (h, a, hs) =
    let one = recover_one-Recovered e t r d in
    let f = Recovered-Follows r d o h one in
    let d' = (recover_one e t r d).0 in
    let g = recover_requests-Follows e t (i + 1) rs d' f.orderly (Recovered-Held r d rs a hs one) in
    if_both (e.canceled_in_round i) _ _ (Follows d) (Follows-of_same o refl) (Follows-trans f g)

module _ (e : Env) (d : Disk) (o : IsOrderly d) where
  listed-Follows :
      (t : ℕ) (x : Result Error (List HumanRequest) × Disk)
      → x.1 ≡ d
      → ((rs : List HumanRequest) → x.0 ≡ ok rs → Held d rs)
      → Follows d (proceed x.0 (recover_listed e t) x.1).1
  unfolding recover_listed
  listed-Follows t (ok rs, d') p h = rw p (recover_requests-Follows e t 0 rs d o (h rs refl))
  listed-Follows t (err x, d') p h = rw p (Follows-of_same o refl)

  pub recover_interrupted_resumes-Follows :
      (ws : String) (t : ℕ) → Keeps d (recover_interrupted_resumes e ws t)
  unfolding recover_interrupted_resumes
  recover_interrupted_resumes-Follows ws t = lift-Keeps d o (check_ctx e) _ λ _.
      lift-Keeps d o (validate_workspace_key ws) _ λ _.
        listed-Follows (or_now e.now t) (list_locked e (resolved_in ws) d)
          (list_locked-disk e (resolved_in ws) d) (λ rs. list_locked-Held e (resolved_in ws) d rs o)

-- What lies apart from the requests under recovery is not written.
Recovered-apart :
    (k : String × String) (r : HumanRequest) (d : Disk)
    → pair_beq (key r) k ≡ false
    → {x : Recovery} → Recovered r d x
    → Dict.lookup k x.0.requests ≡ Dict.lookup k d.requests
Recovered-apart k r d h (left_alone n m) = refl
Recovered-apart k r d h (moved q n m st) = lookup-put_apart k r q d st h

recover_requests-Apart :
    (e : Env) (t i : ℕ) (k : String × String) (rs : List HumanRequest) (d : Disk)
    → Apart k rs
    → Dict.lookup k (recover_requests e t i rs d).0.requests ≡ Dict.lookup k d.requests
unfolding recover_requests
recover_requests-Apart e t i k [] d a = refl
recover_requests-Apart e t i k (r ∷ rs) d (h, a) =
    if_both (e.canceled_in_round i) _ _ (λ x. Dict.lookup k x.requests ≡ Dict.lookup k d.requests)
      refl
      (recover_requests-Apart e t (i + 1) k rs (recover_one e t r d).0 a
        ∙ Recovered-apart k r d (pair_beq_sym k (key r) h) (recover_one-Recovered e t r d))

-- The request's file can be written.
abbrev pub IsWritable : Env → HumanRequest → Type 0
IsWritable e q = (d : Disk) → write_request e q d ≡ (ok tt, put q d)

abbrev pub recovered : HumanRequest → ℕ → HumanRequest
recovered r t = stopped_request r "human_request.resume_recovered" interrupted t

recover_one-running :
    (e : Env) (t : ℕ) (r : HumanRequest) (d : Disk)
    → r.resume.status ≡ ResumeStatus.running
    → IsWritable e (recovered r t)
    → recover_one e t r d ≡ (put (recovered r t) d, 1, 0)
unfolding recover_one recover_interrupted_resume
recover_one-running e t r d h w = ap (λ s. persist e (recover_by s r t) d) h ∙ persisted
  where
    persisted : persist e (recover_by ResumeStatus.running r t) d ≡ (put (recovered r t) d, 1, 0)
    persisted = unfold persist counted recover_by in ap (λ p. counted p.0 p.1) (w d)

lookup-recovered :
    (r : HumanRequest) (t : ℕ) (d : Disk)
    → Dict.lookup (key r) (put (recovered r t) d).requests ≡ some (recovered r t)
unfolding stopped_request
lookup-recovered r t d = lookup-insert_self (key r) (recovered r t) d.requests

-- Where the call is not canceled in any round and the disk holds each request of the list in a file
-- of its own, every listed request whose resume was running, and whose file can be written, is
-- stored as a retryable failure afterwards, whatever files of other requests cannot be written.
pub recover_requests_isolates :
    (e : Env) (t i : ℕ) (rs : List HumanRequest) (d : Disk) (r : HumanRequest)
    → ((j : ℕ) → e.canceled_in_round j ≡ false)
    → Held d rs
    → Memᴰ r rs
    → r.resume.status ≡ ResumeStatus.running
    → IsWritable e (recovered r t)
    → Dict.lookup (key r) (recover_requests e t i rs d).0.requests ≡ some (recovered r t)
unfolding recover_requests
recover_requests_isolates e t i [] d r c h m run w = elim m [ ]
recover_requests_isolates e t i (x ∷ xs) d r c (h, a, hs) (Memᴰ.tail m) run w = rw (c i) (
    recover_requests_isolates e t (i + 1) xs (recover_one e t x d).0 r c
      (Recovered-Held x d xs a hs (recover_one-Recovered e t x d)) m run w)
recover_requests_isolates e t i (x ∷ xs) d r c (h, a, hs) (Memᴰ.head p) run w = rw (c i) (
    recover_requests-Apart e t (i + 1) (key r) xs (recover_one e t x d).0
      (subst (λ y. Apart (key y) xs) (sym p) a)
    ∙ ap (λ y. Dict.lookup (key r) (recover_one e t y d).0.requests) (sym p)
    ∙ ap (λ (z : Recovery). Dict.lookup (key r) z.0.requests) (recover_one-running e t r d run w)
    ∙ lookup-recovered r t d)
