-- ===== src/HumanRequest/Asking.antt =====
-- `Create` of store.go, called a second time for the same question.
use xira.Shared.{
  Bool, true, false, ◌≡◌, ◌≢◌, refl, sym, ap, ◌∙◌, List, [], ◌∷◌, Option, some, arith, ◌==◌, ◌||◌,
  eq_iff, eq_refl, if◌then◌else◌, Memᴰ, mem-select, mem_of_mem-select, Bool-cases, inl, inr,
}
use xira.Shared.Strings.{trim}
use xira.Shared.Dict.{pair_eq, lookup-insert_self}
use xira.Shared.Result.{Result, ok, err}
use xira.Shared.Exec.{proceed, pure, lift, ◌>>=◌, ◌>>◌}
use xira.HumanRequest.Types.{RequestStatus, HumanRequest, CreateRequest, Error}
use xira.HumanRequest.Validate.{Checked, validate_create}
use xira.HumanRequest.Disk.{Env, Disk, FileName, check_ctx, passes, list_locked}
use xira.HumanRequest.Store.{
  create, create_unless, new_request, is_duplicate_of, first_such, find_pending_duplicate,
  pending_in,
}
use xira.HumanRequest.Edits.{stored, put}
use xira.HumanRequest.Creation.{Created, rejected, repeated, created, create-Created}
use xira.HumanRequest.Listing.{
  listing, list_locked-eq-ok, list_locked_readable, mem-sort_requests, mem_of_mem-sort_requests,
  mem-read_dir,
}

first_such-mem :
    (p : HumanRequest → Bool) (x : HumanRequest) (rs : List HumanRequest)
    → Memᴰ x rs
    → p x ≡ true
    → (r : HumanRequest) × (first_such p rs ≡ some r)
unfolding first_such
first_such-mem p x [] m h = elim m [ ]
first_such-mem p x (y ∷ ys) (Memᴰ.head e) h = (y, rw (sym (ap p e) ∙ h))
first_such-mem p x (y ∷ ys) (Memᴰ.tail m) h =
    let (r, k) = first_such-mem p x ys m h in
    elim (Bool-cases (p y)) [ inl t ↦ (y, rw t) | inr t ↦ (r, rw t k) ]

mem-first_such :
    (p : HumanRequest → Bool) (r : HumanRequest) (rs : List HumanRequest)
    → first_such p rs ≡ some r
    → Memᴰ r rs × (p r ≡ true)
unfolding first_such
mem-first_such p r [] h = cc
mem-first_such p r (y ∷ ys) h = elim (Bool-cases (p y)) [
  | inl t ↦ let e : y ≡ r = ground (arith, t) in (Memᴰ.head (sym e), ap p (sym e) ∙ t)
  | inr t ↦
      let below : first_such p ys ≡ some r = unfold first_such in ground (arith, t) in
      let (m, k) = mem-first_such p r ys below in (Memᴰ.tail m, k)
]

-- The keys by which a repeated ask is recognised are all given.
pub record HasDedupeKeys (input : CreateRequest) : Type 0 where
  pub dedupe_key : trim input.dedupe_key ≢ ""
  pub run_id : trim input.run_id ≢ ""
  pub tool_call_id : trim input.tool_call_id ≢ ""
  pub workspace_key : trim input.workspace_key ≡ input.workspace_key

-- A caller that is not canceled and can read every file.
pub record CanReadAll (e : Env) : Type 0 where
  pub live : e.canceled ≡ false
  pub readable : (f : FileName) → e.read_fails f ≡ false

module _ (input : CreateRequest) (k : HasDedupeKeys input) where
  keys_given :
      (trim input.dedupe_key == "" || trim input.run_id == "" || trim input.tool_call_id == "")
      ≡ false
  keys_given = ground (
    arith,
    eq_iff (trim input.dedupe_key) "",
    eq_iff (trim input.run_id) "",
    eq_iff (trim input.tool_call_id) "",
  )

  -- The search for a duplicate, where nothing stands in its way.
  search_readable :
      (e : Env) (d : Disk)
      → CanReadAll e
      → find_pending_duplicate e input d
        ≡ (ok (first_such (is_duplicate_of input) (listing (pending_in input.workspace_key) d)), d)
  unfolding find_pending_duplicate
  search_readable e d c = rw keys_given (
      ap (λ x. proceed x.0 (λ rs. pure (first_such (is_duplicate_of input) rs)) x.1)
        (list_locked_readable e (pending_in input.workspace_key) d c.readable))

  searched :
      (e : Env) (d : Disk) (o : Option HumanRequest) (x : Result Error (List HumanRequest) × Disk)
      → list_locked e (pending_in input.workspace_key) d ≡ x
      → (proceed {S = Disk} x.0 (λ rs. pure (first_such (is_duplicate_of input) rs)) x.1).0 ≡ ok o
      → first_such (is_duplicate_of input) (listing (pending_in input.workspace_key) d) ≡ o
  searched e d o (ok rs, d'') l h =
      ap (first_such (is_duplicate_of input))
        (list_locked-eq-ok e (pending_in input.workspace_key) d rs (ap (λ y. y.0) l))
      ∙ ground arith
  searched e d o (err x, d'') l h = cc

  search-eq-ok :
      (e : Env) (d : Disk) (o : Option HumanRequest)
      → (find_pending_duplicate e input d).0 ≡ ok o
      → first_such (is_duplicate_of input) (listing (pending_in input.workspace_key) d) ≡ o
  unfolding find_pending_duplicate
  search-eq-ok e d o h =
      searched e d o (list_locked e (pending_in input.workspace_key) d) refl (rw keys_given at h)

  listed_new :
      (e : Env) (d : Disk)
      → Memᴰ
          (new_request e input)
          (listing (pending_in input.workspace_key) (put (new_request e input) d))
  unfolding new_request passes
  listed_new e d =
      let r = new_request e input in
      let q = pending_in input.workspace_key in
      let at : stored input.workspace_key (trim r.id) (put r d) ≡ some r =
        ap (λ ws. stored ws (trim r.id) (put r d)) (sym k.workspace_key)
        ∙ lookup-insert_self (r.workspace_key, trim r.id) r d.requests in
      mem-sort_requests _
        (mem-select (passes q) _ (mem-read_dir input.workspace_key (trim r.id) r _ at) refl)

  new_is_duplicate : (e : Env) → is_duplicate_of input (new_request e input) ≡ true
  unfolding is_duplicate_of new_request
  new_is_duplicate e = rw (
    eq_refl (trim input.run_id),
    eq_refl (trim input.tool_call_id),
    eq_refl (trim input.dedupe_key),
  )

  -- After a creation that succeeded, the search finds a request.
  found_again :
      (e : Env) (d : Disk) {r : HumanRequest} {d' : Disk} {x : Result Error HumanRequest × Disk}
      → Created e input d x
      → x ≡ (ok r, d')
      → (r' : HumanRequest) × (first_such
            (is_duplicate_of input)
            (listing (pending_in input.workspace_key) d')
          ≡ some r')
  found_again e d (rejected y) h = cc
  found_again e d (repeated s n) h = (
    s,
    ap (λ f. first_such (is_duplicate_of input) (listing (pending_in input.workspace_key) f))
          (sym (ap (λ p. p.1) h))
        ∙ search-eq-ok e d (some s) n,
  )
  found_again e d (created n) h =
      let (r', f) =
        first_such-mem (is_duplicate_of input) (new_request e input) _ (listed_new e d)
          (new_is_duplicate e) in
      (
        r',
        ap (λ f'. first_such (is_duplicate_of input) (listing (pending_in input.workspace_key) f'))
              (sym (ap (λ p. p.1) h))
            ∙ f,
      )

  validated :
      (d : Disk) (a b : Checked) (m : Disk → Result Error HumanRequest × Disk) {r : HumanRequest}
      {d' : Disk}
      → (lift a >> lift b >> m) d ≡ (ok r, d')
      → b ≡ ok tt
  validated d (ok _) (ok _) m h = refl
  validated d (err x) b m h = cc
  validated d (ok _) (err x) m h = cc

  pending_passes :
      (r : HumanRequest)
      → passes (pending_in input.workspace_key) r ≡ true
      → r.status ≡ RequestStatus.pending
  unfolding passes
  pending_passes r h = ground arith

  -- Where the run, the tool call and the dedupe key are given, an ask that succeeded may be
  -- repeated, by a caller that is not canceled, can read every file and lowers letters alike: the
  -- disk stays as it is, and the request that is returned is pending and was asked by the same run
  -- and tool call under the same dedupe key.
  pub create-create :
      (e : Env) (d : Disk) {r : HumanRequest} {d' : Disk}
      → create e input d ≡ (ok r, d')
      → (e' : Env) → CanReadAll e'
      → e'.to_lower ≡ e.to_lower
      → (r' : HumanRequest) × (create e' input d' ≡ (ok r', d'))
        × (r'.status ≡ RequestStatus.pending)
        × (is_duplicate_of input r' ≡ true)
  unfolding create create_unless
  create-create e d {r} {d'} h e' c low =
      let (r', f) = found_again e d (create-Created e input d) h in
      let (m, dup) = mem-first_such (is_duplicate_of input) r' _ f in
      let passed =
        (mem_of_mem-select (passes (pending_in input.workspace_key)) _
          (mem_of_mem-sort_requests _ m)).1 in
      let valid : validate_create e'.to_lower input ≡ ok tt =
        ap (λ g. validate_create g input) low
        ∙ validated d (check_ctx e) (validate_create e.to_lower input)
            (λ s. (find_pending_duplicate e input >>= create_unless e input) s) h in
      (
        r',
        (λ i.
              proceed {S = Disk} (if c.live i then err Error.canceled else ok tt)
                (λ _ s.
                  proceed {S = Disk} (valid i)
                    (λ _ s'.
                      proceed (find_pending_duplicate e' input s').0 (create_unless e' input)
                        (find_pending_duplicate e' input s').1)
                    s)
                d')
            ∙ (ap (λ x. proceed x.0 (create_unless e' input) x.1)
                (search_readable e' d' c ∙ ap (λ o. (ok o, d')) f)),
        pending_passes r' passed,
        dup,
      )
