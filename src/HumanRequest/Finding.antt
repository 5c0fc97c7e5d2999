-- ===== src/HumanRequest/Finding.antt =====
-- The theorems on `ListByChatKey` and `FindByCorrelation`.
use xira.Shared.{
  String, true, false, not, ◌≡◌, ◌≢◌, refl, sym, ap, ◌∙◌, List, [], ◌∷◌, none, some, arith, ◌==◌,
  eq_iff, if◌then◌else◌, select, Memᴰ, mem-select, mem_of_mem-select, Bool-cases, inl, inr,
}
use mathlib.Core.Path.{subst}
use xira.Shared.Strings.{trim}
use xira.Shared.Result.{Result, ok, err, guard}
use xira.Shared.Exec.{lift, proceed, ◌>>=◌, ◌>>◌}
use xira.HumanRequest.Types.{RequestStatus, HumanRequest, ListQuery, Error}
use xira.HumanRequest.Validate.{Checked, validate_workspace_key}
use xira.HumanRequest.Disk.{Env, Disk, Op, read_dir, passes, list_locked, check_ctx}
use xira.HumanRequest.Queries.{list, list_by_chat_key, carries, sole_match, find_by_correlation}
use xira.HumanRequest.Edits.{stored}
use xira.HumanRequest.Creation.{list_locked-disk}
use xira.HumanRequest.Listing.{
  listing, list_locked-eq-ok, mem-sort_requests, mem_of_mem-sort_requests, mem-read_dir,
  IsNewestFirst, IsNewestFirst-sort_requests,
}

-- The query of `ListByChatKey`.
abbrev pending_of : String → String → ListQuery
pending_of ws chat_key = record {
  workspace_key = ws;
  status = RequestStatus.pending;
  chat_key = chat_key;
}

listed-eq-ok :
    (d : Disk) (a b c f : Checked) (m : Op (List HumanRequest)) {rs : List HumanRequest} {d' : Disk}
    → (do lift a; lift b; lift c; lift f; m) d ≡ (ok rs, d')
    → (a ≡ ok tt) × (m d ≡ (ok rs, d'))
listed-eq-ok d (ok _) (ok _) (ok _) (ok _) m h = (refl, h)
listed-eq-ok d (err x) b c f m h = cc
listed-eq-ok d (ok _) (err x) c f m h = cc
listed-eq-ok d (ok _) (ok _) (err x) f m h = cc
listed-eq-ok d (ok _) (ok _) (ok _) (err x) m h = cc

module _ (e : Env) (ws chat_key : String) (d : Disk) {rs : List HumanRequest} {d' : Disk}
    (h : list_by_chat_key e ws chat_key d ≡ (ok rs, d')) where
  chat_listing : (trim chat_key ≢ "") × (listing (pending_of ws (trim chat_key)) d ≡ rs) × (d' ≡ d)
  unfolding list_by_chat_key list
  chat_listing =
      let q = pending_of ws (trim chat_key) in
      let (p, k) =
        listed-eq-ok d (guard (not (trim chat_key == "")) Error.validation) (check_ctx e)
          (validate_workspace_key ws) (guard true Error.validation) (list_locked e q) h in
      (
        (λ blank. ground (arith, eq_iff (trim chat_key) "")),
        list_locked-eq-ok e q d rs (ap (λ x. x.0) k),
        sym (ap (λ x. x.1) k) ∙ list_locked-disk e q d,
      )

  passes_chat :
      (r : HumanRequest)
      → trim chat_key ≢ ""
      → passes (pending_of ws (trim chat_key)) r ≡ true
      → (r.status ≡ RequestStatus.pending) × (r.chat_key ≡ trim chat_key)
  unfolding passes
  passes_chat r n p =
      (ground arith, ground (arith, eq_iff (trim chat_key) "", eq_iff r.chat_key (trim chat_key)))

  pending_passes :
      (r : HumanRequest)
      → r.status ≡ RequestStatus.pending
      → r.chat_key ≡ trim chat_key
      → passes (pending_of ws (trim chat_key)) r ≡ true
  unfolding passes
  pending_passes r p q = ground (arith, eq_iff r.chat_key (trim chat_key))

  -- A listing by chat key that succeeds was asked for a key that is not blank; it leaves the disk,
  -- is newest first, holds only pending requests of that chat, and holds every pending request of
  -- that chat that a file of the workspace has.
  pub list_by_chat_key-exact :
      (trim chat_key ≢ "")
      × (d' ≡ d)
      × IsNewestFirst rs
      × ((r : HumanRequest)
          → Memᴰ r rs
          → (r.status ≡ RequestStatus.pending) × (r.chat_key ≡ trim chat_key))
      × ((id : String) (r : HumanRequest)
          → stored ws id d ≡ some r
          → r.status ≡ RequestStatus.pending
          → r.chat_key ≡ trim chat_key
          → Memᴰ r rs)
  list_by_chat_key-exact =
      let (n, same, kept) = chat_listing in
      let q = pending_of ws (trim chat_key) in
      let all = read_dir ws d.requests in
      (
        n,
        kept,
        subst IsNewestFirst same (IsNewestFirst-sort_requests (select (passes q) all)),
        (λ r m.
            passes_chat r n
              (mem_of_mem-select (passes q) all (
                mem_of_mem-sort_requests (select (passes q) all) (subst (Memᴰ r) (sym same) m))).1),
        (λ id r at p c. subst (Memᴰ r) same (
            mem-sort_requests (select (passes q) all) (
              mem-select (passes q) all (mem-read_dir ws id r d.requests at)
                (pending_passes r p c)))),
      )

-- A second match after the first is a conflict.
sole_match-some :
    (token : String) (m r : HumanRequest) (rs : List HumanRequest)
    → sole_match token (some m) rs ≡ ok r
    → (m ≡ r) × ((x : HumanRequest) → Memᴰ x rs → carries token x ≡ false)
unfolding sole_match
sole_match-some token m r [] h = (ground arith, λ x q. elim q [ ])
sole_match-some token m r (y ∷ ys) h =
    let no : carries token y ≡ false = ground arith in
    let (p, f) = sole_match-some token m r ys (ground arith) in
    (p, λ x q. elim q [ Memᴰ.head e ↦ ap (carries token) e ∙ no | Memᴰ.tail n ↦ f x n ])

abbrev pub IsSoleMatch : String → HumanRequest → List HumanRequest → Type 0
IsSoleMatch token r rs =
    Memᴰ r rs
    × (carries token r ≡ true)
    × ((x : HumanRequest) → Memᴰ x rs → carries token x ≡ true → x ≡ r)

sole_match-none :
    (token : String) (r : HumanRequest) (rs : List HumanRequest)
    → sole_match token none rs ≡ ok r
    → IsSoleMatch token r rs
unfolding sole_match
sole_match-none token r [] h = cc
sole_match-none token r (y ∷ ys) h = elim (Bool-cases (carries token y)) [
  | inl t ↦
      let (p, f) =
        sole_match-some token y r ys
          (sym (ap (λ b. sole_match token (if b then some y else none) ys) t) ∙ h) in
      (
        Memᴰ.head (sym p),
        ap (carries token) (sym p) ∙ t,
        (λ x m c. elim m [ Memᴰ.head e ↦ e ∙ p | Memᴰ.tail n ↦ cc (f x n) ]),
      )
  | inr t ↦
      let (m, c, f) =
        sole_match-none token r ys
          (sym (ap (λ b. sole_match token (if b then some y else none) ys) t) ∙ h) in
      (
        Memᴰ.tail m,
        c,
        (λ x n k. elim n [ Memᴰ.head e ↦ cc (ap (carries token) e) | Memᴰ.tail n' ↦ f x n' k ]),
      )
]

found-eq-ok :
    (d : Disk) (a b c : Checked) (token : String) (m : Op (List HumanRequest)) {r : HumanRequest}
    {d' : Disk}
    → (do lift a; lift b; lift c; rs ← m; lift (sole_match token none rs)) d ≡ (ok r, d')
    → (c ≡ ok tt) × (rs : List HumanRequest) × ((m d).0 ≡ ok rs) × (sole_match token none rs ≡ ok r)
found-eq-ok d (ok _) (ok _) (ok _) token m h =
    let (rs, p, q) = matched (m d) refl h in (refl, rs, p, q)
  where
    matched :
        {r : HumanRequest} {d' : Disk} (x : Result Error (List HumanRequest) × Disk)
        → m d ≡ x
        → proceed x.0 (λ rs. lift (sole_match token none rs)) x.1 ≡ (ok r, d')
        → (rs : List HumanRequest) × ((m d).0 ≡ ok rs) × (sole_match token none rs ≡ ok r)
    matched (ok rs, s) e k = (rs, ap (λ p. p.0) e, ap (λ p. p.0) k)
    matched (err x, s) e k = cc
found-eq-ok d (err x) b c token m h = cc
found-eq-ok d (ok _) (err x) c token m h = cc
found-eq-ok d (ok _) (ok _) (err x) token m h = cc

-- Every request of a workspace.
abbrev pub all_of : String → ListQuery
all_of ws = record { workspace_key = ws; status = RequestStatus.unset; chat_key = "" }

all_pass : (ws : String) (r : HumanRequest) → passes (all_of ws) r ≡ true
unfolding passes
all_pass ws r = ground arith

-- A search by a correlation token that succeeds was for a token that is not blank; what it returns
-- is listed in the workspace and carries the token, and every request that a file of the workspace
-- holds and that carries the token is that one.
pub find_by_correlation_unique :
    (e : Env) (ws correlation : String) (d : Disk) {r : HumanRequest} {d' : Disk}
    → find_by_correlation e ws correlation d ≡ (ok r, d')
    → (trim correlation ≢ "")
      × Memᴰ r (listing (all_of ws) d)
      × (carries (trim correlation) r ≡ true)
      × ((id : String) (x : HumanRequest)
          → stored ws id d ≡ some x
          → carries (trim correlation) x ≡ true
          → x ≡ r)
unfolding find_by_correlation
find_by_correlation_unique e ws correlation d {r} {d'} h =
    let q = all_of ws in
    let token = trim correlation in
    let (n, rs, listed, sole) =
      found-eq-ok d (check_ctx e) (validate_workspace_key ws)
        (guard (not (token == "")) Error.validation) token (list_locked e q) h in
    let same = list_locked-eq-ok e q d rs listed in
    let (m, c, f) = sole_match-none token r rs sole in
    (
      (λ blank. ground (arith, eq_iff token "")),
      subst (Memᴰ r) (sym same) m,
      c,
      (λ id x at k.
          f x
            (subst (Memᴰ x) same (
              mem-sort_requests (select (passes q) (read_dir ws d.requests)) (
                mem-select (passes q) (read_dir ws d.requests) (mem-read_dir ws id x d.requests at)
                  (all_pass ws x))))
            k),
    )
