-- ===== src/HumanRequest/Listing.antt =====
-- Listings: which requests they hold, and in which order.
use xira.Shared.{
  ℕ, String, Bool, true, false, ◌≤◌, ◌≡◌, refl, sym, List, [], ◌∷◌, some, arith, ◌==◌,
  if◌then◌else◌, select, Memᴰ, Bool-cases, inl, inr,
}
use mathlib.Core.Path.{subst}
use xira.Shared.Dict
use xira.Shared.Dict.{Dict, pair_eq, pair_beq, pair_beq_iff}
use xira.Shared.Result.{ok}
use xira.HumanRequest.Types.{HumanRequest, ListQuery}
use xira.HumanRequest.Disk.{
  Env, Disk, FileName, read_dir, sort_insert, sort_requests, listed_before, passes, list_locked,
  some_unreadable,
}

-- What a listing returns where every file can be read.
abbrev pub listing : ListQuery → Disk → List HumanRequest
listing q d = sort_requests (select (passes q) (read_dir q.workspace_key d.requests))

pub list_locked-eq-ok :
    (e : Env) (q : ListQuery) (d : Disk) (rs : List HumanRequest)
    → (list_locked e q d).0 ≡ ok rs
    → listing q d ≡ rs
unfolding list_locked
list_locked-eq-ok e q d rs h = ground arith

some_unreadable_none :
    (e : Env) (ws : String) (l : Dict (String × String) HumanRequest)
    → ((f : FileName) → e.read_fails f ≡ false)
    → some_unreadable e ws l ≡ false
unfolding some_unreadable
some_unreadable_none e ws [] c = refl
some_unreadable_none e ws ((k, r) ∷ l) c =
    ground (arith, c (FileName.request_file k.0 k.1), some_unreadable_none e ws l c)

pub list_locked_readable :
    (e : Env) (q : ListQuery) (d : Disk)
    → ((f : FileName) → e.read_fails f ≡ false)
    → list_locked e q d ≡ (ok (listing q d), d)
unfolding list_locked
list_locked_readable e q d c =
    rw (
      c (FileName.requests_dir q.workspace_key),
      some_unreadable_none e q.workspace_key d.requests c,
    )

-- Sorting keeps the members, and adds none.
mem-sort_insert_self : (r : HumanRequest) (rs : List HumanRequest) → Memᴰ r (sort_insert r rs)
unfolding sort_insert
mem-sort_insert_self r [] = Memᴰ.head refl
mem-sort_insert_self r (y ∷ ys) = elim (Bool-cases (listed_before y r)) [
  | inl e ↦ rw e (Memᴰ.tail (mem-sort_insert_self r ys))
  | inr e ↦ rw e (Memᴰ.head refl)
]

mem-sort_insert :
    {x : HumanRequest} (r : HumanRequest) (rs : List HumanRequest)
    → Memᴰ x rs
    → Memᴰ x (sort_insert r rs)
unfolding sort_insert
mem-sort_insert r [] m = elim m [ ]
mem-sort_insert r (y ∷ ys) (Memᴰ.head p) = elim (Bool-cases (listed_before y r)) [
  | inl e ↦ rw e (Memᴰ.head p)
  | inr e ↦ rw e (Memᴰ.tail (Memᴰ.head p))
]
mem-sort_insert r (y ∷ ys) (Memᴰ.tail m) = elim (Bool-cases (listed_before y r)) [
  | inl e ↦ rw e (Memᴰ.tail (mem-sort_insert r ys m))
  | inr e ↦ rw e (Memᴰ.tail (Memᴰ.tail m))
]

pub mem-sort_requests :
    {x : HumanRequest} (rs : List HumanRequest) → Memᴰ x rs → Memᴰ x (sort_requests rs)
unfolding sort_requests
mem-sort_requests [] m = elim m [ ]
mem-sort_requests {x} (r ∷ rs) (Memᴰ.head p) =
    subst (λ y. Memᴰ y (sort_insert r (sort_requests rs))) (sym p)
      (mem-sort_insert_self r (sort_requests rs))
mem-sort_requests (r ∷ rs) (Memᴰ.tail m) =
    mem-sort_insert r (sort_requests rs) (mem-sort_requests rs m)

either_way : {x y r : HumanRequest} {ys : List HumanRequest} → Memᴰ x (r ∷ ys) → Memᴰ x (r ∷ y ∷ ys)
either_way (Memᴰ.head p) = Memᴰ.head p
either_way (Memᴰ.tail m) = Memᴰ.tail (Memᴰ.tail m)

mem_of_mem-sort_step :
    {x : HumanRequest} (r y : HumanRequest) (ys : List HumanRequest) (b : Bool)
    → (Memᴰ x (sort_insert r ys) → Memᴰ x (r ∷ ys))
    → Memᴰ x (if b then y ∷ sort_insert r ys else r ∷ y ∷ ys)
    → Memᴰ x (r ∷ y ∷ ys)
mem_of_mem-sort_step r y ys true ih (Memᴰ.head p) = Memᴰ.tail (Memᴰ.head p)
mem_of_mem-sort_step r y ys true ih (Memᴰ.tail m) = either_way (ih m)
mem_of_mem-sort_step r y ys false ih m = m

mem_of_mem-sort_insert :
    {x : HumanRequest} (r : HumanRequest) (rs : List HumanRequest)
    → Memᴰ x (sort_insert r rs)
    → Memᴰ x (r ∷ rs)
unfolding sort_insert
mem_of_mem-sort_insert r [] m = m
mem_of_mem-sort_insert r (y ∷ ys) m =
    mem_of_mem-sort_step r y ys (listed_before y r) (λ m'. mem_of_mem-sort_insert r ys m') m

tail_by :
    {x r : HumanRequest} {rs ss : List HumanRequest}
    → (Memᴰ x rs → Memᴰ x ss)
    → Memᴰ x (r ∷ rs)
    → Memᴰ x (r ∷ ss)
tail_by f (Memᴰ.head p) = Memᴰ.head p
tail_by f (Memᴰ.tail m) = Memᴰ.tail (f m)

pub mem_of_mem-sort_requests :
    {x : HumanRequest} (rs : List HumanRequest) → Memᴰ x (sort_requests rs) → Memᴰ x rs
unfolding sort_requests
mem_of_mem-sort_requests [] m = m
mem_of_mem-sort_requests (r ∷ rs) m =
    tail_by (λ m'. mem_of_mem-sort_requests rs m') (mem_of_mem-sort_insert r (sort_requests rs) m)

-- A directory's listing has what its files hold.
pub mem-read_dir :
    (ws id : String) (r : HumanRequest) (l : Dict (String × String) HumanRequest)
    → Dict.lookup (ws, id) l ≡ some r
    → Memᴰ r (read_dir ws l)
unfolding Dict.lookup read_dir
mem-read_dir ws id r [] h = cc
mem-read_dir ws id r ((k, v) ∷ l) h = elim (Bool-cases (pair_beq k (ws, id))) [
  | inl e ↦
      let here : v ≡ r = ground (arith, e) in
      let same : (k.0 == ws) ≡ true = ground (arith, e) in rw same (Memᴰ.head (sym here))
  | inr e ↦
      let below : Dict.lookup (ws, id) l ≡ some r = unfold Dict.lookup in ground (arith, e) in
      elim (Bool-cases (k.0 == ws)) [
        | inl t ↦ rw t (Memᴰ.tail (mem-read_dir ws id r l below))
        | inr t ↦ rw t (mem-read_dir ws id r l below)
      ]
]

-- Newest first.
abbrev pub IsNewestFirst : List HumanRequest → Type 0
IsNewestFirst [] = Unit
IsNewestFirst (r ∷ []) = Unit
IsNewestFirst (r ∷ s ∷ rs) = (s.created_at ≤ r.created_at) × IsNewestFirst (s ∷ rs)

-- No request of the list is newer than the time.
abbrev NoneAfter : ℕ → List HumanRequest → Type 0
NoneAfter t [] = Unit
NoneAfter t (r ∷ rs) = r.created_at ≤ t

IsNewestFirst-cons :
    (r : HumanRequest) (rs : List HumanRequest)
    → NoneAfter r.created_at rs
    → IsNewestFirst rs
    → IsNewestFirst (r ∷ rs)
IsNewestFirst-cons r [] n s = tt
IsNewestFirst-cons r (x ∷ xs) n s = (n, s)

NoneAfter-of_IsNewestFirst :
    (r : HumanRequest) (rs : List HumanRequest)
    → IsNewestFirst (r ∷ rs)
    → NoneAfter r.created_at rs × IsNewestFirst rs
NoneAfter-of_IsNewestFirst r [] s = (tt, tt)
NoneAfter-of_IsNewestFirst r (x ∷ xs) s = s

listed_before-le : (a b : HumanRequest) → listed_before a b ≡ true → b.created_at ≤ a.created_at
unfolding listed_before
listed_before-le a b h = ground arith

not-listed_before-le :
    (a b : HumanRequest) → listed_before a b ≡ false → a.created_at ≤ b.created_at
unfolding listed_before
not-listed_before-le a b h = ground arith

NoneAfter-sort_insert :
    (t : ℕ) (r : HumanRequest) (rs : List HumanRequest)
    → r.created_at ≤ t
    → NoneAfter t rs
    → NoneAfter t (sort_insert r rs)
unfolding sort_insert
NoneAfter-sort_insert t r [] h n = h
NoneAfter-sort_insert t r (x ∷ xs) h n = elim (Bool-cases (listed_before x r)) [
  | inl e ↦ rw e n
  | inr e ↦ rw e h
]

IsNewestFirst-sort_insert :
    (r : HumanRequest) (rs : List HumanRequest)
    → IsNewestFirst rs
    → IsNewestFirst (sort_insert r rs)
unfolding sort_insert
IsNewestFirst-sort_insert r [] s = tt
IsNewestFirst-sort_insert r (x ∷ xs) s =
    let (n, t) = NoneAfter-of_IsNewestFirst x xs s in
    elim (Bool-cases (listed_before x r)) [
      | inl e ↦ rw e (
          IsNewestFirst-cons x (sort_insert r xs)
            (NoneAfter-sort_insert x.created_at r xs (listed_before-le x r e) n)
            (IsNewestFirst-sort_insert r xs t))
      | inr e ↦ rw e (not-listed_before-le x r e, s)
    ]

pub IsNewestFirst-sort_requests : (rs : List HumanRequest) → IsNewestFirst (sort_requests rs)
unfolding sort_requests
IsNewestFirst-sort_requests [] = tt
IsNewestFirst-sort_requests (r ∷ rs) =
    IsNewestFirst-sort_insert r (sort_requests rs) (IsNewestFirst-sort_requests rs)
