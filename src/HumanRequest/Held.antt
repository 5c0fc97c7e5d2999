-- ===== src/HumanRequest/Held.antt =====
-- What a listing of an orderly disk returns: requests that the disk holds, each in a file of its
-- own. Sorting and filtering keep that.
use xira.Shared.{
  String, Bool, false, ◌≡◌, refl, sym, ap, ◌∙◌, List, [], ◌∷◌, none, some, inl, inr, Bool-cases,
  select, arith, ◌==◌,
}
use mathlib.Core.Path.{subst}
use xira.Shared.Strings.{trim}
use xira.Shared.Dict
use xira.Shared.Dict.{Dict, pair_eq, pair_beq, pair_beq_iff, HasUniqueKeys}
use xira.Shared.Result.{ok}
use xira.HumanRequest.Types.{HumanRequest, ListQuery}
use xira.HumanRequest.Disk.{
  Env, Disk, read_dir, sort_insert, sort_requests, listed_before, passes, list_locked,
}
use xira.HumanRequest.Edits.{stored}
use xira.HumanRequest.Evolution.{IsOrderly}

abbrev pub key : HumanRequest → String × String
key r = (r.workspace_key, trim r.id)

-- No request of the list has the file `k`.
abbrev pub Apart : String × String → List HumanRequest → Type 0
Apart k [] = Unit
Apart k (r ∷ rs) = (pair_beq k (key r) ≡ false) × Apart k rs

-- The disk holds every request of the list, each in a file of its own.
abbrev pub Held : Disk → List HumanRequest → Type 0
Held d [] = Unit
Held d (r ∷ rs) = (Dict.lookup (key r) d.requests ≡ some r) × Apart (key r) rs × Held d rs

pub pair_beq_sym : (p q : String × String) → pair_beq p q ≡ false → pair_beq q p ≡ false
pair_beq_sym p q h = ground (arith, pair_beq_iff p q, pair_beq_iff q p)

Apart-select :
    (k : String × String) (p : HumanRequest → Bool) (rs : List HumanRequest)
    → Apart k rs
    → Apart k (select p rs)
unfolding select
Apart-select k p [] a = tt
Apart-select k p (r ∷ rs) a = elim (Bool-cases (p r)) [
  | inl h ↦ rw h (a.0, Apart-select k p rs a.1)
  | inr h ↦ rw h (Apart-select k p rs a.1)
]

pub Held-select :
    (d : Disk) (p : HumanRequest → Bool) (rs : List HumanRequest) → Held d rs → Held d (select p rs)
unfolding select
Held-select d p [] a = tt
Held-select d p (r ∷ rs) (h, a, t) = elim (Bool-cases (p r)) [
  | inl e ↦ rw e (h, Apart-select (key r) p rs a, Held-select d p rs t)
  | inr e ↦ rw e (Held-select d p rs t)
]

Apart-sort_insert :
    (k : String × String) (r : HumanRequest) (rs : List HumanRequest)
    → pair_beq k (key r) ≡ false
    → Apart k rs
    → Apart k (sort_insert r rs)
unfolding sort_insert
Apart-sort_insert k r [] h a = (h, tt)
Apart-sort_insert k r (x ∷ xs) h a = elim (Bool-cases (listed_before x r)) [
  | inl e ↦ rw e (a.0, Apart-sort_insert k r xs h a.1)
  | inr e ↦ rw e (h, a)
]

Held-sort_insert :
    (d : Disk) (r : HumanRequest) (rs : List HumanRequest)
    → Dict.lookup (key r) d.requests ≡ some r
    → Apart (key r) rs
    → Held d rs
    → Held d (sort_insert r rs)
unfolding sort_insert
Held-sort_insert d r [] h a t = (h, a, t)
Held-sort_insert d r (x ∷ xs) h a (hx, ax, tx) = elim (Bool-cases (listed_before x r)) [
  | inl e ↦ rw e (
    hx,
    Apart-sort_insert (key x) r xs (pair_beq_sym (key r) (key x) a.0) ax,
    Held-sort_insert d r xs h a.1 tx,
  )
  | inr e ↦ rw e (h, a, (hx, ax, tx))
]

Apart-sort_requests :
    (k : String × String) (rs : List HumanRequest) → Apart k rs → Apart k (sort_requests rs)
unfolding sort_requests
Apart-sort_requests k [] a = tt
Apart-sort_requests k (r ∷ rs) a =
    Apart-sort_insert k r (sort_requests rs) a.0 (Apart-sort_requests k rs a.1)

pub Held-sort_requests : (d : Disk) (rs : List HumanRequest) → Held d rs → Held d (sort_requests rs)
unfolding sort_requests
Held-sort_requests d [] t = tt
Held-sort_requests d (r ∷ rs) (h, a, t) =
    Held-sort_insert d r (sort_requests rs) h (Apart-sort_requests (key r) rs a)
      (Held-sort_requests d rs t)

-- Part of a disk's entries, which the disk holds.
record IsPart (d : Disk) (l : Dict (String × String) HumanRequest) : Type 0 where
  unique : HasUniqueKeys l
  held :
      (ws id : String) (r : HumanRequest)
      → Dict.lookup (ws, id) l ≡ some r
      → (stored ws id d ≡ some r) × (key r ≡ (ws, id))

module _ (d : Disk) (k : String × String) (v : HumanRequest)
    (l : Dict (String × String) HumanRequest) (p : IsPart d ((k, v) ∷ l)) where
  lookup_first : Dict.lookup k ((k, v) ∷ l) ≡ some v
  unfolding Dict.lookup
  lookup_first = rw ((pair_beq_iff k k).1 refl)

  first_held : (stored k.0 k.1 d ≡ some v) × (key v ≡ k)
  first_held = p.held k.0 k.1 v lookup_first

  lookup_rest :
      (ws id : String) (r : HumanRequest)
      → Dict.lookup (ws, id) l ≡ some r
      → Dict.lookup (ws, id) ((k, v) ∷ l) ≡ some r
  unfolding Dict.lookup
  lookup_rest ws id r h = elim (Bool-cases (pair_beq k (ws, id))) [
    | inl e ↦ cc (
      ap (λ (q : String × String). Dict.lookup q l) ((pair_beq_iff k (ws, id)).0 e),
      p.unique.0,
      h,
    )
    | inr e ↦ rw e h
  ]

  rest_IsPart : IsPart d l
  rest_IsPart = record {
    unique = p.unique.1;
    held = λ ws id r h. p.held ws id r (lookup_rest ws id r h);
  }

not_found-cons :
    (k j : String × String) (v : HumanRequest) (l : Dict (String × String) HumanRequest)
    → Dict.lookup k ((j, v) ∷ l) ≡ none
    → (pair_beq k j ≡ false) × (Dict.lookup k l ≡ none)
unfolding Dict.lookup
not_found-cons k j v l h = ground (arith, pair_beq_iff j k, pair_beq_iff k j)

read_dir-Apart :
    (d : Disk) (ws : String) (k : String × String) (l : Dict (String × String) HumanRequest)
    → IsPart d l
    → Dict.lookup k l ≡ none
    → Apart k (read_dir ws l)
unfolding read_dir
read_dir-Apart d ws k [] p h = tt
read_dir-Apart d ws k ((j, v) ∷ l) p h =
    let (ne, rest) = not_found-cons k j v l h in
    let more = read_dir-Apart d ws k l (rest_IsPart d j v l p) rest in
    elim (Bool-cases (j.0 == ws)) [
      | inl e ↦ rw e (ap (pair_beq k) (first_held d j v l p).1 ∙ ne, more)
      | inr e ↦ rw e more
    ]

read_dir-Held :
    (d : Disk) (ws : String) (l : Dict (String × String) HumanRequest)
    → IsPart d l
    → Held d (read_dir ws l)
unfolding read_dir
read_dir-Held d ws [] p = tt
read_dir-Held d ws ((k, v) ∷ l) p =
    let rest = rest_IsPart d k v l p in
    let (h, e) = first_held d k v l p in
    elim (Bool-cases (k.0 == ws)) [
      | inl t ↦ rw t (
        ap (λ (q : String × String). Dict.lookup q d.requests) e ∙ h,
        subst (λ q. Apart q (read_dir ws l)) (sym e) (read_dir-Apart d ws k l rest p.unique.0),
        read_dir-Held d ws l rest,
      )
      | inr t ↦ rw t (read_dir-Held d ws l rest)
    ]

orderly_IsPart : (d : Disk) → IsOrderly d → IsPart d d.requests
orderly_IsPart d o = record {
  unique = o.unique;
  held = λ ws id r h. let f = o.filed ws id r h in (h, λ i. (f.workspace i, f.name i));
}

-- The requests that a listing returns are held.
pub list_locked-Held :
    (e : Env) (q : ListQuery) (d : Disk) (rs : List HumanRequest)
    → IsOrderly d
    → (list_locked e q d).0 ≡ ok rs
    → Held d rs
unfolding list_locked
list_locked-Held e q d rs o h =
    let all = read_dir-Held d q.workspace_key d.requests (orderly_IsPart d o) in
    subst (Held d) (ground arith)
      (Held-sort_requests d _ (Held-select d (passes q) (read_dir q.workspace_key d.requests) all))
