-- ===== src/Channel/Router/Mapping.antt =====
-- The sections of apps/xira/internal/channelrunner/progress/router.go under the map's mutex keep the
-- threads placed.
use xira.Shared.{
  ℕ, suc, String, Bool, true, false, ◌≡◌, refl, Option, none, some, eqb, if◌then◌else◌, arith, ap,
  sym, ◌∙◌, inl, inr, ◌⊎◌, Bool-cases, ◌<◌,
}
use mathlib.Core.Path.{subst}
use xira.Shared.Dict
use xira.Shared.Dict.{Dict}
use xira.Channel.ChatKey.{ChatKey, key_beq, key_beq_iff, key_eq}
use xira.Channel.Router.{
  Router, ChatEntry, stays, evict, evict_at, get_or_create, get_at, put_at, new_entry, entry_at,
}
use xira.Channel.Router.Turns.{
  Phase, System, Step, at_phase, turn_key, got_key, get_step, is_kept, IsSpared,
}
use xira.Channel.Router.Placement.{address, Holds, Fits, IsPlaced, Fits-change, IsPlaced-at_phase}

some-inj : {a b : ℕ} → some a ≡ some b → a ≡ b
some-inj h = cc

-- The map without a key, unless it is kept.
abbrev cut : Bool → ChatKey → Router → Router
cut b key r = if b then r else record r { entries = Dict.remove key r.entries }

address-cut :
    (b : Bool) (key : ChatKey) (r : Router) (k : ChatKey) (a : ℕ)
    → address k (cut b key r) ≡ some a
    → address k r ≡ some a
address-cut true key r k a h = h
address-cut false key r k a h =
    some_if (key_beq key k) (address k r) (sym (Dict.lookup-remove key k r.entries) ∙ h)
  where
    some_if : (c : Bool) (o : Option ℕ) → (if c then none else o) ≡ some a → o ≡ some a
    some_if true o h = cc
    some_if false o h = h

address-kept :
    (b : Bool) (key : ChatKey) (r : Router) (k : ChatKey) (a : ℕ)
    → (key ≡ k → b ≡ true)
    → address k r ≡ some a
    → address k (cut b key r) ≡ some a
address-kept true key r k a f h = h
address-kept false key r k a f h = elim (Bool-cases (key_beq key k)) [
  | inl y ↦ let no_way = f ((key_beq_iff key k).0 y) in cc
  | inr n ↦ rw (Dict.lookup-remove key k r.entries) (rw n h)
]

Holds-cut :
    (b : Bool) (key : ChatKey) (r : Router) (a : ℕ) (id : String)
    → Holds r a id
    → Holds (cut b key r) a id
Holds-cut true key r a id h = h
Holds-cut false key r a id h = record { active = h.active; cited = h.cited }

cut-next : (b : Bool) (key : ChatKey) (r : Router) → (cut b key r).next ≡ r.next
cut-next true key r = refl
cut-next false key r = refl

-- An entry is cut out of the map only where it holds no turn and no call has got it.
cut-IsPlaced :
    (b : Bool) (key : ChatKey) (s : System)
    → ((i : ℕ) → got_key (s.threads i) ≡ some key → b ≡ true)
    → ((a : ℕ) → address key s.router ≡ some a → (s.router.heap a).active ≡ true → b ≡ true)
    → IsPlaced s
    → IsPlaced (record s { router = cut b key s.router })
cut-IsPlaced b key s free off w = record {
  below = λ k a h.
      subst (λ n. a < n) (sym (cut-next b key s.router))
        (w.below k a (address-cut b key s.router k a h));
  apart = λ k j a h m.
      w.apart k j a (address-cut b key s.router k a h) (address-cut b key s.router j a m);
  fits = λ i.
      Fits-change s.router (cut b key s.router) (s.threads i)
        (λ k a g at. address-kept b key s.router k a (λ e. free i (g ∙ ap some (sym e))) at)
        (λ k a id t at h. (
          address-kept b key s.router k a
              (λ e. off a (ap (λ j. address j s.router) e ∙ at) h.active) at,
          Holds-cut b key s.router a id h,
        ))
        (w.fits i);
  alone = w.alone;
}

stays-active : (now : ℕ) (e : ChatEntry) → e.active ≡ true → stays now e ≡ true
unfolding stays
stays-active now e h = rw h refl

pub evict-IsPlaced :
    (key : ChatKey) (now : ℕ) (s : System)
    → IsSpared (Step.evicts key now) s
    → IsPlaced s
    → IsPlaced (record s { router = evict key now s.router })
unfolding evict
evict-IsPlaced key now s free w = evicted (address key s.router) refl
  where
    evicted :
        (o : Option ℕ)
        → address key s.router ≡ o
        → IsPlaced (record s { router = evict_at key now s.router o })
    evicted none e = unfold evict_at in w
    evicted (some a) e =
        unfold evict_at in
        cut-IsPlaced (stays now (s.router.heap a)) key s
          (λ i g. ap (λ o. is_kept now (entry_at s.router o)) (sym e) ∙ free i g)
          (λ b at h.
            stays-active now (s.router.heap a)
              (ap (λ (c : ℕ). (s.router.heap c).active) (some-inj (sym e ∙ at)) ∙ h))
          w

-- The router with a new entry of a key that has none.
abbrev extended : ChatKey → Router → Router
extended key r = record {
  entries = Dict.insert key r.next r.entries;
  heap = put_at r.next new_entry r.heap;
  next = suc r.next;
}

address-extended :
    (key : ChatKey) (r : Router) (k : ChatKey)
    → address k (extended key r) ≡ (if key_beq key k then some r.next else address k r)
address-extended key r k = Dict.lookup-insert key k r.next r.entries

chosen-address :
    (b : Bool) (n : ℕ) (o : Option ℕ) (a : ℕ)
    → (if b then some n else o) ≡ some a
    → ((b ≡ true) × (n ≡ a)) ⊎ ((b ≡ false) × (o ≡ some a))
chosen-address true n o a h = inl (refl, some-inj h)
chosen-address false n o a h = inr (refl, h)

module _ (key : ChatKey) (s : System) (w : IsPlaced s)
    (none_yet : address key s.router ≡ none) where
  -- The address is the new one, or an old one of another key.
  extended-cases :
      (k : ChatKey) (a : ℕ)
      → address k (extended key s.router) ≡ some a
      → ((key ≡ k) × (s.router.next ≡ a)) ⊎ (address k s.router ≡ some a)
  extended-cases k a h =
      elim (chosen-address (key_beq key k) s.router.next (address k s.router) a
        (sym (address-extended key s.router k) ∙ h)) [
          | inl (y, e) ↦ inl ((key_beq_iff key k).0 y, e)
          | inr (n, e) ↦ inr e
        ]

  stays-extended :
      (k : ChatKey) (a : ℕ)
      → address k s.router ≡ some a
      → address k (extended key s.router) ≡ some a
  stays-extended k a h = elim (Bool-cases (key_beq key k)) [
    | inl y ↦
        let e : address key s.router ≡ address k s.router =
          ap (λ j. address j s.router) ((key_beq_iff key k).0 y) in
        cc
    | inr n ↦ rw (address-extended key s.router k) (rw n h)
  ]

  below-extended :
      (k : ChatKey) (a : ℕ) → address k (extended key s.router) ≡ some a → a < suc s.router.next
  below-extended k a h = elim (extended-cases k a h) [
    | inl (y, e) ↦ omega arith
    | inr e ↦ let b = w.below k a e in omega arith
  ]

  apart-extended :
      (k j : ChatKey) (a : ℕ)
      → address k (extended key s.router) ≡ some a
      → address j (extended key s.router) ≡ some a
      → k ≡ j
  apart-extended k j a h m = elim (extended-cases k a h) [
    | inl (y, e) ↦ elim (extended-cases j a m) [
      | inl (z, f) ↦ sym y ∙ z
      | inr f ↦ let b = w.below j a f in absurd (omega arith)
    ]
    | inr e ↦ elim (extended-cases j a m) [
      | inl (z, f) ↦ let b = w.below k a e in absurd (omega arith)
      | inr f ↦ w.apart k j a e f
    ]
  ]

  Fits-extended : (p : Phase) → Fits s.router p → Fits (extended key s.router) p
  Fits-extended p f =
      Fits-change s.router (extended key s.router) p (λ k a g at. stays-extended k a at)
        (λ k a id t at h. (stays-extended k a at, held a id (w.below k a at) h)) f
    where
      held :
          (a : ℕ) (id : String)
          → a < s.router.next
          → Holds s.router a id
          → Holds (extended key s.router) a id
      held a id b h =
          let n : eqb s.router.next a ≡ false = ground arith in
          record { active = rw n h.active; cited = rw n h.cited }

got-IsPlaced :
    (i : ℕ) (key : ChatKey) (id msg : String) (direct : Bool) (s : System) (o : Option ℕ)
    → address key s.router ≡ o
    → IsPlaced s
    → IsPlaced (record {
      router = (get_at key s.router o).1;
      threads = at_phase i (Phase.got key id msg direct (get_at key s.router o).0) s.threads;
    })
unfolding get_at turn_key
got-IsPlaced i key id msg direct s (some a) e w =
    IsPlaced-at_phase s i (Phase.got key id msg direct a) s.router w w.below w.apart e
      (λ j n. w.fits j) (λ j k h m. cc)
got-IsPlaced i key id msg direct s none e w =
    IsPlaced-at_phase s i (Phase.got key id msg direct s.router.next) (extended key s.router) w
      (below-extended key s w e) (apart-extended key s w e)
      (Dict.lookup-insert_self key s.router.next s.router.entries)
      (λ j n. Fits-extended key s w e (s.threads j) (w.fits j)) (λ j k h m. cc)

pub get-IsPlaced :
    (i : ℕ) (key : ChatKey) (id msg : String) (direct : Bool) (p : Phase) (s : System)
    → IsPlaced s
    → IsPlaced (get_step i key id msg direct p s)
unfolding get_step get_or_create
get-IsPlaced i key id msg direct Phase.idle s w =
    got-IsPlaced i key id msg direct s (address key s.router) refl w
get-IsPlaced i key id msg direct _ s w = w
