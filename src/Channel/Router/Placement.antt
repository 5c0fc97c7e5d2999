-- ===== src/Channel/Router/Placement.antt =====
-- What the threads of apps/xira/internal/channelrunner/progress/router.go rely on in the map and the
-- entries, and what a change of these leaves of it.
use mathlib.Core.Path.{subst}
use xira.Shared.{
  ℕ, String, Bool, true, false, ◌≡◌, refl, Option, some, eqb, if◌then◌else◌, arith, sym, ◌∙◌, inl,
  inr, ◌⊎◌, Bool-cases, ◌<◌,
}
use xira.Shared.Dict
use xira.Shared.Dict.{Dict}
use xira.Channel.ChatKey.{ChatKey, key_eq}
use xira.Channel.Router.{Router}
use xira.Channel.Router.Turns.{Phase, System, at_phase, turn_key, turn_request, got_key}

abbrev pub address : ChatKey → Router → Option ℕ
address key r = Dict.lookup key r.entries

-- An entry that holds the turn of a request.
pub record Holds (r : Router) (a : ℕ) (id : String) : Type 0 where
  pub active : (r.heap a).active ≡ true
  pub cited : (r.heap a).active_request_id ≡ id

abbrev pub IsTurnAt : Router → String → ChatKey → Type 0
IsTurnAt r id k = (a : ℕ) × (address k r ≡ some a) × Holds r a id

-- What a phase says of the router: the key of a turn has an entry that holds the turn, and an address
-- that a thread keeps is still the key's.
abbrev pub Fits : Router → Phase → Type 0
Fits r Phase.idle = Unit
Fits r (Phase.got key id msg direct a) = address key r ≡ some a
Fits r (Phase.waiting key id) = IsTurnAt r id key
Fits r (Phase.running key id) = IsTurnAt r id key
Fits r (Phase.ending key id a) = (address key r ≡ some a) × Holds r a id

-- Addresses are in use and not shared, each phase fits, and a key has one turn at most.
pub record IsPlaced (s : System) : Type 0 where
  pub below : (k : ChatKey) (a : ℕ) → address k s.router ≡ some a → a < s.router.next
  pub apart :
      (k j : ChatKey) (a : ℕ) → address k s.router ≡ some a → address j s.router ≡ some a → k ≡ j
  pub fits : (i : ℕ) → Fits s.router (s.threads i)
  pub alone :
      (i j : ℕ) (k : ChatKey)
      → turn_key (s.threads i) ≡ some k
      → turn_key (s.threads j) ≡ some k
      → i ≡ j

key-inj : {k j : ChatKey} → some k ≡ some j → k ≡ j
key-inj h = cc

-- A turn's phase fits by an entry that holds it.
pub Fits-turn :
    (r : Router) (p : Phase) (k : ChatKey)
    → Fits r p
    → turn_key p ≡ some k
    → IsTurnAt r (turn_request p) k
unfolding turn_key turn_request
Fits-turn r (Phase.waiting key id) k f h = subst (IsTurnAt r id) (key-inj h) f
Fits-turn r (Phase.running key id) k f h = subst (IsTurnAt r id) (key-inj h) f
Fits-turn r (Phase.ending key id a) k f h = subst (IsTurnAt r id) (key-inj h) (a, f.0, f.1)
Fits-turn r Phase.idle k f h = cc
Fits-turn r (Phase.got key id msg direct a) k f h = cc

-- A change of the router that keeps the addresses of the calls, and the entries of the turns.
pub Fits-change :
    (r r' : Router) (p : Phase)
    → ((k : ChatKey) (a : ℕ) → got_key p ≡ some k → address k r ≡ some a → address k r' ≡ some a)
    → ((k : ChatKey) (a : ℕ) (id : String)
        → turn_key p ≡ some k
        → address k r ≡ some a
        → Holds r a id
        → (address k r' ≡ some a) × Holds r' a id)
    → Fits r p
    → Fits r' p
unfolding turn_key got_key
Fits-change r r' Phase.idle g t f = tt
Fits-change r r' (Phase.got key id msg direct a) g t f = g key a refl f
Fits-change r r' (Phase.waiting key id) g t (a, at, h) =
    let v = t key a id refl at h in (a, v.0, v.1)
Fits-change r r' (Phase.running key id) g t (a, at, h) =
    let v = t key a id refl at h in (a, v.0, v.1)
Fits-change r r' (Phase.ending key id a) g t (at, h) = t key a id refl at h

-- Only one thread's phase changes.
pub all_phases :
    (P : Phase → Type 0) (i : ℕ) (p : Phase) (threads : ℕ → Phase)
    → P p
    → ((j : ℕ) → eqb i j ≡ false → P (threads j))
    → (j : ℕ) → P (at_phase i p threads j)
all_phases P i p threads h k j = elim (Bool-cases (eqb i j)) [
  | inl y ↦ rw y h
  | inr n ↦ rw n (k j n)
]

chosen-turn :
    (b : Bool) (p q : Phase) (k : ChatKey)
    → turn_key (if b then p else q) ≡ some k
    → ((b ≡ true) × (turn_key p ≡ some k)) ⊎ ((b ≡ false) × (turn_key q ≡ some k))
chosen-turn true p q k h = inl (refl, h)
chosen-turn false p q k h = inr (refl, h)

eqb-true : (i j : ℕ) → eqb i j ≡ true → i ≡ j
eqb-true i j h = ground arith

-- The threads, when one of them is in another phase and the router has changed.
pub IsPlaced-at_phase :
    (s : System) (i : ℕ) (p : Phase) (r : Router)
    → IsPlaced s
    → ((k : ChatKey) (a : ℕ) → address k r ≡ some a → a < r.next)
    → ((k j : ChatKey) (a : ℕ) → address k r ≡ some a → address j r ≡ some a → k ≡ j)
    → Fits r p
    → ((j : ℕ) → eqb i j ≡ false → Fits r (s.threads j))
    → ((j : ℕ) (k : ChatKey) → turn_key p ≡ some k → turn_key (s.threads j) ≡ some k → i ≡ j)
    → IsPlaced (record { router = r; threads = at_phase i p s.threads })
IsPlaced-at_phase s i p r w below apart here there one = record {
  below = below;
  apart = apart;
  fits = all_phases (Fits r) i p s.threads here there;
  alone = λ j l k h m. elim (chosen-turn (eqb i j) p (s.threads j) k h) [
    | inl (y, hp) ↦ elim (chosen-turn (eqb i l) p (s.threads l) k m) [
      | inl (z, mp) ↦ sym (eqb-true i j y) ∙ eqb-true i l z
      | inr (o, mt) ↦ sym (eqb-true i j y) ∙ one l k hp mt
    ]
    | inr (n, ht) ↦ elim (chosen-turn (eqb i l) p (s.threads l) k m) [
      | inl (z, mp) ↦ sym (one j k mp ht) ∙ eqb-true i l z
      | inr (o, mt) ↦ w.alone j l k ht mt
    ]
  ];
}
