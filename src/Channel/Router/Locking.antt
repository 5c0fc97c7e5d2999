-- ===== src/Channel/Router/Locking.antt =====
-- The sections of apps/xira/internal/channelrunner/progress/router.go under an entry's mutex keep the
-- threads placed.
use xira.Shared.{
  ℕ, String, Bool, true, false, ◌≡◌, refl, none, some, eqb, if◌then◌else◌, arith, ap, sym, ◌∙◌, inl,
  inr, Bool-cases,
}
use mathlib.Core.Path.{subst}
use xira.Channel.ChatKey.{ChatKey, key_eq}
use xira.Channel.Steering.{enqueue}
use xira.Channel.Router.{Router, ChatEntry, RoutingOutcome, enter, enter_at, update_at, put_at}
use xira.Channel.Router.Turns.{Phase, System, at_phase, turn_key, enter_step, let_in}
use xira.Channel.Router.Placement.{
  address, Holds, Fits, IsPlaced, Fits-turn, Fits-change, IsPlaced-at_phase,
}

some-inj : {a b : ℕ} → some a ≡ some b → a ≡ b
some-inj h = cc

-- The router with another entry at an address.
abbrev pub put : ℕ → ChatEntry → Router → Router
put a e r = record r { heap = put_at a e r.heap }

-- An entry that holds the same turn.
Holds-put :
    (a : ℕ) (e : ChatEntry) (r : Router) (b : ℕ) (id : String)
    → e.active ≡ (r.heap a).active
    → e.active_request_id ≡ (r.heap a).active_request_id
    → Holds r b id
    → Holds (put a e r) b id
Holds-put a e r b id p q h = elim (Bool-cases (eqb a b)) [
  | inl y ↦ record {
    active = rw y (p ∙ ap (λ (c : ℕ). (r.heap c).active) (same y) ∙ h.active);
    cited = rw y (q ∙ ap (λ (c : ℕ). (r.heap c).active_request_id) (same y) ∙ h.cited);
  }
  | inr n ↦ record { active = rw n h.active; cited = rw n h.cited }
]
  where
    same : eqb a b ≡ true → a ≡ b
    same y = ground arith

pub Holds-put_other :
    (a : ℕ) (e : ChatEntry) (r : Router) (b : ℕ) (id : String)
    → eqb a b ≡ false
    → Holds r b id
    → Holds (put a e r) b id
Holds-put_other a e r b id n h = record { active = rw n h.active; cited = rw n h.cited }

Holds-put_self :
    (a : ℕ) (e : ChatEntry) (r : Router) → e.active ≡ true → Holds (put a e r) a e.active_request_id
Holds-put_self a e r h =
    let y : eqb a a ≡ true = ground arith in record { active = rw y h; cited = rw y refl }

Fits-put :
    (a : ℕ) (e : ChatEntry) (r : Router) (p : Phase)
    → e.active ≡ (r.heap a).active
    → e.active_request_id ≡ (r.heap a).active_request_id
    → Fits r p
    → Fits (put a e r) p
Fits-put a e r p x y f =
    Fits-change r (put a e r) p (λ k b g at. at) (λ k b id t at h. (at, Holds-put a e r b id x y h))
      f

-- What the turn's goroutine and its children do to the queue and the collector.
pub touched-IsPlaced :
    (f : ChatEntry → ChatEntry) (a : ℕ) (s : System)
    → ((e : ChatEntry) → (f e).active ≡ e.active)
    → ((e : ChatEntry) → (f e).active_request_id ≡ e.active_request_id)
    → IsPlaced s
    → IsPlaced (record s { router = update_at f a s.router })
unfolding update_at
touched-IsPlaced f a s x y w = record {
  below = w.below;
  apart = w.apart;
  fits = λ i.
      Fits-put a (f (s.router.heap a)) s.router (s.threads i) (x (s.router.heap a))
        (y (s.router.heap a)) (w.fits i);
  alone = w.alone;
}

if-true : {A : Type 0} (b : Bool) (x y : A) → b ≡ true → (if b then x else y) ≡ x
if-true b x y h = rw h refl

if-false : {A : Type 0} (b : Bool) (x y : A) → b ≡ false → (if b then x else y) ≡ y
if-false b x y h = rw h refl

abbrev steered_entry : String → ChatEntry → ChatEntry
steered_entry msg e = record e { steering = enqueue msg e.steering }

abbrev started_entry : String → ChatEntry → ChatEntry
started_entry id e = record e { active = true; active_request_id = id }

-- The system after the entry's section, by what the section comes to.
abbrev after : ℕ → ℕ → ChatKey → String → Bool → System → RoutingOutcome × ChatEntry → System
after i a key id direct s p = record {
  router = put a p.1 s.router;
  threads = at_phase i (let_in key id direct p.0) s.threads;
}

module _ (i : ℕ) (key : ChatKey) (id : String) (direct : Bool) (a : ℕ) (s : System) (w : IsPlaced s)
    (at : address key s.router ≡ some a) where
  steered-IsPlaced :
      (msg c : String)
      → IsPlaced (
          after i a key id direct s (RoutingOutcome.steered c, steered_entry msg (s.router.heap a)))
  unfolding turn_key
  steered-IsPlaced msg c =
      let e = steered_entry msg (s.router.heap a) in
      IsPlaced-at_phase s i Phase.idle (put a e s.router) w w.below w.apart tt
        (λ j n. Fits-put a e s.router (s.threads j) refl refl (w.fits j)) (λ j k h m. cc)

  -- An entry that holds no turn is not that of a turn.
  apart_from :
      (s.router.heap a).active ≡ false → (b : ℕ) (c : String) → Holds s.router b c → eqb a b ≡ false
  apart_from off b c h = elim (Bool-cases (eqb a b)) [
    | inl y ↦
        let same : a ≡ b = ground arith in
        let on : (s.router.heap a).active ≡ true =
          ap (λ (x : ℕ). (s.router.heap x).active) same ∙ h.active in
        cc
    | inr n ↦ n
  ]

  Fits-started :
      (d : Bool)
      → Fits
          (put a (started_entry id (s.router.heap a)) s.router)
          (let_in key id d RoutingOutcome.started)
  Fits-started true = (a, at, Holds-put_self a (started_entry id (s.router.heap a)) s.router refl)
  Fits-started false = (a, at, Holds-put_self a (started_entry id (s.router.heap a)) s.router refl)

  key-started :
      (d : Bool) (k : ChatKey)
      → turn_key (let_in key id d RoutingOutcome.started) ≡ some k
      → some key ≡ some k
  unfolding turn_key
  key-started true k h = h
  key-started false k h = h

  started-IsPlaced :
      (s.router.heap a).active ≡ false
      → IsPlaced
          (after i a key id direct s (RoutingOutcome.started, started_entry id (s.router.heap a)))
  started-IsPlaced off =
      let e = started_entry id (s.router.heap a) in
      IsPlaced-at_phase s i (let_in key id direct RoutingOutcome.started) (put a e s.router) w
        w.below w.apart (Fits-started direct)
        (λ j n.
          Fits-change s.router (put a e s.router) (s.threads j) (λ k b g at. at)
            (λ k b c t at h. (at, Holds-put_other a e s.router b c (apart_from off b c h) h))
            (w.fits j))
        (λ j k h m.
          let (b, there, held) = Fits-turn s.router (s.threads j) k (w.fits j) m in
          let same : a ≡ b = some-inj (
            sym at
            ∙ ap (λ o. elim o [ none ↦ none | some c ↦ address c s.router ])
                (key-started direct k h)
            ∙ there) in
          let apart : eqb a b ≡ false = apart_from off b _ held in absurd (ground arith))

  entered-IsPlaced :
      (msg : String) → IsPlaced (after i a key id direct s (enter id msg (s.router.heap a)))
  unfolding enter
  entered-IsPlaced msg = elim (Bool-cases (s.router.heap a).active) [
    | inl y ↦
        subst (λ p. IsPlaced (after i a key id direct s p)) (sym (if-true _ _ _ y))
          (steered-IsPlaced msg (s.router.heap a).active_request_id)
    | inr n ↦
        subst (λ p. IsPlaced (after i a key id direct s p)) (sym (if-false _ _ _ n))
          (started-IsPlaced n)
  ]

pub enter-IsPlaced :
    (i : ℕ) (p : Phase) (s : System) → s.threads i ≡ p → IsPlaced s → IsPlaced (enter_step i p s)
unfolding enter_step enter_at
enter-IsPlaced i (Phase.got key id msg direct a) s e w =
    entered-IsPlaced i key id direct a s w (subst (Fits s.router) e (w.fits i)) msg
enter-IsPlaced i _ s e w = w
