-- ===== src/Channel/Router/Ending.antt =====
-- The start and the end of a turn in apps/xira/internal/channelrunner/progress/router.go keep the
-- threads placed.
use xira.Shared.{
  ℕ, String, false, ◌≡◌, refl, Option, none, some, eqb, arith, ap, sym, ◌∙◌, inl, inr, Bool-cases,
}
use mathlib.Core.Path.{subst}
use xira.Channel.ChatKey.{ChatKey, key_eq}
use xira.Channel.Router.{update_at, idled}
use xira.Channel.Router.Turns.{
  Phase, System, at_phase, turn_key, start_step, found_phase, complete_at, abort_step, finish_step,
  idle_step,
}
use xira.Channel.Router.Placement.{
  address, Holds, Fits, IsPlaced, IsTurnAt, Fits-change, IsPlaced-at_phase,
}
use xira.Channel.Router.Locking.{put, Holds-put_other}

some-inj : {a b : ℕ} → some a ≡ some b → a ≡ b
some-inj h = cc

-- A thread whose turn stays the same.
moved-IsPlaced :
    (i : ℕ) (p : Phase) (s : System)
    → turn_key (s.threads i) ≡ turn_key p
    → Fits s.router p
    → IsPlaced s
    → IsPlaced (record s { threads = at_phase i p s.threads })
moved-IsPlaced i p s e f w =
    IsPlaced-at_phase s i p s.router w w.below w.apart f (λ j n. w.fits j)
      (λ j k h m. w.alone i j k (e ∙ h) m)

pub start-IsPlaced :
    (i : ℕ) (p : Phase) (s : System) → s.threads i ≡ p → IsPlaced s → IsPlaced (start_step i p s)
unfolding start_step turn_key
start-IsPlaced i (Phase.waiting key id) s e w =
    moved-IsPlaced i (Phase.running key id) s (ap turn_key e) (subst (Fits s.router) e (w.fits i)) w
start-IsPlaced i _ s e w = w

found-IsPlaced :
    (i : ℕ) (key : ChatKey) (id : String) (s : System) (o : Option ℕ)
    → address key s.router ≡ o
    → turn_key (s.threads i) ≡ some key
    → IsTurnAt s.router id key
    → IsPlaced s
    → IsPlaced (record s { threads = at_phase i (found_phase key id o) s.threads })
unfolding turn_key
found-IsPlaced i key id s none e t (a, at, h) w = cc
found-IsPlaced i key id s (some b) e t (a, at, h) w =
    moved-IsPlaced i (Phase.ending key id b) s t
      (e, subst (λ c. Holds s.router c id) (some-inj (sym at ∙ e)) h) w

complete-IsPlaced :
    (i : ℕ) (key : ChatKey) (id : String) (s : System)
    → turn_key (s.threads i) ≡ some key
    → IsTurnAt s.router id key
    → IsPlaced s
    → IsPlaced (complete_at i key id s)
complete-IsPlaced i key id s t h w = found-IsPlaced i key id s (address key s.router) refl t h w

pub abort-IsPlaced :
    (i : ℕ) (p : Phase) (s : System) → s.threads i ≡ p → IsPlaced s → IsPlaced (abort_step i p s)
unfolding abort_step turn_key
abort-IsPlaced i (Phase.waiting key id) s e w =
    complete-IsPlaced i key id s (ap turn_key e) (subst (Fits s.router) e (w.fits i)) w
abort-IsPlaced i _ s e w = w

pub finish-IsPlaced :
    (i : ℕ) (p : Phase) (s : System) → s.threads i ≡ p → IsPlaced s → IsPlaced (finish_step i p s)
unfolding finish_step turn_key
finish-IsPlaced i (Phase.running key id) s e w =
    complete-IsPlaced i key id s (ap turn_key e) (subst (Fits s.router) e (w.fits i)) w
finish-IsPlaced i _ s e w = w

-- The entry of a turn is not that of another thread's turn.
apart_turn :
    (i j : ℕ) (key k : ChatKey) (a b : ℕ) (s : System)
    → IsPlaced s
    → eqb i j ≡ false
    → turn_key (s.threads i) ≡ some key
    → turn_key (s.threads j) ≡ some k
    → address key s.router ≡ some a
    → address k s.router ≡ some b
    → eqb a b ≡ false
apart_turn i j key k a b s w n t u at there = elim (Bool-cases (eqb a b)) [
  | inl y ↦
      let same : b ≡ a = ground arith in
      let e : key ≡ k = w.apart key k a at (there ∙ ap some same) in
      let l : i ≡ j = w.alone i j k (t ∙ ap some e) u in absurd (ground arith)
  | inr m ↦ m
]

pub idle-IsPlaced :
    (i now : ℕ) (p : Phase) (s : System)
    → s.threads i ≡ p
    → IsPlaced s
    → IsPlaced (idle_step i now p s)
unfolding idle_step update_at turn_key
idle-IsPlaced i now (Phase.ending key id a) s e w =
    let f : Fits s.router (Phase.ending key id a) = subst (Fits s.router) e (w.fits i) in
    let idle_entry = idled now (s.router.heap a) in
    IsPlaced-at_phase s i Phase.idle (put a idle_entry s.router) w w.below w.apart tt
      (λ j n.
        Fits-change s.router (put a idle_entry s.router) (s.threads j) (λ k b g at. at)
          (λ k b c t at h. (
            at,
            Holds-put_other a idle_entry s.router b c
                (apart_turn i j key k a b s w n (ap turn_key e) t f.0 at) h,
          ))
          (w.fits j))
      (λ j k h m. cc)
idle-IsPlaced i now _ s e w = w
