-- ===== src/Shared/Dict.antt =====
-- Go's maps as association lists over keys with a Boolean equality, with the laws in `if` form.
use Prim.Native.String.{String}
use mathlib.Core.Path.{◌≡◌, refl, ap}
use mathlib.Core.Logic.{◌↔◌, inl, inr}
use mathlib.Core.Bool.{Bool, true, ◌&&◌}
use mathlib.Core.Option.{Option, none, some}
use mathlib.Core.List.{List, [], ◌∷◌}
use native.Mathlib.Omega.{arith}
use text.Mathlib.Text.{◌==◌}
use text.Mathlib.TextEquality.{eq_iff}
use xira.Shared.Tests.{if◌then◌else◌, Bool-cases}

pub record Eq {ℓ} (A : Type ℓ) : Type ℓ where
  pub beq : A → A → Bool
  pub beq_iff : (a b : A) → (beq a b ≡ true) ↔ (a ≡ b)

instance abbrev pub string_eq : Eq String
string_eq = record { beq = ◌==◌; beq_iff = eq_iff }

abbrev pub pair_beq : String × String → String × String → Bool
pair_beq (a, b) (c, d) = a == c && b == d

pub pair_beq_iff : (p q : String × String) → (pair_beq p q ≡ true) ↔ (p ≡ q)
pair_beq_iff (a, b) (c, d) = ground (arith, eq_iff a c, eq_iff b d)

instance abbrev pub pair_eq : Eq (String × String)
pair_eq = record { beq = pair_beq; beq_iff = pair_beq_iff }

abbrev pub Dict {ℓ} : Type 0 → Type ℓ → Type ℓ
Dict K V = List (K × V)

unfoldable pub kept {ℓ} : {V : Type ℓ} → (V → Bool) → Option V → Option V
kept test none = none
kept test (some v) = if test v then some v else none

module _ {ℓ} {K : Type 0} ⦃e : Eq K⦄ {V : Type ℓ} where
  unfoldable pub lookup : K → Dict K V → Option V
  lookup k [] = none
  lookup k ((j, v) ∷ d) = if e.beq j k then some v else lookup k d

  unfoldable pub insert : K → V → Dict K V → Dict K V
  insert k v [] = (k, v) ∷ []
  insert k v ((j, w) ∷ d) = if e.beq j k then (j, v) ∷ d else (j, w) ∷ insert k v d

  unfoldable pub remove : K → Dict K V → Dict K V
  remove k [] = []
  remove k ((j, v) ∷ d) = let rest = remove k d in if e.beq j k then rest else (j, v) ∷ rest

  pub lookup-insert :
      (k j : K) (v : V) (d : Dict K V)
      → lookup j (insert k v d) ≡ (if e.beq k j then some v else lookup j d)
  unfolding lookup insert
  lookup-insert k j v [] = refl
  lookup-insert k j v ((i, w) ∷ d) =
      ground (arith, e.beq_iff k j, e.beq_iff i k, e.beq_iff i j, lookup-insert k j v d)

  pub lookup-remove :
      (k j : K) (d : Dict K V) → lookup j (remove k d) ≡ (if e.beq k j then none else lookup j d)
  unfolding lookup remove
  lookup-remove k j [] = ground arith
  lookup-remove k j ((i, w) ∷ d) =
      ground (arith, e.beq_iff k j, e.beq_iff i k, e.beq_iff i j, lookup-remove k j d)

  -- No key twice.
  abbrev pub HasUniqueKeys : Dict K V → Type ℓ
  HasUniqueKeys [] = Unit
  HasUniqueKeys ((k, v) ∷ d) = (lookup k d ≡ none) × HasUniqueKeys d

  pub HasUniqueKeys-insert :
      (k : K) (v : V) (d : Dict K V) → HasUniqueKeys d → HasUniqueKeys (insert k v d)
  unfolding insert lookup
  HasUniqueKeys-insert k v [] u = (refl, tt)
  HasUniqueKeys-insert k v ((j, w) ∷ d) u = elim (Bool-cases (e.beq j k)) [
    | inl h ↦ rw h u
    | inr h ↦ rw h (
      ground (arith, lookup-insert k j v d, e.beq_iff k j, e.beq_iff j k, u.0),
      HasUniqueKeys-insert k v d u.1,
    )
  ]

  pub lookup-insert_self : (k : K) (v : V) (d : Dict K V) → lookup k (insert k v d) ≡ some v
  lookup-insert_self k v d = ground (arith, lookup-insert k k v d, e.beq_iff k k)

  -- `for k, v := range m { if !test(v) { delete(m, k) } }`
  unfoldable pub keep : (V → Bool) → Dict K V → Dict K V
  keep test [] = []
  keep test ((k, v) ∷ d) = let rest = keep test d in if test v then (k, v) ∷ rest else rest

  lookup-keep-none :
      (test : V → Bool) (k : K) (d : Dict K V) → lookup k d ≡ none → lookup k (keep test d) ≡ none
  unfolding lookup keep
  lookup-keep-none test k [] h = refl
  lookup-keep-none test k ((j, v) ∷ d) h = ground (arith, lookup-keep-none test k d)

  pub lookup-keep :
      (test : V → Bool) (k : K) (d : Dict K V)
      → HasUniqueKeys d
      → lookup k (keep test d) ≡ kept test (lookup k d)
  unfolding lookup keep kept
  lookup-keep test k [] u = refl
  lookup-keep test k ((j, v) ∷ d) u = ground (
    arith,
    e.beq_iff j k,
    lookup-keep test k d u.1,
    lookup-keep-none test k d,
    ap (λ (i : K). lookup i d),
  )

  pub HasUniqueKeys-keep :
      (test : V → Bool) (d : Dict K V) → HasUniqueKeys d → HasUniqueKeys (keep test d)
  unfolding keep
  HasUniqueKeys-keep test [] u = tt
  HasUniqueKeys-keep test ((k, v) ∷ d) u = elim (Bool-cases (test v)) [
    | inl h ↦ rw h (lookup-keep-none test k d u.0, HasUniqueKeys-keep test d u.1)
    | inr h ↦ rw h (HasUniqueKeys-keep test d u.1)
  ]

  lookup-remove-none : (k j : K) (d : Dict K V) → lookup j d ≡ none → lookup j (remove k d) ≡ none
  lookup-remove-none k j d h = ground (arith, lookup-remove k j d)

  pub HasUniqueKeys-remove : (k : K) (d : Dict K V) → HasUniqueKeys d → HasUniqueKeys (remove k d)
  unfolding remove
  HasUniqueKeys-remove k [] u = tt
  HasUniqueKeys-remove k ((j, v) ∷ d) u = elim (Bool-cases (e.beq j k)) [
    | inl h ↦ rw h (HasUniqueKeys-remove k d u.1)
    | inr h ↦ rw h (lookup-remove-none k j d u.0, HasUniqueKeys-remove k d u.1)
  ]
