-- ===== src/Shared/Lists.antt =====
-- Lists over the native numbers: length, Boolean filters, membership and prefixes as families
-- that can be matched.
use Prim.Native.Nat.{ℕ, suc}
use mathlib.Core.Path.{◌≡◌, refl, ap, sym, ◌∙◌}
use mathlib.Core.Logic.{inl, inr}
use mathlib.Core.Bool.{Bool, true, false}
use mathlib.Core.List.{List, [], ◌∷◌, ◌++◌, append_assoc, append-nil}
pub use mathlib.Core.List.{Memᴰ}
use xira.Shared.Tests.{if◌then◌else◌, Bool-cases}

module _ {ℓ} {A : Type ℓ} where
  abbrev pub length : List A → ℕ
  length [] = 0
  length (x ∷ xs) = suc (length xs)

  -- The elements that pass a Boolean test, in order.
  unfoldable pub select : (A → Bool) → List A → List A
  select p [] = []
  select p (x ∷ xs) = let rest = select p xs in if p x then x ∷ rest else rest

  pub select-append :
      (p : A → Bool) (xs ys : List A) → select p (xs ++ ys) ≡ select p xs ++ select p ys
  unfolding select
  select-append p [] ys = refl
  select-append p (x ∷ xs) ys = elim (Bool-cases (p x)) [
    | inl h ↦ rw h (ap (λ (l : List A). x ∷ l) (select-append p xs ys))
    | inr h ↦ rw h (select-append p xs ys)
  ]

  -- Every element.
  abbrev pub All : (A → Type 0) → List A → Type 0
  All P [] = Unit
  All P (x ∷ xs) = P x × All P xs

  pub All-append : (P : A → Type 0) (xs ys : List A) → All P xs → All P ys → All P (xs ++ ys)
  All-append P [] ys h k = k
  All-append P (x ∷ xs) ys h k = (h.0, All-append P xs ys h.1 k)

  pub All-weaken : (P Q : A → Type 0) (xs : List A) → ((x : A) → P x → Q x) → All P xs → All Q xs
  All-weaken P Q [] f h = tt
  All-weaken P Q (x ∷ xs) f h = (f x h.0, All-weaken P Q xs f h.1)

  -- `ys` extends `xs` at its end.
  pub record Extends (xs ys : List A) : Type ℓ where
    pub more : List A
    pub eq : ys ≡ xs ++ more

  pub Extends-refl : (xs : List A) → Extends xs xs
  Extends-refl xs = record { more = []; eq = sym (append-nil xs) }

  pub Extends-append : (xs more : List A) → Extends xs (xs ++ more)
  Extends-append xs more = record { more = more; eq = refl }

  pub Extends-trans : {xs ys zs : List A} → Extends xs ys → Extends ys zs → Extends xs zs
  Extends-trans {xs} p q = record {
    more = p.more ++ q.more;
    eq = q.eq ∙ ap (λ (l : List A). l ++ q.more) p.eq ∙ append_assoc xs p.more q.more;
  }

  -- Selecting keeps what passes, and only that.
  pub mem-select :
      (p : A → Bool) {x : A} (xs : List A) → Memᴰ x xs → p x ≡ true → Memᴰ x (select p xs)
  unfolding select
  mem-select p [] m h = elim m [ ]
  mem-select p (y ∷ ys) (Memᴰ.head e) h = rw (sym (ap p e) ∙ h) (Memᴰ.head e)
  mem-select p (y ∷ ys) (Memᴰ.tail m) h = elim (Bool-cases (p y)) [
    | inl t ↦ rw t (Memᴰ.tail (mem-select p ys m h))
    | inr f ↦ rw f (mem-select p ys m h)
  ]

  tail_both : {P : Type 0} {x : A} (y : A) (ys : List A) → Memᴰ x ys × P → Memᴰ x (y ∷ ys) × P
  tail_both y ys (m, h) = (Memᴰ.tail m, h)

  mem-select-cons :
      (p : A → Bool) {x : A} (y : A) (ys : List A) (b : Bool)
      → p y ≡ b
      → (Memᴰ x (select p ys) → Memᴰ x ys × (p x ≡ true))
      → Memᴰ x (if b then y ∷ select p ys else select p ys)
      → Memᴰ x (y ∷ ys) × (p x ≡ true)
  mem-select-cons p y ys true e ih (Memᴰ.head d) = (Memᴰ.head d, ap p d ∙ e)
  mem-select-cons p y ys true e ih (Memᴰ.tail m) = tail_both y ys (ih m)
  mem-select-cons p y ys false e ih m = tail_both y ys (ih m)

  pub mem_of_mem-select :
      (p : A → Bool) {x : A} (xs : List A) → Memᴰ x (select p xs) → Memᴰ x xs × (p x ≡ true)
  unfolding select
  mem_of_mem-select p [] m = elim m [ ]
  mem_of_mem-select p (y ∷ ys) m =
      mem-select-cons p y ys (p y) refl (λ m'. mem_of_mem-select p ys m') m
