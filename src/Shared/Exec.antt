-- ===== src/Shared/Exec.antt =====
-- Operations on a state that may fail. What was written before a failure stays written, so the
-- state comes back beside the error too.
use xira.Shared.Result.{Result, ok, err}

abbrev pub Exec {ℓ} : Type 0 → Type 0 → Type ℓ → Type ℓ
Exec S E A = S → Result E A × S

module _ {ℓ} {S E : Type 0} {A : Type ℓ} where
  abbrev pub pure : A → Exec S E A
  pure a s = (ok a, s)

  abbrev pub raise : E → Exec S E A
  raise e s = (err e, s)

  abbrev pub lift : Result E A → Exec S E A
  lift r s = (r, s)

module _ {ℓ κ} {S E : Type 0} {A : Type ℓ} {B : Type κ} where
  abbrev pub proceed : Result E A → (A → Exec S E B) → Exec S E B
  proceed (ok a) f s = f a s
  proceed (err e) f s = (err e, s)

  infixl 5 ◌>>=◌
  abbrev pub ◌>>=◌ : Exec S E A → (A → Exec S E B) → Exec S E B
  ◌>>=◌ m f s = proceed (m s).0 f (m s).1

infixr 5 ◌>>◌
abbrev pub ◌>>◌ {ℓ} : {S E : Type 0} {B : Type ℓ} → Exec S E (Unit {0}) → Exec S E B → Exec S E B
m >> k = m >>= λ _. k
