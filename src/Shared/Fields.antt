-- ===== src/Shared/Fields.antt =====
-- Go's `strings.Split` and `strings.Join` on one separator.
use Prim.Native.Char.{Char, code}
use Prim.Native.String.{String}
use mathlib.Core.Path.{◌≡◌, refl}
use mathlib.Core.List.{List, [], ◌∷◌}
use Prim.Native.Nat.{ℕ}
use xira.Shared.Tests.{eqb, if◌then◌else◌}

abbrev pub join_text : String → String → String
join_text String.[] t = t
join_text (String.◌∷◌ c s) t = String.◌∷◌ c (join_text s t)

on_first : Char → List String → List String
on_first c [] = (String.◌∷◌ c String.[]) ∷ []
on_first c (f ∷ fs) = String.◌∷◌ c f ∷ fs

-- strings.Split, by the code of the separator.
unfoldable pub split : ℕ → String → List String
unfolding on_first
split sep String.[] = "" ∷ []
split sep (String.◌∷◌ c s) =
    let rest = split sep s in if eqb (code c) sep then "" ∷ rest else on_first c rest

-- strings.Join
unfoldable pub join : String → List String → String
join sep [] = ""
join sep (f ∷ []) = f
join sep (f ∷ g ∷ fs) = join_text f (join_text sep (join sep (g ∷ fs)))

split-join : split 0x2C (join "," ("a" ∷ "" ∷ "bc" ∷ [])) ≡ "a" ∷ "" ∷ "bc" ∷ []
unfolding split join
split-join = refl
