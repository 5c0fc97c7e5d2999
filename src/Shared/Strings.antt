-- ===== src/Shared/Strings.antt =====
-- Go's `strings` package on native texts: TrimSpace, HasPrefix, Contains.
use Prim.Native.Nat.{ℕ}
use Prim.Native.Char.{Char, code}
use Prim.Native.String.{String, compare}
use mathlib.Core.Path.{◌≡◌, refl}
use mathlib.Core.Logic.{inl, inr}
use mathlib.Core.Bool.{Bool, true, false, ◌&&◌, ◌||◌}
use text.Mathlib.Text.{is_lt}
use xira.Shared.Tests.{leb, eqb, if◌then◌else◌, Bool-cases}

-- unicode.IsSpace, by code point.
unfoldable pub is_space : ℕ → Bool
is_space c =
    (leb 9 c && leb c 13)
    || eqb c 0x20
    || eqb c 0x85
    || eqb c 0xA0
    || eqb c 0x1680
    || (leb 0x2000 c && leb c 0x200A)
    || eqb c 0x2028
    || eqb c 0x2029
    || eqb c 0x202F
    || eqb c 0x205F
    || eqb c 0x3000

trim_left : String → String
trim_left String.[] = String.[]
trim_left (String.◌∷◌ c s) =
    let rest = trim_left s in if is_space (code c) then rest else String.◌∷◌ c s

-- One character before a text that is trimmed on the right.
keep : Char → String → String
keep c String.[] = if is_space (code c) then String.[] else String.◌∷◌ c String.[]
keep c (String.◌∷◌ d s) = String.◌∷◌ c (String.◌∷◌ d s)

trim_right : String → String
unfolding keep
trim_right String.[] = String.[]
trim_right (String.◌∷◌ c s) = keep c (trim_right s)

-- strings.TrimSpace
unfoldable pub trim : String → String
unfolding trim_left trim_right is_space
trim s = trim_right (trim_left s)

-- strings.HasPrefix
unfoldable pub has_prefix : String → String → Bool
has_prefix s String.[] = true
has_prefix String.[] (String.◌∷◌ d p) = false
has_prefix (String.◌∷◌ c s) (String.◌∷◌ d p) = eqb (code c) (code d) && has_prefix s p

-- strings.Contains
unfoldable pub contains : String → String → Bool
unfolding has_prefix
contains String.[] t = has_prefix String.[] t
contains (String.◌∷◌ c s) t = has_prefix (String.◌∷◌ c s) t || contains s t

-- Go's `<` on strings: the order of the bytes, which is that of the code points.
abbrev pub str_lt : String → String → Bool
str_lt s t = is_lt (compare s t)

pub trim-empty : trim "" ≡ ""
unfolding trim
trim-empty = refl

trim-spaces : trim "  a b\t " ≡ "a b"
unfolding trim
trim-spaces = refl

-- Trimming the right end twice is trimming it once.
keep_trimmed : (c : Char) (s : String) → trim_right s ≡ s → trim_right (keep c s) ≡ keep c s
unfolding trim_right keep
keep_trimmed c String.[] h = elim (Bool-cases (is_space (code c))) [
  | inl e ↦ rw e
  | inr e ↦ rw e (rw e)
]
keep_trimmed c (String.◌∷◌ d s) h = rw h

trim_right_idem : (s : String) → trim_right (trim_right s) ≡ trim_right s
unfolding trim_right
trim_right_idem String.[] = refl
trim_right_idem (String.◌∷◌ c s) = keep_trimmed c (trim_right s) (trim_right_idem s)

-- No space at the front.
abbrev IsTrimmedLeft : String → Type 0
IsTrimmedLeft String.[] = Unit
IsTrimmedLeft (String.◌∷◌ c s) = is_space (code c) ≡ false

trim_left-IsTrimmedLeft : (s : String) → IsTrimmedLeft (trim_left s)
unfolding trim_left
trim_left-IsTrimmedLeft String.[] = tt
trim_left-IsTrimmedLeft (String.◌∷◌ c s) = elim (Bool-cases (is_space (code c))) [
  | inl e ↦ rw e (trim_left-IsTrimmedLeft s)
  | inr e ↦ rw e e
]

trim_right-IsTrimmedLeft : (s : String) → IsTrimmedLeft s → IsTrimmedLeft (trim_right s)
unfolding trim_right keep
trim_right-IsTrimmedLeft String.[] h = tt
trim_right-IsTrimmedLeft (String.◌∷◌ c s) h = go (trim_right s)
  where
    go : (r : String) → IsTrimmedLeft (keep c r)
    go String.[] = rw h h
    go (String.◌∷◌ d r) = h

trim_left_of_IsTrimmedLeft : (s : String) → IsTrimmedLeft s → trim_left s ≡ s
unfolding trim_left
trim_left_of_IsTrimmedLeft String.[] h = refl
trim_left_of_IsTrimmedLeft (String.◌∷◌ c s) h = rw h

pub trim_idem : (s : String) → trim (trim s) ≡ trim s
unfolding trim
trim_idem s =
    rw
      (trim_left_of_IsTrimmedLeft (trim_right (trim_left s))
        (trim_right-IsTrimmedLeft (trim_left s) (trim_left-IsTrimmedLeft s)))
      (trim_right_idem (trim_left s))
