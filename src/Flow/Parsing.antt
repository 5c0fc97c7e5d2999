-- ===== src/Flow/Parsing.antt =====
-- apps/xira/internal/flow/kernel.go: the parts of a condition's text, with the functions of `strings`
-- and `strconv` that it uses.
use Prim.Native.Nat.{◌*◌, ◌^◌}
use Prim.Native.Char.{Char, code}
use Prim.Native.String.{String as Text}
use xira.Shared.{
  ℕ, zero, suc, String, Bool, true, false, ◌&&◌, ◌||◌, List, [], ◌∷◌, Option, none, some, ◌==◌, leb,
  eqb, if◌then◌else◌, ◌+◌, ◌-◌,
}
use xira.Shared.Strings.{trim, has_prefix}
use xira.Shared.Dict.{string_eq}
use xira.Shared.Result.{Result, ok, err}
use xira.Shared.Int.{ℤ}
use xira.Flow.Run.{FlowError}

-- `s[n:]` past characters of one byte.
unfoldable pub drop_text : ℕ → String → String
drop_text zero s = s
drop_text (suc n) Text.[] = Text.[]
drop_text (suc n) (Text.◌∷◌ c s) = drop_text n s

unfoldable pub prepend : Char → Option (String × String) → Option (String × String)
prepend c none = none
prepend c (some (a, b)) = some (Text.◌∷◌ c a, b)

-- The text before the first occurrence of a mark of n characters, and the text past it.
unfoldable pub cut : String → ℕ → String → Option (String × String)
unfolding prepend drop_text
cut mark n Text.[] = none
cut mark n (Text.◌∷◌ c s) =
    let rest = cut mark n s in
    if has_prefix (Text.◌∷◌ c s) mark then some ("", drop_text n (Text.◌∷◌ c s)) else prepend c rest

-- The text before a last `}`.
unfoldable pub before_brace : String → Option String
before_brace Text.[] = none
before_brace (Text.◌∷◌ c Text.[]) = if eqb (code c) 0x7D then some "" else none
before_brace (Text.◌∷◌ c (Text.◌∷◌ d s)) = elim (before_brace (Text.◌∷◌ d s)) [
  | none ↦ none
  | some t ↦ some (Text.◌∷◌ c t)
]

unfoldable pub strip_template : String → Option String
unfolding before_brace drop_text
strip_template s = if has_prefix s "${" then before_brace (drop_text 2 s) else none

pub data Operator : Type 0 where
  eq ne ge le gt lt : Operator

unfoldable pub first_split :
    List (Operator × String × ℕ) → String → Result FlowError (String × Operator × String)
unfolding cut
first_split [] s = err FlowError.validation
first_split ((op, mark, n) ∷ rest) s =
    let others = first_split rest s in
    elim (cut mark n s) [ none ↦ others | some p ↦ ok (trim p.0, op, trim p.1) ]

unfoldable pub split_comparison : String → Result FlowError (String × Operator × String)
unfolding first_split
split_comparison = first_split (
    (Operator.eq, "==", 2)
    ∷ (Operator.ne, "!=", 2)
    ∷ (Operator.ge, ">=", 2)
    ∷ (Operator.le, "<=", 2)
    ∷ (Operator.gt, ">", 1)
    ∷ (Operator.lt, "<", 1)
    ∷ [])

unfoldable pub add_first : Char → List String → List String
add_first c [] = Text.◌∷◌ c Text.[] ∷ []
add_first c (s ∷ rest) = Text.◌∷◌ c s ∷ rest

-- `strings.Split(s, ".")`
unfoldable pub split_dots : String → List String
unfolding add_first
split_dots Text.[] = "" ∷ []
split_dots (Text.◌∷◌ c s) =
    let rest = split_dots s in if eqb (code c) 0x2E then "" ∷ rest else add_first c rest

is_quote : ℕ → Bool
is_quote c = eqb c 0x27 || eqb c 0x22

trim_quotes_left : String → String
unfolding is_quote
trim_quotes_left Text.[] = Text.[]
trim_quotes_left (Text.◌∷◌ c s) =
    let rest = trim_quotes_left s in if is_quote (code c) then rest else Text.◌∷◌ c s

keep_unquoted : Char → String → String
keep_unquoted c Text.[] = if is_quote (code c) then Text.[] else Text.◌∷◌ c Text.[]
keep_unquoted c (Text.◌∷◌ d s) = Text.◌∷◌ c (Text.◌∷◌ d s)

trim_quotes_right : String → String
trim_quotes_right Text.[] = Text.[]
trim_quotes_right (Text.◌∷◌ c s) = keep_unquoted c (trim_quotes_right s)

-- `strings.Trim(s, "'\"")`
unfoldable pub trim_quotes : String → String
unfolding trim_quotes_left trim_quotes_right is_quote keep_unquoted
trim_quotes s = trim_quotes_right (trim_quotes_left s)

-- `strconv.ParseBool`
unfoldable pub parse_bool : String → Option Bool
parse_bool s =
    if s == "1" || s == "t" || s == "T" || s == "true" || s == "TRUE" || s == "True"
    then some true
    else if s == "0" || s == "f" || s == "F" || s == "false" || s == "FALSE" || s == "False"
    then some false
    else none

unfoldable pub digits : ℕ → String → Option ℕ
digits n Text.[] = some n
digits n (Text.◌∷◌ c s) =
    let rest = digits (n * 10 + (code c - 0x30)) s in
    if leb 0x30 (code c) && leb (code c) 0x39 then rest else none

unfoldable pub unsigned : String → Option ℕ
unfolding digits
unsigned Text.[] = none
unsigned (Text.◌∷◌ c s) = digits 0 (Text.◌∷◌ c s)

unfoldable pub positive : Option ℕ → Option ℤ
positive none = none
positive (some n) = if leb n (2 ^ 63 - 1) then some (ℤ.pos n) else none

unfoldable pub negative : Option ℕ → Option ℤ
negative none = none
negative (some zero) = some (ℤ.pos 0)
negative (some (suc n)) = if leb (suc n) (2 ^ 63) then some (ℤ.negsuc n) else none

-- `strconv.Atoi`, and `ParseInt` in base 10, on 64 bits.
unfoldable pub parse_int : String → Option ℤ
unfolding unsigned positive negative
parse_int Text.[] = none
parse_int (Text.◌∷◌ c s) =
    if eqb (code c) 0x2D
    then negative (unsigned s)
    else if eqb (code c) 0x2B
    then positive (unsigned s)
    else positive (unsigned (Text.◌∷◌ c s))
