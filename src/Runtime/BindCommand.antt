-- ===== src/Runtime/BindCommand.antt =====
-- apps/xira/internal/runtime/owner_bind.go: which messages are bind commands.
use Prim.Native.Char.{code}
use xira.Shared.{
  ℕ, String, Bool, true, false, not, ◌||◌, Option, none, some, ◌==◌, eqb, if◌then◌else◌, ◌≡◌, refl,
}
use xira.Shared.Strings.{trim}

-- `isASCIISpace`
unfoldable pub is_ascii_space : ℕ → Bool
is_ascii_space c = eqb c 0x20 || eqb c 0x9 || eqb c 0xA || eqb c 0xD

-- strings.CutPrefix
unfoldable pub cut_prefix : String → String → Option String
cut_prefix s String.[] = some s
cut_prefix String.[] (String.◌∷◌ d p) = none
cut_prefix (String.◌∷◌ c s) (String.◌∷◌ d p) =
    let rest = cut_prefix s p in if eqb (code c) (code d) then rest else none

-- The text before the first space.
unfoldable pub first_field : String → String
unfolding is_ascii_space
first_field String.[] = String.[]
first_field (String.◌∷◌ c s) =
    let rest = first_field s in if is_ascii_space (code c) then String.[] else String.◌∷◌ c rest

unfoldable pub is_separated : String → Bool
unfolding is_ascii_space
is_separated String.[] = true
is_separated (String.◌∷◌ c s) = is_ascii_space (code c)

-- What follows the verb.
unfoldable pub bind_token : Option String → Option String
unfolding is_separated first_field
bind_token none = none
bind_token (some rest) =
    let token = trim rest in
    if not (is_separated rest)
    then none
    else (if token == "" then none else some (first_field token))

-- `parseBindCommand`; `none` is `ok` false.
unfoldable pub parse_bind_command : String → Option String
unfolding bind_token
parse_bind_command msg = bind_token (cut_prefix (trim msg) "/bind")

-- `IsBindCommand`
unfoldable pub is_bind_command : String → Bool
unfolding parse_bind_command
is_bind_command msg = elim (parse_bind_command msg) [ none ↦ false | some t ↦ true ]

parse_bind_command-spaces : parse_bind_command " /bind \t WDJM-LHKD now " ≡ some "WDJM-LHKD"
unfolding parse_bind_command trim cut_prefix bind_token
parse_bind_command-spaces = refl

parse_bind_command-binder : parse_bind_command "/binder x" ≡ none
unfolding parse_bind_command trim cut_prefix bind_token
parse_bind_command-binder = refl
