-- ===== src/Flow/Expressions.antt =====
-- apps/xira/internal/flow/kernel.go: the conditions of branches, `${left op right}`. `ParseFloat` and
-- the operations on floats are the World's; the other functions of `strings` and `strconv` are
-- written out.
use xira.Shared.{
  ℕ, String, Bool, true, false, not, ◌||◌, List, [], ◌∷◌, Option, none, some, ◌==◌, eqb,
  if◌then◌else◌,
}
use xira.Shared.Strings.{trim, has_prefix}
use xira.Shared.Dict
use xira.Shared.Dict.{Dict, string_eq}
use xira.Shared.Result.{Result, ok, err, ◌>>=◌}
use xira.Shared.Int.{ℤ}
use xira.Flow.Run.{OutputRef, Run, Value, Entries, FlowError}
use xira.Flow.Store.{World}
use xira.Flow.Parsing.{
  Operator, drop_text, strip_template, split_comparison, split_dots, trim_quotes, parse_bool,
  parse_int,
}

unfoldable pub entry_at : String → Entries → Option Value
entry_at key Entries.none_left = none
entry_at key (Entries.entry k v rest) = if k == key then some v else entry_at key rest

unfoldable pub value_at : String → Value → Result FlowError Value
unfolding entry_at
value_at key (Value.object es) = elim (entry_at key es) [
  | none ↦ err FlowError.validation
  | some v ↦ ok v
]
value_at key _ = err FlowError.validation

unfoldable pub navigate : List String → Value → Result FlowError Value
unfolding value_at
navigate [] v = ok v
navigate (key ∷ rest) v = do inner ← value_at key v; navigate rest inner

-- The value of a slot, or else its summary, or else its artifact.
unfoldable pub slot_value : OutputRef → Value
slot_value slot = elim slot.value [
  | Value.nil ↦ Value.text (if slot.summary == "" then slot.artifact else slot.summary)
  | v ↦ v
]

unfoldable pub present {ℓ} : {A : Type ℓ} → Option A → Result FlowError A
present none = err FlowError.validation
present (some a) = ok a

unfoldable pub output_at : Run → List String → Result FlowError Value
unfolding navigate slot_value present
output_at run [] = err FlowError.validation
output_at run (step ∷ []) = err FlowError.validation
output_at run (step ∷ slot ∷ keys) = do
  s ← present (Dict.lookup step run.steps)
  o ← present (Dict.lookup slot s.outputs)
  elim keys [ [] ↦ ok (slot_value o) | k ∷ ks ↦ navigate (k ∷ ks) o.value ]

unfoldable pub resolve_output_path : Run → String → Result FlowError Value
unfolding output_at split_dots
resolve_output_path run path = output_at run (split_dots path)

unfoldable pub int_eq : ℤ → ℤ → Bool
int_eq (ℤ.pos a) (ℤ.pos b) = eqb a b
int_eq (ℤ.negsuc a) (ℤ.negsuc b) = eqb a b
int_eq _ _ = false

unfoldable pub is_int : ℤ → Option ℤ → Bool
unfolding int_eq
is_int a none = false
is_int a (some b) = int_eq a b

unfoldable pub is_bool : Bool → Option Bool → Bool
is_bool a none = false
is_bool true (some b) = b
is_bool false (some b) = not b

unfoldable pub is_float : World → ℕ → Option ℕ → Bool
is_float w a none = false
is_float w a (some b) = w.float_eq a b

unfoldable pub equals_value : World → Value → String → Bool
unfolding trim_quotes parse_bool parse_int is_int is_bool is_float
equals_value w v text =
    let right = trim_quotes (trim text) in
    elim v [
      | Value.nil ↦ right == "" || right == "null"
      | Value.text s ↦ s == right
      | Value.flag b ↦ is_bool b (parse_bool right)
      | Value.int n ↦ is_int n (parse_int right)
      | Value.int64 n ↦ is_int n (parse_int right)
      | Value.float64 x ↦ is_float w x (w.parse_float right)
      | other ↦ w.sprint other == right
    ]

unfoldable pub to_float : World → Value → Option ℕ
to_float w (Value.int n) = some (w.float_of n)
to_float w (Value.int64 n) = some (w.float_of n)
to_float w (Value.float64 x) = some x
to_float w (Value.flag true) = some (w.float_of (ℤ.pos 1))
to_float w (Value.flag false) = some (w.float_of (ℤ.pos 0))
to_float w v = w.parse_float (w.sprint v)

unfoldable pub numeric_test : World → Operator → ℕ → ℕ → Result FlowError Bool
numeric_test w Operator.gt a b = ok (w.float_lt b a)
numeric_test w Operator.lt a b = ok (w.float_lt a b)
numeric_test w Operator.ge a b = ok (w.float_lt b a || w.float_eq a b)
numeric_test w Operator.le a b = ok (w.float_lt a b || w.float_eq a b)
numeric_test w _ a b = err FlowError.validation

unfoldable pub compare_numeric : World → Value → Operator → String → Result FlowError Bool
unfolding to_float numeric_test present
compare_numeric w v op right = do
  a ← present (to_float w v)
  b ← present (w.parse_float (trim right))
  numeric_test w op a b

unfoldable pub compare_values : World → Value → Operator → String → Result FlowError Bool
unfolding equals_value compare_numeric
compare_values w v op text = elim op [
  | Operator.eq ↦ ok (equals_value w v (trim text))
  | Operator.ne ↦ ok (not (equals_value w v (trim text)))
  | other ↦ compare_numeric w v other (trim text)
]

-- An undefined policy is false.
unfoldable pub policy_value : World → Run → String → Value
policy_value w run key = elim w.policy [
  | none ↦ Value.flag false
  | some p ↦ elim (p run key) [ none ↦ Value.flag false | some v ↦ v ]
]

-- `strings.TrimPrefix`
unfoldable pub trim_prefix : String → ℕ → String → String
trim_prefix mark n s = if has_prefix s mark then drop_text n s else s

unfoldable pub eval_output_expr : World → Run → String → Result FlowError Bool
unfolding trim_prefix
eval_output_expr w run inner = do
  parts ← split_comparison inner
  actual ← resolve_output_path run (trim_prefix "outputs." 8 parts.0)
  compare_values w actual parts.1 parts.2

unfoldable pub eval_policy_expr : World → Run → String → Result FlowError Bool
unfolding trim_prefix policy_value
eval_policy_expr w run inner = do
  parts ← split_comparison inner
  compare_values w (policy_value w run (trim_prefix "runtime.policy." 15 parts.0)) parts.1 parts.2

unfoldable pub eval_when : World → Run → String → Result FlowError Bool
unfolding strip_template eval_output_expr eval_policy_expr present
eval_when w run expr = do
  stripped ← present (strip_template (trim expr))
  let inner = trim stripped
  (if has_prefix inner "outputs."
      then eval_output_expr w run inner
      else if has_prefix inner "runtime.policy."
      then eval_policy_expr w run inner
      else err FlowError.validation)
