-- ===== src/HumanRequest/Text.antt =====
-- apps/xira/internal/humanrequest/text_protocol.go: the answers typed in a chat.
use Prim.Native.Char.{code}
use Prim.Native.String.{◌++◌}
use xira.Shared.{
  ℕ, String, Bool, not, ◌&&◌, ◌||◌, zero, suc, List, [], ◌∷◌, Option, none, some, ◌==◌, eqb,
  if◌then◌else◌,
}
use xira.Shared.Strings.{trim, is_space}
use xira.Shared.Dict.{string_eq}
use xira.Shared.Result.{Result, ok, err, guard, ◌>>=◌, ◌>>◌}
use xira.Flow.Store.{byte_length}
use xira.HumanRequest.Types.{HumanRequest, HumanOption, Error}

-- `ToUpper`, `EqualFold`, and `uuid.Parse` with the printing of the id that it reads.
pub record TextTools : Type 0 where
  pub to_upper : String → String
  pub equal_fold : String → String → Bool
  pub parse_uuid : String → Option String

pub record TextResponseCommand : Type 0 where
  pub correlation_token : String
  pub answer : String

-- What a content is: no command, or a command that may be malformed.
pub data TextResponse : Type 0 where
  ordinary : TextResponse
  recognized : Result Error TextResponseCommand → TextResponse

-- The text before the first white space, and the text from it on.
unfoldable pub split_space : String → String × String
unfolding is_space
split_space String.[] = (String.[], String.[])
split_space (String.◌∷◌ c s) =
    let rest = split_space s in
    if is_space (code c) then (String.[], String.◌∷◌ c s) else (String.◌∷◌ c rest.0, rest.1)

-- `splitFirstField`
unfoldable pub split_first_field : String → String × String
unfolding split_space
split_first_field value = let p = split_space (trim value) in (p.0, trim p.1)

-- `strings.ReplaceAll(s, "-", "")`
unfoldable pub without_dashes : String → String
without_dashes String.[] = String.[]
without_dashes (String.◌∷◌ c s) =
    let rest = without_dashes s in if eqb (code c) 0x2D then rest else String.◌∷◌ c rest

abbrev parsed : Option String → Result Error String
parsed none = err Error.validation
parsed (some id) = ok id

-- `TextReference`
unfoldable pub text_reference : TextTools → String → Result Error String
unfolding without_dashes
text_reference x correlation = do
  id ← parsed (x.parse_uuid (trim correlation))
  ok ("HR-" ++ x.to_upper (without_dashes id))

-- The text after its first n characters, and those characters.
unfoldable pub cut_at : ℕ → String → String × String
cut_at zero s = (String.[], s)
cut_at (suc n) String.[] = (String.[], String.[])
cut_at (suc n) (String.◌∷◌ c s) = let rest = cut_at n s in (String.◌∷◌ c rest.0, rest.1)

-- `correlationFromTextReference`: a prefix of three bytes that EqualFold takes for `HR-` is three
-- characters, since those fold only to ASCII characters.
unfoldable pub correlation_from_text_reference : TextTools → String → Result Error String
unfolding cut_at byte_length
correlation_from_text_reference x text =
    let reference = trim text in
    let parts = cut_at 3 reference in
    guard (eqb (byte_length reference) 35 && x.equal_fold parts.0 "HR-") Error.validation
    >> parsed (x.parse_uuid parts.1)

-- The answer of a command, from its reference and the text behind.
unfoldable pub answer_command : TextTools → String → String → Result Error TextResponseCommand
unfolding correlation_from_text_reference
answer_command x reference text = do
  guard (not (reference == "")) Error.validation
  correlation ← correlation_from_text_reference x reference
  guard (not (trim text == "")) Error.validation
  ok (record { correlation_token = correlation; answer = trim text })

-- `ParseTextResponse`
unfoldable pub parse_text_response : TextTools → String → TextResponse
unfolding split_first_field answer_command
parse_text_response x content =
    let command = split_first_field (trim content) in
    let reference = split_first_field command.1 in
    if x.equal_fold command.0 "/answer"
    then TextResponse.recognized (answer_command x reference.0 reference.1)
    else TextResponse.ordinary

-- What stands for an option in an answer: its id, or its label where it has no id.
unfoldable pub option_value : HumanOption → String
option_value o = if trim o.id == "" then trim o.label else trim o.id

unfoldable pub render_option : TextTools → String → HumanOption → String
unfolding option_value
render_option x reference o =
    let value = option_value o in
    let label = trim o.label in
    if value == ""
    then ""
    else ((if label == ""
          then ""
          else if x.equal_fold label value
          then ""
          else "- " ++ value ++ "：" ++ label ++ "\n")
        ++ "/answer "
        ++ reference
        ++ " "
        ++ value
        ++ "\n")

unfoldable pub render_options : TextTools → String → List HumanOption → String
unfolding render_option
render_options x reference [] = ""
render_options x reference (o ∷ rest) =
    render_option x reference o ++ render_options x reference rest

abbrev pub render_answers : TextTools → String → String → List HumanOption → String
render_answers x head reference [] = head ++ "回复：\n/answer " ++ reference ++ " <回答>"
render_answers x head reference (o ∷ rest) =
    trim (head ++ "可选回答：\n" ++ render_options x reference (o ∷ rest))

-- `RenderTextRequest`
unfoldable pub render_text_request : TextTools → HumanRequest → Result Error String
unfolding text_reference render_options
render_text_request x req = do
  reference ← text_reference x req.correlation_token
  guard (not (trim req.question == "")) Error.validation
  ok (
      render_answers x ("[请求 " ++ reference ++ "]\n" ++ trim req.question ++ "\n\n") reference
        req.options)

-- Whether an answer is taken for an option.
unfoldable pub is_answer_of : TextTools → String → HumanOption → Bool
is_answer_of x answer o =
    (not (trim o.id == "") && x.equal_fold answer (trim o.id))
    || (not (trim o.label == "") && x.equal_fold answer (trim o.label))

unfoldable pub first_answered : TextTools → String → List HumanOption → Result Error String
unfolding is_answer_of option_value
first_answered x answer [] = err Error.validation
first_answered x answer (o ∷ rest) =
    let later = first_answered x answer rest in
    if is_answer_of x answer o then ok (option_value o) else later

abbrev pub chosen_answer : TextTools → String → List HumanOption → Result Error String
chosen_answer x answer [] = ok answer
chosen_answer x answer (o ∷ rest) = first_answered x answer (o ∷ rest)

-- `NormalizeTextAnswer`
unfoldable pub normalize_text_answer : TextTools → HumanRequest → String → Result Error String
unfolding first_answered
normalize_text_answer x req answer =
    guard (not (trim answer == "")) Error.validation >> chosen_answer x (trim answer) req.options
