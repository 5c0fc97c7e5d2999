-- ===== src/HumanRequest/TextTests.antt =====
-- Answers typed in a chat, on concrete data.
use xira.Shared.{String, true, false, ◌≡◌, refl, [], ◌∷◌, some, Memᴰ, ◌==◌, arith, eq_iff}
use xira.Shared.Strings.{trim, is_space}
use xira.Shared.Dict.{string_eq}
use xira.Shared.Result.{ok, err}
use xira.Flow.Store.{byte_length, bytes_of}
use xira.HumanRequest.Types.{HumanRequest, HumanOption, Error}
use xira.HumanRequest.Text
use xira.HumanRequest.Text.{
  TextTools, TextResponse, option_value, is_answer_of, normalize_text_answer, parse_text_response,
  render_text_request,
}
use xira.HumanRequest.Typing.{normalize_text_answer-offers}
use xira.HumanRequest.Sample.{calm, question}
use xira.HumanRequest.Store.{new_request}

abbrev token : String
token = "0123456789abcdef0123456789abcdef"

abbrev tools : TextTools
tools = record { to_upper = λ s. s; equal_fold = ◌==◌; parse_uuid = λ s. some s }

abbrev go : HumanOption
go = record { id = "go"; label = "Approve" }

abbrev stop : HumanOption
stop = record { id = ""; label = " Stop " }

abbrev optional_request : HumanRequest
optional_request = record (new_request calm question) {
  options = go ∷ stop ∷ [];
  question = "Ship it?";
  correlation_token = token;
}

typed : Unit {0}
unfolding trim is_space parse_text_response render_text_request normalize_text_answer option_value
    is_answer_of Text.split_space Text.split_first_field Text.without_dashes Text.text_reference
    Text.cut_at Text.correlation_from_text_reference Text.answer_command Text.render_option
    Text.render_options Text.first_answered byte_length bytes_of
typed = tt

answer_check :
    parse_text_response tools "/answer HR-0123456789abcdef0123456789abcdef  Stop it "
    ≡ TextResponse.recognized (ok (record { correlation_token = token; answer = "Stop it" }))
unfolding typed
answer_check = refl

bare_check : parse_text_response tools "/answer" ≡ TextResponse.recognized (err Error.validation)
unfolding typed
bare_check = refl

ordinary_check : parse_text_response tools "hello there" ≡ TextResponse.ordinary
unfolding typed
ordinary_check = refl

render_check :
    render_text_request tools optional_request
    ≡ ok
        "[请求 HR-0123456789abcdef0123456789abcdef]\nShip it?\n\n可选回答：\n- go：Approve\n/answer HR-0123456789abcdef0123456789abcdef go\n/answer HR-0123456789abcdef0123456789abcdef Stop"
unfolding typed
render_check = refl

-- An option whose id is the label of an earlier one is out of reach.
shadowed_check :
    normalize_text_answer tools
      (record optional_request {
        options = record { id = "a"; label = "b" } ∷ record { id = "b"; label = "c" } ∷ [];
      })
      "b"
    ≡ ok "a"
unfolding typed
shadowed_check = refl

folds_itself : (s : String) → (s == s) ≡ true
folds_itself s = grind (arith, eq_iff s s)

stop_given : (option_value stop == "") ≡ false
unfolding typed
stop_given = refl

normalize_text_answer-offers_example :
    (p : HumanOption) × Memᴰ p (go ∷ stop ∷ [])
    × (is_answer_of tools (option_value stop) p ≡ true)
    × (normalize_text_answer tools optional_request (option_value stop) ≡ ok (option_value p))
normalize_text_answer-offers_example =
    normalize_text_answer-offers tools optional_request stop folds_itself
      (Memᴰ.tail (Memᴰ.head refl)) stop_given
