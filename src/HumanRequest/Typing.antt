-- ===== src/HumanRequest/Typing.antt =====
-- The answers that `RenderTextRequest` of text_protocol.go offers, as `NormalizeTextAnswer` takes them.
use xira.Shared.{
  String, true, false, ◌≡◌, refl, ◌∙◌, List, [], ◌∷◌, Memᴰ, ◌==◌, arith, Bool-cases, inl, inr,
}
use xira.Shared.Strings.{trim, trim_idem}
use xira.Shared.Dict.{string_eq}
use xira.Shared.Result.{ok}
use xira.HumanRequest.Types.{HumanRequest, HumanOption}
use xira.HumanRequest.Text.{
  TextTools, option_value, is_answer_of, first_answered, chosen_answer, normalize_text_answer,
}

module _ (x : TextTools) (folds : (s : String) → x.equal_fold s s ≡ true) where
  is_answer_of-option_value :
      (o : HumanOption) → (option_value o == "") ≡ false → is_answer_of x (option_value o) o ≡ true
  unfolding is_answer_of option_value
  is_answer_of-option_value o h = ground (arith, folds (trim o.id), folds (trim o.label))

  -- The option that an answer is taken for.
  first_answered-some :
      (answer : String) (o : HumanOption) (options : List HumanOption)
      → Memᴰ o options
      → is_answer_of x answer o ≡ true
      → (p : HumanOption) × Memᴰ p options
        × (is_answer_of x answer p ≡ true)
        × (first_answered x answer options ≡ ok (option_value p))
  unfolding first_answered
  first_answered-some answer o [] m h = elim m [ ]
  first_answered-some answer o (q ∷ rest) m h = elim (Bool-cases (is_answer_of x answer q)) [
    | inl here ↦ (q, Memᴰ.head refl, here, ground arith)
    | inr missed ↦
        let (p, at, taken, found) = first_answered-some answer o rest (behind m missed) h in
        (p, Memᴰ.tail at, taken, ground arith)
  ]
    where
      behind : Memᴰ o (q ∷ rest) → is_answer_of x answer q ≡ false → Memᴰ o rest
      behind (Memᴰ.head e) missed = cc
      behind (Memᴰ.tail n) missed = n

trim-option_value : (o : HumanOption) → trim (option_value o) ≡ option_value o
unfolding option_value
trim-option_value o = ground (arith, trim_idem o.id, trim_idem o.label)

chosen_answer-some :
    (x : TextTools) (answer : String) (o : HumanOption) (options : List HumanOption)
    → Memᴰ o options
    → chosen_answer x answer options ≡ first_answered x answer options
chosen_answer-some x answer o [] m = elim m [ ]
chosen_answer-some x answer o (q ∷ rest) m = refl

-- Where EqualFold takes each text for itself, the value that a request offers for one of its options,
-- when it is not empty, is accepted as an answer: it stands for a listed option that the answer is
-- taken for, and comes out as that option's value.
pub normalize_text_answer-offers :
    (x : TextTools) (req : HumanRequest) (o : HumanOption)
    → ((s : String) → x.equal_fold s s ≡ true)
    → Memᴰ o req.options
    → (option_value o == "") ≡ false
    → (p : HumanOption) × Memᴰ p req.options
      × (is_answer_of x (option_value o) p ≡ true)
      × (normalize_text_answer x req (option_value o) ≡ ok (option_value p))
unfolding normalize_text_answer
normalize_text_answer-offers x req o folds m given =
    let (p, at, taken, found) =
      first_answered-some x folds (option_value o) o req.options m
        (is_answer_of-option_value x folds o given) in
    let same = chosen_answer-some x (option_value o) o req.options m in
    (p, at, taken, rw (trim-option_value o) (rw given (same ∙ found)))
