-- ===== src/Model/Numbers/Tests.antt =====
-- Texts whose numbers are decided.
use threadmark.Model.Numbers.Laws.{
  validate_json_number_tokens-check_all, plain, number_tokens, check_all,
}
use threadmark.Model.Numbers.{
  invalid, valid, parse_json_number, split_number, scan, Bytes, Numbers,
  validate_json_number_tokens,
}
use threadmark.Common.{ℕ, ◌≡◌, refl, true, false, not, some, [], ◌∷◌, eqb}

abbrev first_byte : Bytes → ℕ
first_byte [] = 0
first_byte (b ∷ bs) = b

-- Numbers of which the single digit 7 is not exact.
abbrev all_but_seven : Numbers Bytes Bytes
all_but_seven = record {
  parse_f64 = λ token. some token;
  is_zero = λ x. false;
  is_finite = λ x. true;
  canonical = λ x. some x;
  decimal_of = λ token. some token;
  same_decimal = λ x y. not (eqb (first_byte x) b'7');
  is_number = λ token. true;
}

-- [1,"7"]
abbrev quoted_seven : Bytes
quoted_seven = 91 ∷ 49 ∷ 44 ∷ 34 ∷ 55 ∷ 34 ∷ 93 ∷ []

-- [1,"\"",7]
abbrev plain_seven : Bytes
plain_seven = 91 ∷ 49 ∷ 44 ∷ 34 ∷ 92 ∷ 34 ∷ 34 ∷ 44 ∷ 55 ∷ 93 ∷ []

accepts_quoted : validate_json_number_tokens all_but_seven quoted_seven ≡ some valid
unfolding validate_json_number_tokens scan split_number parse_json_number
accepts_quoted = refl

rejects_plain :
    validate_json_number_tokens all_but_seven plain_seven
    ≡ some (invalid "number is not exactly representable as binary64")
unfolding validate_json_number_tokens scan split_number parse_json_number
rejects_plain = refl

validate_json_number_tokens-check_all_example :
    validate_json_number_tokens all_but_seven plain_seven
    ≡ some (check_all all_but_seven (number_tokens plain plain_seven))
validate_json_number_tokens-check_all_example =
    validate_json_number_tokens-check_all all_but_seven plain_seven
