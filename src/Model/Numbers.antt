-- ===== src/Model/Numbers.antt =====
-- src/model.rs: the scanner that checks every number of a JSON text before the text is parsed.
pub mod Laws
mod Tests
use threadmark.Common.{
  ℕ, zero, suc, ◌+◌, ◌-◌, ◌*◌, ◌/◌, ◌%◌, ◌^◌, ◌≤◌, ◌<◌, min, String, ◌≡◌, refl, sym, ap, ◌∙◌, ◌≢◌,
  ◌↔◌, ◌⊎◌, inl, inr, Bool, true, false, ◌&&◌, ◌||◌, not, Option, none, some, List, [], ◌∷◌, ◌++◌,
  map, append-nil, append_assoc, arith, ◌==◌, eq_iff, eq_refl, ltb, leb, eqb, if◌then◌else◌,
  some_eq, is_some, unwrap_or, ltb→lt, leb→le, leb-false, Bool-cases, Option-cases, eq-of-some_eq,
  length, length-append, take, length-take_le, All, All-append, All-append_left, All-of_forall,
  All-map, filter, find, any, all, remove, update, or_else, filter-append, find-append, any-append,
  filter_none, filter-All, All-not_of_any, any-of_All, find_sound, any-of_find, find-none, All-find,
  All-filter, All-remove, All-passed, any-update, find-update_ne, find-update, All-update, any_mono,
  filter-remove_spared, filter-remove, remove_congr, remove_none, All-removed, All-both,
  some-eq-some, filter_none_under, find-filter, length-remove_le, length-remove_lt,
}

-- A text as its bytes.
abbrev pub Bytes : Type 0
Bytes = List ℕ

pub data Checked : Type 0 where
  valid : Checked
  invalid : (message : String) → Checked

-- `f64`, the canonical form of JSON and decimal numbers of any size, which are libraries.
pub record Numbers (F D : Type 0) : Type 0 where
  pub parse_f64 : Bytes → Option F
  pub is_zero : F → Bool
  pub is_finite : F → Bool
  pub canonical : F → Option Bytes
  pub decimal_of : Bytes → Option D
  pub same_decimal : D → D → Bool
  pub is_number : Bytes → Bool

abbrev pub outside : Checked
outside = invalid "number is outside the canonical JSON domain"

abbrev pub is_digit : ℕ → Bool
is_digit b = leb b'0' b && leb b b'9'

abbrev pub is_number_byte : ℕ → Bool
is_number_byte b = is_digit b || eqb b b'.' || eqb b b'e' || eqb b b'E' || eqb b b'+' || eqb b b'-'

abbrev pub starts_number : ℕ → Bool
starts_number b = eqb b b'-' || is_digit b

-- `while index < input.len() && matches!(…)`: the bytes that go on with a number, and the rest.
unfoldable pub split_number : Bytes → Bytes × Bytes
split_number [] = ([], [])
split_number (b ∷ bs) =
    let (more, rest) = split_number bs in
    if is_number_byte b then (b ∷ more, rest) else ([], b ∷ bs)

module _ {F D : Type 0} (numbers : Numbers F D) where
  abbrev is_zero_text : Option F → Bool
  is_zero_text none = false
  is_zero_text (some x) = numbers.is_zero x

  abbrev is_negative_zero : Bytes → Bool
  is_negative_zero [] = false
  is_negative_zero (b ∷ bs) = eqb b b'-' && is_zero_text (numbers.parse_f64 bs)

  abbrev check_exact : Option D → Option D → Bytes → Checked
  check_exact (some original) (some exact) canonical =
      if not (numbers.same_decimal original exact)
      then invalid "number is not exactly representable as binary64"
      else if numbers.is_number canonical
      then valid
      else outside
  check_exact none exact canonical = outside
  check_exact (some original) none canonical = outside

  abbrev check_canonical : Bytes → Option Bytes → Checked
  check_canonical token none = outside
  check_canonical token (some canonical) =
      check_exact (numbers.decimal_of token) (numbers.decimal_of canonical) canonical

  abbrev check_value : Bytes → Option F → Checked
  check_value token none = outside
  check_value token (some x) =
      if not (numbers.is_finite x) then outside else check_canonical token (numbers.canonical x)

  unfoldable pub parse_json_number : Bytes → Checked
  parse_json_number token =
      if is_negative_zero token
      then invalid "negative zero is outside the canonical JSON domain"
      else check_value token (numbers.parse_f64 token)

  abbrev pub and_then : Checked → Option Checked → Option Checked
  and_then (invalid message) later = some (invalid message)
  and_then valid later = later

  -- The loop, from the rest of the input on; `none` where the fuel does not suffice. A token is ASCII, so
  -- `from_utf8` does not fail.
  unfoldable pub scan : (fuel : ℕ) (in_string escaped : Bool) → Bytes → Option Checked
  unfolding split_number parse_json_number
  scan fuel in_string escaped [] = some valid
  scan zero in_string escaped (b ∷ bs) = none
  scan (suc fuel) true true (b ∷ bs) = scan fuel true false bs
  scan (suc fuel) true false (b ∷ bs) =
      if eqb b b'\\'
      then scan fuel true true bs
      else if eqb b b'"'
      then scan fuel false false bs
      else scan fuel true false bs
  scan (suc fuel) false escaped (b ∷ bs) =
      let (more, rest) = split_number bs in
      let later = scan fuel false escaped rest in
      let next = scan fuel false escaped bs in
      let quoted = scan fuel true escaped bs in
      if eqb b b'"'
      then quoted
      else if starts_number b
      then and_then (parse_json_number (b ∷ more)) later
      else next

  -- Every step takes a byte.
  unfoldable pub validate_json_number_tokens : Bytes → Option Checked
  unfolding scan
  validate_json_number_tokens input = scan (length input) false false input
