-- ===== src/Model/Numbers/Laws.antt =====
-- The scanner of JSON numbers in src/model.rs against a lexer, and that it ends.
use threadmark.Model.Numbers.{
  and_then, invalid, Checked, is_number_byte, parse_json_number, scan, starts_number,
  validate_json_number_tokens, valid, Bytes, Numbers, split_number,
}
use threadmark.Common.{
  ℕ, zero, suc, ◌≤◌, ◌≡◌, refl, sym, ap, ◌∙◌, inl, inr, Bool, true, false, some, List, [], ◌∷◌,
  ◌++◌, append-nil, append_assoc, arith, eqb, if◌then◌else◌, Bool-cases, length,
}

-- Where a text is: between tokens, in a string, after a backslash of a string, or in a number that has begun
-- with the bytes `seen`.
pub data Mode : Type 0 where
  plain quoted after_backslash : Mode
  in_number : (seen : Bytes) → Mode

-- The numbers of a text, outside its strings.
unfoldable pub number_tokens : Mode → Bytes → List Bytes
number_tokens plain [] = []
number_tokens quoted [] = []
number_tokens after_backslash [] = []
number_tokens (in_number seen) [] = seen ∷ []
number_tokens plain (b ∷ bs) =
    let opened = number_tokens quoted bs in
    let begun = number_tokens (in_number (b ∷ [])) bs in
    let other = number_tokens plain bs in
    if eqb b b'"' then opened else if starts_number b then begun else other
number_tokens quoted (b ∷ bs) =
    let escaped = number_tokens after_backslash bs in
    let closed = number_tokens plain bs in
    let other = number_tokens quoted bs in
    if eqb b b'\\' then escaped else if eqb b b'"' then closed else other
number_tokens after_backslash (b ∷ bs) = number_tokens quoted bs
number_tokens (in_number seen) (b ∷ bs) =
    let more = number_tokens (in_number (seen ++ b ∷ [])) bs in
    let opened = number_tokens quoted bs in
    let other = number_tokens plain bs in
    if is_number_byte b then more else seen ∷ (if eqb b b'"' then opened else other)

-- A number ends where `split_number` ends it.
number_tokens-split_number :
    (seen bs : Bytes)
    → number_tokens (in_number seen) bs
      ≡ (seen ++ (split_number bs).0) ∷ number_tokens plain (split_number bs).1
unfolding number_tokens split_number
number_tokens-split_number seen [] = ap (λ s. s ∷ []) (sym (append-nil seen))
number_tokens-split_number seen (b ∷ bs) = elim (Bool-cases (is_number_byte b)) [
  | inl more ↦ rw more (
      number_tokens-split_number (seen ++ b ∷ []) bs
      ∙ ap (λ s. s ∷ number_tokens plain (split_number bs).1)
          (append_assoc seen (b ∷ []) (split_number bs).0))
  | inr ends ↦
      let no_start : starts_number b ≡ false = ground arith in
      rw (ends, no_start)
        (ap (λ s. s ∷ (if eqb b b'"' then number_tokens quoted bs else number_tokens plain bs))
          (sym (append-nil seen)))
]

length-split_number : (bs : Bytes) → length (split_number bs).1 ≤ length bs
unfolding split_number
length-split_number [] = omega arith
length-split_number (b ∷ bs) =
    let rest = length-split_number bs in
    elim (Bool-cases (is_number_byte b)) [
      | inl more ↦ rw more (omega arith)
      | inr ends ↦ rw ends (omega arith)
    ]

module _ {F D : Type 0} (numbers : Numbers F D) where
  abbrev check_then : Checked → Checked → Checked
  check_then (invalid message) later = invalid message
  check_then valid later = later

  -- The first complaint about a number, from left to right.
  unfoldable pub check_all : List Bytes → Checked
  unfolding parse_json_number
  check_all [] = valid
  check_all (token ∷ tokens) = check_then (parse_json_number numbers token) (check_all tokens)

  and_then-some : (c later : Checked) → and_then numbers c (some later) ≡ some (check_then c later)
  and_then-some valid later = refl
  and_then-some (invalid message) later = refl

  -- What the flags of the loop say.
  abbrev mode_of : Bool → Mode
  mode_of true = after_backslash
  mode_of false = quoted

  abbrev ScansRight : ℕ → Bytes → Type 0
  ScansRight fuel bs =
      (scan numbers fuel false false bs ≡ some (check_all (number_tokens plain bs)))
      × ((escaped : Bool)
          → scan numbers fuel true escaped bs
            ≡ some (check_all (number_tokens (mode_of escaped) bs)))

  scan-plain :
      (fuel b : ℕ) (bs : Bytes)
      → ScansRight fuel bs
      → ScansRight fuel (split_number bs).1
      → scan numbers (suc fuel) false false (b ∷ bs)
        ≡ some (check_all (number_tokens plain (b ∷ bs)))
  unfolding scan number_tokens check_all
  scan-plain fuel b bs (next, strings) (later, _) = elim (Bool-cases (eqb b b'"')) [
    | inl quote ↦ rw quote (strings false)
    | inr no_quote ↦ elim (Bool-cases (starts_number b)) [
      | inr other ↦ rw (no_quote, other) next
      | inl begins ↦
          rw (no_quote, begins, later, number_tokens-split_number)
            (and_then-some (parse_json_number numbers (b ∷ (split_number bs).0)) _)
    ]
  ]

  scan-quoted :
      (fuel b : ℕ) (bs : Bytes) (escaped : Bool)
      → ScansRight fuel bs
      → scan numbers (suc fuel) true escaped (b ∷ bs)
        ≡ some (check_all (number_tokens (mode_of escaped) (b ∷ bs)))
  unfolding scan number_tokens
  scan-quoted fuel b bs true (next, strings) = strings false
  scan-quoted fuel b bs false (next, strings) = elim (Bool-cases (eqb b b'\\')) [
    | inl escapes ↦ rw escapes (strings true)
    | inr plain_byte ↦ elim (Bool-cases (eqb b b'"')) [
      | inl closes ↦ rw (plain_byte, closes) next
      | inr inside ↦ rw (plain_byte, inside) (strings false)
    ]
  ]

  ended : (escaped : Bool) → some valid ≡ some (check_all (number_tokens (mode_of escaped) []))
  unfolding number_tokens check_all
  ended true = refl
  ended false = refl

  scan_right : (fuel : ℕ) (bs : Bytes) → length bs ≤ fuel → ScansRight fuel bs
  unfolding scan number_tokens check_all
  scan_right fuel [] small = (refl, λ escaped. ended escaped)
  scan_right zero (b ∷ bs) small = absurd (omega arith)
  scan_right (suc fuel) (b ∷ bs) small =
      let shorter = length-split_number bs in
      let next = scan_right fuel bs (omega arith) in
      let later = scan_right fuel (split_number bs).1 (omega arith) in
      (scan-plain fuel b bs next later, λ escaped. scan-quoted fuel b bs escaped next)

  -- The scanner ends on every input, and says what the first complaint about a number outside the strings is,
  -- or that there is none.
  pub validate_json_number_tokens-check_all :
      (input : Bytes)
      → validate_json_number_tokens numbers input ≡ some (check_all (number_tokens plain input))
  unfolding validate_json_number_tokens
  validate_json_number_tokens-check_all input = (scan_right (length input) input (omega arith)).0
