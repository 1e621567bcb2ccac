-- ===== src/Uploads/Names.antt =====
-- src/uploads.rs: the texts of a request, normalised.
use threadmark.Capability.Decimal.{decimal}
use threadmark.Common.Text.{
  all_chars, take_chars, any_chars, filter_chars, is_char, is_control, is_empty, trim,
}
use threadmark.Error.{ok, reject_if, bad_request, ◌>>◌, err, ◌>>=◌, ApiResult}
use Prim.Native.String
use Prim.Native.String.{count, char_at}
use Prim.Native.Char.{Char, code}
use threadmark.Common.{
  ℕ, ◌-◌, String, Bool, false, ◌&&◌, ◌||◌, not, List, [], ◌∷◌, ltb, leb, eqb, if◌then◌else◌,
}

-- `value.contains('\0')`
abbrev pub has_nul : String → Bool
has_nul value = any_chars (is_char 0) value

unfoldable pub bounded_trimmed : (name value : String) → (maximum : ℕ) → ApiResult String
unfolding trim any_chars decimal
bounded_trimmed name value maximum =
    let trimmed = trim value in
    if is_empty trimmed || has_nul trimmed || ltb maximum (count trimmed)
    then err (
        bad_request (
          String.◌++◌ name
            (String.◌++◌ " must contain 1 to " (String.◌++◌ (decimal maximum) " characters."))))
    else ok trimmed

abbrev pub is_name_char : Char → Bool
is_name_char c = not (is_control c) && not (is_char b'/' c) && not (is_char b'\\' c)

unfoldable pub normalized_filename : String → ApiResult String
unfolding bounded_trimmed filter_chars is_control
normalized_filename value =
    bounded_trimmed "filename" (take_chars 300 (filter_chars is_name_char value)) 300

abbrev push : Char → List String → List String
push c [] = String.◌∷◌ c String.[] ∷ []
push c (p ∷ ps) = String.◌∷◌ c p ∷ ps

-- `value.split('/')`
unfoldable pub split_slash : String → List String
split_slash String.[] = String.[] ∷ []
split_slash (String.◌∷◌ c s) =
    let rest = split_slash s in if is_char b'/' c then String.[] ∷ rest else push c rest

abbrev pub has_two_parts : List String → Bool
has_two_parts (kind ∷ subtype ∷ []) = not (is_empty kind) && not (is_empty subtype)
has_two_parts _ = false

-- `is_ascii`, no `;` and no control character of ASCII
abbrev pub is_media_char : Char → Bool
is_media_char c = let n = code c in leb n 127 && not (is_char b';' c) && not (leb n 31 || eqb n 127)

-- `char::to_ascii_lowercase`
abbrev pub lower : Char → Char
lower c =
    let n = code c in
    if leb b'A' n && leb n b'Z' then char_at "abcdefghijklmnopqrstuvwxyz" (n - b'A') else c

unfoldable pub to_ascii_lowercase : String → String
to_ascii_lowercase String.[] = String.[]
to_ascii_lowercase (String.◌∷◌ c s) = String.◌∷◌ (lower c) (to_ascii_lowercase s)

unfoldable pub normalized_mime_type : String → ApiResult String
unfolding bounded_trimmed split_slash to_ascii_lowercase
normalized_mime_type value = do
  v ← bounded_trimmed "mime_type" value 200
  reject_if (not (all_chars is_media_char v) || not (has_two_parts (split_slash v)))
      (bad_request "mime_type must be a media type without parameters.")
  ok (to_ascii_lowercase v)
