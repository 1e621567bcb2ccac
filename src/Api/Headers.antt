-- ===== src/Api/Headers.antt =====
-- src/api.rs: the headers and the body of a file that is sent.
use threadmark.Error.{ok, ◌>>=◌, ApiResult}
use threadmark.Objects.{from_answer, ObjectStore}
use threadmark.Model.{FileRecord}
use threadmark.Capability.Decimal.{decimal}
use threadmark.Common.Text.{is_char}
use Prim.Native.String
use Prim.Native.String.{char_at}
use Prim.Native.Char.{Char, code}
use threadmark.Common.{String, Bool, ◌&&◌, not, leb, if◌then◌else◌}

-- `char::is_ascii_graphic`, without quotes and backslashes.
abbrev is_plain : Char → Bool
is_plain c = leb 33 (code c) && leb (code c) 126 && not (is_char b'"' c) && not (is_char b'\\' c)

unfoldable pub ascii_filename : String → String
ascii_filename String.[] = ""
ascii_filename (String.◌∷◌ c s) =
    String.◌∷◌ (if is_plain c then c else char_at "_" 0) (ascii_filename s)

-- The percent-encoding of the URL library, and what its HTTP library takes for a header's value.
pub record Web : Type 0 where
  pub percent_encode_filename : String → String
  pub is_header_value : String → Bool

unfoldable pub content_disposition : Web → String → String
unfolding ascii_filename
content_disposition web filename = String.◌++◌ "attachment; filename=\"" (
    String.◌++◌ (ascii_filename filename)
      (String.◌++◌ "\"; filename*=UTF-8''" (web.percent_encode_filename filename)))

pub record FileStream : Type 0 where
  pub content : String
  pub content_type : String
  pub content_length : String
  pub content_disposition_header : String
  pub cache_control : String
  pub x_content_type_options : String

-- `HeaderValue::from_str(…).unwrap_or_else(…)`
abbrev header_or : Web → String → String → String
header_or web value other = if web.is_header_value value then value else other

unfoldable pub stream_file :
    {S : Type 0} → Web → ObjectStore S → FileRecord → S → ApiResult FileStream
unfolding content_disposition decimal
stream_file web objects file s = do
  content ← from_answer (objects.get_stream file.storage_key s)
  ok (record {
    content = content;
    content_type = header_or web file.mime_type "application/octet-stream";
    content_length = decimal file.size;
    content_disposition_header = header_or web (content_disposition web file.filename) "attachment";
    cache_control = "private, no-store";
    x_content_type_options = "nosniff";
  })
