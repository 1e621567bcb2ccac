-- ===== src/Files/Uri.antt =====
-- src/files.rs: the canonical URIs of files, and the texts that a file's row is given.
use Prim.Native.Char.{Char}
use threadmark.Common.Text.{is_char, is_ascii_alphanumeric, is_empty, all_chars, strip_prefix}
use threadmark.Common.{String, Bool, ◌&&◌, ◌||◌, not, Option, none, some, if◌then◌else◌}

abbrev pub is_id_char : Char → Bool
is_id_char c = is_ascii_alphanumeric c || is_char b'_' c || is_char b'-' c

abbrev pub keep_id : Option String → Option String
keep_id none = none
keep_id (some id) = if not (is_empty id) && all_chars is_id_char id then some id else none

unfoldable pub parse_uri : String → Option String
unfolding strip_prefix all_chars is_ascii_alphanumeric
parse_uri value = keep_id (strip_prefix value "threadmark://files/")
