-- ===== src/Ids.antt =====
-- src/ids.rs: an identifier is a prefix and a ULID. The generator of ULIDs is a library: the texts that it
-- gives to one operation are an argument of the operation.
use Prim.Native.String
use threadmark.Common.{String}

unfoldable pub new_id : String → String → String
new_id prefix ulid = String.◌++◌ prefix (String.◌++◌ "_" ulid)
