-- ===== src/Catalog/Serde/Objects.antt =====
-- Round trips of foreign-data wrappers, foreign servers and user mappings.
use crabgresql.Prelude.{◌≡◌, ap, ◌++◌, ok}
use crabgresql.Bytes.{Bytes}
use crabgresql.Cursor.Reads.{Reads-bind, Reads-end, Reads-pure}
use crabgresql.Catalog.Serde.{
  Options, value, serialize_fdw, deserialize_fdw, read_fdw, serialize_server, deserialize_server,
  read_server, serialize_user_mapping, deserialize_user_mapping, read_user_mapping,
}
use crabgresql.Catalog.Serde.Parts.{IsText, AreOptions, Reads-string, Reads-options}

pub deserialize_fdw-serialize_fdw :
    (name : Bytes) (options : Options) (rest : Bytes)
    → IsText name
    → AreOptions options
    → deserialize_fdw (serialize_fdw name options ++ rest)
      ≡ ok (record { name = name; options = options })
unfolding deserialize_fdw serialize_fdw read_fdw value
deserialize_fdw-serialize_fdw name options rest n o = ap value (
    (Reads-bind _ (Reads-string name n) (Reads-end _ (Reads-options options o) (Reads-pure _))).at
      rest)

pub deserialize_server-serialize_server :
    (name wrapper : Bytes) (options : Options) (rest : Bytes)
    → IsText name
    → IsText wrapper
    → AreOptions options
    → deserialize_server (serialize_server name wrapper options ++ rest)
      ≡ ok (record { name = name; wrapper = wrapper; options = options })
unfolding deserialize_server serialize_server read_server value
deserialize_server-serialize_server name wrapper options rest n w o = ap value (
    (Reads-bind _ (Reads-string name n) (
        Reads-bind _ (Reads-string wrapper w)
          (Reads-end _ (Reads-options options o) (Reads-pure _)))).at
      rest)

pub deserialize_user_mapping-serialize_user_mapping :
    (user server : Bytes) (options : Options) (rest : Bytes)
    → IsText user
    → IsText server
    → AreOptions options
    → deserialize_user_mapping (serialize_user_mapping user server options ++ rest)
      ≡ ok (record { user = user; server = server; options = options })
unfolding deserialize_user_mapping serialize_user_mapping read_user_mapping value
deserialize_user_mapping-serialize_user_mapping user server options rest u s o = ap value (
    (Reads-bind _ (Reads-string user u) (
        Reads-bind _ (Reads-string server s)
          (Reads-end _ (Reads-options options o) (Reads-pure _)))).at
      rest)
