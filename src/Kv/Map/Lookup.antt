-- ===== src/Kv/Map/Lookup.antt =====
-- What a lookup finds after an insertion or a removal.
use crabgresql.Prelude.{◌≡◌, refl, [], ◌∷◌, some, none, arith, if◌then◌else◌}
use crabgresql.Bytes.{Bytes, bytes_eq}
use crabgresql.Bytes.Equality.{bytes_eq_iff}
use crabgresql.Kv.Map.{Entries, get, insert, remove}

pub get-insert :
    (j k v : Bytes) (m : Entries)
    → get j (insert k v m) ≡ (if bytes_eq j k then some v else get j m)
unfolding get insert
get-insert j k v [] = refl
get-insert j k v ((i, w) ∷ m) =
    ground (arith, bytes_eq_iff k i, bytes_eq_iff j k, bytes_eq_iff j i, get-insert j k v m)

pub get-remove :
    (j k : Bytes) (m : Entries) → get j (remove k m) ≡ (if bytes_eq j k then none else get j m)
unfolding get remove
get-remove j k [] = ground arith
get-remove j k ((i, w) ∷ m) =
    ground (arith, bytes_eq_iff k i, bytes_eq_iff j k, bytes_eq_iff j i, get-remove j k m)
