-- ===== src/Kv/MemKv.antt =====
-- crates/kv/src/store.rs: `MemKv`, the store in memory. Its lock makes each method one step.
pub mod Laws
use crabgresql.Prelude.{List, [], ◌∷◌, Option, Result, ok}
use crabgresql.Bytes.{Bytes, starts_with}
use crabgresql.Kv.Error.{KvError}
use crabgresql.Kv.Map
use crabgresql.Kv.Map.{Entries, range_from, take_while}
use crabgresql.Kv.Store.{WriteOp}

unfoldable pub get : Entries → Bytes → Result KvError (Option Bytes)
get map key = ok (Map.get key map)

unfoldable pub put : Entries → Bytes → Bytes → Result KvError Entries
put map key value = ok (Map.insert key value map)

unfoldable pub delete : Entries → Bytes → Result KvError Entries
delete map key = ok (Map.remove key map)

unfoldable pub scan_prefix : Entries → Bytes → Result KvError Entries
scan_prefix map prefix = ok (take_while (λ e. starts_with prefix e.0) (range_from prefix map))

unfoldable pub scan_range : Entries → Bytes → Bytes → Result KvError Entries
scan_range map start end = ok (Map.range start end map)

-- One operation of a batch.
unfoldable pub apply : WriteOp → Entries → Entries
apply (WriteOp.put key value) map = Map.insert key value map
apply (WriteOp.delete key) map = Map.remove key map

unfoldable pub apply_all : List WriteOp → Entries → Entries
apply_all [] map = map
apply_all (op ∷ ops) map = apply_all ops (apply op map)

unfoldable pub write_batch : Entries → List WriteOp → Result KvError Entries
write_batch map ops = ok (apply_all ops map)
