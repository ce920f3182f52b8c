-- ===== src/Kv/Key.antt =====
-- crates/kv/src/key.rs: the layout of every key of the store. Table ids are `u32`, rowids and
-- transaction ids `u64`; names are the bytes of a Rust string.
pub mod Rows
pub mod Namespaces
pub mod Clog
use crabgresql.Prelude.{
  ℕ, zero, suc, ◌+◌, ◌≡◌, Bool, ◌&&◌, ◌||◌, not, List, [], ◌∷◌, ◌++◌, Option, some, none, Result,
  ok, err, ◌>>=◌, ◌==◌, length, take, drop, if◌then◌else◌,
}
use crabgresql.Bytes.{Bytes, as_bytes, bytes_eq}
use crabgresql.Kv.Error.{KvError, corrupt_row}
use crabgresql.Kv.Keyenc.{put_u32, put_u64, take_u32, take_u64}

abbrev pub index_primary : ℕ
index_primary = 1

abbrev pub system_table_id : ℕ
system_table_id = 0

unfoldable pub table_prefix : ℕ → Bytes
unfolding put_u32
table_prefix table_id = put_u32 (put_u32 [] table_id) index_primary

unfoldable pub row_key : ℕ → ℕ → Bytes
unfolding table_prefix put_u64
row_key table_id rowid = put_u64 (table_prefix table_id) rowid

unfoldable pub system_prefix : Bytes → Bytes
unfolding put_u32
system_prefix tag = (put_u32 [] system_table_id ++ tag) ++ b'/' ∷ []

unfoldable pub catalog_key : Bytes → Bytes
unfolding system_prefix
catalog_key table_name = system_prefix (as_bytes "catalog") ++ table_name

unfoldable pub seq_key : ℕ → Bytes
unfolding system_prefix put_u32
seq_key table_id = put_u32 (system_prefix (as_bytes "seq")) table_id

unfoldable pub meta_next_table_id_key : Bytes
unfolding system_prefix
meta_next_table_id_key = system_prefix (as_bytes "meta") ++ as_bytes "next_table_id"

unfoldable pub fdw_key : Bytes → Bytes
unfolding system_prefix
fdw_key name = system_prefix (as_bytes "fdw") ++ name

unfoldable pub server_key : Bytes → Bytes
unfolding system_prefix
server_key name = system_prefix (as_bytes "fsrv") ++ name

unfoldable pub user_mapping_key : Bytes → Bytes → Bytes
unfolding system_prefix
user_mapping_key user server = ((system_prefix (as_bytes "umap") ++ user) ++ 0 ∷ []) ++ server

unfoldable pub server_prefix : Bytes
unfolding system_prefix
server_prefix = system_prefix (as_bytes "fsrv")

unfoldable pub meta_range_map_key : Bytes
unfolding system_prefix
meta_range_map_key = system_prefix (as_bytes "meta") ++ as_bytes "range_map"

unfoldable pub next_xid_key : Bytes
unfolding system_prefix
next_xid_key = system_prefix (as_bytes "meta") ++ as_bytes "next_xid"

unfoldable pub meta_next_global_xid_key : Bytes
unfolding system_prefix
meta_next_global_xid_key = system_prefix (as_bytes "meta") ++ as_bytes "next_global_xid"

unfoldable pub clog_scan_lo_key : Bytes
unfolding system_prefix
clog_scan_lo_key = system_prefix (as_bytes "meta") ++ as_bytes "clog_scan_lo"

unfoldable pub clog_prefix : Bytes
unfolding system_prefix
clog_prefix = system_prefix (as_bytes "clog")

-- `*p.last_mut() += 1`; the list is not empty.
bump_last : Bytes → Bytes
bump_last [] = []
bump_last (b ∷ []) = (b + 1) ∷ []
bump_last (b ∷ c ∷ bs) = b ∷ bump_last (c ∷ bs)

unfoldable pub clog_scan_end : Bytes
unfolding clog_prefix bump_last
clog_scan_end = bump_last clog_prefix

unfoldable pub clog_key : ℕ → Bytes
unfolding system_prefix put_u64
clog_key xid = put_u64 (system_prefix (as_bytes "clog")) xid

-- `Result::ok` of the value that a take reads.
taken : Result KvError (ℕ × Bytes) → Option ℕ
taken (ok (v, rest)) = some v
taken (err e) = none

unfoldable pub clog_xid_of : Bytes → Option ℕ
unfolding taken
clog_xid_of key =
    let prefix = clog_prefix in
    if not (length key == length prefix + 8) || not (bytes_eq (take (length prefix) key) prefix)
    then none
    else taken (take_u64 (drop (length prefix) key))

-- The three takes of `table_rowid_of`, each `.ok()?`.
unfoldable pub table_rowid_of : Bytes → Option (ℕ × ℕ)
table_rowid_of key = elim (take_u32 key) [
  | err e ↦ none
  | ok (t, cur) ↦ elim (take_u32 cur) [
    | err e ↦ none
    | ok (idx, cur') ↦
        if t == system_table_id || not (idx == index_primary)
        then none
        else elim (take_u64 cur') [ err e ↦ none | ok (rowid, rest) ↦ some (t, rowid) ]
  ]
]

unfoldable pub rowid_of : ℕ → Bytes → Result KvError ℕ
rowid_of table_id key = do
  (t, cur) ← take_u32 key
  (idx, cur') ← take_u32 cur
  if not (t == table_id) || not (idx == index_primary)
      then err (corrupt_row "key does not belong to this table index" [])
      else do (rowid, rest) ← take_u64 cur'; ok rowid
