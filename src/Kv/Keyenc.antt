-- ===== src/Kv/Keyenc.antt =====
-- crates/kv/src/keyenc.rs: order-preserving encoders for the components of keys. A cursor
-- `&mut &[u8]` is a list of bytes that comes back shorter.
use crabgresql.Prelude.{ℕ, ◌++◌, ◌≡◌, [], ◌<◌, ◌^◌, Result, ok, ok_or, arith}
use crabgresql.Bytes.{Bytes, AreBytes}
use crabgresql.Bytes.BigEndian.{be_bytes, read_be, read_be-be_bytes, read_be→append}
use crabgresql.Kv.Error.{KvError, corrupt_row}

unfoldable pub put_u32 : Bytes → ℕ → Bytes
put_u32 out v = out ++ be_bytes 4 v

unfoldable pub put_u64 : Bytes → ℕ → Bytes
put_u64 out v = out ++ be_bytes 8 v

unfoldable pub take_u32 : Bytes → Result KvError (ℕ × Bytes)
take_u32 cur = ok_or (read_be 4 cur) (corrupt_row "truncated u32 key component" [])

unfoldable pub take_u64 : Bytes → Result KvError (ℕ × Bytes)
take_u64 cur = ok_or (read_be 8 cur) (corrupt_row "truncated u64 key component" [])

pub take_u32-be_bytes :
    (v : ℕ) (rest : Bytes) → v < 2 ^ 32 → take_u32 (be_bytes 4 v ++ rest) ≡ ok (v, rest)
unfolding take_u32
take_u32-be_bytes v rest h = rw (read_be-be_bytes 4 v rest h)

pub take_u64-be_bytes :
    (v : ℕ) (rest : Bytes) → v < 2 ^ 64 → take_u64 (be_bytes 8 v ++ rest) ≡ ok (v, rest)
unfolding take_u64
take_u64-be_bytes v rest h = rw (read_be-be_bytes 8 v rest h)

pub take_u32→append :
    (cur : Bytes) {v : ℕ} {rest : Bytes}
    → AreBytes cur
    → take_u32 cur ≡ ok (v, rest)
    → (cur ≡ be_bytes 4 v ++ rest) × (v < 2 ^ 32)
unfolding take_u32
take_u32→append cur h e = read_be→append 4 cur h (ground arith)

pub take_u64→append :
    (cur : Bytes) {v : ℕ} {rest : Bytes}
    → AreBytes cur
    → take_u64 cur ≡ ok (v, rest)
    → (cur ≡ be_bytes 8 v ++ rest) × (v < 2 ^ 64)
unfolding take_u64
take_u64→append cur h e = read_be→append 8 cur h (ground arith)
