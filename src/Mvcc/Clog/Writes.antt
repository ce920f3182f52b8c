-- ===== src/Mvcc/Clog/Writes.antt =====
-- Recording a status and reading it back.
use crabgresql.Prelude.{ℕ, ◌<◌, ◌^◌, ◌≡◌, ◌≢◌, [], ◌∷◌, Option, ok, arith, inl, inr, Bool-cases}
use crabgresql.Bytes.{Bytes, bytes_eq}
use crabgresql.Bytes.Equality.{bytes_eq_refl, bytes_eq→eq}
use crabgresql.Kv.Key.{clog_key}
use crabgresql.Kv.Key.Namespaces.{clog, encode_injective}
use crabgresql.Kv.Store.{put, Kv, after_batch}
use crabgresql.Mvcc.Clog.{XidStatus, get, put_op, status_bytes}
use crabgresql.Mvcc.Clog.Statuses.{IsStatus, decode-status_bytes}

pub clog_key-injective : (x y : ℕ) → x < 2 ^ 64 → y < 2 ^ 64 → clog_key x ≡ clog_key y → x ≡ y
clog_key-injective x y hx hy h = ground (arith, encode_injective (clog x) (clog y) hx hy h)

module _ (kv : Kv) where
  -- After a batch that records a status with a 64-bit id, if any, the log has that status, where the
  -- store can be read before and after.
  pub get-put_op :
      (s s' : kv.State) (xid : ℕ) (st : XidStatus) {old new : Option Bytes}
      → IsStatus st
      → kv.write_batch s (put_op xid st ∷ []) ≡ ok s'
      → kv.get s (clog_key xid) ≡ ok old
      → kv.get s' (clog_key xid) ≡ ok new
      → get kv s' xid ≡ ok st
  unfolding get put_op after_batch
  get-put_op s s' xid st {old} {new} h w p q = ground (
    arith,
    kv.get-write_batch s (put (clog_key xid) (status_bytes st) ∷ []) (clog_key xid) w p q,
    bytes_eq_refl (clog_key xid),
    decode-status_bytes st h,
    q,
  )

  -- A batch that records the status of one transaction leaves that of every other as it is, for 64-bit
  -- xids and where the store can be read before and after.
  pub get-put_op_ne :
      (s s' : kv.State) (xid other : ℕ) (st : XidStatus) {old new : Option Bytes}
      → xid < 2 ^ 64
      → other < 2 ^ 64
      → other ≢ xid
      → kv.write_batch s (put_op xid st ∷ []) ≡ ok s'
      → kv.get s (clog_key other) ≡ ok old
      → kv.get s' (clog_key other) ≡ ok new
      → get kv s' other ≡ get kv s other
  unfolding get put_op after_batch
  get-put_op_ne s s' xid other st hx ho ne w p q =
      elim (Bool-cases (bytes_eq (clog_key other) (clog_key xid))) [
        | inl same ↦ absurd (ne (clog_key-injective other xid ho hx (bytes_eq→eq _ _ same)))
        | inr differs ↦ ground (
          arith,
          kv.get-write_batch s (put (clog_key xid) (status_bytes st) ∷ []) (clog_key other) w p q,
          p,
          q,
        )
      ]
