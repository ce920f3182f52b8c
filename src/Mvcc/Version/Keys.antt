-- ===== src/Mvcc/Version/Keys.antt =====
-- Version keys: what they decode to, how they sort, and which of them a scan of one row reads.
use crabgresql.Prelude.{
  ℕ, ◌-◌, ◌<◌, ◌^◌, ◌≡◌, refl, ap, sym, ◌∙◌, ◌++◌, true, false, ok, arith, ltb, length, take, drop,
  take-append, drop-append, length-append, ◌↔◌,
}
use crabgresql.Bytes.{Bytes, lex_lt, starts_with}
use crabgresql.Bytes.Equality.{starts_with-append, starts_with→append}
use crabgresql.Bytes.Order.{lex_lt-append}
use crabgresql.Bytes.BigEndian.{
  be_bytes, be_value, length-be_bytes, be_value-be_bytes, lex_lt-be_bytes,
}
use crabgresql.Kv.Key.{row_key, index_primary}
use crabgresql.Kv.Key.Rows.{row_key_parts}
use crabgresql.Mvcc.Version.{version_key_xid, row_prefix_of, xid_of_key}

-- The 8 bytes at the end, cut off.
suffix_parts :
    (k x : Bytes)
    → length x ≡ 8
    → (length (k ++ x) - 8 ≡ length k) × (ltb (length (k ++ x)) 8 ≡ false)
suffix_parts k x h = ground (arith, length-append k x)

pub row_prefix_of-version_key_xid :
    (t r x : ℕ) → row_prefix_of (version_key_xid t r x) ≡ ok (row_key t r)
unfolding row_prefix_of version_key_xid
row_prefix_of-version_key_xid t r x =
    let (n, long) = suffix_parts (row_key t r) (be_bytes 8 x) (length-be_bytes 8 x) in
    rw (long, n, take-append (row_key t r) (be_bytes 8 x) refl)

pub xid_of_key-version_key_xid :
    (t r x : ℕ) → x < 2 ^ 64 → xid_of_key (version_key_xid t r x) ≡ ok x
unfolding xid_of_key version_key_xid
xid_of_key-version_key_xid t r x h =
    let (n, long) = suffix_parts (row_key t r) (be_bytes 8 x) (length-be_bytes 8 x) in
    rw (long, n, drop-append (row_key t r) (be_bytes 8 x) refl, be_value-be_bytes 8 x h)

-- The keys of two versions of one row compare as the 64-bit xids that created them do.
pub lex_lt-version_key_xid :
    (t r x y : ℕ)
    → x < 2 ^ 64
    → y < 2 ^ 64
    → lex_lt (version_key_xid t r x) (version_key_xid t r y) ≡ ltb x y
unfolding version_key_xid
lex_lt-version_key_xid t r x y hx hy = rw (lex_lt-append, lex_lt-be_bytes 8 x y hx hy)

-- Equal fronts of fixed-width numbers have equal numbers and equal rests.
be_front :
    (n v w : ℕ) (x y : Bytes)
    → v < 256 ^ n
    → w < 256 ^ n
    → be_bytes n v ++ x ≡ be_bytes n w ++ y
    → (v ≡ w) × (x ≡ y)
be_front n v w x y hv hw h = (
  cc (
    ap (λ l. be_value (take n l)) h,
    take-append (be_bytes n v) x (length-be_bytes n v),
    take-append (be_bytes n w) y (length-be_bytes n w),
    be_value-be_bytes n v hv,
    be_value-be_bytes n w hw,
  ),
  cc (
    ap (drop n) h,
    drop-append (be_bytes n v) x (length-be_bytes n v),
    drop-append (be_bytes n w) y (length-be_bytes n w),
  ),
)

-- A version's key starts with a row's key exactly where it is a version of that row, for `u32` table
-- ids and 64-bit rowids.
pub starts_with-version_key_xid :
    (t r t' r' x : ℕ)
    → t < 2 ^ 32
    → r < 2 ^ 64
    → t' < 2 ^ 32
    → r' < 2 ^ 64
    → (starts_with (row_key t r) (version_key_xid t' r' x) ≡ true) ↔ ((t ≡ t') × (r ≡ r'))
unfolding version_key_xid
starts_with-version_key_xid t r t' r' x ht hr ht' hr' = (
  λ h.
      let (rest, e) = starts_with→append (row_key t r) (row_key t' r' ++ be_bytes 8 x) h in
      let (p, q) =
        be_front 4 t t' _ _ ht ht'
          (sym (row_key_parts t r rest) ∙ sym e ∙ row_key_parts t' r' (be_bytes 8 x)) in
      let (_, q') = be_front 4 index_primary index_primary _ _ (omega arith) (omega arith) q in
      (p, (be_front 8 r r' _ _ hr hr' q').0),
  λ e. rw (e.0, e.1) (starts_with-append (row_key t' r') (be_bytes 8 x)),
)
