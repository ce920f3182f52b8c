-- ===== src/Cluster/RangeMap.antt =====
-- crates/cluster/src/range/map.rs: the static partition of the table ids into ranges, and its
-- descriptor blob; `read_range_map` of range/meta.rs. `none` from `with_boundaries` is the panic of its
-- assertions. A table id and a range id are `u32`.
pub mod Spans
pub mod Owner
pub mod Blob
pub mod Decoded
use crabgresql.Prelude.{
  ℕ, zero, suc, ◌+◌, ◌-◌, ◌%◌, ◌^◌, Bool, true, false, not, ◌&&◌, List, [], ◌∷◌, ◌++◌, map, Option,
  none, some, Result, ok, err, ltb, leb, ◌==◌, length, if◌then◌else◌,
}
use crabgresql.Bytes.{Bytes}
use crabgresql.Bytes.BigEndian.{be_bytes}
use crabgresql.Cursor.{Reader, pure, fail, ◌>>=◌, take_u8_or, take_be_or}
use crabgresql.Cursor.Reads.{concat}
use crabgresql.Kv.Error.{KvError, corrupt_row}
use crabgresql.Kv.Key.{meta_range_map_key}
use crabgresql.Kv.Store.{Kv}

pub record RangeMap : Type 0 where
  pub boundaries : List ℕ

unfoldable pub single : RangeMap
single = record { boundaries = [] }

-- The two assertions of `with_boundaries`.
unfoldable pub all_nonzero : List ℕ → Bool
all_nonzero [] = true
all_nonzero (b ∷ bs) = not (b == 0) && all_nonzero bs

unfoldable pub all_increase : List ℕ → Bool
all_increase [] = true
all_increase (a ∷ []) = true
all_increase (a ∷ b ∷ bs) = ltb a b && all_increase (b ∷ bs)

unfoldable pub with_boundaries : List ℕ → Option RangeMap
with_boundaries boundaries =
    if all_nonzero boundaries && all_increase boundaries
    then some (record { boundaries = boundaries })
    else none

unfoldable pub range_count : RangeMap → ℕ
range_count m = length m.boundaries + 1

-- `partition_point`: the number of elements before the first that fails the test.
unfoldable pub partition_point : (ℕ → Bool) → List ℕ → ℕ
partition_point p [] = 0
partition_point p (b ∷ bs) = if p b then suc (partition_point p bs) else 0

unfoldable pub range_for_table : RangeMap → ℕ → ℕ
range_for_table m table_id = partition_point (λ b. leb b table_id) m.boundaries % 2 ^ 32

abbrev pub range_map_version : ℕ
range_map_version = 1

pub record RangeDescriptor : Type 0 where
  pub range_id : ℕ
  pub start_table_id : ℕ
  pub end : Option ℕ

abbrev pub get_elem? {ℓ} : {A : Type ℓ} → List A → ℕ → Option A
get_elem? [] n = none
get_elem? (x ∷ xs) zero = some x
get_elem? (x ∷ xs) (suc n) = get_elem? xs n

-- `boundaries[i]`, which is there for every `i` that is asked for.
abbrev pub at_or_zero : Option ℕ → ℕ
at_or_zero none = 0
at_or_zero (some b) = b

unfoldable pub descriptor : List ℕ → ℕ → RangeDescriptor
descriptor boundaries i = record {
  range_id = i;
  start_table_id = if i == 0 then 0 else at_or_zero (get_elem? boundaries (i - 1));
  end = get_elem? boundaries i;
}

-- `first..first + n`.
abbrev pub iota : ℕ → ℕ → List ℕ
iota first zero = []
iota first (suc n) = first ∷ iota (suc first) n

-- `range_count() as RangeId` wraps at 32 bits.
unfoldable pub range_ids : RangeMap → List ℕ
range_ids m = iota 0 (range_count m % 2 ^ 32)

unfoldable pub descriptors : RangeMap → List RangeDescriptor
descriptors m = map (descriptor m.boundaries) (range_ids m)

unfoldable pub write_end : Option ℕ → Bytes
write_end (some e) = 1 ∷ be_bytes 4 e
write_end none = 0 ∷ be_bytes 4 0

unfoldable pub write_descriptor : RangeDescriptor → Bytes
write_descriptor d = be_bytes 4 d.range_id ++ (be_bytes 4 d.start_table_id ++ write_end d.end)

unfoldable pub to_descriptor_bytes : RangeMap → Bytes
to_descriptor_bytes m =
    range_map_version ∷ be_bytes 4 (length (descriptors m))
    ++ concat write_descriptor (descriptors m)

unfoldable pub take_u8 : Reader ℕ
take_u8 = take_u8_or "truncated range map"

unfoldable pub take_u32 : Reader ℕ
take_u32 = take_be_or "truncated range-map field" 4

-- The match on `(is_last, end_present)`: the boundary to push, if any.
unfoldable pub check_end : Bool → ℕ → ℕ → ℕ → Reader (Option ℕ)
check_end true end_present start end_raw =
    if end_present == 0 then pure none else fail (corrupt_row "last range must be unbounded" [])
check_end false end_present start end_raw =
    if end_present == 1
    then (if leb end_raw start
        then fail (corrupt_row "range end must exceed start" [])
        else pure (some end_raw))
    else fail (corrupt_row "non-last range must be bounded" [])

-- The checks on the descriptor at position `i`.
unfoldable pub check_descriptor : ℕ → ℕ → ℕ → ℕ → ℕ → ℕ → ℕ → Reader (Option ℕ)
check_descriptor i count expected_start range_id start end_present end_raw =
    if not (range_id == i)
    then fail (corrupt_row "range ids must be contiguous 0..N" (range_id ∷ i ∷ []))
    else if not (start == expected_start)
    then fail (corrupt_row "ranges must be contiguous" (i ∷ start ∷ expected_start ∷ []))
    else check_end (i + 1 == count) end_present start end_raw

unfoldable pub read_descriptor : ℕ → ℕ → ℕ → Reader (Option ℕ)
read_descriptor i count expected_start = do
  range_id ← take_u32
  start ← take_u32
  end_present ← take_u8
  end_raw ← take_u32
  check_descriptor i count expected_start range_id start end_present end_raw

-- Pushing a boundary, which is where the next range is to start.
unfoldable pub push_bound : ℕ → (ℕ → Reader (List ℕ)) → Option ℕ → Reader (List ℕ)
push_bound expected_start later none = later expected_start
push_bound expected_start later (some e) = do bs ← later e; pure (e ∷ bs)

-- The loop, with `n` positions left from `i` on.
unfoldable pub read_boundaries : ℕ → ℕ → ℕ → ℕ → Reader (List ℕ)
read_boundaries zero i count expected_start = pure []
read_boundaries (suc n) i count expected_start = do
  bound ← read_descriptor i count expected_start
  push_bound expected_start (read_boundaries n (suc i) count) bound

unfoldable pub read_map : Reader RangeMap
read_map = do
  version ← take_u8
  if not (version == range_map_version)
      then fail (corrupt_row "unknown range-map version" (version ∷ []))
      else do
        count ← take_u32
        if count == 0 then fail (corrupt_row "range map has zero ranges" []) else do
          boundaries ← read_boundaries count 0 count 0
          pure (record { boundaries = boundaries })

-- The bytes behind the last descriptor are not looked at.
abbrev pub without_rest {ℓ} : {A : Type ℓ} → Result KvError (A × Bytes) → Result KvError A
without_rest (ok (a, rest)) = ok a
without_rest (err e) = err e

unfoldable pub from_descriptor_bytes : Bytes → Result KvError RangeMap
from_descriptor_bytes bytes = without_rest (read_map bytes)

-- The decoding of what the store has.
abbrev pub decode_blob : Option Bytes → Result KvError (Option RangeMap)
decode_blob none = ok none
decode_blob (some bytes) = elim (from_descriptor_bytes bytes) [ ok m ↦ ok (some m) | err e ↦ err e ]

unfoldable pub read_range_map : (kv : Kv) → kv.State → Result KvError (Option RangeMap)
read_range_map kv store = elim (kv.get store meta_range_map_key) [
  | ok v ↦ decode_blob v
  | err e ↦ err e
]
