-- ===== src/Tests/Replication.antt =====
-- The replicated state machine and the range map at concrete inputs.
use crabgresql.Prelude.{◌≡◌, refl, true, List, [], ◌∷◌, some, ok, arith, All, max}
use crabgresql.Bytes.{bytes_eq, lex_lt}
use crabgresql.Bytes.BigEndian.{be_bytes, be_value}
use crabgresql.Kv.Key.{next_xid_key, clog_key, seq_key, clog_prefix}
use crabgresql.Kv.Map
use crabgresql.Kv.Map.{Entries}
use crabgresql.Kv.Store.{WriteOp, put, delete}
use crabgresql.Mvcc.Clog.{is_terminal}
use crabgresql.Cluster.StateMachine.{
  is_counter_key, is_clog_key, apply_op, apply_ops, keeps, put_counter, u64_be, existing_counter,
  is_seq_key,
}
use crabgresql.Cluster.StateMachine.Keys.{is_counter_key-next_xid_key}
use crabgresql.Cluster.StateMachine.Ops.{count}
use crabgresql.Cluster.StateMachine.Logs.{
  Spares, Fits, IsCount, greatest, count-apply_ops, decision-apply_ops,
}
use crabgresql.Cluster.RangeMap.{
  RangeMap, RangeDescriptor, get_elem?, descriptors, range_for_table, to_descriptor_bytes,
  from_descriptor_bytes, with_boundaries,
}
use crabgresql.Cluster.RangeMap.Spans.{IsRangeMap}
use crabgresql.Cluster.RangeMap.Owner.{Covers, range_for_table-owns}
use crabgresql.Cluster.RangeMap.Blob.{from_descriptor_bytes-to_descriptor_bytes}
use crabgresql.Cluster.RangeMap.Decoded.{with_boundaries-from_descriptor_bytes}

-- Transaction 3 has committed; an abort of it comes late.
abbrev decided : Entries
decided = (clog_key 3, 1 ∷ []) ∷ []

abbrev late : List WriteOp
late = put (clog_key 3) (2 ∷ []) ∷ delete (seq_key 7) ∷ []

late-applied : apply_ops late decided ≡ some decided
unfolding apply_ops apply_op is_counter_key is_seq_key is_clog_key keeps is_terminal clog_key
    seq_key next_xid_key clog_prefix bytes_eq Map.get Map.remove be_bytes
late-applied = refl

decided-held : Map.get (clog_key 3) decided ≡ some (1 ∷ [])
unfolding Map.get bytes_eq clog_key be_bytes
decided-held = refl

decided-final : is_terminal (1 ∷ []) ≡ true
unfolding is_terminal
decided-final = refl

late-Spares : All (Spares (clog_key 3)) late
unfolding Spares bytes_eq clog_key seq_key be_bytes
late-Spares = (tt, (refl, tt))

decision-apply_ops_example : Map.get (clog_key 3) decided ≡ some (1 ∷ [])
decision-apply_ops_example =
    decision-apply_ops late decided 3 decided-held decided-final late-Spares late-applied

-- The counter stands at 9; a put of 4 comes late.
abbrev counted : Entries
counted = (next_xid_key, be_bytes 8 9) ∷ []

abbrev stale : List WriteOp
stale = put next_xid_key (be_bytes 8 4) ∷ []

stale-applied : apply_ops stale counted ≡ some counted
unfolding apply_ops apply_op is_counter_key put_counter u64_be existing_counter next_xid_key
    bytes_eq Map.get Map.insert lex_lt be_bytes be_value
stale-applied = refl

counted-IsCount : IsCount (Map.get next_xid_key counted)
unfolding IsCount count Map.get next_xid_key bytes_eq be_bytes be_value
counted-IsCount = omega arith

stale-Fits : All (Fits next_xid_key) stale
unfolding Fits IsCount count be_bytes be_value
stale-Fits = ((λ h. omega arith), tt)

stale-Spares : All (Spares next_xid_key) stale
unfolding Spares
stale-Spares = (tt, tt)

count-apply_ops_example :
    count (Map.get next_xid_key counted)
    ≡ max (count (Map.get next_xid_key counted)) (greatest next_xid_key stale)
count-apply_ops_example =
    count-apply_ops stale counted next_xid_key is_counter_key-next_xid_key counted-IsCount
      stale-Spares stale-Fits stale-applied

-- Three ranges.
abbrev thirds : RangeMap
thirds = record { boundaries = 100 ∷ 200 ∷ [] }

thirds-IsRangeMap : IsRangeMap thirds
unfolding IsRangeMap
thirds-IsRangeMap = ((omega arith, omega arith, (omega arith, omega arith, tt)), omega arith)

range_for_table-owns_example :
    ((d : RangeDescriptor) × (get_elem? (descriptors thirds) (range_for_table thirds 150) ≡ some d)
      × Covers d 150
      × (d.range_id ≡ range_for_table thirds 150))
    × All (λ d. Covers d 150 → d.range_id ≡ range_for_table thirds 150) (descriptors thirds)
range_for_table-owns_example = range_for_table-owns thirds 150 thirds-IsRangeMap

from_descriptor_bytes-to_descriptor_bytes_example :
    from_descriptor_bytes (to_descriptor_bytes thirds) ≡ ok thirds
from_descriptor_bytes-to_descriptor_bytes_example =
    from_descriptor_bytes-to_descriptor_bytes thirds thirds-IsRangeMap

thirds-decoded : from_descriptor_bytes (to_descriptor_bytes thirds) ≡ ok thirds
thirds-decoded = from_descriptor_bytes-to_descriptor_bytes thirds thirds-IsRangeMap

with_boundaries-from_descriptor_bytes_example : with_boundaries (100 ∷ 200 ∷ []) ≡ some thirds
with_boundaries-from_descriptor_bytes_example =
    with_boundaries-from_descriptor_bytes (to_descriptor_bytes thirds) thirds thirds-decoded
