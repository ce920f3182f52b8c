-- ===== src/Cluster/RangeMap/Blob.antt =====
-- The round trip of the descriptor blob.
use crabgresql.Prelude.{
  ℕ, suc, ◌+◌, ◌<◌, ◌^◌, ◌≡◌, refl, sym, subst, List, [], ◌∷◌, none, some, ok, arith, length, leb,
  ◌==◌, append-nil, true, false,
}
use crabgresql.Bytes.BigEndian.{be_bytes}
use crabgresql.Cursor.Reads.{Reads, Reads-bind, Reads-end, Reads-pure, Reads-u8, Reads-be, concat}
use crabgresql.Cluster.RangeMap.{
  RangeMap, write_end, write_descriptor, to_descriptor_bytes, take_u8, take_u32, check_end,
  check_descriptor, read_descriptor, push_bound, read_boundaries, read_map, from_descriptor_bytes,
}
use crabgresql.Cluster.RangeMap.Spans.{Rise, IsRangeMap, spans, descriptors-spans, length-spans}

Reads-u32 : (v : ℕ) → v < 2 ^ 32 → Reads take_u32 (be_bytes 4 v) v
unfolding take_u32
Reads-u32 v h = Reads-be _ 4 v h

Reads-tag : (b : ℕ) → Reads take_u8 (b ∷ []) b
unfolding take_u8
Reads-tag b = Reads-u8 _ b

-- A descriptor of a bounded span, and of the last one.
Reads-bounded :
    (i count start b : ℕ)
    → i < 2 ^ 32
    → start < b
    → b < 2 ^ 32
    → i + 1 < count
    → Reads
        (read_descriptor i count start)
        (write_descriptor (record { range_id = i; start_table_id = start; end = some b }))
        (some b)
unfolding read_descriptor write_descriptor write_end check_descriptor check_end
Reads-bounded i count start b hi hs hb more =
    let at_place : (i == i) ≡ true = ground arith in
    let from_start : (start == start) ≡ true = ground arith in
    let not_last : (i + 1 == count) ≡ false = ground arith in
    let rises : leb b start ≡ false = ground arith in
    Reads-bind _ (Reads-u32 i hi) (
      Reads-bind _ (Reads-u32 start (omega arith)) (
        Reads-bind _ (Reads-tag 1) (
          Reads-end _ (Reads-u32 b hb)
            (rw at_place (rw from_start (rw not_last (rw rises (Reads-pure (some b)))))))))

Reads-last :
    (i count start : ℕ)
    → i < 2 ^ 32
    → start < 2 ^ 32
    → i + 1 ≡ count
    → Reads
        (read_descriptor i count start)
        (write_descriptor (record { range_id = i; start_table_id = start; end = none }))
        none
unfolding read_descriptor write_descriptor write_end check_descriptor check_end
Reads-last i count start hi hs final =
    let at_place : (i == i) ≡ true = ground arith in
    let from_start : (start == start) ≡ true = ground arith in
    let last : (i + 1 == count) ≡ true = ground arith in
    Reads-bind _ (Reads-u32 i hi) (
      Reads-bind _ (Reads-u32 start hs) (
        Reads-bind _ (Reads-tag 0) (
          Reads-end _ (Reads-u32 0 (omega arith))
            (rw at_place (rw from_start (rw last (Reads-pure none)))))))

Reads-boundaries :
    (i count start : ℕ) (bs : List ℕ)
    → start < 2 ^ 32
    → Rise start bs
    → i + suc (length bs) ≡ count
    → count < 2 ^ 32
    → Reads
        (read_boundaries (suc (length bs)) i count start)
        (concat write_descriptor (spans i start bs))
        bs
unfolding read_boundaries push_bound spans
Reads-boundaries i count start [] hs rise total small =
    Reads-bind _ (Reads-last i count start (omega arith) hs (omega arith)) (Reads-pure [])
Reads-boundaries i count start (b ∷ bs) hs rise total small =
    Reads-bind _ (Reads-bounded i count start b (omega arith) rise.0 rise.1 (omega arith)) (
      Reads-end _ (Reads-boundaries (suc i) count b bs rise.1 rise.2 (omega arith) small)
        (Reads-pure (b ∷ bs)))

Reads-map : (m : RangeMap) → IsRangeMap m → Reads read_map (to_descriptor_bytes m) m
unfolding read_map to_descriptor_bytes IsRangeMap
Reads-map m (rise, few) =
    let tiles = descriptors-spans m (rise, few) in
    let size : suc (length m.boundaries) ≡ length (spans 0 0 m.boundaries) =
      sym (length-spans 0 0 m.boundaries) in
    let some_range : (suc (length m.boundaries) == 0) ≡ false = ground arith in
    rw tiles (
      rw (← size) (
        Reads-bind _ (Reads-tag 1) (
          Reads-bind _ (Reads-u32 (suc (length m.boundaries)) (omega arith)) (
            rw some_range (
              Reads-end _
                (Reads-boundaries 0 (suc (length m.boundaries)) 0 m.boundaries (omega arith) rise
                  (omega arith) (omega arith))
                (Reads-pure m))))))

-- The decoder recovers every valid map from its blob.
pub from_descriptor_bytes-to_descriptor_bytes :
    (m : RangeMap) → IsRangeMap m → from_descriptor_bytes (to_descriptor_bytes m) ≡ ok m
unfolding from_descriptor_bytes
from_descriptor_bytes-to_descriptor_bytes m h =
    let e : read_map (to_descriptor_bytes m) ≡ ok (m, []) =
      subst (λ l. read_map l ≡ ok (m, [])) (append-nil (to_descriptor_bytes m))
        ((Reads-map m h).at []) in
    rw e refl
