-- ===== src/Cluster/RangeMap/Owner.antt =====
-- The range of a table against the spans of the descriptors.
use crabgresql.Prelude.{
  ℕ, suc, ◌+◌, ◌<◌, ◌≤◌, ◌^◌, ◌≡◌, refl, subst, ◌∙◌, inl, inr, List, [], ◌∷◌, Option, none, some,
  arith, length, leb, Bool-cases, leb→le, leb→gt, All, true, false,
}
use crabgresql.Cluster.RangeMap.{
  RangeMap, RangeDescriptor, get_elem?, descriptors, partition_point, range_for_table,
}
use crabgresql.Cluster.RangeMap.Spans.{Rise, IsRangeMap, spans, descriptors-spans}

abbrev pub Below : ℕ → Option ℕ → Type 0
Below t none = Unit
Below t (some e) = t < e

-- The table lies in the descriptor's span.
abbrev pub Covers : RangeDescriptor → ℕ → Type 0
Covers d t = (d.start_table_id ≤ t) × Below t d.end

point : ℕ → List ℕ → ℕ
point t bs = partition_point (λ b. leb b t) bs

point-le : (t : ℕ) (bs : List ℕ) → point t bs ≤ length bs
unfolding point partition_point
point-le t [] = omega arith
point-le t (b ∷ bs) = ground (arith, point-le t bs)

spans-point :
    (i start t : ℕ) (bs : List ℕ)
    → start ≤ t
    → (d : RangeDescriptor) × (get_elem? (spans i start bs) (point t bs) ≡ some d)
      × Covers d t
      × (d.range_id ≡ i + point t bs)
unfolding spans point partition_point
spans-point i start t [] h = (_, refl, (h, tt), omega arith)
spans-point i start t (b ∷ bs) h = elim (Bool-cases (leb b t)) [
  | inl le ↦
      let (d, found, covers, id) = spans-point (suc i) b t bs (leb→le b t le) in
      rw (partition_point, le) (d, found, covers, omega arith)
  | inr gt ↦ rw (partition_point, gt) (_, refl, (h, leb→gt b t gt), omega arith)
]

-- Before the spans of a rising list lies nothing that they cover.
spans-above :
    (n i start t : ℕ) (bs : List ℕ)
    → Rise start bs
    → t < start
    → All (λ d. Covers d t → d.range_id ≡ n) (spans i start bs)
unfolding spans
spans-above n i start t [] rise h = ((λ c. absurd (omega arith)), tt)
spans-above n i start t (b ∷ bs) rise h =
    ((λ c. absurd (omega arith)), spans-above n (suc i) b t bs rise.2 (omega arith))

point-yes : (t b : ℕ) (bs : List ℕ) → leb b t ≡ true → suc (point t bs) ≡ point t (b ∷ bs)
unfolding point partition_point
point-yes t b bs h = rw (partition_point, h) refl

point-no : (t b : ℕ) (bs : List ℕ) → leb b t ≡ false → 0 ≡ point t (b ∷ bs)
unfolding point partition_point
point-no t b bs h = rw (partition_point, h) refl

spans_unique :
    (i start t : ℕ) (bs : List ℕ)
    → Rise start bs
    → All (λ d. Covers d t → d.range_id ≡ i + point t bs) (spans i start bs)
unfolding spans
spans_unique i start t [] rise = ((λ c. at_end), tt)
  where
    at_end : i ≡ i + point t []
    at_end = omega (arith, point-le t [])
spans_unique i start t (b ∷ bs) rise = elim (Bool-cases (leb b t)) [
  | inl le ↦
      let same : suc i + point t bs ≡ i + point t (b ∷ bs) = omega (arith, point-yes t b bs le) in
      (
        (λ c. absurd (omega (arith, leb→le b t le))),
        subst (λ n. All (λ d. Covers d t → d.range_id ≡ n) (spans (suc i) b bs)) same
            (spans_unique (suc i) b t bs rise.2),
      )
  | inr above ↦ (
    (λ c. omega (arith, point-no t b bs above)),
    spans-above (i + point t (b ∷ bs)) (suc i) b t bs rise.2 (leb→gt b t above),
  )
]

range_for_table-point :
    (m : RangeMap) (t : ℕ)
    → length m.boundaries + 1 < 2 ^ 32
    → point t m.boundaries ≡ range_for_table m t
unfolding range_for_table point
range_for_table-point m t few = ground (arith, point-le t m.boundaries, few)

-- In a valid map the range of a table is the id and the position of a descriptor whose span has the
-- table, and every descriptor whose span has it has that id.
pub range_for_table-owns :
    (m : RangeMap) (t : ℕ)
    → IsRangeMap m
    → ((d : RangeDescriptor) × (get_elem? (descriptors m) (range_for_table m t) ≡ some d)
        × Covers d t
        × (d.range_id ≡ range_for_table m t))
      × All (λ d. Covers d t → d.range_id ≡ range_for_table m t) (descriptors m)
unfolding IsRangeMap
range_for_table-owns m t (rise, few) =
    let plus : 0 + point t m.boundaries ≡ point t m.boundaries = omega arith in
    let (d, found, covers, id) = spans-point 0 0 t m.boundaries (omega arith) in
    rw (← range_for_table-point m t few) (
      rw (descriptors-spans m (rise, few)) (
        (d, found, covers, id ∙ plus),
        subst (λ n. All (λ d. Covers d t → d.range_id ≡ n) (spans 0 0 m.boundaries)) plus
            (spans_unique 0 0 t m.boundaries rise),
      ))
