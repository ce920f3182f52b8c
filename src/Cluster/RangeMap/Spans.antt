-- ===== src/Cluster/RangeMap/Spans.antt =====
-- The descriptors of a valid map by recursion on its boundaries.
use crabgresql.Prelude.{
  ℕ, suc, ◌+◌, ◌-◌, ◌%◌, ◌<◌, ◌^◌, ◌≡◌, refl, ap, ap₂, subst, head?, List, [], ◌∷◌, ◌++◌, map,
  append_assoc, Option, none, some, arith, length, ◌==◌, length-append, false,
}
use crabgresql.Cluster.RangeMap.{
  RangeMap, RangeDescriptor, get_elem?, descriptor, descriptors, iota, range_ids, range_count,
}

-- The boundaries rise strictly from `low` on and are `u32`.
abbrev pub Rise : ℕ → List ℕ → Type 0
Rise low [] = Unit
Rise low (b ∷ bs) = (low < b) × (b < 2 ^ 32) × Rise b bs

-- Nonzero, strictly increasing `u32` boundaries, whose ranges a `u32` can count.
unfoldable pub IsRangeMap : RangeMap → Type 0
IsRangeMap m = Rise 0 m.boundaries × (length m.boundaries + 1 < 2 ^ 32)

-- The descriptors from position `i` on, by recursion on the boundaries.
unfoldable pub spans : ℕ → ℕ → List ℕ → List RangeDescriptor
spans i start [] = record { range_id = i; start_table_id = start; end = none } ∷ []
spans i start (b ∷ bs) =
    record { range_id = i; start_table_id = start; end = some b } ∷ spans (suc i) b bs

get_elem?-append :
    (xs : List ℕ) (x : ℕ) (ys : List ℕ) → get_elem? (xs ++ x ∷ ys) (length xs) ≡ some x
get_elem?-append [] x ys = refl
get_elem?-append (y ∷ xs) x ys = get_elem?-append xs x ys

get_elem?-next :
    (xs : List ℕ) (x : ℕ) (ys : List ℕ) → get_elem? (xs ++ x ∷ ys) (suc (length xs)) ≡ head? ys
get_elem?-next [] x [] = refl
get_elem?-next [] x (y ∷ ys) = refl
get_elem?-next (z ∷ xs) x ys = get_elem?-next xs x ys

descriptor-suc :
    (l : List ℕ) (n s : ℕ) (e : Option ℕ)
    → get_elem? l n ≡ some s
    → get_elem? l (suc n) ≡ e
    → descriptor l (suc n) ≡ record { range_id = suc n; start_table_id = s; end = e }
unfolding descriptor
descriptor-suc l n s e p q =
    let back : suc n - 1 ≡ n = omega arith in
    let test : (suc n == 0) ≡ false = ground arith in rw (test, back, p, q) refl

descriptor-last :
    (pre : List ℕ) (start : ℕ) (bs : List ℕ)
    → descriptor (pre ++ start ∷ bs) (suc (length pre))
      ≡ record { range_id = suc (length pre); start_table_id = start; end = head? bs }
descriptor-last pre start bs =
    descriptor-suc (pre ++ start ∷ bs) (length pre) start (head? bs) (get_elem?-append pre start bs)
      (get_elem?-next pre start bs)

map-descriptor :
    (pre : List ℕ) (start : ℕ) (bs : List ℕ)
    → map (descriptor (pre ++ start ∷ bs)) (iota (suc (length pre)) (suc (length bs)))
      ≡ spans (suc (length pre)) start bs
unfolding spans
map-descriptor pre start [] = ap (λ d. d ∷ []) (descriptor-last pre start [])
map-descriptor pre start (b ∷ bs) =
    let grown : (pre ++ start ∷ []) ++ b ∷ bs ≡ pre ++ start ∷ b ∷ bs =
      append_assoc pre (start ∷ []) (b ∷ bs) in
    let size : length (pre ++ start ∷ []) ≡ suc (length pre) =
      omega (arith, length-append pre (start ∷ [])) in
    ap₂ ◌∷◌ (descriptor-last pre start (b ∷ bs)) (
      subst
        (λ l.
          map (descriptor l) (iota (suc (suc (length pre))) (suc (length bs)))
          ≡ spans (suc (suc (length pre))) b bs)
        grown
        (subst
          (λ n.
            map (descriptor ((pre ++ start ∷ []) ++ b ∷ bs)) (iota (suc n) (suc (length bs)))
            ≡ spans (suc n) b bs)
          size (map-descriptor (pre ++ start ∷ []) b bs)))

spans-from_zero : (bs : List ℕ) → map (descriptor bs) (iota 0 (suc (length bs))) ≡ spans 0 0 bs
unfolding spans descriptor
spans-from_zero [] = refl
spans-from_zero (b ∷ bs) =
    ap (λ l. record { range_id = 0; start_table_id = 0; end = some b } ∷ l) (map-descriptor [] b bs)

-- The indexed definition of the descriptors and the recursive one agree on valid maps.
pub descriptors-spans : (m : RangeMap) → IsRangeMap m → descriptors m ≡ spans 0 0 m.boundaries
unfolding descriptors range_ids range_count IsRangeMap
descriptors-spans m h =
    let small : (length m.boundaries + 1) % 2 ^ 32 ≡ suc (length m.boundaries) =
      ground (arith, h.1) in
    rw small (spans-from_zero m.boundaries)

pub length-spans : (i start : ℕ) (bs : List ℕ) → length (spans i start bs) ≡ suc (length bs)
unfolding spans
length-spans i start [] = refl
length-spans i start (b ∷ bs) = ap suc (length-spans (suc i) b bs)
