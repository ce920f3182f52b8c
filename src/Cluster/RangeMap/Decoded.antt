-- ===== src/Cluster/RangeMap/Decoded.antt =====
-- The maps that the decoder accepts, against the assertions of `with_boundaries`.
use crabgresql.Prelude.{
  ℕ, zero, suc, ◌<◌, ◌≡◌, refl, subst, ap, inl, inr, List, [], ◌∷◌, Option, none, some, ok, arith,
  ◌==◌, not, Result-cases, if◌then◌else◌, true, false, Bool,
}
use crabgresql.Bytes.{Bytes}
use crabgresql.Kv.Error.{KvError}
use crabgresql.Cursor.{Reader, pure, fail, ◌>>=◌}
use crabgresql.Cluster.RangeMap.{
  RangeMap, all_nonzero, all_increase, with_boundaries, range_map_version, take_u8, take_u32,
  check_end, check_descriptor, read_descriptor, push_bound, read_boundaries, read_map,
  from_descriptor_bytes,
}

bind-ok {ℓ κ} :
    {A : Type ℓ} {B : Type κ} (m : Reader A) (f : A → Reader B) (cur : Bytes) {r : B × Bytes}
    → (m >>= f) cur ≡ ok r
    → (a : A) × (rest : Bytes) × (m cur ≡ ok (a, rest)) × (f a rest ≡ ok r)
unfolding ◌>>=◌
bind-ok m f cur {r} h = elim (Result-cases (m cur)) [
  | inl ((a, rest), e) ↦ (a, rest, e, ground (arith, e, h))
  | inr (e, bad) ↦ absurd (ground (arith, bad, h))
]

-- A boundary that the checks let through lies above the start of its range.
check_descriptor-rises :
    (i count expected range_id start present raw : ℕ) (cur : Bytes) {b : ℕ} {rest : Bytes}
    → check_descriptor i count expected range_id start present raw cur ≡ ok (some b, rest)
    → expected < b
unfolding check_descriptor check_end pure fail
check_descriptor-rises i count expected range_id start present raw cur h = ground (arith, h)

-- The boundaries rise strictly from `low` on.
Climb : ℕ → List ℕ → Type 0
Climb low [] = Unit
Climb low (b ∷ bs) = (low < b) × Climb b bs

Climb-nonzero : (low : ℕ) (bs : List ℕ) → Climb low bs → all_nonzero bs ≡ true
unfolding Climb all_nonzero
Climb-nonzero low [] c = refl
Climb-nonzero low (b ∷ bs) c = ground (arith, c.0, Climb-nonzero b bs c.1)

Climb-increase : (low : ℕ) (bs : List ℕ) → Climb low bs → all_increase bs ≡ true
unfolding Climb all_increase
Climb-increase low [] c = refl
Climb-increase low (b ∷ []) c = refl
Climb-increase low (b ∷ d ∷ bs) c = ground (arith, c.1.0, Climb-increase b (d ∷ bs) c.1)

read_descriptor-rises :
    (i count expected : ℕ) (cur : Bytes) {b : ℕ} {rest : Bytes}
    → read_descriptor i count expected cur ≡ ok (some b, rest)
    → expected < b
unfolding read_descriptor
read_descriptor-rises i count expected cur h =
    let (range_id, c1, _, h1) = bind-ok take_u32 _ cur h in
    let (start, c2, _, h2) = bind-ok take_u32 _ c1 h1 in
    let (present, c3, _, h3) = bind-ok take_u8 _ c2 h2 in
    let (raw, c4, _, h4) = bind-ok take_u32 _ c3 h3 in
    check_descriptor-rises i count expected range_id start present raw c4 h4

pushed :
    {bs bs' : List ℕ} {e : ℕ} (cur : Bytes) {rest : Bytes}
    → pure (e ∷ bs) cur ≡ ok (bs', rest)
    → e ∷ bs ≡ bs'
unfolding pure
pushed cur h = cc

after_bound :
    (n i count expected : ℕ) (bound : Option ℕ) (cur : Bytes) {bs : List ℕ} {rest : Bytes}
    → ((low : ℕ) (cur : Bytes) (bs : List ℕ) (rest : Bytes)
        → read_boundaries n (suc i) count low cur ≡ ok (bs, rest)
        → Climb low bs)
    → ((e : ℕ) → bound ≡ some e → expected < e)
    → push_bound expected (read_boundaries n (suc i) count) bound cur ≡ ok (bs, rest)
    → Climb expected bs
unfolding Climb push_bound
after_bound n i count expected none cur again rises h = again expected cur _ _ h
after_bound n i count expected (some e) cur again rises h =
    let (later, c, h1, h2) = bind-ok (read_boundaries n (suc i) count e) _ cur h in
    subst (Climb expected) (pushed c h2) (rises e refl, again e cur later c h1)

Climb-pure :
    (expected : ℕ) {bs : List ℕ} (cur : Bytes) {rest : Bytes}
    → pure [] cur ≡ ok (bs, rest)
    → Climb expected bs
unfolding pure Climb
Climb-pure expected {bs} cur h = let e : [] ≡ bs = cc in rw (← e) tt

read_boundaries-Climb :
    (n i count expected : ℕ) (cur : Bytes) {bs : List ℕ} {rest : Bytes}
    → read_boundaries n i count expected cur ≡ ok (bs, rest)
    → Climb expected bs
unfolding read_boundaries
read_boundaries-Climb zero i count expected cur h = Climb-pure expected cur h
read_boundaries-Climb (suc n) i count expected cur h =
    let (bound, c, h1, h2) = bind-ok (read_descriptor i count expected) _ cur h in
    after_bound n i count expected bound c
      (λ low cur bs rest. read_boundaries-Climb n (suc i) count low cur)
      (λ e same. read_descriptor-rises i count expected cur {rest = c} (rw (← same) h1)) h2

-- Behind a guard that let the cursor through.
past_guard {ℓ} :
    {A : Type ℓ} (test : Bool) (e : KvError) (r : Reader A) (cur : Bytes) {x : A × Bytes}
    → (if test then fail e else r) cur ≡ ok x
    → r cur ≡ ok x
unfolding fail
past_guard true e r cur h = absurd cc
past_guard false e r cur h = h

boundaries_of :
    (bs : List ℕ) (cur : Bytes) {m : RangeMap} {rest : Bytes}
    → pure (record { boundaries = bs }) cur ≡ ok (m, rest)
    → bs ≡ m.boundaries
unfolding pure
boundaries_of bs cur {m} h = let e : record { boundaries = bs } ≡ m = cc in ap (λ x. x.boundaries) e

read_map-Climb :
    (cur : Bytes) {m : RangeMap} {rest : Bytes} → read_map cur ≡ ok (m, rest) → Climb 0 m.boundaries
unfolding read_map
read_map-Climb cur {m} h =
    let (version, c1, h1, h2) = bind-ok take_u8 _ cur h in
    let (count, c2, h3, h4) =
      bind-ok take_u32 _ c1 (past_guard (not (version == range_map_version)) _ _ c1 h2) in
    let (bs, c3, h5, h6) =
      bind-ok (read_boundaries count 0 count 0) _ c2 (past_guard (count == 0) _ _ c2 h4) in
    subst (Climb 0) (boundaries_of bs c3 h6) (read_boundaries-Climb count 0 count 0 c2 h5)

-- Whatever bytes the decoder accepts, the boundaries of its map pass the assertions that a map built
-- in the program must pass.
pub with_boundaries-from_descriptor_bytes :
    (bytes : Bytes) (m : RangeMap)
    → from_descriptor_bytes bytes ≡ ok m
    → with_boundaries m.boundaries ≡ some m
unfolding from_descriptor_bytes with_boundaries
with_boundaries-from_descriptor_bytes bytes m h = elim (Result-cases (read_map bytes)) [
  | inl ((m', rest), e) ↦
      let same : m' ≡ m = ground (arith, e, h) in
      let climb = read_map-Climb bytes e in
      rw (← same)
        (ground (arith, Climb-nonzero 0 m'.boundaries climb, Climb-increase 0 m'.boundaries climb))
  | inr (e, bad) ↦ absurd (ground (arith, bad, h))
]
