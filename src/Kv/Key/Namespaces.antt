-- ===== src/Kv/Key/Namespaces.antt =====
-- The namespaces of system keys and their separation.
use crabgresql.Prelude.{
  ℕ, ◌<◌, ◌≢◌, ◌^◌, ◌≡◌, refl, ap, ap₂, [], ◌∷◌, ◌++◌, arith, append_assoc, All, drop, sym, ◌∙◌,
  ◌==◌, if◌then◌else◌, length,
}
use crabgresql.Bytes.{Bytes, as_bytes}
use crabgresql.Bytes.BigEndian.{be_bytes, be_value, be_value-be_bytes}
use crabgresql.Kv.Key.{
  catalog_key, seq_key, meta_next_table_id_key, fdw_key, server_key, user_mapping_key,
  meta_range_map_key, next_xid_key, meta_next_global_xid_key, clog_scan_lo_key, clog_key,
}

-- The byte `c` does not occur.
abbrev pub Lacks : ℕ → Bytes → Type 0
Lacks c = All (λ b. b ≢ c)

-- A byte that occurs in neither front part separates the fronts from the rests.
pub split_unique :
    (c : ℕ) (a b x y : Bytes) → Lacks c a → Lacks c b → a ++ c ∷ x ≡ b ++ c ∷ y → (a ≡ b) × (x ≡ y)
split_unique c [] [] x y p q h = (refl, ground arith)
split_unique c [] (b ∷ bs) x y p q h = absurd (ground arith)
split_unique c (a ∷ as') [] x y p q h = absurd (ground arith)
split_unique c (a ∷ as') (b ∷ bs) x y p q h = ground (arith, split_unique c as' bs x y)

pub data MetaKey : Type 0 where
  next_table_id range_map next_xid next_global_xid clog_scan_lo : MetaKey

-- Every system key that the source builds, by its builder.
pub data SystemKey : Type 0 where
  catalog : Bytes → SystemKey
  seq : ℕ → SystemKey
  meta : MetaKey → SystemKey
  fdw : Bytes → SystemKey
  server : Bytes → SystemKey
  user_mapping : Bytes → Bytes → SystemKey
  clog : ℕ → SystemKey

abbrev pub meta_key : MetaKey → Bytes
meta_key next_table_id = meta_next_table_id_key
meta_key range_map = meta_range_map_key
meta_key next_xid = next_xid_key
meta_key next_global_xid = meta_next_global_xid_key
meta_key clog_scan_lo = clog_scan_lo_key

abbrev pub encode : SystemKey → Bytes
encode (catalog n) = catalog_key n
encode (seq t) = seq_key t
encode (meta m) = meta_key m
encode (fdw n) = fdw_key n
encode (server n) = server_key n
encode (user_mapping u s) = user_mapping_key u s
encode (clog x) = clog_key x

-- Table ids are `u32`, xids `u64`, and user names hold no NUL.
abbrev pub IsKey : SystemKey → Type 0
IsKey (seq t) = t < 2 ^ 32
IsKey (user_mapping u s) = Lacks 0 u
IsKey (clog x) = x < 2 ^ 64
IsKey _ = Unit

tag : SystemKey → Bytes
tag (catalog n) = as_bytes "catalog"
tag (seq t) = as_bytes "seq"
tag (meta m) = as_bytes "meta"
tag (fdw n) = as_bytes "fdw"
tag (server n) = as_bytes "fsrv"
tag (user_mapping u s) = as_bytes "umap"
tag (clog x) = as_bytes "clog"

meta_name : MetaKey → Bytes
meta_name next_table_id = as_bytes "next_table_id"
meta_name range_map = as_bytes "range_map"
meta_name next_xid = as_bytes "next_xid"
meta_name next_global_xid = as_bytes "next_global_xid"
meta_name clog_scan_lo = as_bytes "clog_scan_lo"

body : SystemKey → Bytes
unfolding meta_name
body (catalog n) = n
body (seq t) = be_bytes 4 t
body (meta m) = meta_name m
body (fdw n) = n
body (server n) = n
body (user_mapping u s) = u ++ 0 ∷ s
body (clog x) = be_bytes 8 x

tag-Lacks : (k : SystemKey) → Lacks b'/' (tag k)
unfolding tag
tag-Lacks (catalog n) = omega arith
tag-Lacks _ = omega arith

-- Every system key is the prefix of its tag and a body.
encode_parts : (k : SystemKey) → encode k ≡ be_bytes 4 0 ++ (tag k ++ b'/' ∷ body k)
unfolding tag body catalog_key seq_key meta_next_table_id_key fdw_key server_key user_mapping_key
    meta_range_map_key next_xid_key meta_next_global_xid_key clog_scan_lo_key clog_key
encode_parts (catalog n) = simp append_assoc
encode_parts (meta next_table_id) = simp append_assoc
encode_parts (meta _) = simp append_assoc
encode_parts _ = simp append_assoc

parts_unique : (k k' : SystemKey) → encode k ≡ encode k' → (tag k ≡ tag k') × (body k ≡ body k')
unfolding be_bytes
parts_unique k k' h =
    split_unique b'/' (tag k) (tag k') (body k) (body k') (tag-Lacks k) (tag-Lacks k')
      (ap (drop 4) (sym (encode_parts k) ∙ h ∙ encode_parts k'))

-- The names under `meta` differ in length.
of_length : ℕ → MetaKey
of_length n =
    if n == 13
    then next_table_id
    else if n == 9
    then range_map
    else if n == 8
    then next_xid
    else if n == 15
    then next_global_xid
    else clog_scan_lo

of_length-meta_name : (m : MetaKey) → of_length (length (meta_name m)) ≡ m
unfolding of_length meta_name
of_length-meta_name next_table_id = refl
of_length-meta_name _ = refl

meta_name-injective : (m m' : MetaKey) → meta_name m ≡ meta_name m' → m ≡ m'
meta_name-injective m m' h =
    sym (of_length-meta_name m) ∙ ap (λ l. of_length (length l)) h ∙ of_length-meta_name m'

be_bytes-injective : (n v w : ℕ) → v < 256 ^ n → w < 256 ^ n → be_bytes n v ≡ be_bytes n w → v ≡ w
be_bytes-injective n v w hv hw h =
    sym (be_value-be_bytes n v hv) ∙ ap be_value h ∙ be_value-be_bytes n w hw

-- Keys with one tag and one body are one key.
parts-injective :
    (k k' : SystemKey) → IsKey k → IsKey k' → tag k ≡ tag k' → body k ≡ body k' → k ≡ k'
unfolding tag body
parts-injective (catalog n) (catalog n') w w' t b = ap catalog b
parts-injective (seq x) (seq x') w w' t b = ap seq (be_bytes-injective 4 x x' w w' b)
parts-injective (meta m) (meta m') w w' t b = ap meta (meta_name-injective m m' b)
parts-injective (fdw n) (fdw n') w w' t b = ap fdw b
parts-injective (server n) (server n') w w' t b = ap server b
parts-injective (user_mapping u s) (user_mapping u' s') w w' t b =
    let (p, q) = split_unique 0 u u' s s' w w' b in ap₂ user_mapping p q
parts-injective (clog x) (clog x') w w' t b = ap clog (be_bytes-injective 8 x x' w w' b)
parts-injective _ _ w w' t b = absurd (ground arith)

-- Two system keys are equal only if the same builder made them from the same contents, where table
-- ids are `u32`, xids have 64 bits and user names hold no NUL.
pub encode_injective : (k k' : SystemKey) → IsKey k → IsKey k' → encode k ≡ encode k' → k ≡ k'
encode_injective k k' w w' h = let (t, b) = parts_unique k k' h in parts-injective k k' w w' t b
