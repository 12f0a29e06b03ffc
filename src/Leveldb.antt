-- ===== src/Leveldb.antt =====
-- What the index takes from the LevelDB sources copied into src/leveldb: `Slice::compare`
-- (include/slice.h) and the 32-bit coding of util/coding.h. A `Slice` is its list of bytes.
use aha_adaptive_hotspot_awa.Common.{ℕ, ◌≡◌, ◌<◌, List, Ordering, word_mod, length}

-- `compare` stands for the sign of the `int` that the source returns: `gt` where the receiver is
-- the greater slice.
pub record Leveldb : Type 0 where
  pub slice_compare : List ℕ → List ℕ → Ordering
  pub compare_self : (a : List ℕ) → slice_compare a a ≡ Ordering.eq
  pub compare_eq : (a b : List ℕ) → slice_compare a b ≡ Ordering.eq → a ≡ b
  pub compare_lt :
      (a b : List ℕ) → slice_compare a b ≡ Ordering.lt → slice_compare b a ≡ Ordering.gt
  pub compare_gt :
      (a b : List ℕ) → slice_compare a b ≡ Ordering.gt → slice_compare b a ≡ Ordering.lt
  pub compare_trans :
      (a b c : List ℕ)
      → slice_compare a b ≡ Ordering.lt
      → slice_compare b c ≡ Ordering.lt
      → slice_compare a c ≡ Ordering.lt
  pub encode_fixed32 : ℕ → List ℕ
  pub decode_fixed32 : List ℕ → ℕ
  pub length_encode : (x : ℕ) → length (encode_fixed32 x) ≡ 4
  pub decode_encode : (x : ℕ) → x < word_mod → decode_fixed32 (encode_fixed32 x) ≡ x

module _ ⦃L : Leveldb⦄ where
  abbrev pub compare_slices : List ℕ → List ℕ → Ordering
  compare_slices = L.slice_compare

  abbrev pub encode : ℕ → List ℕ
  encode = L.encode_fixed32

  abbrev pub decode : List ℕ → ℕ
  decode = L.decode_fixed32
