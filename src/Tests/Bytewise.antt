-- ===== src/Tests/Bytewise.antt =====
-- A comparison of slices byte by byte and a little-endian coding, which meet what the index takes
-- from the LevelDB sources.
use aha_adaptive_hotspot_awa.Common.{
  ℕ, ◌+◌, ◌*◌, ◌/◌, ◌%◌, ◌<◌, ◌≡◌, refl, List, [], ◌∷◌, Ordering, compare, length, get_or, arith,
  word_mod,
}
use aha_adaptive_hotspot_awa.Leveldb.{Leveldb}

then_compare : Ordering → Ordering → Ordering
then_compare Ordering.lt o = Ordering.lt
then_compare Ordering.gt o = Ordering.gt
then_compare Ordering.eq o = o

unfoldable pub lex : List ℕ → List ℕ → Ordering
unfolding then_compare
lex [] [] = Ordering.eq
lex [] (y ∷ ys) = Ordering.lt
lex (x ∷ xs) [] = Ordering.gt
lex (x ∷ xs) (y ∷ ys) = then_compare (compare x y) (lex xs ys)

pub lex_self : (a : List ℕ) → lex a a ≡ Ordering.eq
unfolding lex
lex_self [] = refl
lex_self (x ∷ xs) = ground (arith, lex_self xs)

pub lex_eq : (a b : List ℕ) → lex a b ≡ Ordering.eq → a ≡ b
unfolding lex
lex_eq [] [] h = refl
lex_eq [] (y ∷ ys) h = cc
lex_eq (x ∷ xs) [] h = cc
lex_eq (x ∷ xs) (y ∷ ys) h = ground (arith, lex_eq xs ys)

pub lex_lt : (a b : List ℕ) → lex a b ≡ Ordering.lt → lex b a ≡ Ordering.gt
unfolding lex
lex_lt [] [] h = cc
lex_lt [] (y ∷ ys) h = refl
lex_lt (x ∷ xs) [] h = cc
lex_lt (x ∷ xs) (y ∷ ys) h = ground (arith, lex_lt xs ys)

pub lex_gt : (a b : List ℕ) → lex a b ≡ Ordering.gt → lex b a ≡ Ordering.lt
unfolding lex
lex_gt [] [] h = cc
lex_gt [] (y ∷ ys) h = cc
lex_gt (x ∷ xs) [] h = refl
lex_gt (x ∷ xs) (y ∷ ys) h = ground (arith, lex_gt xs ys)

pub lex_trans :
    (a b c : List ℕ) → lex a b ≡ Ordering.lt → lex b c ≡ Ordering.lt → lex a c ≡ Ordering.lt
unfolding lex
lex_trans [] [] c h k = cc
lex_trans [] (y ∷ ys) [] h k = cc
lex_trans [] (y ∷ ys) (z ∷ zs) h k = refl
lex_trans (x ∷ xs) [] c h k = cc
lex_trans (x ∷ xs) (y ∷ ys) [] h k = cc
lex_trans (x ∷ xs) (y ∷ ys) (z ∷ zs) h k = ground (arith, lex_trans xs ys zs)

unfoldable pub little_endian : ℕ → List ℕ
little_endian x = x % 256 ∷ x / 256 % 256 ∷ x / 65536 % 256 ∷ x / 16777216 % 256 ∷ []

unfoldable pub from_little_endian : List ℕ → ℕ
from_little_endian bs =
    get_or bs 0 0 + get_or bs 1 0 * 256 + get_or bs 2 0 * 65536 + get_or bs 3 0 * 16777216

pub little_endian-length : (x : ℕ) → length (little_endian x) ≡ 4
unfolding little_endian
little_endian-length x = refl

pub little_endian_back : (x : ℕ) → x < word_mod → from_little_endian (little_endian x) ≡ x
unfolding little_endian from_little_endian
little_endian_back x h = omega arith

instance abbrev pub bytewise : Leveldb
bytewise = record {
  slice_compare = lex;
  compare_self = lex_self;
  compare_eq = lex_eq;
  compare_lt = lex_lt;
  compare_gt = lex_gt;
  compare_trans = lex_trans;
  encode_fixed32 = little_endian;
  decode_fixed32 = from_little_endian;
  length_encode = little_endian-length;
  decode_encode = little_endian_back;
}
