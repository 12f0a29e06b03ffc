-- ===== src/Tests/Pages.antt =====
-- A leaf page with two entries, and the theorems on pages at it.
use aha_adaptive_hotspot_awa.Common.{
  ℕ, zero, suc, ◌<◌, ◌≡◌, ◌≢◌, ◌+◌, sym, ◌∙◌, ◌⊎◌, inl, inr, refl, List, [], ◌∷◌, true, false, some,
  arith, length,
}
use Prim.Native.Nat.{◌≤◌}
use aha_adaptive_hotspot_awa.TreePage.Memory.{read, memcpy}
use aha_adaptive_hotspot_awa.TreePage.Layout.{
  Page, decode_int32_at, entry_pos, key_at, val_at, decode_leaf_entry, page_read_pivot_at_offset,
}
use aha_adaptive_hotspot_awa.TreePage.Entries.{size_at, tail_size}
use aha_adaptive_hotspot_awa.TreePage.Valid.{IsValid, entry_size}
use aha_adaptive_hotspot_awa.TreePage.Search.{page_bin_search, page_bin_search_insert}
use aha_adaptive_hotspot_awa.TreePage.Search.Bounds.{
  IsSorted, IsLowerBound, IsFloor, against, page_bin_search_insert-IsLowerBound,
  page_bin_search-IsFloor,
}
use aha_adaptive_hotspot_awa.TreePage.Insert.{page_insert_leaf_entry}
use aha_adaptive_hotspot_awa.TreePage.Remove.Offset.{page_remove_offset-free_end}
use aha_adaptive_hotspot_awa.TreePage.Remove.{page_remove_offset, page_remove_entry}
use aha_adaptive_hotspot_awa.TreePage.Update.{page_update_pivot_at}
use aha_adaptive_hotspot_awa.TreePage.Update.Value.{Updated, page_update_pivot_at-Updated}
use aha_adaptive_hotspot_awa.TreePage.Lookup.{get_value_with_key}
use aha_adaptive_hotspot_awa.TreePage.Lookup.AfterInsert.{get-insert_self, get-insert_other}
use aha_adaptive_hotspot_awa.TreePage.Lookup.AfterRemove.{
  get-remove_self, get-remove_other, page_remove_entry_absent,
}
use aha_adaptive_hotspot_awa.Tests.Bytewise.{bytewise, lex, from_little_endian}

abbrev pub key_a : List ℕ
key_a = 97 ∷ 2 ∷ []

abbrev pub key_b : List ℕ
key_b = 98 ∷ 1 ∷ []

abbrev pub val_a : List ℕ
val_a = 8 ∷ 9 ∷ 10 ∷ []

abbrev val_b : List ℕ
val_b = 5 ∷ 6 ∷ 7 ∷ []

-- Two entries, the later one lower, and their slots.
abbrev pub pair : Page
pair = record {
  opt_lock = 4;
  page_id = 7;
  item_num = 2;
  left = 0;
  right = 0;
  free_start = 48;
  free_end = 8166;
  is_leaf = true;
  is_dirty = false;
  bytes = memcpy (memcpy (λ _. 0) 40 (230 ∷ 31 ∷ 0 ∷ 0 ∷ 243 ∷ 31 ∷ 0 ∷ 0 ∷ [])) 8166 (
      2 ∷ 0 ∷ 0 ∷ 0 ∷ 97 ∷ 2 ∷ 3 ∷ 0 ∷ 0 ∷ 0 ∷ 8 ∷ 9 ∷ 10 ∷ 2 ∷ 0 ∷ 0 ∷ 0 ∷ 98 ∷ 1 ∷ 3 ∷ 0 ∷ 0 ∷ 0
      ∷ 5 ∷ 6 ∷ 7 ∷ []);
}

pos_a : entry_pos pair 0 ≡ 8166
unfolding entry_pos decode_int32_at read memcpy from_little_endian
pos_a = refl

pos_b : entry_pos pair 1 ≡ 8179
unfolding entry_pos decode_int32_at read memcpy from_little_endian
pos_b = refl

size_a : entry_size pair 0 ≡ 13
unfolding size_at tail_size entry_pos decode_int32_at read memcpy from_little_endian
size_a = refl

size_b : entry_size pair 1 ≡ 13
unfolding size_at tail_size entry_pos decode_int32_at read memcpy from_little_endian
size_b = refl

pub entry_a : decode_leaf_entry pair 0 ≡ (key_a, val_a)
unfolding decode_leaf_entry key_at val_at entry_pos decode_int32_at read memcpy from_little_endian
entry_a = refl

pub entry_b : decode_leaf_entry pair 1 ≡ (key_b, val_b)
unfolding decode_leaf_entry key_at val_at entry_pos decode_int32_at read memcpy from_little_endian
entry_b = refl

pivot_a : page_read_pivot_at_offset pair 0 ≡ key_a
unfolding page_read_pivot_at_offset decode_leaf_entry key_at val_at entry_pos decode_int32_at read
    memcpy from_little_endian
pivot_a = refl

pivot_b : page_read_pivot_at_offset pair 1 ≡ key_b
unfolding page_read_pivot_at_offset decode_leaf_entry key_at val_at entry_pos decode_int32_at read
    memcpy from_little_endian
pivot_b = refl

-- A statement for every offset of the page.
pub each {ℓ} : (P : ℕ → Type ℓ) → P 0 → P 1 → (i : ℕ) → i < 2 → P i
each P a b zero h = a
each P a b (suc zero) h = b
each P a b (suc (suc i)) h = absurd (omega arith)

pair_apart :
    (i j : ℕ)
    → i < 2
    → j < 2
    → i ≢ j
    → (entry_pos pair i + entry_size pair i ≤ entry_pos pair j)
      ⊎ (entry_pos pair j + entry_size pair j ≤ entry_pos pair i)
pair_apart zero zero h k ne = absurd (ne refl)
pair_apart zero (suc zero) h k ne = inl (omega (arith, pos_a, pos_b, size_a))
pair_apart (suc zero) zero h k ne = inr (omega (arith, pos_a, pos_b, size_a))
pair_apart (suc zero) (suc zero) h k ne = absurd (ne refl)
pair_apart (suc (suc i)) j h k ne = absurd (omega arith)
pair_apart zero (suc (suc j)) h k ne = absurd (omega arith)
pair_apart (suc zero) (suc (suc j)) h k ne = absurd (omega arith)

pair-IsValid : IsValid pair
pair-IsValid = record {
  start = refl;
  room = omega arith;
  top = omega arith;
  low = each _ (omega (arith, pos_a)) (omega (arith, pos_b));
  high = each _ (omega (arith, pos_a, size_a)) (omega (arith, pos_b, size_b));
  apart = pair_apart;
}

pub pair-IsSorted : IsSorted pair
unfolding lex
pair-IsSorted zero zero h k = absurd (omega arith)
pair-IsSorted zero (suc zero) h k = rw (pivot_a, pivot_b)
pair-IsSorted (suc i) zero h k = absurd (omega arith)
pair-IsSorted (suc i) (suc zero) h k = absurd (omega arith)
pair-IsSorted i (suc (suc j)) h k = absurd (omega arith)

-- A third key between the two.
abbrev pub key_m : List ℕ
key_m = 97 ∷ 3 ∷ []

page_bin_search_insert-IsLowerBound_example :
    (off : ℕ) × (page_bin_search_insert pair key_m ≡ some off)
    × IsLowerBound (against pair key_m) 2 off
page_bin_search_insert-IsLowerBound_example =
    page_bin_search_insert-IsLowerBound pair key_m pair-IsSorted

page_bin_search-IsFloor_example :
    (off : ℕ) × (page_bin_search pair key_m ≡ some off) × IsFloor (against pair key_m) 2 off
page_bin_search-IsFloor_example = page_bin_search-IsFloor pair key_m pair-IsSorted (omega arith)

pub nonempty : (x : ℕ) (xs : List ℕ) → x ∷ xs ≢ []
nonempty x xs e = cc

-- All values of the page have three bytes.
pub three_bytes : (i : ℕ) → i < 2 → ◌≡◌ {A = ℕ} 3 (length (decode_leaf_entry pair i).1)
three_bytes = each _ (rw entry_a) (rw entry_b)

get-insert_self_example :
    (p' : Page) × (page_insert_leaf_entry pair key_b val_a ≡ some p')
    × IsValid p'
    × IsSorted p'
    × (get_value_with_key p' key_b ≡ some val_a)
get-insert_self_example =
    get-insert_self pair key_b val_a pair-IsValid pair-IsSorted refl (omega arith) (nonempty _ _)
      (λ i h e. three_bytes i h)

-- The page with another value for the second key.
stored_b :
    (p' : Page) × (page_insert_leaf_entry pair key_b val_a ≡ some p')
    × IsValid p'
    × IsSorted p'
    × (get_value_with_key p' key_b ≡ some val_a)
stored_b =
    get-insert_self pair key_b val_a pair-IsValid pair-IsSorted refl (omega arith) (nonempty _ _)
      (λ i h e. three_bytes i h)

get-insert_other_example : get_value_with_key stored_b.0 key_a ≡ get_value_with_key pair key_a
get-insert_other_example =
    get-insert_other pair key_b val_a pair-IsValid pair-IsSorted refl (omega arith) (nonempty _ _)
      (λ i h e. three_bytes i h) stored_b.0 key_a stored_b.1 (nonempty _ _) (λ e. cc)

equal_sizes : (i : ℕ) → i + 1 < 2 → entry_size pair (i + 1) ≡ entry_size pair i
equal_sizes zero h = size_b ∙ sym size_a
equal_sizes (suc i) h = absurd (omega arith)

get-remove_self_example :
    (p' : Page) × (page_remove_entry pair key_a ≡ some (p', true))
    × IsValid p'
    × IsSorted p'
    × (p'.item_num + 1 ≡ 2)
    × (get_value_with_key p' key_a ≡ some [])
get-remove_self_example =
    get-remove_self pair key_a pair-IsValid pair-IsSorted refl (nonempty _ _) equal_sizes 0
      (omega arith) pivot_a

-- The page without the first key.
removed_a :
    (p' : Page) × (page_remove_entry pair key_a ≡ some (p', true))
    × IsValid p'
    × IsSorted p'
    × (p'.item_num + 1 ≡ 2)
    × (get_value_with_key p' key_a ≡ some [])
removed_a =
    get-remove_self pair key_a pair-IsValid pair-IsSorted refl (nonempty _ _) equal_sizes 0
      (omega arith) pivot_a

get-remove_other_example : get_value_with_key removed_a.0 key_b ≡ get_value_with_key pair key_b
get-remove_other_example =
    get-remove_other pair key_a pair-IsValid pair-IsSorted refl (nonempty _ _) equal_sizes 0
      (omega arith) pivot_a removed_a.0 key_b removed_a.1 (nonempty _ _) (λ e. cc)

page_remove_entry_absent_example : page_remove_entry pair key_m ≡ some (pair, false)
page_remove_entry_absent_example =
    page_remove_entry_absent pair key_m pair-IsValid pair-IsSorted refl (nonempty _ _)
      (each _ (rw pivot_a (λ e. cc)) (rw pivot_b (λ e. cc)))

page_update_pivot_at-Updated_example :
    ((page_update_pivot_at pair 1 val_a).1 ≡ true)
    × Updated pair (page_update_pivot_at pair 1 val_a).0 1 val_a
page_update_pivot_at-Updated_example =
    page_update_pivot_at-Updated pair 1 val_a pair-IsValid refl (omega arith)
      (three_bytes 1 (omega arith))

page_remove_offset-free_end_example :
    (page_remove_offset pair 0).free_end ≡ 8166 + entry_size pair 1
page_remove_offset-free_end_example =
    page_remove_offset-free_end pair 0 pair-IsValid (omega arith) (omega arith)
