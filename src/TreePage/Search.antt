-- ===== src/TreePage/Search.antt =====
-- src/wot_buf_mgr/tree_page.cc: the binary searches of a page and the offsets found with them.
pub mod Loop
pub mod Bounds
pub mod Find
use aha_adaptive_hotspot_awa.Common.{
  ℕ, zero, suc, ◌+◌, ◌-◌, ◌/◌, List, take, length, true, false, ◌==◌, Option, none, some, Ordering,
  ltb, if◌then◌else◌,
}
use aha_adaptive_hotspot_awa.Leveldb.{Leveldb, compare_slices}
use aha_adaptive_hotspot_awa.TreePage.Layout.{Page, page_read_pivot_at_offset, page_compare}

-- How a search loop ends: at an equal pivot, or with `low` where the bounds meet.
pub data Found : Type 0 where
  hit : ℕ → Found
  meet : ℕ → Found

-- The loop of the searches over the comparison with the pivot at an offset; a failed assertion
-- of the comparison ends it with `none`. Fuel: the number of items.
unfoldable pub search_loop : (ℕ → Option Ordering) → ℕ → ℕ → ℕ → Option Found
search_loop cmp zero low high = some (meet low)
search_loop cmp (suc fuel) low high = elim (ltb low high) [
  | true ↦ elim (cmp (low + (high - low) / 2)) [
    | some Ordering.eq ↦ some (hit (low + (high - low) / 2))
    | some Ordering.gt ↦ search_loop cmp fuel (low + (high - low) / 2 + 1) high
    | some Ordering.lt ↦ search_loop cmp fuel low (low + (high - low) / 2)
    | none ↦ none
  ]
  | false ↦ some (meet low)
]

-- Behind the loop the insert searches step over a last pivot that is smaller.
unfoldable pub after_insert_search : (ℕ → Option Ordering) → Option Found → Option ℕ
after_insert_search cmp none = none
after_insert_search cmp (some (hit mid)) = some mid
after_insert_search cmp (some (meet low)) = elim (cmp low) [
  | some Ordering.gt ↦ some (low + 1)
  | some _ ↦ some low
  | none ↦ none
]

-- The read search steps back to the last pivot that is not greater than the key.
unfoldable pub after_search : (ℕ → Option Ordering) → Option Found → Option ℕ
after_search cmp none = none
after_search cmp (some (hit mid)) = some mid
after_search cmp (some (meet low)) = elim (cmp low) [
  | some Ordering.lt ↦ some (if low == 0 then low else low - 1)
  | some _ ↦ some low
  | none ↦ none
]

unfoldable pub after_highkey_search : Option Found → Option ℕ
after_highkey_search none = none
after_highkey_search (some (hit mid)) = some mid
after_highkey_search (some (meet low)) = some low

-- `Slice(key.data(), key.size() - 8)`: an internal key without its sequence number. `none` for a
-- shorter key: the size wraps there and the source reads out of bounds.
unfoldable pub pure_key : List ℕ → Option (List ℕ)
pure_key key = if ltb (length key) 8 then none else some (take (length key - 8) key)

abbrev pub map_both : {A B C : Type 0} → (A → B → C) → Option A → Option B → Option C
map_both f none y = none
map_both f (some x) none = none
map_both f (some x) (some y) = some (f x y)

module _ ⦃L : Leveldb⦄ where
  unfoldable pub page_bin_search_insert : Page → List ℕ → Option ℕ
  page_bin_search_insert p key =
      if p.item_num == 0
      then some 0
      else after_insert_search (page_compare p key)
          (search_loop (page_compare p key) p.item_num 0 (p.item_num - 1))

  unfoldable pub compare_pure : Page → List ℕ → ℕ → Option Ordering
  compare_pure p key off =
      map_both compare_slices (pure_key key) (pure_key (page_read_pivot_at_offset p off))

  unfoldable pub page_bin_search_with_seq : Page → List ℕ → Option ℕ
  page_bin_search_with_seq p key =
      if p.item_num == 0
      then some 0
      else after_insert_search (compare_pure p key)
          (search_loop (compare_pure p key) p.item_num 0 (p.item_num - 1))

  unfoldable pub page_bin_search : Page → List ℕ → Option ℕ
  page_bin_search p key =
      if p.item_num == 0
      then some 0
      else after_search (page_compare p key)
          (search_loop (page_compare p key) p.item_num 0 (p.item_num - 1))

  unfoldable pub page_bin_search_highkey : Page → List ℕ → Option ℕ
  page_bin_search_highkey p key =
      if p.item_num == 0
      then some 0
      else after_highkey_search (search_loop (page_compare p key) p.item_num 0 (p.item_num - 1))
