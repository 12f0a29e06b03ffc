-- ===== src/Btree/Leaf.antt =====
-- `TryInsertLeaf` of src/btree/btree.cc.
use aha_adaptive_hotspot_awa.Common.{
  ℕ, ◌+◌, ◌*◌, ◌<◌, ◌≡◌, ◌⊎◌, inl, inr, refl, List, length, true, false, none, some, ltb, leb,
  arith, Bool-cases,
}
use aha_adaptive_hotspot_awa.Leveldb.{Leveldb, compare_slices}
use aha_adaptive_hotspot_awa.TreePage.Layout.{
  Page, itemid_size, page_get_free_space, page_read_pivot_at_offset,
}
use aha_adaptive_hotspot_awa.TreePage.Search.Bounds.{IsSorted, page_bin_search_insert-IsLowerBound}
use aha_adaptive_hotspot_awa.TreePage.Update.{is_eq, page_update_pivot_at}
use aha_adaptive_hotspot_awa.TreePage.Insert.{
  page_insert_leaf_entry, page_write_leaf_entry_at, count_entry,
}
use aha_adaptive_hotspot_awa.TreeFile.{set_at}
use aha_adaptive_hotspot_awa.Btree.{Btree, try_insert_leaf}

-- What the insert asks for.
abbrev pub room_for : List ℕ → List ℕ → ℕ
room_for key value = length key + length value + 3 * itemid_size

module _ ⦃L : Leveldb⦄ where
  insert_returns :
      (p : Page) (key value : List ℕ)
      → IsSorted p
      → room_for key value < page_get_free_space p
      → (q : Page) × (page_insert_leaf_entry p key value ≡ some q)
  unfolding page_insert_leaf_entry
  insert_returns p key value sorted room =
      let (off, e, _) = page_bin_search_insert-IsLowerBound p key sorted in
      let enough : leb (page_get_free_space p) (length key + length value + itemid_size * 3)
          ≡ false =
        ground arith in
      elim (Bool-cases (is_eq (compare_slices key (page_read_pivot_at_offset p off)))) [
        | inl there ↦ (
          (page_update_pivot_at p off value).0,
          rw (page_insert_leaf_entry, enough, e, there) refl,
        )
        | inr new ↦ (
          count_entry (page_write_leaf_entry_at off p key value),
          rw (page_insert_leaf_entry, enough, e, new) refl,
        )
      ]

  insert_aborts :
      (p : Page) (key value : List ℕ)
      → page_get_free_space p ≡ room_for key value
      → page_insert_leaf_entry p key value ≡ none
  unfolding page_insert_leaf_entry
  insert_aborts p key value just =
      let short : leb (page_get_free_space p) (length key + length value + itemid_size * 3) ≡ true =
        ground arith in
      rw (page_insert_leaf_entry, short) refl

  -- On a leaf in order the insert reports an overflow and changes nothing where the free space is
  -- smaller than what it asks for, stops the program where it is just as large, and else returns with
  -- the page that the insert of the entry gives.
  pub try_insert_leaf_lem :
      (t : Btree) (pg : ℕ) (key value : List ℕ)
      → IsSorted (t.pages pg)
      → ((page_get_free_space (t.pages pg) < room_for key value)
          × (try_insert_leaf pg key value t ≡ some (t, false)))
        ⊎ ((page_get_free_space (t.pages pg) ≡ room_for key value)
            × (try_insert_leaf pg key value t ≡ none))
        ⊎ ((room_for key value < page_get_free_space (t.pages pg))
            × ((q : Page) × (page_insert_leaf_entry (t.pages pg) key value ≡ some q)
                × (try_insert_leaf pg key value t
                    ≡ some (record t { pages = set_at t.pages pg q }, true))))
  unfolding try_insert_leaf
  try_insert_leaf_lem t pg key value sorted =
      let p = t.pages pg in
      elim (Bool-cases (ltb (page_get_free_space p) (room_for key value))) [
        | inl short ↦ inl (ground arith, rw (try_insert_leaf, short) refl)
        | inr room ↦ elim (Bool-cases (ltb (room_for key value) (page_get_free_space p))) [
          | inl more ↦
              let (q, e) = insert_returns p key value sorted (ground arith) in
              inr (inr (ground arith, (q, e, rw (try_insert_leaf, room, e) refl)))
          | inr no_more ↦
              let just : page_get_free_space p ≡ room_for key value = ground arith in
              inr (inl (just, rw (try_insert_leaf, room, insert_aborts p key value just) refl))
        ]
      ]
