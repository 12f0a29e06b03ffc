-- ===== src/Btree/Query.antt =====
-- `Query` of src/btree/btree.cc.
use aha_adaptive_hotspot_awa.Common.{
  ℕ, ◌+◌, ◌≡◌, refl, List, [], true, none, some, has, ◌==◌, ◌&&◌, not, if◌then◌else◌, arith, inl,
  inr, Bool-cases,
}
use aha_adaptive_hotspot_awa.Leveldb.{Leveldb, compare_slices}
use aha_adaptive_hotspot_awa.TreePage.Layout.{
  Page, page_read_pivot_at_offset, page_read_value_at_offset,
}
use aha_adaptive_hotspot_awa.TreePage.Search.{page_bin_search}
use aha_adaptive_hotspot_awa.TreePage.Search.Bounds.{IsSorted, page_bin_search-IsFloor}
use aha_adaptive_hotspot_awa.TreePage.Update.{is_eq, page_find_offset}
use aha_adaptive_hotspot_awa.TreePage.Lookup.{get_value_with_key}
use aha_adaptive_hotspot_awa.Btree.{returned, waiting, Btree, lock_node, query}
use aha_adaptive_hotspot_awa.Btree.Locks.{IsHeldBy, held, lock_node_held, write_lock_held}
use aha_adaptive_hotspot_awa.LockManager.Table.{LockTable, waits, tree_write_lock}
use aha_adaptive_hotspot_awa.Btree.Descent.{IsTree, Route, search_down_lem}

module _ ⦃L : Leveldb⦄ where
  search_returns :
      (p : Page) (key : List ℕ) → IsSorted p → (off : ℕ) × (page_bin_search p key ≡ some off)
  unfolding page_bin_search
  search_returns p key sorted = elim (Bool-cases (p.item_num == 0)) [
    | inl z ↦ (0, rw (page_bin_search, z) refl)
    | inr some_item ↦
        let (off, e, _) = page_bin_search-IsFloor p key sorted (ground arith) in (off, e)
  ]

  value_returns :
      (p : Page) (key : List ℕ)
      → p.is_leaf ≡ true
      → IsSorted p
      → (value : List ℕ) × (get_value_with_key p key ≡ some value)
  unfolding get_value_with_key page_find_offset
  value_returns p key is_leaf sorted =
      let (off, e) = search_returns p key sorted in
      (
        elim (if p.is_leaf && not (is_eq (compare_slices key (page_read_pivot_at_offset p off)))
            then none
            else some off) [ none ↦ [] | some o ↦ page_read_value_at_offset p o ],
        rw (get_value_with_key, page_find_offset, e, is_leaf) refl,
      )

  -- In a tree of the height that it says, with leaves in order and no lock held, a query returns what
  -- the leaf for the key has for it and leaves the pages as they are. It also leaves that leaf's lock
  -- with its writer and nobody else, so that a further write lock of the leaf waits.
  pub query_lem :
      (h : ℕ) (key : List ℕ) (t : Btree)
      → t.tree_height ≡ h + 1
      → IsTree t.pages h t.root_page_id
      → ((pg : ℕ) → (t.pages pg).is_leaf ≡ true → IsSorted (t.pages pg))
      → IsHeldBy t.lock_mgr []
      → (leaf : ℕ) × (value : List ℕ) × (u : Btree) × (query key t ≡ returned (value, u))
        × Route t.pages key t.root_page_id leaf
        × (get_value_with_key (t.pages leaf) key ≡ some value)
        × (u.pages ≡ t.pages)
        × (lock_node leaf u ≡ waiting)
        × (u.lock_mgr leaf ≡ some (held leaf))
        × ((l : LockTable) × (tree_write_lock u.lock_mgr leaf ≡ waits l))
  unfolding query has
  query_lem h key t height tree sorted free =
      let (leaf, parents, l, down, route, is_leaf, by) =
        search_down_lem h key [] t height tree free in
      let (value, e) = value_returns (t.pages leaf) key is_leaf (sorted leaf is_leaf) in
      let u : Btree = record t { lock_mgr = l } in
      let same : (leaf == leaf) ≡ true = ground arith in
      let own : l leaf ≡ some (held leaf) = rw (by leaf, has, same) refl in
      (
        leaf,
        value,
        u,
        rw (query, down, e) refl,
        route,
        e,
        refl,
        lock_node_held u leaf own,
        own,
        write_lock_held l leaf own,
      )
