-- ===== src/Btree/Overflow/Leaves.antt =====
-- src/btree/btree.cc, `InsertAndSplitLeafPages`: the tree behind the split of a full leaf.
use aha_adaptive_hotspot_awa.Common.{
  ℕ, ◌+◌, ◌-◌, ◌/◌, ◌≤◌, ◌<◌, ◌≡◌, ◌≢◌, refl, true, false, List, [], ◌∷◌, length, arith, has, ◌==◌,
  ◌||◌, not,
}
use aha_adaptive_hotspot_awa.Leveldb.{Leveldb}
use aha_adaptive_hotspot_awa.TreePage.Layout.{
  Page, page_highkey, page_read_pivot_at_offset, decode_leaf_entry,
}
use aha_adaptive_hotspot_awa.TreePage.Search.Bounds.{IsSorted}
use aha_adaptive_hotspot_awa.TreePage.Insert.Moved.{entry_key, cost_from}
use aha_adaptive_hotspot_awa.LockManager.Table.{LockTable}
use aha_adaptive_hotspot_awa.Btree.{returned, Btree}
use aha_adaptive_hotspot_awa.Btree.Locks.{IsHeldBy, lock_node_lem, unlock_node_lem}
use aha_adaptive_hotspot_awa.Btree.Overflow.{set_page, allocate_page, insert_and_split_leaf_pages}
use aha_adaptive_hotspot_awa.Btree.Overflow.LeafSplit.Halves.{new_cost}
use aha_adaptive_hotspot_awa.Btree.Overflow.LeafSplit.Lookups.{LeafSplit, split_leaf_lem}

-- The two pages stand in the tree, and the others are as they were.
abbrev pub split_tree : Btree → ℕ → Page → Page → LockTable → Btree
split_tree t pg page child l =
    record (set_page t.new_id child (set_page pg page (allocate_page t).0)) { lock_mgr = l }

module _ ⦃L : Leveldb⦄ (t : Btree) (pg : ℕ) (key val : List ℕ) where
  abbrev src : Page
  src = t.pages pg

  abbrev half : ℕ
  half = src.item_num / 2

  -- In a tree whose next page number is neither 0 nor locked, a full leaf in order that has at least
  -- two entries, no empty key and, where it has the new key already, a value as long as the new
  -- one, is split if each half has room for the new entry: the split returns, holds the locks
  -- that were held before it, and leaves only the leaf and the new page changed. Both are well-formed
  -- and in order, the leaf is linked to the new page and that to the old neighbour. The two high
  -- keys are passed up with their pages. Take for a key the leaf's page, where the key is not greater
  -- than the high key passed up with it, and else the new page: there the new key has its value, and
  -- each other nonempty key what the old leaf had for it.
  pub insert_and_split_leaf_pages_lem :
      (stack : List ℕ)
      → IsSorted src
      → src.is_leaf ≡ true
      → ((i : ℕ) → i < src.item_num → entry_key src i ≢ [])
      → key ≢ []
      → ((i : ℕ)
          → i < src.item_num
          → page_read_pivot_at_offset src i ≡ key
          → length val ≡ length (decode_leaf_entry src i).1)
      → 2 ≤ src.item_num
      → 40 + cost_from src 0 half + new_cost key val < 8192
      → 40 + cost_from src half (src.item_num - half) + new_cost key val < 8192
      → t.new_id ≢ 0
      → IsHeldBy t.lock_mgr stack
      → has t.new_id stack ≡ false
      → (page child : Page) × (l : LockTable) × (insert_and_split_leaf_pages pg key val t
          ≡ returned (
            (page_highkey page, pg) ∷ (page_highkey child, t.new_id) ∷ [],
            split_tree t pg page child l,
          ))
        × LeafSplit src t.new_id key val page child
        × IsHeldBy l stack
  unfolding insert_and_split_leaf_pages
  insert_and_split_leaf_pages_lem stack sorted leaf keys some_key same two low_room high_room number
        by free =
      let (page, child, split, s) =
        split_leaf_lem src sorted leaf keys key val some_key same pg t.new_id two low_room
          high_room in
      let (l, locked, by') = lock_node_lem (allocate_page t).0 t.new_id stack by free in
      let (l', unlocked, by'') =
        unlock_node_lem (split_tree t pg page child l) t.new_id stack by' free in
      let meant : (not src.is_leaf || src.item_num == 0 || t.new_id == 0) ≡ false =
        ground (arith, leaf) in
      (page, child, l', rw (meant, locked, split, unlocked) refl, s, by'')
