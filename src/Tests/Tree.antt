-- ===== src/Tests/Tree.antt =====
-- A tree of an inner page and two leaves.
use aha_adaptive_hotspot_awa.Common.{
  ℕ, zero, suc, ◌<◌, ◌≡◌, refl, sym, ap, subst, ◌⊎◌, List, [], ◌∷◌, true, false, none, some, ◌==◌,
  if◌then◌else◌, arith, inl, inr, Bool-cases, has,
}
use aha_adaptive_hotspot_awa.TreePage.Memory.{read, memcpy}
use aha_adaptive_hotspot_awa.TreePage.Layout.{
  Page, decode_int32_at, entry_pos, key_at, child_at, decode_index_entry, page_read_pivot_at_offset,
  page_read_child_at_offset, page_get_free_space,
}
use aha_adaptive_hotspot_awa.TreePage.Search.Bounds.{IsSorted}
use aha_adaptive_hotspot_awa.TreePage.Insert.{page_insert_leaf_entry}
use aha_adaptive_hotspot_awa.TreePage.Lookup.{get_value_with_key}
use aha_adaptive_hotspot_awa.TreeFile.{set_at}
use aha_adaptive_hotspot_awa.LockManager.Table.{LockTable}
use aha_adaptive_hotspot_awa.Btree.{
  returned, waiting, Btree, lock_node, query, search_down, try_insert_leaf,
}
use aha_adaptive_hotspot_awa.Btree.Locks.{IsHeldBy, held}
use aha_adaptive_hotspot_awa.LockManager.Table.{LockTable, waits, tree_write_lock}
use aha_adaptive_hotspot_awa.Btree.Descent.{IsTree, Route, search_down_lem}
use aha_adaptive_hotspot_awa.Btree.Query.{query_lem}
use aha_adaptive_hotspot_awa.Btree.Leaf.{room_for, try_insert_leaf_lem}
use aha_adaptive_hotspot_awa.Tests.Bytewise.{bytewise, lex, from_little_endian}
use aha_adaptive_hotspot_awa.Tests.Pages.{pair, pair-IsSorted, key_m, val_a}

abbrev pub inner : Page
inner = record {
  opt_lock = 4;
  page_id = 0;
  item_num = 2;
  left = 0;
  right = 0;
  free_start = 48;
  free_end = 8172;
  is_leaf = false;
  is_dirty = false;
  bytes =
      memcpy (memcpy (λ _. 0) 40 (236 ∷ 31 ∷ 0 ∷ 0 ∷ 246 ∷ 31 ∷ 0 ∷ 0 ∷ [])) 8172
        (2 ∷ 0 ∷ 0 ∷ 0 ∷ 97 ∷ 2 ∷ 7 ∷ 0 ∷ 0 ∷ 0 ∷ 2 ∷ 0 ∷ 0 ∷ 0 ∷ 98 ∷ 1 ∷ 8 ∷ 0 ∷ 0 ∷ 0 ∷ []);
}

pub inner_pivots :
    (page_read_pivot_at_offset inner 0 ≡ 97 ∷ 2 ∷ [])
    × (page_read_pivot_at_offset inner 1 ≡ 98 ∷ 1 ∷ [])
unfolding page_read_pivot_at_offset decode_index_entry key_at entry_pos decode_int32_at read memcpy
    from_little_endian
inner_pivots = (refl, refl)

inner_children : (page_read_child_at_offset inner 0 ≡ 7) × (page_read_child_at_offset inner 1 ≡ 8)
unfolding page_read_child_at_offset decode_index_entry child_at entry_pos decode_int32_at read
    memcpy from_little_endian
inner_children = (refl, refl)

pub inner-IsSorted : IsSorted inner
unfolding lex
inner-IsSorted zero zero h k = absurd (omega arith)
inner-IsSorted zero (suc zero) h k = rw (inner_pivots.0, inner_pivots.1)
inner-IsSorted (suc i) zero h k = absurd (omega arith)
inner-IsSorted (suc i) (suc zero) h k = absurd (omega arith)
inner-IsSorted i (suc (suc j)) h k = absurd (omega arith)

abbrev pub tree_pages : ℕ → Page
tree_pages pg = if pg == 0 then inner else pair

abbrev pub two_levels : Btree
two_levels = record {
  root_page_id = 0;
  tree_height = 2;
  pages = tree_pages;
  lock_mgr = λ pg. none;
  new_id = 9;
}

pub two_levels-IsTree : IsTree tree_pages 1 0
unfolding IsTree
two_levels-IsTree = (refl, inner-IsSorted, omega arith, kids)
  where
    kids : (off : ℕ) → off < 2 → (tree_pages (page_read_child_at_offset inner off)).is_leaf ≡ true
    kids zero h = rw (inner_children.0) refl
    kids (suc zero) h = rw (inner_children.1) refl
    kids (suc (suc off)) h = absurd (omega arith)

leaves-IsSorted : (pg : ℕ) → (tree_pages pg).is_leaf ≡ true → IsSorted (tree_pages pg)
leaves-IsSorted pg is_leaf = elim (Bool-cases (pg == 0)) [
  | inl root ↦ absurd (ground arith)
  | inr other ↦ subst IsSorted (sym (ap (λ b. if b then inner else pair) other)) pair-IsSorted
]

pub no_lock : IsHeldBy (λ pg. none) []
unfolding has
no_lock x = refl

search_down_lem_example :
    (leaf : ℕ) × (parents : List ℕ) × (l : LockTable) × (search_down false key_m [] two_levels
      ≡ returned (leaf ∷ parents, record two_levels { lock_mgr = l }))
    × Route tree_pages key_m 0 leaf
    × ((tree_pages leaf).is_leaf ≡ true)
    × IsHeldBy l (leaf ∷ parents)
search_down_lem_example = search_down_lem 1 key_m [] two_levels refl two_levels-IsTree no_lock

query_lem_example :
    (leaf : ℕ) × (value : List ℕ) × (u : Btree) × (query key_m two_levels ≡ returned (value, u))
    × Route tree_pages key_m 0 leaf
    × (get_value_with_key (tree_pages leaf) key_m ≡ some value)
    × (u.pages ≡ tree_pages)
    × (lock_node leaf u ≡ waiting)
    × (u.lock_mgr leaf ≡ some (held leaf))
    × ((l : LockTable) × (tree_write_lock u.lock_mgr leaf ≡ waits l))
query_lem_example = query_lem 1 key_m two_levels refl two_levels-IsTree leaves-IsSorted no_lock

try_insert_leaf_lem_example :
    ((page_get_free_space pair < room_for key_m val_a)
      × (try_insert_leaf 7 key_m val_a two_levels ≡ some (two_levels, false)))
    ⊎ ((page_get_free_space pair ≡ room_for key_m val_a)
        × (try_insert_leaf 7 key_m val_a two_levels ≡ none))
    ⊎ ((room_for key_m val_a < page_get_free_space pair)
        × ((q : Page) × (page_insert_leaf_entry pair key_m val_a ≡ some q)
            × (try_insert_leaf 7 key_m val_a two_levels
                ≡ some (record two_levels { pages = set_at tree_pages 7 q }, true))))
try_insert_leaf_lem_example = try_insert_leaf_lem two_levels 7 key_m val_a pair-IsSorted
