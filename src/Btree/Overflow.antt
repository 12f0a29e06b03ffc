-- ===== src/Btree/Overflow.antt =====
-- src/btree/btree.cc: `Insert` with the splits behind an overflow. A split page keeps its number and its
-- upper half goes to a new one.
pub mod LeafSplit
pub mod Leaves
use aha_adaptive_hotspot_awa.Common.{
  ℕ, zero, suc, ◌+◌, ◌*◌, ◌/◌, List, [], ◌∷◌, length, Bool, true, false, Option, none, some, ◌>>=◌,
  ltb, leb, ◌==◌, not, ◌||◌, Ordering, if◌then◌else◌, add32,
}
use aha_adaptive_hotspot_awa.Leveldb.{Leveldb, compare_slices}
use aha_adaptive_hotspot_awa.OptLock.{clear_lock}
use aha_adaptive_hotspot_awa.TreePage.Layout.{
  Page, itemid_size, page_init, page_highkey, page_get_free_space, page_read_pivot_at_offset,
}
use aha_adaptive_hotspot_awa.TreePage.Update.{page_get_offset_by_child}
use aha_adaptive_hotspot_awa.TreePage.Insert.{
  page_insert_leaf_entry, page_insert_index_entry, page_move_leaf_entries, page_move_index_entries,
}
use aha_adaptive_hotspot_awa.TreePage.Remove.{page_remove_offset}
use aha_adaptive_hotspot_awa.TreeFile.{set_at, zero_page}
use aha_adaptive_hotspot_awa.Btree.{
  Called, stopped, waiting, returned, ◌andthen◌, unlocked, Btree, lock_node, unlock_node,
  unlock_parents, search_down, try_insert_leaf, top,
}

-- A pivot with its page: `new_pivots` and `new_pg_ids` are lists of one length.
abbrev pub Pivots : Type 0
Pivots = List (List ℕ × ℕ)

abbrev pub is_lt : Ordering → Bool
is_lt Ordering.lt = true
is_lt _ = false

abbrev pub set_page : ℕ → Page → Btree → Btree
set_page pg page t = record t { pages = set_at t.pages pg page }

-- `Allocate` of the buffer manager: the number of a page that is filled with zeros and initialised.
abbrev pub allocate_page : Btree → Btree × ℕ
allocate_page t = (
  record (set_page t.new_id (page_init zero_page t.new_id) t) { new_id = t.new_id + 1 },
  t.new_id,
)

-- `AllocateRoot`: the root's content moves to a new page, and the root is initialised.
abbrev pub allocate_root_page : Btree → Btree × ℕ
allocate_root_page t =
    let old = t.pages t.root_page_id in
    let moved = set_page t.new_id (record old { page_id = t.new_id; opt_lock = clear_lock }) t in
    (
      record (set_page t.root_page_id (page_init old t.root_page_id) moved) {
        new_id = t.new_id + 1;
      },
      t.new_id,
    )

-- A page that was filled with zeros and initialised again, dirty.
abbrev pub reset_page : ℕ → Bool → Page
reset_page pg_id leaf = record (page_init zero_page pg_id) { is_leaf = leaf; is_dirty = true }

-- `BuildSiblingConn`
unfoldable pub build_sibling_conn : ℕ → ℕ → Btree → Btree
build_sibling_conn left right t =
    if left == 0
    then set_page right (record (t.pages right) { left = 0 }) t
    else if right == 0
    then set_page left (record (t.pages left) { right = 0 }) t
    else (let linked = set_page left (record (t.pages left) { right = right }) t in
        set_page right (record (linked.pages right) { left = left }) linked)

module _ ⦃L : Leveldb⦄ where
  -- The entry goes to a page where the test holds.
  unfoldable pub insert_where : Bool → List ℕ → List ℕ → Page → Option Page
  insert_where b key val page = if b then page_insert_leaf_entry page key val else some page

  -- Does the key belong to the lower half?
  abbrev pub belongs_low : Page → List ℕ → Bool
  belongs_low temp key =
      is_lt (compare_slices key (page_read_pivot_at_offset temp (temp.item_num / 2)))

  -- The two pages that a full leaf, copied to `temp`, becomes.
  unfoldable pub split_leaf : Page → ℕ → ℕ → List ℕ → List ℕ → Option (Page × Page)
  split_leaf temp pg_id child_id key val =
      let half = temp.item_num / 2 in
      let low = belongs_low temp key in
      (do
        page ← page_move_leaf_entries temp (reset_page pg_id true) 0 half
        child ← page_move_leaf_entries temp (reset_page child_id true) half temp.item_num
        page' ← insert_where low key val page
        child' ← insert_where (not low) key val child
        some (record page' { right = child_id }, record child' { right = temp.right }))

  unfoldable pub insert_and_split_leaf_pages : ℕ → List ℕ → List ℕ → Btree → Called (Pivots × Btree)
  insert_and_split_leaf_pages pg key val t =
      let temp = t.pages pg in
      let (u, child_id) = allocate_page t in
      if not temp.is_leaf || temp.item_num == 0 || child_id == 0
      then stopped
      else (lock_node child_id u andthen λ v.
          unlocked (split_leaf temp pg child_id key val) andthen λ r.
          unlock_node child_id (set_page child_id r.1 (set_page pg r.0 v)) andthen λ w.
          returned ((page_highkey r.0, pg) ∷ (page_highkey r.1, child_id) ∷ [], w))

  unfoldable pub insert_pivots : Pivots → Page → Option Page
  insert_pivots [] page = some page
  insert_pivots (e ∷ es) page = page_insert_index_entry page e.0 e.1 >>= insert_pivots es

  -- The entry of the old child leaves an inner page. The abort of a child that is not there is `none`.
  unfoldable pub remove_child : Page → ℕ → Option (Page × ℕ)
  remove_child page old = do
    found ← page_get_offset_by_child page old
    offset ← found
    some (page_remove_offset page offset, offset)

  abbrev pub first_length : Pivots → ℕ
  first_length [] = 0
  first_length (e ∷ es) = length e.0

  -- The Boolean is false where the page has no room.
  unfoldable pub try_insert_internal : ℕ → Pivots → ℕ → Btree → Option (Btree × Bool)
  try_insert_internal pg news old t =
      if ltb (page_get_free_space (t.pages pg)) (first_length news + 4 * itemid_size)
      then some (t, false)
      else (do
        (removed, offset) ← remove_child (t.pages pg) old
        page ← insert_pivots news removed
        some (set_page pg page t, true))

  unfoldable pub insert_and_split_internal_pages : ℕ → ℕ → Pivots → Btree → Option (Pivots × Btree)
  insert_and_split_internal_pages pg old news t =
      if (t.pages pg).is_leaf || (t.pages pg).item_num == 0 then none else (do
        (temp, offset) ← remove_child (t.pages pg) old
        let half = temp.item_num / 2
        let low = ltb offset half
        let (u, child_id) = allocate_page t
        page ← page_move_index_entries temp (reset_page pg false) 0 half
        child ← page_move_index_entries temp (reset_page child_id false) half temp.item_num
        page' ← insert_pivots (if low then news else []) page
        child' ← insert_pivots (if low then [] else news) child
        some (
          (page_highkey page', pg) ∷ (page_highkey child', child_id) ∷ [],
          set_page child_id child' (set_page pg page' u),
        ))

  -- One page of the stack takes the new pivots for its old child, or splits.
  unfoldable pub pass_up : ℕ → Pivots → ℕ → Btree → Option (Pivots × Btree)
  pass_up pg news old t = do
    (u, fits) ← try_insert_internal pg news old t
    if fits then some ([], u) else insert_and_split_internal_pages pg old news t

  -- The loop of `HandleOverflow` over the pages of the stack, with those that were used.
  unfoldable pub overflow_loop :
      List ℕ → List ℕ → Pivots → ℕ → Btree → Option (List ℕ × List ℕ × Pivots × Btree)
  overflow_loop [] used news old t = some ([], used, news, t)
  overflow_loop (pg ∷ stack) used [] old t = some (pg ∷ stack, used, [], t)
  overflow_loop (pg ∷ stack) used (e ∷ es) old t =
      pass_up pg (e ∷ es) old t >>= λ r. overflow_loop stack (pg ∷ used) r.0 pg r.1

  -- Behind a split of the root its content stands on a new page.
  unfoldable pub grow_root : Pivots → Btree → Called Btree
  grow_root [] t = returned t
  grow_root (e ∷ []) t = stopped
  grow_root (e ∷ f ∷ es) t =
      let (u, new_id) = allocate_root_page t in
      lock_node new_id u andthen λ v.
      let w = build_sibling_conn new_id f.1 v in
      unlocked (insert_pivots ((e.0, new_id) ∷ f ∷ []) (w.pages w.root_page_id)) andthen λ root.
      unlock_node new_id (set_page w.root_page_id root w) andthen λ x.
      returned (record x { tree_height = add32 x.tree_height 1 })

  unfoldable pub handle_overflow : List ℕ → List ℕ → List ℕ → Btree → Called Btree
  handle_overflow [] key val t = stopped
  handle_overflow (pg ∷ stack) key val t = insert_and_split_leaf_pages pg key val t andthen λ r.
      unlocked (overflow_loop stack (pg ∷ []) r.0 pg r.1) andthen λ (left, used, more, v).
      grow_root more v andthen λ w. unlock_parents left w andthen λ x. unlock_parents used x

  unfoldable pub insert : List ℕ → List ℕ → Btree → Called Btree
  insert key val t = search_down true key val t andthen λ r. unlocked (top r.0) andthen λ pg.
      unlocked (try_insert_leaf pg key val r.1) andthen λ done.
      if done.1 then unlock_parents r.0 done.0 else handle_overflow r.0 key val done.0
