-- ===== src/Btree.antt =====
-- src/btree/btree.{h,cc}, `Btree`: the way down to a leaf under write locks, and what is done there. The
-- pages are a function from numbers to pages: the pool is taken to serve each page that is pinned, and
-- what is written to a pinned page is written to the function. `none` and `stopped` are an abort
-- or a failed assertion, `waiting` is a lock that is waited for: no other thread is modelled here.
pub mod Ceiling
pub mod Locks
pub mod Descent
pub mod Query
pub mod Leaf
pub mod Overflow
use aha_adaptive_hotspot_awa.Common.{
  ℕ, zero, suc, ◌+◌, ◌*◌, List, [], ◌∷◌, length, Bool, true, false, Option, none, some, ◌>>=◌, ltb,
  not, Ordering, if◌then◌else◌,
}
use aha_adaptive_hotspot_awa.Leveldb.{Leveldb, compare_slices}
use aha_adaptive_hotspot_awa.TreePage.Layout.{
  Page, itemid_size, page_highkey, page_get_free_space, page_read_child_at_offset,
}
use aha_adaptive_hotspot_awa.TreePage.Update.{page_find_offset_highkey, page_update_highkey, is_gt}
use aha_adaptive_hotspot_awa.TreePage.Insert.{page_insert_leaf_entry}
use aha_adaptive_hotspot_awa.TreePage.Remove.{page_remove_entry}
use aha_adaptive_hotspot_awa.TreePage.Lookup.{get_value_with_key}
use aha_adaptive_hotspot_awa.TreeFile.{set_at}
use aha_adaptive_hotspot_awa.LockManager.Table.{
  LockTable, Managed, waits, fails, returns, tree_write_lock, tree_write_unlock,
}

-- `new_id` is the number of the next page that the buffer manager allocates.
pub record Btree : Type 0 where
  pub root_page_id : ℕ
  pub tree_height : ℕ
  pub pages : ℕ → Page
  pub lock_mgr : LockTable
  pub new_id : ℕ

-- What a call that takes locks comes to.
pub data Called (A : Type 0) : Type 0 where
  stopped : Called A
  waiting : Called A
  returned : A → Called A

infixl 5 ◌andthen◌
abbrev pub ◌andthen◌ : {A B : Type 0} → Called A → (A → Called B) → Called B
stopped andthen f = stopped
waiting andthen f = waiting
(returned a) andthen f = f a

-- A step that takes no lock.
abbrev pub unlocked : {A : Type 0} → Option A → Called A
unlocked none = stopped
unlocked (some a) = returned a

-- The tree behind a call of the manager of locks.
abbrev pub with_locks : Btree → Managed → Called Btree
with_locks t (waits _) = waiting
with_locks t fails = stopped
with_locks t (returns l _) = returned (record t { lock_mgr = l })

abbrev pub lock_node : ℕ → Btree → Called Btree
lock_node pg t = with_locks t (tree_write_lock t.lock_mgr pg)

abbrev pub unlock_node : ℕ → Btree → Called Btree
unlock_node pg t = with_locks t (tree_write_unlock t.lock_mgr pg)

-- The stack's top is the head of the list.
unfoldable pub unlock_parents : List ℕ → Btree → Called Btree
unlock_parents [] t = returned t
unlock_parents (pg ∷ stack) t = unlock_node pg t andthen unlock_parents stack

unfoldable pub safe_node : Page → List ℕ → List ℕ → Bool
safe_node page key value =
    let needed =
      if page.is_leaf
      then length key + length value + 3 * itemid_size
      else length key + 4 * itemid_size in
    not (ltb (page_get_free_space page) needed)

module _ ⦃L : Leveldb⦄ where
  unfoldable pub may_update_highkey : Page → List ℕ → Option Page
  may_update_highkey page key =
      if page.is_leaf
      then none
      else some (
          if is_gt (compare_slices key (page_highkey page))
          then (page_update_highkey page key).0
          else page)

  -- `MayUpdateHighkey` of a page, where the way down is for an insert.
  unfoldable pub raise_highkey : Bool → ℕ → List ℕ → Btree → Option Btree
  unfolding may_update_highkey
  raise_highkey ins pg key t =
      if ins
      then (do
        page ← may_update_highkey (t.pages pg) key
        some (record t { pages = set_at t.pages pg page }))
      else some t

  -- The child for a key on an inner page. An offset of -1 fails the assertion.
  unfoldable pub child_for : Page → List ℕ → Option ℕ
  child_for page key = do
    found ← page_find_offset_highkey page key
    offset ← found
    some (page_read_child_at_offset page offset)

  -- The parents of a child that has room are unlocked and leave the stack.
  unfoldable pub release_safe : ℕ → List ℕ → List ℕ → List ℕ → Btree → Called (List ℕ × Btree)
  release_safe child key value stack t =
      if safe_node (t.pages child) key value
      then (unlock_parents stack t andthen λ u. returned (child ∷ [], u))
      else returned (child ∷ stack, t)

  -- The loop of `SearchDown` from a page that is locked and on the stack, on fuel.
  unfoldable pub search_from :
      ℕ → Bool → List ℕ → List ℕ → ℕ → List ℕ → Btree → Called (List ℕ × Btree)
  search_from zero ins key value cur stack t = stopped
  search_from (suc n) ins key value cur stack t =
      if (t.pages cur).is_leaf
      then returned (stack, t)
      else (unlocked (raise_highkey ins cur key t) andthen λ u.
          unlocked (child_for (u.pages cur) key) andthen λ child. lock_node child u andthen λ v.
          release_safe child key value stack v andthen λ r.
          search_from n ins key value child r.0 r.1)

  -- The stack of the pages that stay locked, the leaf at its top. Fuel: the height of the tree.
  unfoldable pub search_down : Bool → List ℕ → List ℕ → Btree → Called (List ℕ × Btree)
  search_down ins key value t = lock_node t.root_page_id t andthen λ u.
      search_from t.tree_height ins key value t.root_page_id (t.root_page_id ∷ []) u

  abbrev pub top : List ℕ → Option ℕ
  top [] = none
  top (pg ∷ stack) = some pg

  -- The value, empty where the key is not there.
  unfoldable pub query : List ℕ → Btree → Called (List ℕ × Btree)
  query key t = search_down false key [] t andthen λ r. unlocked (top r.0) andthen λ pg.
      unlocked (get_value_with_key (r.1.pages pg) key) andthen λ value. returned (value, r.1)

  unfoldable pub delete : List ℕ → Btree → Called (Btree × Bool)
  delete key t = search_down false key [] t andthen λ r. unlocked (top r.0) andthen λ pg.
      unlocked (page_remove_entry (r.1.pages pg) key) andthen λ done.
      returned (record r.1 { pages = set_at r.1.pages pg done.0 }, done.1)

  -- The Boolean is false where the leaf has no room.
  unfoldable pub try_insert_leaf : ℕ → List ℕ → List ℕ → Btree → Option (Btree × Bool)
  try_insert_leaf pg key value t =
      if ltb (page_get_free_space (t.pages pg)) (length key + length value + 3 * itemid_size)
      then some (t, false)
      else (do
        page ← page_insert_leaf_entry (t.pages pg) key value
        some (record t { pages = set_at t.pages pg page }, true))
