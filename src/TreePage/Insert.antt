-- ===== src/TreePage/Insert.antt =====
-- src/wot_buf_mgr/tree_page.cc: an entry is written below the last one and its slot among the
-- slots. `none` is an abort: no room for the entry, or a failed assertion of the search. A slice
-- is shorter than 2 ^ 32 bytes, so its size is not cut.
pub mod Slots
pub mod Joined
pub mod Leaf
pub mod Order
pub mod Written
pub mod Content
pub mod Moved
use aha_adaptive_hotspot_awa.Common.{
  ℕ, zero, suc, ◌+◌, ◌-◌, ◌*◌, List, length, Bool, true, false, ◌>>=◌, Option, none, some, ltb, leb,
  if◌then◌else◌, sub32, add32,
}
use aha_adaptive_hotspot_awa.Leveldb.{Leveldb, compare_slices, encode}
use aha_adaptive_hotspot_awa.TreePage.Memory.{Bytes, memcpy, memmove}
use aha_adaptive_hotspot_awa.TreePage.Layout.{
  Page, itemid_size, slot_at, page_read_pivot_at_offset, decode_index_entry, decode_leaf_entry,
  page_get_free_space,
}
use aha_adaptive_hotspot_awa.TreePage.Search.{
  page_bin_search_with_seq, page_bin_search_insert, pure_key,
}
use aha_adaptive_hotspot_awa.TreePage.Update.{is_eq, page_update_pivot_at, page_update_key_at}

module _ ⦃L : Leveldb⦄ where
  -- Makes room among the slots, if slots follow, and writes the slot of the new entry.
  unfoldable pub write_slot : Bytes → ℕ → ℕ → ℕ → Bytes
  write_slot m item_num offset pos =
      let low = slot_at offset in
      let shifted =
        if ltb offset item_num
        then memmove m (low + itemid_size) low ((item_num - offset) * itemid_size)
        else m in
      memcpy shifted low (encode pos)

  -- Both kinds of entry begin with the length of the key and the key.
  unfoldable pub write_head : Bytes → ℕ → List ℕ → Bytes
  write_head m up key = memcpy (memcpy m up (encode (length key))) (up + itemid_size) key

  unfoldable pub write_index_bytes : Bytes → ℕ → List ℕ → ℕ → Bytes
  write_index_bytes m up key pg_id =
      memcpy (write_head m up key) (up + itemid_size + length key) (encode pg_id)

  unfoldable pub write_leaf_bytes : Bytes → ℕ → List ℕ → List ℕ → Bytes
  write_leaf_bytes m up key val =
      let sized =
        memcpy (write_head m up key) (up + itemid_size + length key) (encode (length val)) in
      memcpy sized (up + itemid_size + length key + itemid_size) val

  unfoldable pub page_write_index_entry_at : ℕ → Page → List ℕ → ℕ → Page
  page_write_index_entry_at offset p key pg_id =
      let up = sub32 p.free_end (length key + itemid_size * 2) in
      record p {
        free_end = up;
        free_start = add32 p.free_start 4;
        bytes = write_slot (write_index_bytes p.bytes up key pg_id) p.item_num offset up;
      }

  unfoldable pub page_write_leaf_entry_at : ℕ → Page → List ℕ → List ℕ → Page
  page_write_leaf_entry_at offset p key val =
      let up = sub32 p.free_end (length key + itemid_size * 2 + length val) in
      record p {
        free_end = up;
        free_start = add32 p.free_start 4;
        bytes = write_slot (write_leaf_bytes p.bytes up key val) p.item_num offset up;
      }

  -- `is_dirty_ = true; item_num_++`
  abbrev pub count_entry : Page → Page
  count_entry p = record p { is_dirty = true; item_num = add32 p.item_num 1 }

  unfoldable pub page_insert_index_entry : Page → List ℕ → ℕ → Option Page
  page_insert_index_entry p key pg_id =
      if leb (page_get_free_space p) (length key + itemid_size * 3) then none else (do
        off ← page_bin_search_insert p key
        some (count_entry (page_write_index_entry_at off p key pg_id)))

  unfoldable pub page_insert_leaf_entry : Page → List ℕ → List ℕ → Option Page
  page_insert_leaf_entry p key val =
      if leb (page_get_free_space p) (length key + length val + itemid_size * 3) then none else (do
        off ← page_bin_search_insert p key
        if is_eq (compare_slices key (page_read_pivot_at_offset p off))
            then some (page_update_pivot_at p off val).0
            else some (count_entry (page_write_leaf_entry_at off p key val)))

  -- Is the pivot at an offset the key, the sequence number left aside?
  unfoldable pub same_user_key : Page → List ℕ → ℕ → Option Bool
  same_user_key p key off =
      if ltb off p.item_num
      then (do
        k ← pure_key key
        t ← pure_key (page_read_pivot_at_offset p off)
        some (is_eq (compare_slices k t)))
      else some false

  -- The Boolean tells whether an entry was added.
  unfoldable pub page_insert_leaf_entry_with_seq : Page → List ℕ → List ℕ → Option (Page × Bool)
  page_insert_leaf_entry_with_seq p key val =
      if leb (page_get_free_space p) (length key + length val + itemid_size * 3) then none else (do
        off₂ ← page_bin_search_with_seq p key
        found ← same_user_key p key off₂
        if found
            then (do
              (updated, _) ← page_update_key_at (page_update_pivot_at p off₂ val).0 off₂ key
              some (record updated { is_dirty = true }, false))
            else (do
              off ← page_bin_search_insert p key
              some (count_entry (page_write_leaf_entry_at off p key val), true)))

  unfoldable pub page_append_leaf_entry : Page → List ℕ → List ℕ → Option Page
  page_append_leaf_entry p key val =
      if leb (page_get_free_space p) (length key + length val + itemid_size * 3)
      then none
      else some (count_entry (page_write_leaf_entry_at p.item_num p key val))

  -- The loops of the moves over the rounds left: the entries of `src` go into `dest` one by one.
  unfoldable pub move_leaf_from : Page → Page → ℕ → ℕ → Option Page
  move_leaf_from src dest off zero = some dest
  move_leaf_from src dest off (suc rounds) =
      page_insert_leaf_entry dest (decode_leaf_entry src off).0 (decode_leaf_entry src off).1
      >>= λ next. move_leaf_from src next (off + 1) rounds

  unfoldable pub move_index_from : Page → Page → ℕ → ℕ → Option Page
  move_index_from src dest off zero = some dest
  move_index_from src dest off (suc rounds) =
      page_insert_index_entry dest (decode_index_entry src off).0 (decode_index_entry src off).1
      >>= λ next. move_index_from src next (off + 1) rounds

  unfoldable pub page_move_leaf_entries : Page → Page → ℕ → ℕ → Option Page
  page_move_leaf_entries src dest start end = do
    moved ← move_leaf_from src dest start (end - start)
    some (record moved { is_dirty = true })

  unfoldable pub page_move_index_entries : Page → Page → ℕ → ℕ → Option Page
  page_move_index_entries src dest start end = do
    moved ← move_index_from src dest start (end - start)
    some (record moved { is_dirty = true })
