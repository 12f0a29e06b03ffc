-- ===== src/TreePage/Remove.antt =====
-- src/wot_buf_mgr/tree_page.cc: an entry is removed by closing the gap among the slots and among
-- the entries.
pub mod Closed
pub mod Offset
pub mod Slots
use aha_adaptive_hotspot_awa.Common.{
  ℕ, zero, suc, ◌+◌, ◌-◌, ◌*◌, List, length, Bool, true, false, ◌>>=◌, Option, some, ltb,
  if◌then◌else◌, sub32, add32,
}
use aha_adaptive_hotspot_awa.Leveldb.{Leveldb, compare_slices, encode}
use aha_adaptive_hotspot_awa.TreePage.Memory.{Bytes, memcpy, memmove}
use aha_adaptive_hotspot_awa.TreePage.Layout.{
  Page, itemid_size, slot_at, decode_int32_at, entry_pos, page_read_pivot_at_offset,
  decode_index_entry, decode_leaf_entry,
}
use aha_adaptive_hotspot_awa.TreePage.Search.{page_bin_search}
use aha_adaptive_hotspot_awa.TreePage.Update.{is_eq}

module _ ⦃L : Leveldb⦄ where
  unfoldable pub shift_slots_left : Page → ℕ → Bytes
  shift_slots_left p offset =
      let low = slot_at (offset + 1) in
      if ltb (offset + 1) p.item_num
      then memmove p.bytes (low - itemid_size) low ((p.item_num - offset - 1) * itemid_size)
      else p.bytes

  -- Read behind the shift of the slots, as the source does.
  unfoldable pub gap_size : Page → ℕ → ℕ
  gap_size p offset =
      if p.is_leaf
      then length (decode_leaf_entry p offset).0
        + length (decode_leaf_entry p offset).1
        + 2 * itemid_size
      else length (decode_index_entry p offset).0 + 2 * itemid_size

  -- The last loop, from slot `i` over the rounds left.
  unfoldable pub fix_slots : Bytes → ℕ → ℕ → ℕ → ℕ → Bytes
  fix_slots m pos gap i zero = m
  fix_slots m pos gap i (suc rounds) =
      let old = decode_int32_at m (slot_at i) in
      fix_slots (memcpy m (slot_at i) (encode (if ltb old pos then add32 old gap else old))) pos gap
        (i + 1) rounds

  unfoldable pub page_remove_offset : Page → ℕ → Page
  page_remove_offset p offset =
      let pos = entry_pos p offset in
      let shifted = shift_slots_left p offset in
      let gap = gap_size (record p { bytes = shifted }) offset in
      let closed = memmove shifted (p.free_end + gap) p.free_end (sub32 pos p.free_end) in
      let items = sub32 p.item_num 1 in
      record p {
        free_start = sub32 p.free_start itemid_size;
        free_end = add32 p.free_end gap;
        item_num = items;
        is_dirty = true;
        bytes = fix_slots closed pos gap 0 items;
      }

  unfoldable pub page_remove_entry : Page → List ℕ → Option (Page × Bool)
  page_remove_entry p key = do
    offset ← page_bin_search p key
    some (
        if is_eq (compare_slices key (page_read_pivot_at_offset p offset))
        then (record (page_remove_offset p offset) { is_dirty = true }, true)
        else (p, false))
