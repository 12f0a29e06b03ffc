-- ===== src/TreePage/Update.antt =====
-- src/wot_buf_mgr/tree_page.cc: the offsets that the operations look up, and the updates in place
-- of a value, a key and a child. A slice is shorter than 2 ^ 32 bytes, so its size is not cut.
pub mod Edits
pub mod Value
use aha_adaptive_hotspot_awa.Common.{
  ℕ, zero, suc, ◌+◌, ◌*◌, List, length, Bool, true, false, not, ◌==◌, ◌&&◌, ◌>>=◌, Option, none,
  some, Ordering, ltb, leb, if◌then◌else◌, sub32, add32,
}
use aha_adaptive_hotspot_awa.Leveldb.{Leveldb, compare_slices, encode}
use aha_adaptive_hotspot_awa.TreePage.Memory.{memcpy, memmove}
use aha_adaptive_hotspot_awa.TreePage.Layout.{
  Page, page_size, itemid_size, slot_at, decode_int32_at, entry_pos, page_read_pivot_at_offset,
  decode_index_entry,
}
use aha_adaptive_hotspot_awa.TreePage.Search.{
  page_bin_search, page_bin_search_insert, page_bin_search_highkey, pure_key,
}

abbrev pub is_eq : Ordering → Bool
is_eq Ordering.eq = true
is_eq _ = false

abbrev pub is_gt : Ordering → Bool
is_gt Ordering.gt = true
is_gt _ = false

module _ ⦃L : Leveldb⦄ where
  unfoldable pub page_find_offset_insert : Page → List ℕ → Option ℕ
  page_find_offset_insert p key = page_bin_search_insert p key

  -- `some none` is the result -1.
  unfoldable pub page_find_offset : Page → List ℕ → Option (Option ℕ)
  page_find_offset p key = do
    offset ← page_bin_search p key
    some (
        if p.is_leaf && not (is_eq (compare_slices key (page_read_pivot_at_offset p offset)))
        then none
        else some offset)

  unfoldable pub page_find_offset_for_scan : Page → List ℕ → Option ℕ
  page_find_offset_for_scan p key = do
    offset ← page_bin_search p key
    if p.is_leaf
        then some (
            if is_eq (compare_slices key (page_read_pivot_at_offset p offset))
            then offset
            else if leb p.item_num (offset + 1)
            then offset
            else offset + 1)
        else none

  unfoldable pub page_find_offset_highkey : Page → List ℕ → Option (Option ℕ)
  page_find_offset_highkey p key = do
    offset ← page_bin_search_highkey p key
    some (
        if p.is_leaf && not (is_eq (compare_slices key (page_read_pivot_at_offset p offset)))
        then none
        else some offset)

  unfoldable pub page_find_offset_for_scan_highkey : Page → List ℕ → Option ℕ
  page_find_offset_for_scan_highkey p key = do
    offset ← page_bin_search_highkey p key
    if p.is_leaf then some offset else none

  unfoldable pub page_find_offset_bol : Page → List ℕ → Option ℕ
  page_find_offset_bol p key = do
    offset ← page_bin_search p key
    k ← pure_key key
    t ← pure_key (page_read_pivot_at_offset p offset)
    some (if is_gt (compare_slices k t) then offset + 1 else offset)

  -- The loop of `PageGetOffsetByChild` from an offset, over the rounds left.
  unfoldable pub offset_by_child_from : Page → ℕ → ℕ → ℕ → Option ℕ
  offset_by_child_from p child offset zero = none
  offset_by_child_from p child offset (suc rounds) =
      let rest = offset_by_child_from p child (offset + 1) rounds in
      if (decode_index_entry p offset).1 == child then some offset else rest

  -- `some none` is the result -1.
  unfoldable pub page_get_offset_by_child : Page → ℕ → Option (Option ℕ)
  page_get_offset_by_child p child =
      if p.is_leaf then none else some (offset_by_child_from p child 0 p.item_num)

  -- The new value replaces the old one if it is as long.
  unfoldable pub page_update_pivot_at : Page → ℕ → List ℕ → Page × Bool
  page_update_pivot_at p offset val =
      let old_pos = entry_pos p offset in
      let key_size = decode_int32_at p.bytes old_pos in
      let old_val_size = decode_int32_at p.bytes (old_pos + itemid_size + key_size) in
      if length val == old_val_size
      then (
        record p {
          is_dirty = true;
          bytes = memcpy p.bytes (old_pos + itemid_size * 2 + key_size) val;
        },
        true,
      )
      else (record p { is_dirty = true }, false)

  unfoldable pub page_update_key_at : Page → ℕ → List ℕ → Option (Page × Bool)
  page_update_key_at p offset key =
      if ltb offset p.item_num
      then (let old_pos = entry_pos p offset in
          if length key == decode_int32_at p.bytes old_pos
          then some (
            record p { is_dirty = true; bytes = memcpy p.bytes (old_pos + itemid_size) key },
            true,
          )
          else some (p, false))
      else none

  unfoldable pub page_update_highkey : Page → List ℕ → Page × Bool
  page_update_highkey p key =
      let old_pos = entry_pos p (sub32 p.item_num 1) in
      if length key == decode_int32_at p.bytes old_pos
      then (record p { is_dirty = true; bytes = memcpy p.bytes (old_pos + itemid_size) key }, true)
      else (p, false)

  -- A key of another length shifts the entries below the first one.
  unfoldable pub page_update_min_pivot : Page → List ℕ → Page
  page_update_min_pivot p key =
      let old_pos = entry_pos p 0 in
      let new_item_size = length key in
      let old_item_size = decode_int32_at p.bytes old_pos in
      let child_pg = decode_int32_at p.bytes (old_pos + itemid_size + old_item_size) in
      let chunk_size = sub32 (sub32 page_size p.free_end) (add32 old_item_size (itemid_size * 2)) in
      let free_end = sub32 (sub32 page_size chunk_size) (new_item_size + itemid_size * 2) in
      let new_pos = free_end + chunk_size in
      let m₁ = memmove p.bytes free_end p.free_end chunk_size in
      let m₂ = memcpy m₁ new_pos (encode new_item_size) in
      let m₃ = memcpy m₂ (new_pos + itemid_size) key in
      let m₄ = memcpy m₃ (new_pos + itemid_size + new_item_size) (encode child_pg) in
      if new_item_size == old_item_size
      then record p { is_dirty = true; bytes = memcpy p.bytes (old_pos + itemid_size) key }
      else record p {
        is_dirty = true;
        free_end = free_end;
        bytes = memcpy m₄ (slot_at 0) (encode (add32 free_end chunk_size));
      }

  unfoldable pub page_update_child : Page → List ℕ → ℕ → Option Page
  page_update_child p pivot child = if p.is_leaf then none else (do
    found ← page_find_offset p pivot
    offset ← found
    if ltb offset p.item_num
        then (let pos = entry_pos p offset in
            let key_size = decode_int32_at p.bytes pos in
            some (record p {
              is_dirty = true;
              bytes = memcpy p.bytes (pos + key_size + itemid_size) (encode child);
            }))
        else none)
