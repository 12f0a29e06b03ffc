-- ===== src/TreePage/Layout.antt =====
-- src/wot_buf_mgr/tree_page.h and tree_page.cc: the page header, the slot array that grows up from
-- the header and the entries that grow down from the end of the page, and how both are decoded.
-- The header is a record; `bytes` are the bytes of the page, of which the operations touch only
-- those behind the header. `sizeof(TreePageHeaderData)` is 40: an 8-byte lock word, six 4-byte
-- words and two booleans, padded to a multiple of 8.
use aha_adaptive_hotspot_awa.Common.{
  ℕ, ◌+◌, ◌*◌, ◌%◌, List, [], Bool, true, false, Option, none, some, Ordering, sub32, word_mod, ltb,
  leb, if◌then◌else◌,
}
use aha_adaptive_hotspot_awa.Leveldb.{Leveldb, compare_slices, decode}
use aha_adaptive_hotspot_awa.TreePage.Memory.{Bytes, read}

-- `PAGE_SIZE`
abbrev pub page_size : ℕ
page_size = 8192

-- `ITEMID_SIZE`
abbrev pub itemid_size : ℕ
itemid_size = 4

-- `PgHdSize`
abbrev pub pg_hd_size : ℕ
pg_hd_size = 40

pub record Page : Type 0 where
  pub opt_lock : ℕ
  pub page_id : ℕ
  pub item_num : ℕ
  pub left : ℕ
  pub right : ℕ
  pub free_start : ℕ
  pub free_end : ℕ
  pub is_leaf : Bool
  pub is_dirty : Bool
  pub bytes : Bytes

unfoldable pub page_init : Page → ℕ → Page
page_init p pg_id = record p {
  page_id = pg_id;
  item_num = 0;
  left = 0;
  right = 0;
  free_start = pg_hd_size;
  free_end = page_size;
  is_leaf = false;
  is_dirty = true;
}

unfoldable pub page_clear_content : Page → Page
page_clear_content p = record p {
  item_num = 0;
  free_start = pg_hd_size;
  free_end = page_size;
  is_dirty = true;
}

unfoldable pub page_get_free_space : Page → ℕ
page_get_free_space p =
    let space = sub32 p.free_end p.free_start in if ltb space itemid_size then 0 else space

unfoldable pub page_is_right_most : Page → Bool
page_is_right_most p = if ltb 0 p.right then false else true

-- Where the slot of an entry stands.
abbrev pub slot_at : ℕ → ℕ
slot_at offset = pg_hd_size + offset * itemid_size % word_mod

module _ ⦃L : Leveldb⦄ where
  -- The position is a `uint32_t`, so a longer one is cut.
  unfoldable pub decode_int32_at : Bytes → ℕ → ℕ
  decode_int32_at m pos = decode (read m (pos % word_mod) 4)

  unfoldable pub entry_pos : Page → ℕ → ℕ
  entry_pos p offset = decode_int32_at p.bytes (slot_at offset)

  -- An entry begins with the length of its key and the key.
  unfoldable pub key_at : Bytes → ℕ → List ℕ
  key_at m pos = read m (pos + itemid_size) (decode_int32_at m pos)

  unfoldable pub child_at : Bytes → ℕ → ℕ
  child_at m pos = decode_int32_at m (pos + itemid_size + decode_int32_at m pos)

  unfoldable pub val_at : Bytes → ℕ → List ℕ
  val_at m pos =
      let ks = decode_int32_at m pos in
      read m (pos + 2 * itemid_size + ks) (decode_int32_at m (pos + itemid_size + ks))

  unfoldable pub decode_index_entry : Page → ℕ → List ℕ × ℕ
  decode_index_entry p offset =
      (key_at p.bytes (entry_pos p offset), child_at p.bytes (entry_pos p offset))

  unfoldable pub decode_leaf_entry : Page → ℕ → List ℕ × List ℕ
  decode_leaf_entry p offset =
      (key_at p.bytes (entry_pos p offset), val_at p.bytes (entry_pos p offset))

  -- `Slice()` is the empty slice.
  unfoldable pub page_read_pivot_at_offset : Page → ℕ → List ℕ
  page_read_pivot_at_offset p offset =
      if leb p.item_num offset
      then []
      else if p.is_leaf
      then (decode_leaf_entry p offset).0
      else (decode_index_entry p offset).0

  unfoldable pub page_read_value_at_offset : Page → ℕ → List ℕ
  page_read_value_at_offset p offset =
      if leb p.item_num offset then [] else if p.is_leaf then (decode_leaf_entry p offset).1 else []

  unfoldable pub page_read_child_at_offset : Page → ℕ → ℕ
  page_read_child_at_offset p offset =
      if p.is_leaf then 0 else if leb p.item_num offset then 0 else (decode_index_entry p offset).1

  -- `none` stands for a failed assertion: the build keeps them, and they stop the process.
  unfoldable pub page_compare : Page → List ℕ → ℕ → Option Ordering
  page_compare p key off =
      if ltb off p.item_num
      then some (compare_slices key (page_read_pivot_at_offset p off))
      else none

  unfoldable pub page_min_and_key : Page → List ℕ → Ordering
  page_min_and_key p key = compare_slices (page_read_pivot_at_offset p 0) key

  unfoldable pub page_highkey : Page → List ℕ
  page_highkey p = page_read_pivot_at_offset p (sub32 p.item_num 1)

  unfoldable pub page_lowkey : Page → Option (List ℕ)
  page_lowkey p = if ltb 0 p.item_num then some (page_read_pivot_at_offset p 0) else none
