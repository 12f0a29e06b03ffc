-- ===== src/TreePage/Insert/Written.antt =====
-- The writes of the two kinds of entry: each joins an entry to a well-formed page, and the entry
-- decodes to what was written.
use aha_adaptive_hotspot_awa.Common.{
  ℕ, ◌+◌, ◌-◌, ◌≤◌, ◌<◌, ◌≡◌, ap, ◌∙◌, sym, List, length, true, false, arith, word_mod, sub32_small,
}
use aha_adaptive_hotspot_awa.Leveldb.{Leveldb}
use aha_adaptive_hotspot_awa.TreePage.Memory.{Bytes}
use aha_adaptive_hotspot_awa.TreePage.Layout.{
  Page, decode_int32_at, key_at, child_at, val_at, decode_leaf_entry, decode_index_entry,
}
use aha_adaptive_hotspot_awa.TreePage.Entries.{size_at, tail_size, Alike}
use aha_adaptive_hotspot_awa.TreePage.Valid.{IsValid, Joins}
use aha_adaptive_hotspot_awa.TreePage.Insert.{
  write_index_bytes, write_leaf_bytes, page_write_leaf_entry_at, page_write_index_entry_at,
  count_entry,
}
use aha_adaptive_hotspot_awa.TreePage.Insert.Content.{
  write_leaf_bytes-LeafBytes, write_index_bytes-IndexBytes, LeafBytes-decode, IndexBytes-decode,
  write_leaf_bytes_out, write_index_bytes_out, write_leaf_bytes_below, write_index_bytes_below,
}
use aha_adaptive_hotspot_awa.TreePage.Insert.Joined.{joined, joined-Alike, joined-Joins}

module _ ⦃L : Leveldb⦄ where
  module _ (p : Page) (off : ℕ) (key val : List ℕ) (valid : IsValid p) (le : off ≤ p.item_num)
      (leaf : p.is_leaf ≡ true)
      (room : p.free_start + (length key + length val + 12) < p.free_end) where
    leaf_up : ℕ
    leaf_up = p.free_end - (length key + 8 + length val)

    leaf_bytes : Bytes
    leaf_bytes = write_leaf_bytes p.bytes leaf_up key val

    leaf_joined :
        count_entry (page_write_leaf_entry_at off p key val) ≡ joined p off leaf_up leaf_bytes
    unfolding leaf_up leaf_bytes page_write_leaf_entry_at
    leaf_joined =
        ap (λ up. joined p off up (write_leaf_bytes p.bytes up key val))
          (sub32_small p.free_end (length key + 8 + length val) (omega arith)
            (omega (arith, valid.top)))

    leaf_end : leaf_up + (length key + 8 + length val) ≡ p.free_end
    unfolding leaf_up
    leaf_end = omega arith

    leaf_decodes :
        (decode_int32_at leaf_bytes leaf_up ≡ length key)
        × (decode_int32_at leaf_bytes (leaf_up + 4 + length key) ≡ length val)
        × (key_at leaf_bytes leaf_up ≡ key)
        × (val_at leaf_bytes leaf_up ≡ val)
    unfolding leaf_bytes
    leaf_decodes =
        LeafBytes-decode leaf_bytes leaf_up key val (omega (arith, leaf_end, valid.top))
          (write_leaf_bytes-LeafBytes p.bytes leaf_up key val)

    leaf_size : size_at p.is_leaf leaf_bytes leaf_up ≡ length key + 8 + length val
    unfolding size_at tail_size
    leaf_size = rw (leaf, leaf_decodes.0) (omega (arith, leaf_decodes.1))

    leaf_room : p.free_start + 4 ≤ leaf_up
    unfolding leaf_up
    leaf_room = omega arith

    leaf_low : (a : ℕ) → a < leaf_up → leaf_bytes a ≡ p.bytes a
    unfolding leaf_bytes
    leaf_low a h = write_leaf_bytes_below p.bytes leaf_up key val a h

    leaf_high : (a : ℕ) → p.free_end ≤ a → leaf_bytes a ≡ p.bytes a
    unfolding leaf_bytes
    leaf_high a h = write_leaf_bytes_out p.bytes leaf_up key val a (omega (arith, leaf_end))

    leaf-Alike : Alike leaf_bytes (joined p off leaf_up leaf_bytes).bytes leaf_up leaf_up p.is_leaf
    leaf-Alike =
        joined-Alike p off leaf_up (length key + 8 + length val) leaf_bytes valid le leaf_end
          leaf_room leaf_low leaf_high leaf_size

    leaf-Joins : Joins p (joined p off leaf_up leaf_bytes) off
    leaf-Joins =
        joined-Joins p off leaf_up (length key + 8 + length val) leaf_bytes valid le leaf_end
          leaf_room leaf_low leaf_high leaf_size

    -- A leaf entry joins at its offset.
    pub write_leaf-Joins : Joins p (count_entry (page_write_leaf_entry_at off p key val)) off
    write_leaf-Joins = rw leaf_joined leaf-Joins

    -- It decodes to what was written.
    pub write_leaf-decode :
        decode_leaf_entry (count_entry (page_write_leaf_entry_at off p key val)) off ≡ (key, val)
    unfolding decode_leaf_entry
    write_leaf-decode =
        let q = joined p off leaf_up leaf_bytes in
        let key_back = ap (key_at q.bytes) leaf-Joins.self ∙ sym leaf-Alike.key ∙ leaf_decodes.2 in
        let rest_back =
          ap (val_at q.bytes) leaf-Joins.self ∙ sym (leaf-Alike.val leaf) ∙ leaf_decodes.3 in
        ap (λ r. decode_leaf_entry r off) leaf_joined ∙ (λ i. (key_back i, rest_back i))

  module _ (p : Page) (off : ℕ) (key : List ℕ) (child : ℕ) (valid : IsValid p)
      (le : off ≤ p.item_num) (inner : p.is_leaf ≡ false) (word : child < word_mod)
      (room : p.free_start + (length key + 12) < p.free_end) where
    index_up : ℕ
    index_up = p.free_end - (length key + 8)

    index_bytes : Bytes
    index_bytes = write_index_bytes p.bytes index_up key child

    index_joined :
        count_entry (page_write_index_entry_at off p key child) ≡ joined p off index_up index_bytes
    unfolding index_up index_bytes page_write_index_entry_at
    index_joined =
        ap (λ up. joined p off up (write_index_bytes p.bytes up key child))
          (sub32_small p.free_end (length key + 8) (omega arith) (omega (arith, valid.top)))

    index_end : index_up + (length key + 8) ≡ p.free_end
    unfolding index_up
    index_end = omega arith

    index_decodes :
        (decode_int32_at index_bytes index_up ≡ length key)
        × (key_at index_bytes index_up ≡ key)
        × (child_at index_bytes index_up ≡ child)
    unfolding index_bytes
    index_decodes =
        IndexBytes-decode index_bytes index_up key child (omega (arith, index_end, valid.top)) word
          (write_index_bytes-IndexBytes p.bytes index_up key child)

    index_size : size_at p.is_leaf index_bytes index_up ≡ length key + 8
    unfolding size_at tail_size
    index_size = rw inner (omega (arith, index_decodes.0))

    index_room : p.free_start + 4 ≤ index_up
    unfolding index_up
    index_room = omega arith

    index_low : (a : ℕ) → a < index_up → index_bytes a ≡ p.bytes a
    unfolding index_bytes
    index_low a h = write_index_bytes_below p.bytes index_up key child a h

    index_high : (a : ℕ) → p.free_end ≤ a → index_bytes a ≡ p.bytes a
    unfolding index_bytes
    index_high a h = write_index_bytes_out p.bytes index_up key child a (omega (arith, index_end))

    index-Alike :
        Alike index_bytes (joined p off index_up index_bytes).bytes index_up index_up p.is_leaf
    index-Alike =
        joined-Alike p off index_up (length key + 8) index_bytes valid le index_end index_room
          index_low index_high index_size

    index-Joins : Joins p (joined p off index_up index_bytes) off
    index-Joins =
        joined-Joins p off index_up (length key + 8) index_bytes valid le index_end index_room
          index_low index_high index_size

    -- An index entry joins at its offset.
    pub write_index-Joins : Joins p (count_entry (page_write_index_entry_at off p key child)) off
    write_index-Joins = rw index_joined index-Joins

    pub write_index-decode :
        decode_index_entry (count_entry (page_write_index_entry_at off p key child)) off
        ≡ (key, child)
    unfolding decode_index_entry
    write_index-decode =
        let q = joined p off index_up index_bytes in
        let key_back =
          ap (key_at q.bytes) index-Joins.self ∙ sym index-Alike.key ∙ index_decodes.1 in
        let rest_back =
          ap (child_at q.bytes) index-Joins.self ∙ sym index-Alike.child ∙ index_decodes.2 in
        ap (λ r. decode_index_entry r off) index_joined ∙ (λ i. (key_back i, rest_back i))
