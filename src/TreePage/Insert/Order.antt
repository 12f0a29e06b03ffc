-- ===== src/TreePage/Insert/Order.antt =====
-- A joined entry keeps the pivots in order, and the other entries keep their contents.
use aha_adaptive_hotspot_awa.Common.{
  ℕ, ◌-◌, ◌≤◌, ◌<◌, ◌≡◌, ◌≢◌, true, Ordering, List, arith, ap, ◌∙◌, ℕ_discrete, sym,
}
use aha_adaptive_hotspot_awa.Leveldb.{Leveldb, compare_slices}
use aha_adaptive_hotspot_awa.TreePage.Layout.{
  Page, page_read_pivot_at_offset, decode_leaf_entry, decode_index_entry, key_at, val_at, child_at,
  entry_pos,
}
use aha_adaptive_hotspot_awa.TreePage.Search.Bounds.{IsSorted}
use aha_adaptive_hotspot_awa.TreePage.Valid.{IsValid, Joins, Joins-pos, Joins-Alike, old_offset}

pub old_behind : (off j : ℕ) → off < j → old_offset off j ≡ j - 1
old_behind off j h = ground arith

pub old_before : (off i : ℕ) → i < off → old_offset off i ≡ i
old_before off i h = ground arith

module _ ⦃L : Leveldb⦄ where
  pub pivot-key_at :
      (p : Page) (i : ℕ)
      → i < p.item_num
      → page_read_pivot_at_offset p i ≡ key_at p.bytes (entry_pos p i)
  unfolding page_read_pivot_at_offset decode_leaf_entry decode_index_entry
  pivot-key_at p i h = ground arith

  module _ (p p' : Page) (off : ℕ) (valid : IsValid p) (joins : Joins p p' off) where
    came_from : (i : ℕ) → i < p'.item_num → i ≢ off → old_offset off i < p.item_num
    came_from i h ne = ground (arith, joins.count, joins.offset)

    key_kept :
        (i : ℕ)
        → i < p'.item_num
        → i ≢ off
        → key_at p'.bytes (entry_pos p' i) ≡ key_at p.bytes (entry_pos p (old_offset off i))
    key_kept i h ne =
        ap (key_at p'.bytes) (Joins-pos p p' off valid joins i h ne)
        ∙ sym ((Joins-Alike p p' off valid joins _ (came_from i h ne)).key)

    pub Joins-pivot :
        (i : ℕ)
        → i < p'.item_num
        → i ≢ off
        → page_read_pivot_at_offset p' i ≡ page_read_pivot_at_offset p (old_offset off i)
    Joins-pivot i h ne =
        pivot-key_at p' i h ∙ key_kept i h ne ∙ sym (pivot-key_at p _ (came_from i h ne))

    pub Joins-leaf :
        (i : ℕ)
        → p.is_leaf ≡ true
        → i < p'.item_num
        → i ≢ off
        → decode_leaf_entry p' i ≡ decode_leaf_entry p (old_offset off i)
    unfolding decode_leaf_entry
    Joins-leaf i leaf h ne =
        let val_kept =
          ap (val_at p'.bytes) (Joins-pos p p' off valid joins i h ne)
          ∙ sym ((Joins-Alike p p' off valid joins _ (came_from i h ne)).val leaf) in
        λ t. (key_kept i h ne t, val_kept t)

    pub Joins-index :
        (i : ℕ)
        → i < p'.item_num
        → i ≢ off
        → decode_index_entry p' i ≡ decode_index_entry p (old_offset off i)
    unfolding decode_index_entry
    Joins-index i h ne =
        let child_kept =
          ap (child_at p'.bytes) (Joins-pos p p' off valid joins i h ne)
          ∙ sym ((Joins-Alike p p' off valid joins _ (came_from i h ne)).child) in
        λ t. (key_kept i h ne t, child_kept t)

    module _ (key : List ℕ) (sorted : IsSorted p) (new : page_read_pivot_at_offset p' off ≡ key)
        (before : (i : ℕ)
          → i < off
          → compare_slices (page_read_pivot_at_offset p i) key ≡ Ordering.lt)
        (behind : (i : ℕ)
          → off ≤ i
          → i < p.item_num
          → compare_slices key (page_read_pivot_at_offset p i) ≡ Ordering.lt) where
      pub Joins-IsSorted : IsSorted p'
      Joins-IsSorted i j h k = elim (ℕ_discrete i off) [
        | yes e ↦
            rw
              (
                ap (page_read_pivot_at_offset p') e ∙ new,
                Joins-pivot j k (λ f. absurd (omega arith)),
                old_behind off j (omega arith),
              )
              (behind (j - 1) (omega arith) (omega (arith, joins.count)))
        | no ni ↦ elim (ℕ_discrete j off) [
          | yes e ↦
              rw
                (
                  ap (page_read_pivot_at_offset p') e ∙ new,
                  Joins-pivot i (omega arith) ni,
                  old_before off i (omega arith),
                )
                (before i (omega arith))
          | no nj ↦
              rw (Joins-pivot i (omega arith) ni, Joins-pivot j k nj)
                (sorted _ _ (ground arith) (came_from j k nj))
        ]
      ]
