-- ===== src/TreePage/Insert/Leaf.antt =====
-- `PageInsertLeafEntry` on a well-formed leaf page in order.
use aha_adaptive_hotspot_awa.Common.{
  ℕ, ◌+◌, ◌≤◌, ◌<◌, ◌≡◌, ◌≢◌, refl, inl, inr, true, false, some, Ordering, List, [], length, arith,
  leb, ap, ◌∙◌, dec_lt, sym, sub32_small,
}
use aha_adaptive_hotspot_awa.Leveldb.{Leveldb, compare_slices}
use aha_adaptive_hotspot_awa.TreePage.Layout.{
  Page, page_read_pivot_at_offset, decode_leaf_entry, page_get_free_space,
}
use aha_adaptive_hotspot_awa.TreePage.Search.Loop.{Ordering-cases}
use aha_adaptive_hotspot_awa.TreePage.Search.Bounds.{
  IsSorted, IsLowerBound, against, page_bin_search_insert-IsLowerBound,
}
use aha_adaptive_hotspot_awa.TreePage.Search.Find.{compare_ne}
use aha_adaptive_hotspot_awa.TreePage.Valid.{IsValid, old_offset, Joins-IsValid}
use aha_adaptive_hotspot_awa.TreePage.Update.{is_eq}
use aha_adaptive_hotspot_awa.TreePage.Insert.{
  page_insert_leaf_entry, page_write_leaf_entry_at, count_entry,
}
use aha_adaptive_hotspot_awa.TreePage.Insert.Written.{write_leaf-Joins, write_leaf-decode}
use aha_adaptive_hotspot_awa.TreePage.Insert.Order.{pivot-key_at, Joins-IsSorted, Joins-leaf}

module _ ⦃L : Leveldb⦄ where
  -- The pivots before and behind the place of a new key.
  pub record Splits (p : Page) (key : List ℕ) (off : ℕ) : Type 0 where
    pub within : off ≤ p.item_num
    pub before :
        (i : ℕ) → i < off → compare_slices (page_read_pivot_at_offset p i) key ≡ Ordering.lt
    pub behind :
        (i : ℕ)
        → off ≤ i
        → i < p.item_num
        → compare_slices key (page_read_pivot_at_offset p i) ≡ Ordering.lt

  lt_of_ne_gt :
      (a b : List ℕ) → compare_slices a b ≢ Ordering.gt → a ≢ b → compare_slices a b ≡ Ordering.lt
  lt_of_ne_gt a b ng ne = elim (Ordering-cases (compare_slices a b)) [
    | inl e ↦ e
    | inr (inl e) ↦ absurd (ne (L.compare_eq a b e))
    | inr (inr e) ↦ absurd (ng e)
  ]

  pub Splits-of_bound :
      (p : Page) (key : List ℕ) (off : ℕ)
      → IsLowerBound (against p key) p.item_num off
      → ((i : ℕ) → i < p.item_num → page_read_pivot_at_offset p i ≢ key)
      → Splits p key off
  Splits-of_bound p key off bound absent = record {
    within = bound.within;
    before = λ i h. L.compare_gt _ _ (bound.before i h);
    behind = λ i h k. lt_of_ne_gt _ _ (bound.behind i h k) (λ e. absent i k (sym e));
  }

  pub has_room :
      (p : Page) (x : ℕ)
      → IsValid p
      → 4 ≤ x
      → p.free_start + x < p.free_end
      → leb (page_get_free_space p) x ≡ false
  unfolding page_get_free_space
  has_room p x valid four h =
      ground (arith, sub32_small p.free_end p.free_start, valid.room, valid.top)

  out_of_range : (p : Page) (i : ℕ) → p.item_num ≤ i → page_read_pivot_at_offset p i ≡ []
  unfolding page_read_pivot_at_offset
  out_of_range p i h = ground arith

  pub not_equal :
      (p : Page) (key : List ℕ) (off : ℕ)
      → key ≢ []
      → ((i : ℕ) → i < p.item_num → page_read_pivot_at_offset p i ≢ key)
      → is_eq (compare_slices key (page_read_pivot_at_offset p off)) ≡ false
  not_equal p key off some_key absent = elim (dec_lt off p.item_num) [
    | yes h ↦ compare_ne _ _ (λ e. absent off h (sym e))
    | no h ↦ compare_ne _ _ (λ e. some_key (e ∙ out_of_range p off (omega arith)))
  ]

  -- A page with a new entry, in order and well-formed, where the other entries are unchanged.
  pub record Inserted (p p' : Page) (key val : List ℕ) (off : ℕ) : Type 0 where
    pub valid : IsValid p'
    pub sorted : IsSorted p'
    pub leaf : p'.is_leaf ≡ true
    pub place : Splits p key off
    pub count : p'.item_num ≡ p.item_num + 1
    pub dirty : p'.is_dirty ≡ true
    pub entry : decode_leaf_entry p' off ≡ (key, val)
    pub others :
        (i : ℕ)
        → i < p'.item_num
        → i ≢ off
        → decode_leaf_entry p' i ≡ decode_leaf_entry p (old_offset off i)

  module _ (p : Page) (key val : List ℕ) (valid : IsValid p) (sorted : IsSorted p)
      (leaf : p.is_leaf ≡ true)
      (room : p.free_start + (length key + length val + 12) < p.free_end) where
    pub written_Inserted :
        (off : ℕ)
        → Splits p key off
        → Inserted p (count_entry (page_write_leaf_entry_at off p key val)) key val off
    unfolding page_write_leaf_entry_at decode_leaf_entry
    written_Inserted off splits =
        let joins = write_leaf-Joins p off key val valid splits.within leaf room in
        let p' = count_entry (page_write_leaf_entry_at off p key val) in
        let entry = write_leaf-decode p off key val valid splits.within leaf room in
        let piv =
          pivot-key_at p' off (omega (arith, joins.count, joins.offset))
          ∙ ap (λ (e : List ℕ × List ℕ). e.0) entry in
        record {
          valid = Joins-IsValid p p' off valid joins;
          sorted = Joins-IsSorted p p' off valid joins key sorted piv splits.before splits.behind;
          leaf = leaf;
          place = splits;
          count = joins.count;
          dirty = refl;
          entry = entry;
          others = λ i h ne. Joins-leaf p p' off valid joins i leaf h ne;
        }

    -- On a well-formed leaf page in order with room for the entry, a nonempty key that the page does
    -- not hold is inserted at its place in the order; the other entries keep theirs.
    pub page_insert_leaf_entry_new :
        key ≢ []
        → ((i : ℕ) → i < p.item_num → page_read_pivot_at_offset p i ≢ key)
        → (p' : Page) × (off : ℕ) × (page_insert_leaf_entry p key val ≡ some p')
          × Inserted p p' key val off
    unfolding page_insert_leaf_entry
    page_insert_leaf_entry_new some_key absent =
        let (off, found, bound) = page_bin_search_insert-IsLowerBound p key sorted in
        (
          count_entry (page_write_leaf_entry_at off p key val),
          off,
          rw (
            has_room p (length key + length val + 12) valid (omega arith) room,
            found,
            not_equal p key off some_key absent,
          ),
          written_Inserted off (Splits-of_bound p key off bound absent),
        )
