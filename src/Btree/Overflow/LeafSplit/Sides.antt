-- ===== src/Btree/Overflow/LeafSplit/Sides.antt =====
-- src/btree/btree.cc: the high keys that `InsertAndSplitLeafPages` passes up, and the keys on each side.
use aha_adaptive_hotspot_awa.Common.{
  ℕ, ◌+◌, ◌-◌, ◌/◌, ◌≤◌, ◌<◌, ◌≡◌, ◌≢◌, refl, inl, inr, Bool, true, false, not, Ordering, List,
  arith, ap, ◌∙◌, sym, sub32_small, ℕ_discrete,
}
use aha_adaptive_hotspot_awa.Leveldb.{Leveldb, compare_slices}
use aha_adaptive_hotspot_awa.TreePage.Layout.{
  Page, entry_pos, page_highkey, page_read_pivot_at_offset, decode_leaf_entry, decode_index_entry,
}
use aha_adaptive_hotspot_awa.TreePage.Search.Loop.{Ordering-cases}
use aha_adaptive_hotspot_awa.TreePage.Search.Bounds.{IsSorted}
use aha_adaptive_hotspot_awa.TreePage.Valid.{IsValid}
use aha_adaptive_hotspot_awa.TreePage.Update.{is_gt}
use aha_adaptive_hotspot_awa.TreePage.Insert.Moved.{Moved}
use aha_adaptive_hotspot_awa.TreePage.Lookup.Reads.{pivot-decode}
use aha_adaptive_hotspot_awa.TreePage.Lookup.Pivots.{Grows}
use aha_adaptive_hotspot_awa.Btree.Overflow.{is_lt, belongs_low}

module _ ⦃L : Leveldb⦄ where
  -- Is the key not greater than the high key that was passed up with the page?
  abbrev pub sent_to : Page → List ℕ → Bool
  sent_to page k = not (is_gt (compare_slices k (page_highkey page)))

  pub sent_to-linked :
      (p : Page) (k : List ℕ) (right : ℕ) → sent_to (record p { right = right }) k ≡ sent_to p k
  unfolding page_highkey page_read_pivot_at_offset decode_leaf_entry decode_index_entry entry_pos
  sent_to-linked p k right = refl

  pub is_lt-true : (o : Ordering) → is_lt o ≡ true → o ≡ Ordering.lt
  is_lt-true Ordering.lt e = refl
  is_lt-true Ordering.eq e = absurd (cc)
  is_lt-true Ordering.gt e = absurd (cc)

  pub is_lt-false : (o : Ordering) → is_lt o ≡ false → o ≢ Ordering.lt
  is_lt-false Ordering.lt e f = absurd (cc)
  is_lt-false Ordering.eq e f = absurd (cc)
  is_lt-false Ordering.gt e f = absurd (cc)

  highkey_last :
      (p : Page) (j : ℕ)
      → IsValid p
      → p.item_num ≡ j + 1
      → page_highkey p ≡ page_read_pivot_at_offset p j
  unfolding page_highkey
  highkey_last p j valid last = ap (page_read_pivot_at_offset p) (
      sub32_small p.item_num 1 (omega arith) (omega (arith, valid.start, valid.room, valid.top))
      ∙ omega arith)

  -- A pivot of the page is not greater than its high key.
  pub pivot-sent_to :
      (p : Page) (j : ℕ) (k : List ℕ)
      → IsValid p
      → IsSorted p
      → j < p.item_num
      → page_read_pivot_at_offset p j ≡ k
      → sent_to p k ≡ true
  pivot-sent_to p j k valid sorted h e =
      let at_last = highkey_last p (p.item_num - 1) valid (omega arith) in
      elim (ℕ_discrete j (p.item_num - 1)) [
        | yes last ↦
            let same : k ≡ page_highkey p =
              sym e ∙ ap (page_read_pivot_at_offset p) last ∙ sym at_last in
            let eq : compare_slices k (page_highkey p) ≡ Ordering.eq =
              ap (compare_slices k) (sym same) ∙ L.compare_self k in
            ap (λ o. not (is_gt o)) eq
        | no front ↦
            let lt : compare_slices k (page_highkey p) ≡ Ordering.lt =
              ap (compare_slices k) at_last
              ∙ ap (λ x. compare_slices x (page_read_pivot_at_offset p (p.item_num - 1))) (sym e)
              ∙ sorted j (p.item_num - 1) (omega arith) (omega arith) in
            ap (λ o. not (is_gt o)) lt
      ]

  beyond :
      (k high mid : List ℕ)
      → compare_slices high mid ≡ Ordering.lt
      → compare_slices k mid ≢ Ordering.lt
      → compare_slices k high ≡ Ordering.gt
  beyond k high mid below ng = elim (Ordering-cases (compare_slices k mid)) [
    | inl lt ↦ absurd (ng lt)
    | inr (inl eq) ↦ L.compare_lt high k (ap (compare_slices high) (L.compare_eq k mid eq) ∙ below)
    | inr (inr gt) ↦ L.compare_lt high k (L.compare_trans high mid k below (L.compare_gt k mid gt))
  ]

  module _ (src : Page) (sorted : IsSorted src) (leaf : src.is_leaf ≡ true) (two : 2 ≤ src.item_num)
      (dest p : Page) (empty : dest.item_num ≡ 0) (m : Moved src dest 0 (src.item_num / 2) p)
      (key : List ℕ) (p' : Page) (valid' : IsValid p') (sorted' : IsSorted p')
      (g : Grows (belongs_low src key) p p' key) where
    moved_pivot :
        (i : ℕ)
        → i < src.item_num / 2
        → page_read_pivot_at_offset p i ≡ page_read_pivot_at_offset src i
    moved_pivot i h =
        let same : decode_leaf_entry p i ≡ decode_leaf_entry src i =
          ap (decode_leaf_entry p) (omega (arith, empty))
          ∙ m.back i h
          ∙ ap (decode_leaf_entry src) (omega arith) in
        pivot-decode p i m.leaf (omega (arith, m.count, empty))
        ∙ ap (λ (x : List ℕ × List ℕ). x.0) same
        ∙ sym (pivot-decode src i leaf (omega arith))

    -- The old keys of the lower half are sent to it, and the new key if it belongs there.
    pub old-sent_to :
        (i : ℕ) (k : List ℕ)
        → i < src.item_num / 2
        → page_read_pivot_at_offset src i ≡ k
        → sent_to p' k ≡ true
    old-sent_to i k h e =
        let (j, lt, same) = g.old i (omega (arith, m.count, empty)) in
        pivot-sent_to p' j k valid' sorted' lt (same ∙ moved_pivot i h ∙ e)

    pub new-sent_to : belongs_low src key ≡ true → sent_to p' key ≡ true
    new-sent_to low = let (j, lt, e) = g.own low in pivot-sent_to p' j key valid' sorted' lt e

    -- A key of the upper half is greater than the high key.
    pub high-sent_to : (k : List ℕ) → belongs_low src k ≡ false → sent_to p' k ≡ false
    high-sent_to k high =
        let (z, some_pivot, first) = g.old 0 (omega (arith, m.count, empty, two)) in
        let last = highkey_last p' (p'.item_num - 1) valid' (omega arith) in
        let mid = page_read_pivot_at_offset src (src.item_num / 2) in
        let below : compare_slices (page_highkey p') mid ≡ Ordering.lt =
          elim (g.from (p'.item_num - 1) (omega arith)) [
            | inl (low, e) ↦
                ap (λ x. compare_slices x mid) (last ∙ e) ∙ is_lt-true (compare_slices key mid) low
            | inr (i, h, e) ↦
                ap (λ x. compare_slices x mid)
                  (last ∙ e ∙ moved_pivot i (omega (arith, m.count, empty)))
                ∙ sorted i (src.item_num / 2) (omega (arith, m.count, empty)) (omega arith)
          ] in
        ap (λ o. not (is_gt o))
          (beyond k (page_highkey p') mid below (is_lt-false (compare_slices k mid) high))
