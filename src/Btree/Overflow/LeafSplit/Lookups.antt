-- ===== src/Btree/Overflow/LeafSplit/Lookups.antt =====
-- src/btree/btree.cc: the pages that `InsertAndSplitLeafPages` makes of a full leaf and a new entry.
use aha_adaptive_hotspot_awa.Common.{
  inl, inr, Bool-cases, ℕ, ◌+◌, ◌-◌, ◌/◌, ◌≤◌, ◌<◌, ◌≡◌, ◌≢◌, refl, Bool, true, false, not, some,
  List, [], length, arith, ap, ◌∙◌, sym, if◌then◌else◌,
}
use aha_adaptive_hotspot_awa.Leveldb.{Leveldb}
use aha_adaptive_hotspot_awa.TreePage.Layout.{
  Page, page_init, page_read_pivot_at_offset, decode_leaf_entry,
}
use aha_adaptive_hotspot_awa.TreePage.Search.Bounds.{IsSorted}
use aha_adaptive_hotspot_awa.TreePage.Valid.{IsValid}
use aha_adaptive_hotspot_awa.TreePage.Insert.{page_move_leaf_entries}
use aha_adaptive_hotspot_awa.TreePage.Insert.Moved.{entry_key, cost_from, Moved, Moved-from}
use aha_adaptive_hotspot_awa.TreePage.Lookup.{get_value_with_key}
use aha_adaptive_hotspot_awa.TreePage.Lookup.Reads.{pivot-decode}
use aha_adaptive_hotspot_awa.Btree.Overflow.LeafSplit.Sides.{
  sent_to, sent_to-linked, is_lt-true, is_lt-false, old-sent_to, new-sent_to, high-sent_to,
}
use aha_adaptive_hotspot_awa.Btree.Overflow.{reset_page, insert_where, belongs_low, split_leaf}
use aha_adaptive_hotspot_awa.Btree.Overflow.LeafSplit.{
  reset-IsValid, reset-IsSorted, Moved-get, low_before, high_behind, get-linked,
}
use aha_adaptive_hotspot_awa.Btree.Overflow.LeafSplit.Halves.{
  new_cost, Half, linked-IsValid, linked-IsSorted, dirty-Moved, insert_where-Half,
}

module _ ⦃L : Leveldb⦄ where
  -- The pages of a split, each key looked up on the side that the lower page's high key tells.
  pub record LeafSplit (src : Page) (child_id : ℕ) (key val : List ℕ) (page child : Page)
      : Type 0 where
    pub page_valid : IsValid page
    pub page_sorted : IsSorted page
    pub child_valid : IsValid child
    pub child_sorted : IsSorted child
    pub page_right : page.right ≡ child_id
    pub child_right : child.right ≡ src.right
    pub self : get_value_with_key (if sent_to page key then page else child) key ≡ some val
    pub other :
        (k : List ℕ)
        → k ≢ []
        → k ≢ key
        → get_value_with_key (if sent_to page k then page else child) k ≡ get_value_with_key src k

  module _ (src : Page) (sorted : IsSorted src) (leaf : src.is_leaf ≡ true)
      (keys : (i : ℕ) → i < src.item_num → entry_key src i ≢ []) where
    page_move_leaf_entries-Moved :
        (pg start end rounds : ℕ)
        → end - start ≡ rounds
        → start + rounds ≤ src.item_num
        → 40 + cost_from src start rounds < 8192
        → (p : Page) × (page_move_leaf_entries src (reset_page pg true) start end ≡ some p)
          × Moved src (reset_page pg true) start rounds p
    unfolding page_move_leaf_entries page_init
    page_move_leaf_entries-Moved pg start end rounds number within room =
        let (p, done, m) =
          Moved-from src sorted leaf keys (reset_page pg true) start rounds (reset-IsValid pg)
            (reset-IsSorted pg) refl within room (λ z i h. absurd (omega arith)) in
        (record p { is_dirty = true }, rw (number, done) refl, dirty-Moved src _ p start rounds m)

    Half-split :
        (b : Bool) (key val : List ℕ) (pg start rounds : ℕ) (p : Page)
        → start + rounds ≤ src.item_num
        → 40 + cost_from src start rounds + new_cost key val < 8192
        → key ≢ []
        → ((i : ℕ)
            → i < src.item_num
            → page_read_pivot_at_offset src i ≡ key
            → length val ≡ length (decode_leaf_entry src i).1)
        → Moved src (reset_page pg true) start rounds p
        → (p' : Page) × (insert_where b key val p ≡ some p') × Half b key val p p'
    unfolding page_init
    Half-split b key val pg start rounds p within room some_key same m =
        insert_where-Half b p key val m.valid m.sorted m.leaf (omega (arith, m.used)) some_key
          λ i h e.
            let from : decode_leaf_entry p i ≡ decode_leaf_entry src (start + i) =
              ap (decode_leaf_entry p) (omega arith) ∙ m.back i (omega (arith, m.count)) in
            let old : start + i < src.item_num = omega (arith, m.count) in
            same (start + i) old (
              pivot-decode src (start + i) leaf old
              ∙ sym (ap (λ (x : List ℕ × List ℕ). x.0) from)
              ∙ sym (pivot-decode p i m.leaf h)
              ∙ e)
            ∙ ap (λ (x : List ℕ × List ℕ). length x.1) (sym from)

    lower_get :
        (pg : ℕ) (p : Page) (k : List ℕ)
        → 2 ≤ src.item_num
        → k ≢ []
        → Moved src (reset_page pg true) 0 (src.item_num / 2) p
        → belongs_low src k ≡ true
        → get_value_with_key p k ≡ get_value_with_key src k
    unfolding page_init
    lower_get pg p k two some_k m low =
        Moved-get src sorted leaf keys (reset_page pg true) p 0 (src.item_num / 2) k refl
          (omega arith) m some_k
          λ i h e.
            let before =
              low_before src sorted leaf keys (src.item_num / 2) i k (omega arith) h e
                (is_lt-true _ low) in
            (omega arith, omega (arith, before))

    upper_get :
        (pg : ℕ) (p : Page) (k : List ℕ)
        → 2 ≤ src.item_num
        → k ≢ []
        → Moved src (reset_page pg true) (src.item_num / 2) (src.item_num - src.item_num / 2) p
        → belongs_low src k ≡ false
        → get_value_with_key p k ≡ get_value_with_key src k
    unfolding page_init
    upper_get pg p k two some_k m high =
        Moved-get src sorted leaf keys (reset_page pg true) p (src.item_num / 2)
          (src.item_num - src.item_num / 2) k refl (omega arith) m some_k
          λ i h e.
            let behind =
              high_behind src sorted leaf keys (src.item_num / 2) i k (omega arith) e
                (is_lt-false _ high) in
            (behind, omega arith)

    -- A key of the lower half that is greater than its high key is not there.
    between_get :
        (pg : ℕ) (c : Page) (k : List ℕ)
        → 2 ≤ src.item_num
        → k ≢ []
        → Moved src (reset_page pg true) (src.item_num / 2) (src.item_num - src.item_num / 2) c
        → belongs_low src k ≡ true
        → ((i : ℕ) → i < src.item_num / 2 → page_read_pivot_at_offset src i ≢ k)
        → get_value_with_key c k ≡ get_value_with_key src k
    unfolding page_init
    between_get pg c k two some_k m low absent =
        Moved-get src sorted leaf keys (reset_page pg true) c (src.item_num / 2)
          (src.item_num - src.item_num / 2) k refl (omega arith) m some_k
          λ i h e.
            let before =
              low_before src sorted leaf keys (src.item_num / 2) i k (omega arith) h e
                (is_lt-true _ low) in
            absurd (absent i before e)

    module _ (key val : List ℕ) (some_key : key ≢ [])
        (same : (i : ℕ)
          → i < src.item_num
          → page_read_pivot_at_offset src i ≡ key
          → length val ≡ length (decode_leaf_entry src i).1) where
      module _ (pg child_id : ℕ) (two : 2 ≤ src.item_num) (p page c child : Page)
          (m : Moved src (reset_page pg true) 0 (src.item_num / 2) p)
          (m' : Moved src
            (reset_page child_id true)
            (src.item_num / 2)
            (src.item_num - src.item_num / 2)
            c)
          (h : Half (belongs_low src key) key val p page)
          (h' : Half (not (belongs_low src key)) key val c child) where
        abbrev page_at : List ℕ → Page
        page_at k =
            if sent_to page k
            then record page { right = child_id }
            else record child { right = src.right }

        self_get : get_value_with_key (page_at key) key ≡ some val
        unfolding page_init
        self_get = elim (Bool-cases (belongs_low src key)) [
          | inl low ↦
              let to_page =
                new-sent_to src sorted leaf two (reset_page pg true) p refl m key page h.valid
                  h.sorted h.grows low in
              rw to_page (get-linked page key child_id ∙ h.self low)
          | inr high ↦
              let to_child =
                high-sent_to src sorted leaf two (reset_page pg true) p refl m key page h.valid
                  h.sorted h.grows key high in
              rw to_child (get-linked child key src.right ∙ h'.self (ap not high))
        ]

        high_get :
            (k : List ℕ)
            → k ≢ []
            → k ≢ key
            → belongs_low src k ≡ false
            → get_value_with_key (page_at k) k ≡ get_value_with_key src k
        unfolding page_init
        high_get k some_k ne high =
            let to_child =
              high-sent_to src sorted leaf two (reset_page pg true) p refl m key page h.valid
                h.sorted h.grows k high in
            rw to_child (
              get-linked child k src.right
              ∙ h'.other k some_k ne
              ∙ upper_get child_id c k two some_k m' high)

        low_get :
            (k : List ℕ)
            → k ≢ []
            → k ≢ key
            → belongs_low src k ≡ true
            → get_value_with_key (page_at k) k ≡ get_value_with_key src k
        unfolding page_init
        low_get k some_k ne low = elim (Bool-cases (sent_to page k)) [
          | inl to_page ↦
              rw to_page (
                get-linked page k child_id
                ∙ h.other k some_k ne
                ∙ lower_get pg p k two some_k m low)
          | inr to_child ↦ rw to_child (
              get-linked child k src.right
              ∙ h'.other k some_k ne
              ∙ between_get child_id c k two some_k m' low λ i before e.
                let to_page =
                  old-sent_to src sorted leaf two (reset_page pg true) p refl m key page h.valid
                    h.sorted h.grows i k before e in
                cc)
        ]

        split_LeafSplit :
            LeafSplit src child_id key val
              (record page { right = child_id })
              (record child { right = src.right })
        split_LeafSplit = record {
          page_valid = linked-IsValid page child_id h.valid;
          page_sorted = linked-IsSorted page child_id h.sorted;
          child_valid = linked-IsValid child src.right h'.valid;
          child_sorted = linked-IsSorted child src.right h'.sorted;
          page_right = refl;
          child_right = refl;
          self = rw (sent_to-linked page key child_id) self_get;
          other = λ k some_k ne.
              rw (sent_to-linked page k child_id) (elim (Bool-cases (belongs_low src k)) [
                | inl low ↦ low_get k some_k ne low
                | inr high ↦ high_get k some_k ne high
              ]);
        }

      -- The split of a leaf in order.
      pub split_leaf_lem :
          (pg child_id : ℕ)
          → 2 ≤ src.item_num
          → 40 + cost_from src 0 (src.item_num / 2) + new_cost key val < 8192
          → 40
              + cost_from src (src.item_num / 2) (src.item_num - src.item_num / 2)
              + new_cost key val
            < 8192
          → (page child : Page) × (split_leaf src pg child_id key val ≡ some (page, child))
            × LeafSplit src child_id key val page child
      unfolding split_leaf
      split_leaf_lem pg child_id two room_low room_high =
          let half = src.item_num / 2 in
          let low = belongs_low src key in
          let (p, moved, m) =
            page_move_leaf_entries-Moved pg 0 half half (omega arith) (omega arith) (omega arith) in
          let (c, moved', m') =
            page_move_leaf_entries-Moved child_id half src.item_num (src.item_num - half) refl
              (omega arith) (omega arith) in
          let (page, done, h) =
            Half-split low key val pg 0 half p (omega arith) (omega arith) some_key same m in
          let (child, done', h') =
            Half-split (not low) key val child_id half (src.item_num - half) c (omega arith)
              (omega arith) some_key same m' in
          (
            record page { right = child_id },
            record child { right = src.right },
            rw (moved, moved', done, done') refl,
            split_LeafSplit pg child_id two p page c child m m' h h',
          )
