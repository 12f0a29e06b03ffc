-- ===== src/Btree/Overflow/LeafSplit.antt =====
-- src/btree/btree.cc: the two halves of a full leaf that `InsertAndSplitLeafPages` splits.
pub mod Sides
pub mod Halves
pub mod Lookups
use aha_adaptive_hotspot_awa.Common.{
  ℕ, zero, suc, ◌+◌, ◌-◌, ◌/◌, ◌≤◌, ◌<◌, ◌≡◌, ◌≢◌, refl, inl, inr, Bool, true, false, not, Option,
  none, some, ◌>>=◌, Ordering, List, [], length, arith, ap, ◌∙◌, dec_lt, sym, subst, Bool-cases,
  if◌then◌else◌,
}
use mathlib.Core.Option.{some-injective}
use aha_adaptive_hotspot_awa.Leveldb.{Leveldb, compare_slices}
use aha_adaptive_hotspot_awa.TreePage.Layout.{
  Page, page_init, entry_pos, page_compare, page_read_pivot_at_offset, page_read_value_at_offset,
  decode_leaf_entry, decode_index_entry,
}
use aha_adaptive_hotspot_awa.TreePage.Search.{page_bin_search, after_search}
use aha_adaptive_hotspot_awa.TreePage.Search.Loop.{Ordering-cases}
use aha_adaptive_hotspot_awa.TreePage.Search.Bounds.{IsSorted}
use aha_adaptive_hotspot_awa.TreePage.Valid.{IsValid}
use aha_adaptive_hotspot_awa.TreePage.Update.{page_find_offset}
use aha_adaptive_hotspot_awa.TreePage.Insert.{
  page_insert_leaf_entry, page_move_leaf_entries, move_leaf_from,
}
use aha_adaptive_hotspot_awa.TreePage.Insert.Moved.{entry_key, cost_from, Moved, Moved-from}
use aha_adaptive_hotspot_awa.TreePage.Lookup.{get_value_with_key}
use aha_adaptive_hotspot_awa.TreePage.Lookup.Reads.{member_cases, pivot-decode, get_hit, get_miss}
use aha_adaptive_hotspot_awa.TreePage.Lookup.AfterInsert.{get-insert_self, get-insert_other}
use aha_adaptive_hotspot_awa.TreeFile.{zero_page}
use aha_adaptive_hotspot_awa.Btree.Overflow.{
  is_lt, reset_page, insert_where, belongs_low, split_leaf,
}

module _ ⦃L : Leveldb⦄ where
  -- An empty leaf.
  pub reset-IsValid : (pg_id : ℕ) → IsValid (reset_page pg_id true)
  unfolding page_init
  reset-IsValid pg_id = record {
    start = refl;
    room = omega arith;
    top = omega arith;
    low = λ i h. absurd (omega arith);
    high = λ i h. absurd (omega arith);
    apart = λ i j h. absurd (omega arith);
  }

  pub reset-IsSorted : (pg_id : ℕ) → IsSorted (reset_page pg_id true)
  unfolding page_init
  reset-IsSorted pg_id i j h k = absurd (omega arith)

  module _ (src : Page) (sorted : IsSorted src) (leaf : src.is_leaf ≡ true)
      (keys : (i : ℕ) → i < src.item_num → entry_key src i ≢ []) where
    -- Entries that were moved to an empty leaf are looked up as they were.
    pub Moved-get :
        (dest dest' : Page) (off rounds : ℕ) (k : List ℕ)
        → dest.item_num ≡ 0
        → off + rounds ≤ src.item_num
        → Moved src dest off rounds dest'
        → k ≢ []
        → ((i : ℕ)
            → i < src.item_num
            → page_read_pivot_at_offset src i ≡ k
            → (off ≤ i) × (i < off + rounds))
        → get_value_with_key dest' k ≡ get_value_with_key src k
    Moved-get dest dest' off rounds k empty within m some_k inside = elim (member_cases src k) [
      | inl (i, h, e) ↦
          let (low, high) = inside i h e in
          let j = i - off in
          let j_small : j < dest'.item_num = omega (arith, m.count) in
          let from : dest.item_num + j ≡ j = omega arith in
          let to : off + j ≡ i = omega arith in
          let same : decode_leaf_entry dest' j ≡ decode_leaf_entry src i =
            ap (decode_leaf_entry dest') (sym from)
            ∙ m.back j (omega arith)
            ∙ ap (decode_leaf_entry src) to in
          get_hit dest' k j m.sorted m.leaf j_small (
            pivot-decode dest' j m.leaf j_small
            ∙ ap (λ (x : List ℕ × List ℕ). x.0) same
            ∙ sym (pivot-decode src i leaf h)
            ∙ e)
          ∙ ap (λ (x : List ℕ × List ℕ). some x.1) same
          ∙ sym (get_hit src k i sorted leaf h e)
      | inr absent ↦
          get_miss dest' k m.sorted m.leaf some_k (λ j h e.
            let from : dest.item_num + j ≡ j = omega arith in
            let same : decode_leaf_entry dest' j ≡ decode_leaf_entry src (off + j) =
              ap (decode_leaf_entry dest') (sym from) ∙ m.back j (omega (arith, m.count)) in
            let old : off + j < src.item_num = omega (arith, m.count) in
            absent (off + j) old (
              pivot-decode src (off + j) leaf old
              ∙ sym (ap (λ (x : List ℕ × List ℕ). x.0) same)
              ∙ sym (pivot-decode dest' j m.leaf h)
              ∙ e))
          ∙ sym (get_miss src k sorted leaf some_k absent)
    ]

    -- Keys below a pivot stand before it, and the others do not.
    pub low_before :
        (mid i : ℕ) (k : List ℕ)
        → mid < src.item_num
        → i < src.item_num
        → page_read_pivot_at_offset src i ≡ k
        → compare_slices k (page_read_pivot_at_offset src mid) ≡ Ordering.lt
        → i < mid
    low_before mid i k hm hi e lt = elim (dec_lt i mid) [
      | yes h ↦ h
      | no h ↦ elim (dec_lt mid i) [
        | yes big ↦
            let gt = L.compare_lt _ _ (sorted mid i big hi) in
            let here : compare_slices (page_read_pivot_at_offset src i)
                  (page_read_pivot_at_offset src mid)
                ≡ Ordering.lt =
              ap (λ x. compare_slices x (page_read_pivot_at_offset src mid)) e ∙ lt in
            absurd (cc)
        | no same ↦
            let i_mid : i ≡ mid = omega arith in
            let own = L.compare_self k in
            let here : compare_slices k k ≡ Ordering.lt =
              ap (compare_slices k) (sym e ∙ ap (page_read_pivot_at_offset src) i_mid) ∙ lt in
            absurd (cc)
      ]
    ]

    pub high_behind :
        (mid i : ℕ) (k : List ℕ)
        → mid < src.item_num
        → page_read_pivot_at_offset src i ≡ k
        → compare_slices k (page_read_pivot_at_offset src mid) ≢ Ordering.lt
        → mid ≤ i
    high_behind mid i k hm e ng = elim (dec_lt i mid) [
      | yes h ↦ absurd (
          ng (
            ap (λ x. compare_slices x (page_read_pivot_at_offset src mid)) (sym e)
            ∙ sorted i mid h hm))
      | no h ↦ omega arith
    ]

  -- Neither the links nor the mark of a page play a part in its lookups.
  pub get-linked :
      (p : Page) (k : List ℕ) (right : ℕ)
      → get_value_with_key (record p { right = right }) k ≡ get_value_with_key p k
  unfolding get_value_with_key page_find_offset page_bin_search page_compare after_search
      page_read_pivot_at_offset page_read_value_at_offset decode_leaf_entry decode_index_entry
      entry_pos
  get-linked p k right = refl
