-- ===== src/TreePage/Lookup/Reads.antt =====
-- What a lookup returns on a leaf page in order.
use aha_adaptive_hotspot_awa.Common.{
  ℕ, zero, suc, ◌<◌, ◌≡◌, ◌≢◌, ◌⊎◌, inl, inr, true, some, Ordering, List, [], arith, ap, ◌∙◌,
  dec_lt, sym,
}
use aha_adaptive_hotspot_awa.Leveldb.{Leveldb, compare_slices}
use aha_adaptive_hotspot_awa.TreePage.Layout.{
  Page, page_read_pivot_at_offset, page_read_value_at_offset, decode_leaf_entry,
}
use aha_adaptive_hotspot_awa.TreePage.Search.Loop.{Ordering-cases}
use aha_adaptive_hotspot_awa.TreePage.Search.Bounds.{IsSorted}
use aha_adaptive_hotspot_awa.TreePage.Search.Find.{page_find_offset_hit, page_find_offset_miss}
use aha_adaptive_hotspot_awa.TreePage.Lookup.{get_value_with_key}

module _ ⦃L : Leveldb⦄ where
  -- A key is among the first pivots or is none of them.
  member_below :
      (p : Page) (key : List ℕ) (n : ℕ)
      → ((i : ℕ) × (i < n) × (page_read_pivot_at_offset p i ≡ key))
        ⊎ ((i : ℕ) → i < n → page_read_pivot_at_offset p i ≢ key)
  member_below p key zero = inr (λ i h. elim h [ ])
  member_below p key (suc n) =
      step (member_below p key n)
        (Ordering-cases (compare_slices (page_read_pivot_at_offset p n) key))
    where
      ne_last :
          ((i : ℕ) → i < n → page_read_pivot_at_offset p i ≢ key)
          → page_read_pivot_at_offset p n ≢ key
          → (i : ℕ) → i < suc n
          → page_read_pivot_at_offset p i ≢ key
      ne_last below last i h e = elim (dec_lt i n) [
        | yes small ↦ below i small e
        | no other ↦ last (ap (page_read_pivot_at_offset p) (omega arith) ∙ e)
      ]

      ne_of :
          (o : Ordering)
          → compare_slices (page_read_pivot_at_offset p n) key ≡ o
          → o ≢ Ordering.eq
          → page_read_pivot_at_offset p n ≢ key
      ne_of o c ne e = ne (sym c ∙ ap (λ k. compare_slices k key) e ∙ L.compare_self key)

      step :
          ((i : ℕ) × (i < n) × (page_read_pivot_at_offset p i ≡ key))
            ⊎ ((i : ℕ) → i < n → page_read_pivot_at_offset p i ≢ key)
          → (compare_slices (page_read_pivot_at_offset p n) key ≡ Ordering.lt)
            ⊎ (compare_slices (page_read_pivot_at_offset p n) key ≡ Ordering.eq)
            ⊎ (compare_slices (page_read_pivot_at_offset p n) key ≡ Ordering.gt)
          → ((i : ℕ) × (i < suc n) × (page_read_pivot_at_offset p i ≡ key))
            ⊎ ((i : ℕ) → i < suc n → page_read_pivot_at_offset p i ≢ key)
      step (inl (i, h, e)) c = inl (i, omega arith, e)
      step (inr below) (inl c) = inr (ne_last below (ne_of _ c (λ e. cc)))
      step (inr below) (inr (inl c)) = inl (n, omega arith, L.compare_eq _ _ c)
      step (inr below) (inr (inr c)) = inr (ne_last below (ne_of _ c (λ e. cc)))

  pub member_cases :
      (p : Page) (key : List ℕ)
      → ((i : ℕ) × (i < p.item_num) × (page_read_pivot_at_offset p i ≡ key))
        ⊎ ((i : ℕ) → i < p.item_num → page_read_pivot_at_offset p i ≢ key)
  member_cases p key = member_below p key p.item_num

  pub pivot-decode :
      (p : Page) (i : ℕ)
      → p.is_leaf ≡ true
      → i < p.item_num
      → page_read_pivot_at_offset p i ≡ (decode_leaf_entry p i).0
  unfolding page_read_pivot_at_offset
  pivot-decode p i leaf h = ground arith

  pub get_hit :
      (p : Page) (key : List ℕ) (i : ℕ)
      → IsSorted p
      → p.is_leaf ≡ true
      → i < p.item_num
      → page_read_pivot_at_offset p i ≡ key
      → get_value_with_key p key ≡ some (decode_leaf_entry p i).1
  unfolding get_value_with_key page_read_value_at_offset
  get_hit p key i sorted leaf h e = rw (page_find_offset_hit p key i sorted h e) (ground arith)

  pub get_miss :
      (p : Page) (key : List ℕ)
      → IsSorted p
      → p.is_leaf ≡ true
      → key ≢ []
      → ((i : ℕ) → i < p.item_num → page_read_pivot_at_offset p i ≢ key)
      → get_value_with_key p key ≡ some []
  unfolding get_value_with_key
  get_miss p key sorted leaf some_key absent =
      rw (page_find_offset_miss p key sorted leaf some_key absent) (ground arith)
