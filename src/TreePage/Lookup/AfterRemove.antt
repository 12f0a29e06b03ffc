-- ===== src/TreePage/Lookup/AfterRemove.antt =====
-- Lookups behind a removal.
use aha_adaptive_hotspot_awa.Common.{
  ℕ, ◌+◌, ◌-◌, ◌<◌, ◌≡◌, ◌≢◌, inl, inr, true, false, some, Ordering, List, [], arith, ap, ◌∙◌,
  dec_lt, sym,
}
use mathlib.Core.Option.{some-injective}
use mathlib.Core.Bool.{Bool}
use aha_adaptive_hotspot_awa.Leveldb.{Leveldb, compare_slices}
use aha_adaptive_hotspot_awa.TreePage.Layout.{Page, page_read_pivot_at_offset, decode_leaf_entry}
use aha_adaptive_hotspot_awa.TreePage.Search.{page_bin_search}
use aha_adaptive_hotspot_awa.TreePage.Search.Bounds.{
  IsSorted, against, IsSorted-Falls, page_bin_search-IsFloor,
}
use aha_adaptive_hotspot_awa.TreePage.Search.Find.{floor_eq, compare_ne}
use aha_adaptive_hotspot_awa.TreePage.Valid.{IsValid, entry_size}
use aha_adaptive_hotspot_awa.TreePage.Remove.{page_remove_entry, page_remove_offset}
use aha_adaptive_hotspot_awa.TreePage.Remove.Closed.{
  Closes, skip_offset, Closes-IsValid, Closes-pivot, Closes-leaf, Closes-IsSorted, skip_within,
}
use aha_adaptive_hotspot_awa.TreePage.Remove.Offset.{page_remove_offset-Closes}
use aha_adaptive_hotspot_awa.TreePage.Lookup.{get_value_with_key}
use aha_adaptive_hotspot_awa.TreePage.Lookup.Reads.{member_cases, get_hit, get_miss}

module _ ⦃L : Leveldb⦄ where
  remove_empty :
      (p : Page) (key : List ℕ)
      → key ≢ []
      → p.item_num ≡ 0
      → page_remove_entry p key ≡ some (p, false)
  unfolding page_remove_entry page_bin_search page_read_pivot_at_offset
  remove_empty p key some_key z = ground (arith, compare_ne key [] some_key)

  pivots_lt :
      (p : Page)
      → IsSorted p
      → (i j : ℕ) → i < j
      → j < p.item_num
      → page_read_pivot_at_offset p i ≢ page_read_pivot_at_offset p j
  pivots_lt p sorted i j h k e =
      let same = L.compare_self (page_read_pivot_at_offset p j) in
      let less = sorted i j h k in
      let moved = ap (λ x. compare_slices x (page_read_pivot_at_offset p j)) e in absurd (cc)

  -- Pivots at two offsets differ.
  pivots_ne :
      (p : Page)
      → IsSorted p
      → (i j : ℕ) → i < p.item_num
      → j < p.item_num
      → i ≢ j
      → page_read_pivot_at_offset p i ≢ page_read_pivot_at_offset p j
  pivots_ne p sorted i j h k ne e = elim (dec_lt i j) [
    | yes small ↦ pivots_lt p sorted i j small k e
    | no other ↦ pivots_lt p sorted j i (omega arith) h (sym e)
  ]

  -- What the removal of a key leaves for the lookups.
  record Forgets (p : Page) (key : List ℕ) (p' : Page) : Type 0 where
    valid : IsValid p'
    sorted : IsSorted p'
    count : p'.item_num + 1 ≡ p.item_num
    self : get_value_with_key p' key ≡ some []
    other : (k : List ℕ) → k ≢ [] → k ≢ key → get_value_with_key p' k ≡ get_value_with_key p k

  module _ (p : Page) (key : List ℕ) (valid : IsValid p) (sorted : IsSorted p)
      (leaf : p.is_leaf ≡ true) (some_key : key ≢ []) where
    module _ (p' : Page) (off : ℕ) (closes : Closes p p' off)
        (at_off : page_read_pivot_at_offset p off ≡ key) where
      leaf' : p'.is_leaf ≡ true
      leaf' = closes.kind ∙ leaf

      gone : (i : ℕ) → i < p'.item_num → page_read_pivot_at_offset p' i ≢ key
      gone i h e =
          pivots_ne p sorted (skip_offset off i) off (skip_within p p' off valid closes i h)
            closes.within (ground arith)
            (sym (Closes-pivot p p' off valid closes i h) ∙ e ∙ sym at_off)

      hit :
          (k : List ℕ)
          → (j i : ℕ) → j < p'.item_num
          → skip_offset off j ≡ i
          → i < p.item_num
          → page_read_pivot_at_offset p i ≡ k
          → get_value_with_key p' k ≡ get_value_with_key p k
      hit k j i lt old h e =
          get_hit p' k j (Closes-IsSorted p p' off valid closes sorted) leaf' lt
            (Closes-pivot p p' off valid closes j lt ∙ ap (page_read_pivot_at_offset p) old ∙ e)
          ∙ ap (λ (x : List ℕ × List ℕ). some x.1)
              (Closes-leaf p p' off valid closes j leaf lt ∙ ap (decode_leaf_entry p) old)
          ∙ sym (get_hit p k i sorted leaf h e)

      other : (k : List ℕ) → k ≢ [] → k ≢ key → get_value_with_key p' k ≡ get_value_with_key p k
      other k some_k ne = elim (member_cases p k) [
        | inl (i, h, e) ↦ elim (dec_lt i off) [
          | yes small ↦ hit k i i (omega (arith, closes.count, closes.within)) (ground arith) h e
          | no big ↦
              let off_ne : i ≢ off =
                λ f. ne (sym e ∙ ap (page_read_pivot_at_offset p) f ∙ at_off) in
              hit k (i - 1) i (omega (arith, closes.count)) (ground arith) h e
        ]
        | inr absent ↦
            get_miss p' k (Closes-IsSorted p p' off valid closes sorted) leaf' some_k (λ j lt e.
              absent _ (skip_within p p' off valid closes j lt)
                (sym (Closes-pivot p p' off valid closes j lt) ∙ e))
            ∙ sym (get_miss p k sorted leaf some_k absent)
      ]

      closes_Forgets : Forgets p key p'
      closes_Forgets = record {
        valid = Closes-IsValid p p' off valid closes;
        sorted = Closes-IsSorted p p' off valid closes sorted;
        count = closes.count;
        self = get_miss p' key (Closes-IsSorted p p' off valid closes sorted) leaf' some_key gone;
        other = other;
      }

    module _ (alike : (i : ℕ) → i + 1 < p.item_num → entry_size p (i + 1) ≡ entry_size p i)
        (off : ℕ) (h : off < p.item_num) (at_off : page_read_pivot_at_offset p off ≡ key) where
      forgotten : (p' : Page) × (page_remove_entry p key ≡ some (p', true)) × Forgets p key p'
      unfolding page_remove_entry page_remove_offset
      forgotten =
          let (r, found, floor) = page_bin_search-IsFloor p key sorted (omega arith) in
          let at_i : against p key off ≡ Ordering.eq = rw at_off (L.compare_self key) in
          let same =
            floor_eq (against p key) p.item_num r off (IsSorted-Falls p key sorted) floor h at_i in
          (
            page_remove_offset p off,
            rw (found, same, at_i),
            closes_Forgets (page_remove_offset p off) off
                (page_remove_offset-Closes p off valid h (alike off)) at_off,
          )

      -- On a well-formed leaf page in order whose entries are all as long, the removal of a nonempty
      -- key that is there gets through. The new page is well-formed and in order, has one entry
      -- less, and the key is no longer found.
      pub get-remove_self :
          (p' : Page) × (page_remove_entry p key ≡ some (p', true))
          × IsValid p'
          × IsSorted p'
          × (p'.item_num + 1 ≡ p.item_num)
          × (get_value_with_key p' key ≡ some [])
      get-remove_self =
          let (p', result, f) = forgotten in (p', result, f.valid, f.sorted, f.count, f.self)

      -- On a well-formed leaf page in order whose entries are all as long, the removal of a nonempty
      -- key that is there leaves every other nonempty key to be looked up as before.
      pub get-remove_other :
          (p' : Page) (k : List ℕ)
          → page_remove_entry p key ≡ some (p', true)
          → k ≢ []
          → k ≢ key
          → get_value_with_key p' k ≡ get_value_with_key p k
      get-remove_other p' k result some_k ne =
          let (q, result', f) = forgotten in
          ap (λ r. get_value_with_key r k)
            (ap (λ (x : Page × Bool). x.0) (some-injective _ _ (sym result ∙ result')))
          ∙ f.other k some_k ne

    -- The removal of a nonempty key that is not on a well-formed leaf page in order reports it and leaves the page
    -- as it is.
    pub page_remove_entry_absent :
        ((i : ℕ) → i < p.item_num → page_read_pivot_at_offset p i ≢ key)
        → page_remove_entry p key ≡ some (p, false)
    unfolding page_remove_entry
    page_remove_entry_absent absent = elim (dec_lt 0 p.item_num) [
      | yes h ↦
          let (r, found, floor) = page_bin_search-IsFloor p key sorted h in
          rw (found, compare_ne key _ (λ e. absent r floor.within (sym e)))
      | no h ↦ remove_empty p key some_key (omega arith)
    ]
