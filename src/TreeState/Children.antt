-- ===== src/TreeState/Children.antt =====
-- `FindChildrenNodes`: the children of an inner page that a range scan goes to.
use aha_adaptive_hotspot_awa.Common.{
  ℕ, zero, suc, ◌+◌, ◌-◌, ◌≤◌, ◌<◌, ◌≡◌, ◌≢◌, refl, sym, ap, ◌∙◌, ◌⊎◌, inl, inr, true, false, not,
  ◌&&◌, ◌==◌, none, some, Ordering, List, [], arith, dec_lt, ℕ_discrete, Bool-cases, if◌then◌else◌,
  has,
}
use aha_adaptive_hotspot_awa.Leveldb.{Leveldb, compare_slices}
use aha_adaptive_hotspot_awa.TreePage.Layout.{
  Page, page_read_pivot_at_offset, page_read_child_at_offset,
}
use aha_adaptive_hotspot_awa.TreePage.Search.Loop.{Ordering-cases}
use aha_adaptive_hotspot_awa.TreePage.Search.Bounds.{
  IsSorted, IsFloor, against, page_bin_search-IsFloor,
}
use aha_adaptive_hotspot_awa.TreePage.Update.{page_find_offset, is_eq}
use aha_adaptive_hotspot_awa.Btree.Overflow.{is_lt}
use aha_adaptive_hotspot_awa.TreeState.{
  is_empty, low_offset, children_of_inner, children_from, children_behind, offset_of,
  find_children_nodes,
}

module _ ⦃L : Leveldb⦄ where
  -- Is the key in the range? An empty end is no end.
  pub record IsInRange (low up key : List ℕ) : Type 0 where
    pub from_low : (low ≡ []) ⊎ (compare_slices key low ≢ Ordering.lt)
    pub to_up : (up ≡ []) ⊎ (compare_slices up key ≢ Ordering.lt)

  pub below_at_most :
      (a b c : List ℕ)
      → compare_slices a b ≡ Ordering.lt
      → compare_slices c b ≢ Ordering.lt
      → compare_slices a c ≡ Ordering.lt
  below_at_most a b c lt ge = elim (Ordering-cases (compare_slices c b)) [
    | inl h ↦ absurd (ge h)
    | inr (inl h) ↦ ap (compare_slices a) (L.compare_eq c b h) ∙ lt
    | inr (inr h) ↦ L.compare_trans a b c lt (L.compare_gt c b h)
  ]

  -- A key's child: that of the last pivot that is not greater.
  pub record IsChildOf (p : Page) (key : List ℕ) (off : ℕ) : Type 0 where
    pub floor : IsFloor (against p key) p.item_num off
    pub reached : against p key off ≢ Ordering.lt

  module _ (p : Page) (low up key : List ℕ) (sorted : IsSorted p) (off : ℕ)
      (child : IsChildOf p key off) (range : IsInRange low up key) where
    -- No pivot up to the key's is greater than it.
    not_greater :
        (i : ℕ) → i ≤ off → compare_slices key (page_read_pivot_at_offset p i) ≢ Ordering.lt
    not_greater i le lt = elim (ℕ_discrete i off) [
      | yes e ↦ child.reached (ap (against p key) (sym e) ∙ lt)
      | no ne ↦
          child.reached (L.compare_trans _ _ _ lt (sorted i off (omega arith) (child.floor.within)))
    ]

    -- The loop does not stop before the key's child.
    goes_past :
        (i : ℕ)
        → i ≤ off
        → (not (is_empty up) && is_lt (compare_slices up (page_read_pivot_at_offset p i))) ≡ false
    goes_past i le = elim range.to_up [
      | inl none_ ↦
          ap (λ u. not (is_empty u) && is_lt (compare_slices u (page_read_pivot_at_offset p i)))
            none_
      | inr above ↦ elim (Ordering-cases (compare_slices up (page_read_pivot_at_offset p i))) [
        | inl lt ↦ absurd (above (below_at_most up _ key lt (not_greater i le)))
        | inr (inl e) ↦ ground (arith, e)
        | inr (inr g) ↦ ground (arith, g)
      ]
    ]

    children_from-has :
        (o rounds : ℕ)
        → o ≤ off
        → off < o + rounds
        → has (page_read_child_at_offset p off) (children_from p up o rounds) ≡ true
    unfolding children_from has
    children_from-has o zero le lt = absurd (omega arith)
    children_from-has o (suc rounds) le lt = elim (ℕ_discrete o off) [
      | yes e ↦
          rw (children_from, goes_past o le)
            (let here : (page_read_child_at_offset p o == page_read_child_at_offset p off) ≡ true =
                ground (arith, e) in
              ground arith)
      | no ne ↦
          rw (children_from, goes_past o le)
            (let there = children_from-has (o + 1) rounds (omega arith) (omega arith) in
              ground arith)
    ]

    -- The search for the low end stops at the key's child or before it.
    start_before :
        (start : ℕ)
        → IsFloor (against p low) p.item_num start
        → compare_slices key low ≢ Ordering.lt
        → start ≤ off
    start_before start f ge = elim (dec_lt off start) [
      | no le ↦ omega arith
      | yes lt ↦
          let over = child.floor.behind start lt f.within in
          elim f.reached [
            | inl z ↦ absurd (omega arith)
            | inr here ↦ absurd (here (below_low over ge))
          ]
    ]
      where
        below_low :
            {pivot : List ℕ}
            → compare_slices key pivot ≡ Ordering.lt
            → compare_slices key low ≢ Ordering.lt
            → compare_slices low pivot ≡ Ordering.lt
        below_low {pivot} over ge = elim (Ordering-cases (compare_slices key low)) [
          | inl h ↦ absurd (ge h)
          | inr (inl h) ↦ ap (λ k. compare_slices k pivot) (sym (L.compare_eq key low h)) ∙ over
          | inr (inr h) ↦ L.compare_trans low key pivot (L.compare_gt key low h) over
        ]

    behind-has :
        (start : ℕ)
        → start ≤ off
        → (cs : List ℕ) × (children_behind p low up start ≡ some cs)
          × (has (page_read_child_at_offset p off) cs ≡ true)
    unfolding children_behind
    behind-has start le =
        let past = goes_past 0 (omega arith) in
        let stays : (not (is_empty low)
              && start == 0
              && not (is_empty up)
              && is_lt (compare_slices up (page_read_pivot_at_offset p 0)))
            ≡ false =
          ground (arith, past) in
        let some_item : (p.item_num == 0) ≡ false = ground (arith, child.floor.within) in
        (
          children_from p up start (p.item_num - start),
          rw (stays, some_item) refl,
          children_from-has start (p.item_num - start) le (omega (arith, child.floor.within)),
        )

    low_offset_lem :
        p.is_leaf ≡ false → (start : ℕ) × (low_offset p low ≡ some (some start)) × (start ≤ off)
    unfolding low_offset page_find_offset
    low_offset_lem inner = elim (Bool-cases (is_empty low)) [
      | inl empty ↦ (0, rw (low_offset, empty) refl, omega arith)
      | inr some_low ↦
          let (start, found, floor) =
            page_bin_search-IsFloor p low sorted (omega (arith, child.floor.within)) in
          let there : page_find_offset p low ≡ some (some start) =
            rw (page_find_offset, found)
              (ap
                (λ b. some (
                  if b && not (is_eq (compare_slices low (page_read_pivot_at_offset p start)))
                  then none
                  else some start))
                inner) in
          (start, rw (low_offset, some_low) there, start_before start floor (not_below some_low))
    ]
      where
        not_below : is_empty low ≡ false → compare_slices key low ≢ Ordering.lt
        not_below some_low = elim range.from_low [
          | inl none_ ↦ let e : is_empty low ≡ true = ap is_empty none_ in absurd (cc)
          | inr ge ↦ ge
        ]

    -- On an inner page in order the child of a key that lies in the range of a scan, and that is
    -- not smaller than the first pivot, is among the children that the scan goes to.
    pub find_children_nodes-has :
        p.is_leaf ≡ false
        → (cs : List ℕ) × (find_children_nodes p low up ≡ some cs)
          × (has (page_read_child_at_offset p off) cs ≡ true)
    unfolding find_children_nodes children_of_inner offset_of
    find_children_nodes-has inner =
        let (start, found, le) = low_offset_lem inner in
        let (cs, done, member) = behind-has start le in
        (
          cs,
          ap (λ b. if b then some [] else children_of_inner p low up) inner
              ∙ rw (children_of_inner, found) done,
          member,
        )
