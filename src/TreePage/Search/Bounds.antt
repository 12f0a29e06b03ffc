-- ===== src/TreePage/Search/Bounds.antt =====
-- What the searches of a page with ordered pivots return.
use aha_adaptive_hotspot_awa.Common.{
  ℕ, ◌+◌, ◌-◌, ◌≤◌, ◌<◌, ◌≡◌, ◌≢◌, refl, ◌⊎◌, inl, inr, false, Option, none, some, Ordering, List,
  arith, ◌==◌, Bool-cases, ap, ◌∙◌, dec_lt,
}
use aha_adaptive_hotspot_awa.Leveldb.{Leveldb, compare_slices}
use aha_adaptive_hotspot_awa.TreePage.Layout.{Page, page_read_pivot_at_offset, page_compare}
use aha_adaptive_hotspot_awa.TreePage.Search.{
  Found, hit, meet, after_insert_search, after_search, page_bin_search_insert, page_bin_search,
}
use aha_adaptive_hotspot_awa.TreePage.Search.Loop.{Falls, Ends, search_loop-Ends, Ordering-cases}

-- The first offset whose pivot is not smaller than the key, or the number of items.
pub record IsLowerBound (c : ℕ → Ordering) (n r : ℕ) : Type 0 where
  pub within : r ≤ n
  pub before : (i : ℕ) → i < r → c i ≡ Ordering.gt
  pub behind : (i : ℕ) → r ≤ i → i < n → c i ≢ Ordering.gt

-- The last offset whose pivot is not greater than the key, or 0.
pub record IsFloor (c : ℕ → Ordering) (n r : ℕ) : Type 0 where
  pub within : r < n
  pub behind : (i : ℕ) → r < i → i < n → c i ≡ Ordering.lt
  pub reached : (r ≡ 0) ⊎ (c r ≢ Ordering.lt)

not_gt_from :
    (c : ℕ → Ordering) (n l : ℕ)
    → c l ≢ Ordering.gt
    → ((i : ℕ) → l < i → i < n → c i ≡ Ordering.lt)
    → (i : ℕ) → l ≤ i
    → i < n
    → c i ≢ Ordering.gt
not_gt_from c n l here behind i le lt e = elim (dec_lt l i) [
  | yes h ↦ let f = behind i h lt in cc
  | no h ↦ here (ap c (omega arith) ∙ e)
]

gt_before_suc :
    (c : ℕ → Ordering) (l : ℕ)
    → c l ≡ Ordering.gt
    → ((i : ℕ) → i < l → c i ≡ Ordering.gt)
    → (i : ℕ) → i < l + 1
    → c i ≡ Ordering.gt
gt_before_suc c l here before i h = elim (dec_lt i l) [
  | yes small ↦ before i small
  | no other ↦ ap c (omega arith) ∙ here
]

lt_from :
    (c : ℕ → Ordering) (n l : ℕ)
    → c l ≡ Ordering.lt
    → ((i : ℕ) → l < i → i < n → c i ≡ Ordering.lt)
    → (i : ℕ) → l ≤ i
    → i < n
    → c i ≡ Ordering.lt
lt_from c n l here behind i le h = elim (dec_lt l i) [
  | yes big ↦ behind i big h
  | no other ↦ ap c (omega arith) ∙ here
]

module _ (cmp : ℕ → Option Ordering) (c : ℕ → Ordering) (n : ℕ)
    (agree : (i : ℕ) → i < n → cmp i ≡ some (c i)) (falls : Falls c n) where
  pub after_insert_search-IsLowerBound :
      (r : Option Found)
      → Ends c n r
      → (off : ℕ) × (after_insert_search cmp r ≡ some off) × IsLowerBound c n off
  unfolding after_insert_search
  after_insert_search-IsLowerBound none h = absurd h
  after_insert_search-IsLowerBound (some (hit m)) (lt, e) = (
    m,
    refl,
    record {
      within = omega arith;
      before = λ i h. falls.below_eq i m h lt e;
      behind = not_gt_from c n m (λ f. cc) λ i h k. falls.above_eq m i h k e;
    },
  )
  after_insert_search-IsLowerBound (some (meet l)) (lt, before, behind) =
      elim (Ordering-cases (c l)) [
        | inl e ↦ (
          l,
          rw (agree l lt, e, after_insert_search),
          record {
            within = omega arith;
            before = before;
            behind = not_gt_from c n l (λ f. cc) behind;
          },
        )
        | inr (inl e) ↦ (
          l,
          rw (agree l lt, e, after_insert_search),
          record {
            within = omega arith;
            before = before;
            behind = not_gt_from c n l (λ f. cc) behind;
          },
        )
        | inr (inr e) ↦ (
          l + 1,
          rw (agree l lt, e, after_insert_search),
          record {
            within = omega arith;
            before = gt_before_suc c l e before;
            behind = λ i le h f. let k = behind i (omega arith) h in cc;
          },
        )
      ]

  pub after_search-IsFloor :
      (r : Option Found)
      → Ends c n r
      → (off : ℕ) × (after_search cmp r ≡ some off) × IsFloor c n off
  unfolding after_search
  after_search-IsFloor none h = absurd h
  after_search-IsFloor (some (hit m)) (lt, e) = (
    m,
    refl,
    record { within = lt; behind = λ i h k. falls.above_eq m i h k e; reached = inr (λ f. cc) },
  )
  after_search-IsFloor (some (meet l)) (lt, before, behind) = elim (Ordering-cases (c l)) [
    | inr (inl e) ↦ (
      l,
      rw (agree l lt, e, after_search),
      record { within = lt; behind = behind; reached = inr (λ f. cc) },
    )
    | inr (inr e) ↦ (
      l,
      rw (agree l lt, e, after_search),
      record { within = lt; behind = behind; reached = inr (λ f. cc) },
    )
    | inl e ↦ elim (Bool-cases (l == 0)) [
      | inl z ↦ (
        l,
        rw (agree l lt, e, after_search) (rw z),
        record { within = lt; behind = behind; reached = inl (ground arith) },
      )
      | inr nz ↦ (
        l - 1,
        rw (agree l lt, e, after_search) (rw nz),
        record {
          within = omega arith;
          behind = λ i h k. lt_from c n l e behind i (omega arith) k;
          reached = inr (λ f. let k = before (l - 1) (ground arith) in cc);
        },
      )
    ]
  ]

-- The pivots of the page ascend.
abbrev pub IsSorted : ⦃L : Leveldb⦄ → Page → Type 0
IsSorted p =
    (i j : ℕ)
    → i < j
    → j < p.item_num
    → compare_slices (page_read_pivot_at_offset p i) (page_read_pivot_at_offset p j) ≡ Ordering.lt

-- The key against the pivot at an offset.
abbrev pub against : ⦃L : Leveldb⦄ → Page → List ℕ → ℕ → Ordering
against p key i = compare_slices key (page_read_pivot_at_offset p i)

module _ ⦃L : Leveldb⦄ where
  pub IsSorted-Falls : (p : Page) (key : List ℕ) → IsSorted p → Falls (against p key) p.item_num
  IsSorted-Falls p key sorted = record {
    below =
        λ i j h k e. L.compare_lt _ _ (L.compare_trans _ _ _ (sorted i j h k) (L.compare_gt _ _ e));
    above = λ i j h k e. L.compare_trans _ _ _ e (sorted i j h k);
    below_eq = λ i j h k e. L.compare_lt _ _ (rw (L.compare_eq _ _ e) (sorted i j h k));
    above_eq = λ i j h k e. rw (L.compare_eq _ _ e) (sorted i j h k);
  }

  pub page_compare_within :
      (p : Page) (key : List ℕ) (i : ℕ)
      → i < p.item_num
      → page_compare p key i ≡ some (against p key i)
  unfolding page_compare
  page_compare_within p key i h = ground arith

  -- On a page whose pivots ascend the insert search stops, passes each assertion, and returns the
  -- first offset whose pivot is not smaller than the key.
  pub page_bin_search_insert-IsLowerBound :
      (p : Page) (key : List ℕ)
      → IsSorted p
      → (off : ℕ) × (page_bin_search_insert p key ≡ some off)
        × IsLowerBound (against p key) p.item_num off
  unfolding page_bin_search_insert
  page_bin_search_insert-IsLowerBound p key sorted = elim (Bool-cases (p.item_num == 0)) [
    | inl z ↦ (
      0,
      rw z,
      record {
        within = omega arith;
        before = λ i h. elim h [ ];
        behind = λ i le h. absurd (ground arith);
      },
    )
    | inr nz ↦ rw nz (
        after_insert_search-IsLowerBound (page_compare p key) (against p key) p.item_num
          (page_compare_within p key) (IsSorted-Falls p key sorted) _
          (search_loop-Ends _ (against p key) p.item_num (page_compare_within p key)
            (IsSorted-Falls p key sorted) p.item_num 0 (p.item_num - 1) (omega arith) (omega arith)
            (ground arith) (λ i h. elim h [ ]) (λ i h k. absurd (ground arith))))
  ]

  -- On a nonempty page whose pivots ascend the read search stops, passes each assertion, and
  -- returns the last offset whose pivot is not greater than the key, or 0 where there is none.
  pub page_bin_search-IsFloor :
      (p : Page) (key : List ℕ)
      → IsSorted p
      → 0 < p.item_num
      → (off : ℕ) × (page_bin_search p key ≡ some off) × IsFloor (against p key) p.item_num off
  unfolding page_bin_search
  page_bin_search-IsFloor p key sorted some_item =
      let nz : (p.item_num == 0) ≡ false = ground arith in
      rw nz (
        after_search-IsFloor (page_compare p key) (against p key) p.item_num
          (page_compare_within p key) (IsSorted-Falls p key sorted) _
          (search_loop-Ends _ (against p key) p.item_num (page_compare_within p key)
            (IsSorted-Falls p key sorted) p.item_num 0 (p.item_num - 1) (omega arith) (omega arith)
            (ground arith) (λ i h. elim h [ ]) (λ i h k. absurd (ground arith))))
