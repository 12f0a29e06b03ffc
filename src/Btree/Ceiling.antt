-- ===== src/Btree/Ceiling.antt =====
-- The child that the way down takes: the first pivot that is not smaller than the key, or the last.
use aha_adaptive_hotspot_awa.Common.{
  ℕ, zero, suc, ◌+◌, ◌-◌, ◌/◌, ◌≤◌, ◌<◌, ◌≡◌, ◌≢◌, refl, ◌⊎◌, inl, inr, false, Option, none, some,
  Ordering, arith, ltb, Bool-cases, ◌==◌, subst, List,
}
use aha_adaptive_hotspot_awa.Leveldb.{Leveldb}
use aha_adaptive_hotspot_awa.TreePage.Layout.{Page, page_compare, page_read_child_at_offset}
use aha_adaptive_hotspot_awa.TreePage.Search.{
  Found, hit, meet, search_loop, after_highkey_search, page_bin_search_highkey,
}
use aha_adaptive_hotspot_awa.TreePage.Search.Loop.{Ordering-cases, Falls, Ends, search_loop-Ends}
use aha_adaptive_hotspot_awa.TreePage.Search.Bounds.{
  IsSorted, IsSorted-Falls, page_compare_within, against,
}
use aha_adaptive_hotspot_awa.TreePage.Update.{page_find_offset_highkey}
use aha_adaptive_hotspot_awa.Btree.{child_for}

-- The first offset whose pivot is not smaller than the key, or the last where all are.
pub record IsCeiling (c : ℕ → Ordering) (n r : ℕ) : Type 0 where
  pub within : r < n
  pub before : (i : ℕ) → i < r → c i ≡ Ordering.gt
  pub reached : (r + 1 ≡ n) ⊎ (c r ≢ Ordering.gt)

-- Where the bounds of the loop meet, the upper one is the last, or its pivot was seen to be greater.
Met : (ℕ → Ordering) → ℕ → Option Found → Type 0
Met c n none = ⊥
Met c n (some (hit m)) = m ≡ m
Met c n (some (meet l)) = (l + 1 ≡ n) ⊎ (c l ≡ Ordering.lt)

module _ (cmp : ℕ → Option Ordering) (c : ℕ → Ordering) (n : ℕ)
    (agree : (i : ℕ) → i < n → cmp i ≡ some (c i)) where
  loop-Met :
      (fuel low high : ℕ)
      → high ≤ low + fuel
      → low ≤ high
      → high < n
      → (high + 1 ≡ n) ⊎ (c high ≡ Ordering.lt)
      → Met c n (search_loop cmp fuel low high)
  unfolding search_loop Met
  loop-Met zero low high f le lt top =
      let same : high ≡ low = omega arith in subst (λ h. (h + 1 ≡ n) ⊎ (c h ≡ Ordering.lt)) same top
  loop-Met (suc fuel) low high f le lt top = elim (Bool-cases (ltb low high)) [
    | inr done ↦
        let same : high ≡ low = ground arith in
        rw (done, search_loop) (subst (λ h. (h + 1 ≡ n) ⊎ (c h ≡ Ordering.lt)) same top)
    | inl more ↦
        let mid = low + (high - low) / 2 in
        let small : mid < high = ground arith in
        let seen = agree mid (omega arith) in
        elim (Ordering-cases (c mid)) [
          | inl e ↦
              rw (more, seen, e, search_loop)
                (loop-Met fuel low mid (omega arith) (omega arith) (omega arith) (inr e))
          | inr (inl e) ↦ rw (more, seen, e, search_loop) refl
          | inr (inr e) ↦
              rw (more, seen, e, search_loop)
                (loop-Met fuel (mid + 1) high (omega arith) (omega arith) lt top)
        ]
  ]

  ceiling :
      (r : Option Found)
      → Falls c n
      → Ends c n r
      → Met c n r
      → (off : ℕ) × (after_highkey_search r ≡ some off) × IsCeiling c n off
  unfolding after_highkey_search Met
  ceiling none falls ends met = absurd ends
  ceiling (some (hit m)) falls (lt, e) met = (
    m,
    refl,
    record { within = lt; before = λ i h. falls.below_eq i m h lt e; reached = inr (λ f. cc) },
  )
  ceiling (some (meet l)) falls (lt, before, behind) met = (
    l,
    refl,
    record {
      within = lt;
      before = before;
      reached = elim met [ inl e ↦ inl e | inr e ↦ inr (λ f. cc) ];
    },
  )

module _ ⦃L : Leveldb⦄ where
  highkey_search-IsCeiling :
      (p : Page) (key : List ℕ)
      → IsSorted p
      → 0 < p.item_num
      → (off : ℕ) × (page_bin_search_highkey p key ≡ some off)
        × IsCeiling (against p key) p.item_num off
  unfolding page_bin_search_highkey
  highkey_search-IsCeiling p key sorted some_item =
      let nz : (p.item_num == 0) ≡ false = ground arith in
      rw nz (
        ceiling (page_compare p key) (against p key) p.item_num (page_compare_within p key) _
          (IsSorted-Falls p key sorted)
          (search_loop-Ends _ (against p key) p.item_num (page_compare_within p key)
            (IsSorted-Falls p key sorted) p.item_num 0 (p.item_num - 1) (omega arith) (omega arith)
            (omega arith) (λ i h. elim h [ ]) (λ i h k. absurd (omega arith)))
          (loop-Met (page_compare p key) (against p key) p.item_num (page_compare_within p key)
            p.item_num 0 (p.item_num - 1) (omega arith) (omega arith) (omega arith)
            (inl (omega arith))))

  pub child_for_lem :
      (p : Page) (key : List ℕ)
      → p.is_leaf ≡ false
      → IsSorted p
      → 0 < p.item_num
      → (off : ℕ) × (child_for p key ≡ some (page_read_child_at_offset p off))
        × IsCeiling (against p key) p.item_num off
  unfolding child_for page_find_offset_highkey
  child_for_lem p key inner sorted some_item =
      let (off, found, ceil) = highkey_search-IsCeiling p key sorted some_item in
      (off, rw (found, inner) refl, ceil)
