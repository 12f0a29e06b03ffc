-- ===== src/TreeState/Pending.antt =====
-- The nodes that a scan has before it: how many pages stand below them.
use aha_adaptive_hotspot_awa.Common.{
  subst, ℕ, zero, suc, ◌+◌, ◌-◌, ◌≤◌, ◌<◌, ◌≡◌, refl, ap, ◌∙◌, inl, inr, false, not, ◌&&◌, ◌==◌,
  none, some, List, [], ◌∷◌, ◌++◌, arith, Bool-cases, if◌then◌else◌,
}
use aha_adaptive_hotspot_awa.Leveldb.{Leveldb, compare_slices}
use aha_adaptive_hotspot_awa.TreePage.Layout.{
  Page, page_read_pivot_at_offset, page_read_child_at_offset,
}
use aha_adaptive_hotspot_awa.TreePage.Search.Bounds.{IsSorted, page_bin_search-IsFloor}
use aha_adaptive_hotspot_awa.TreePage.Update.{page_find_offset, is_eq}
use aha_adaptive_hotspot_awa.Btree.Descent.{IsTree}
use aha_adaptive_hotspot_awa.Btree.Overflow.{is_lt}
use aha_adaptive_hotspot_awa.TreeState.{
  is_empty, low_offset, children_of_inner, children_from, children_behind, offset_of,
  find_children_nodes,
}

unfoldable pub sum_from : (ℕ → ℕ) → ℕ → ℕ → ℕ
sum_from f offset zero = 0
sum_from f offset (suc rounds) = f offset + sum_from f (offset + 1) rounds

sum_tail :
    (f : ℕ → ℕ) (skip offset start rounds total : ℕ)
    → start ≡ offset + skip
    → total ≡ skip + rounds
    → sum_from f start rounds ≤ sum_from f offset total
unfolding sum_from
sum_tail f zero offset start rounds total e k =
    let same : sum_from f start rounds ≡ sum_from f offset total =
      ap (λ o. sum_from f o rounds) (omega arith) ∙ ap (sum_from f offset) (omega arith) in
    omega (arith, same)
sum_tail f (suc skip) offset start rounds zero e k = absurd (omega arith)
sum_tail f (suc skip) offset start rounds (suc total) e k =
    omega (arith, sum_tail f skip (offset + 1) start rounds total (omega arith) (omega arith))

module _ ⦃L : Leveldb⦄ where
  -- The pages of a tree of this height.
  unfoldable pub tree_size : (ℕ → Page) → ℕ → ℕ → ℕ
  tree_size pages zero pg = 1
  tree_size pages (suc h) pg =
      1
      + sum_from (λ off. tree_size pages h (page_read_child_at_offset (pages pg) off)) 0
          (pages pg).item_num

  -- Trees, with at most this many pages.
  pub data Pending (pages : ℕ → Page) : List ℕ → ℕ → Type 0 where
    finished : {n : ℕ} → Pending pages [] n
    more :
        {pg n m : ℕ} {rest : List ℕ} (h : ℕ)
        → IsTree pages h pg
        → Pending pages rest n
        → tree_size pages h pg + n ≤ m
        → Pending pages (pg ∷ rest) m

  Pending-more :
      (pages : ℕ → Page) (ys : List ℕ) (n m : ℕ) → Pending pages ys n → n ≤ m → Pending pages ys m
  Pending-more pages [] n m finished le = finished
  Pending-more pages (y ∷ ys) n m (more h tree rest small) le = more h tree rest (omega arith)

  pub Pending-append :
      (pages : ℕ → Page) (xs ys : List ℕ) (n m : ℕ)
      → Pending pages xs n
      → Pending pages ys m
      → Pending pages (xs ++ ys) (n + m)
  Pending-append pages [] ys n m finished q = Pending-more pages ys m (n + m) q (omega arith)
  Pending-append pages (x ∷ xs) ys n m (more {n = k} h tree rest small) q =
      more h tree (Pending-append pages xs ys k m rest q) (omega arith)

  module _ (pages : ℕ → Page) (h pg : ℕ) (up : List ℕ)
      (kids : (off : ℕ)
        → off < (pages pg).item_num
        → IsTree pages h (page_read_child_at_offset (pages pg) off)) where
    abbrev kid_size : ℕ → ℕ
    kid_size off = tree_size pages h (page_read_child_at_offset (pages pg) off)

    children_from-Pending :
        (offset rounds : ℕ)
        → offset + rounds ≤ (pages pg).item_num
        → Pending pages
            (children_from (pages pg) up offset rounds)
            (sum_from kid_size offset rounds)
    unfolding children_from sum_from
    children_from-Pending offset zero le = finished
    children_from-Pending offset (suc rounds) le =
        elim (Bool-cases (
          not (is_empty up)
          && is_lt (compare_slices up (page_read_pivot_at_offset (pages pg) offset)))) [
            | inl stop ↦ rw (children_from, stop) finished
            | inr goes ↦
                rw (children_from, goes)
                  (more h (kids offset (omega arith))
                    (children_from-Pending (offset + 1) rounds (omega arith)) (omega arith))
          ]

    children_behind-Pending :
        (low : List ℕ) (start : ℕ)
        → 0 < (pages pg).item_num
        → start < (pages pg).item_num
        → (cs : List ℕ) × (children_behind (pages pg) low up start ≡ some cs)
          × Pending pages cs (sum_from kid_size 0 (pages pg).item_num)
    unfolding children_behind
    children_behind-Pending low start some_item lt =
        let item_there : ((pages pg).item_num == 0) ≡ false = ground arith in
        elim (Bool-cases (
          not (is_empty low)
          && start == 0
          && not (is_empty up)
          && is_lt (compare_slices up (page_read_pivot_at_offset (pages pg) 0)))) [
            | inl stop ↦ ([], rw (children_behind, stop) refl, finished)
            | inr goes ↦ (
              children_from (pages pg) up start ((pages pg).item_num - start),
              rw (children_behind, goes, item_there) refl,
              Pending-more pages _ _ _
                  (children_from-Pending start ((pages pg).item_num - start) (omega arith))
                  (sum_tail kid_size start 0 start ((pages pg).item_num - start) (pages pg).item_num
                    (omega arith) (omega arith)),
            )
          ]

    low_offset_returns :
        (low : List ℕ)
        → (pages pg).is_leaf ≡ false
        → IsSorted (pages pg)
        → 0 < (pages pg).item_num
        → (start : ℕ) × (low_offset (pages pg) low ≡ some (some start))
          × (start < (pages pg).item_num)
    unfolding low_offset page_find_offset
    low_offset_returns low inner sorted some_item = elim (Bool-cases (is_empty low)) [
      | inl empty ↦ (0, rw (low_offset, empty) refl, some_item)
      | inr some_low ↦
          let (start, found, floor) = page_bin_search-IsFloor (pages pg) low sorted some_item in
          (
            start,
            rw (low_offset, some_low, page_find_offset, found)
                (ap
                  (λ b. some (
                    if b
                      && not
                          (is_eq (compare_slices low (page_read_pivot_at_offset (pages pg) start)))
                    then none
                    else some start))
                  inner),
            floor.within,
          )
    ]

    -- The children that a scan goes to have no more pages than all children.
    pub find_children_nodes-Pending :
        (low : List ℕ)
        → (pages pg).is_leaf ≡ false
        → IsSorted (pages pg)
        → 0 < (pages pg).item_num
        → (cs : List ℕ) × (find_children_nodes (pages pg) low up ≡ some cs)
          × Pending pages cs (sum_from kid_size 0 (pages pg).item_num)
    unfolding find_children_nodes children_of_inner offset_of
    find_children_nodes-Pending low inner sorted some_item =
        let (start, found, lt) = low_offset_returns low inner sorted some_item in
        let (cs, done, p) = children_behind-Pending low start some_item lt in
        (
          cs,
          ap (λ b. if b then some [] else children_of_inner (pages pg) low up) inner
              ∙ rw (children_of_inner, found) done,
          p,
        )

  -- The children of a page of a tree.
  pub children_lem :
      (pages : ℕ → Page) (low up : List ℕ) (h pg : ℕ)
      → IsTree pages h pg
      → (cs : List ℕ) × (find_children_nodes (pages pg) low up ≡ some cs)
        × Pending pages cs (tree_size pages h pg - 1)
  unfolding IsTree tree_size find_children_nodes
  children_lem pages low up zero pg leaf =
      ([], ap (λ b. if b then some [] else children_of_inner (pages pg) low up) leaf, finished)
  children_lem pages low up (suc h) pg (inner, sorted, some_item, kids) =
      let (cs, done, p) =
        find_children_nodes-Pending pages h pg up kids low inner sorted some_item in
      (cs, done, subst (Pending pages cs) (omega arith) p)

  pub some_size : (pages : ℕ → Page) (h pg : ℕ) → 0 < tree_size pages h pg
  unfolding tree_size
  some_size pages zero pg = omega arith
  some_size pages (suc h) pg = omega arith
