-- ===== src/Btree/Descent.antt =====
-- The way down for a query.
use aha_adaptive_hotspot_awa.Common.{
  ℕ, zero, suc, ◌+◌, ◌<◌, ◌≡◌, refl, ap, ◌∙◌, subst, List, [], ◌∷◌, true, false, some, has,
  all_distinct, all_distinct-last, ◌==◌, arith, inl, inr, Bool-cases,
}
use aha_adaptive_hotspot_awa.Leveldb.{Leveldb}
use aha_adaptive_hotspot_awa.TreePage.Layout.{Page, page_read_child_at_offset}
use aha_adaptive_hotspot_awa.TreePage.Search.Bounds.{IsSorted, against}
use aha_adaptive_hotspot_awa.LockManager.Table.{LockTable}
use aha_adaptive_hotspot_awa.Btree.{
  returned, Btree, lock_node, safe_node, raise_highkey, child_for, release_safe, search_from,
  search_down,
}
use aha_adaptive_hotspot_awa.Btree.Ceiling.{IsCeiling, child_for_lem}
use aha_adaptive_hotspot_awa.Btree.Locks.{
  IsHeldBy, IsHeldBy-last, lock_node_lem, unlock_parents_lem,
}

module _ ⦃L : Leveldb⦄ where
  -- A page with a tree of this many levels below it: the inner pages have children and are in order.
  unfoldable pub IsTree : (ℕ → Page) → ℕ → ℕ → Type 0
  IsTree pages zero pg = (pages pg).is_leaf ≡ true
  IsTree pages (suc h) pg =
      ((pages pg).is_leaf ≡ false)
      × IsSorted (pages pg)
      × (0 < (pages pg).item_num)
      × ((off : ℕ)
          → off < (pages pg).item_num
          → IsTree pages h (page_read_child_at_offset (pages pg) off))

  -- From a page to the leaf for a key: at each inner page the child at the first pivot that is not
  -- smaller than the key, or the last.
  pub data Route (pages : ℕ → Page) (key : List ℕ) : ℕ → ℕ → Type 0 where
    at_leaf : {pg : ℕ} → (pages pg).is_leaf ≡ true → Route pages key pg pg
    go_down :
        {pg leaf : ℕ} (off : ℕ)
        → (pages pg).is_leaf ≡ false
        → IsCeiling (against (pages pg) key) (pages pg).item_num off
        → Route pages key (page_read_child_at_offset (pages pg) off) leaf
        → Route pages key pg leaf

  height_unique : (pages : ℕ → Page) (h k pg : ℕ) → IsTree pages h pg → IsTree pages k pg → h ≡ k
  unfolding IsTree
  height_unique pages zero zero pg a b = refl
  height_unique pages zero (suc k) pg a b = let c = b.0 in absurd (cc)
  height_unique pages (suc h) zero pg a b = let c = a.0 in absurd (cc)
  height_unique pages (suc h) (suc k) pg (_, _, some_item, a) (_, _, _, b) = omega (
    arith,
    height_unique pages h k (page_read_child_at_offset (pages pg) 0) (a 0 some_item)
        (b 0 some_item),
  )

  -- The pages of the stack stand above.
  IsAbove : (ℕ → Page) → ℕ → List ℕ → Type 0
  IsAbove pages h stack = (x : ℕ) → has x stack ≡ true → (k : ℕ) × (h < k) × IsTree pages k x

  not_above :
      (pages : ℕ → Page) (h pg : ℕ) (stack : List ℕ)
      → IsTree pages h pg
      → IsAbove pages h stack
      → has pg stack ≡ false
  unfolding IsAbove
  not_above pages h pg stack tree above = elim (Bool-cases (has pg stack)) [
    | inr off ↦ off
    | inl on ↦
        let (k, more, tree') = above pg on in
        absurd (omega (arith, height_unique pages h k pg tree tree'))
  ]

  push-IsAbove :
      (pages : ℕ → Page) (h pg : ℕ) (stack : List ℕ)
      → IsTree pages (suc h) pg
      → IsAbove pages (suc h) stack
      → IsAbove pages h (pg ∷ stack)
  unfolding IsAbove has
  push-IsAbove pages h pg stack tree above x on = elim (Bool-cases (pg == x)) [
    | inl same ↦
        let e : pg ≡ x = ground arith in (suc h, omega arith, subst (IsTree pages (suc h)) e tree)
    | inr other ↦ let (k, more, tree') = above x (ground arith) in (k, omega arith, tree')
  ]

  none-IsAbove : (pages : ℕ → Page) (h : ℕ) → IsAbove pages h []
  unfolding IsAbove has
  none-IsAbove pages h x on = absurd (cc)

  -- The pages that stay locked behind a step, the child on top.
  record Holds (pages : ℕ → Page) (h pg : ℕ) (stack : List ℕ) (l : LockTable) : Type 0 where
    pub by : IsHeldBy l (pg ∷ stack)
    pub distinct : all_distinct (pg ∷ stack) ≡ true
    pub above : IsAbove pages h stack

  release_safe_lem :
      (h child : ℕ) (key value : List ℕ) (stack : List ℕ) (t : Btree)
      → Holds t.pages h child stack t.lock_mgr
      → (stack' : List ℕ) × (l : LockTable) × (release_safe child key value stack t
          ≡ returned (child ∷ stack', record t { lock_mgr = l }))
        × Holds t.pages h child stack' l
  unfolding release_safe all_distinct has
  release_safe_lem h child key value stack t holds =
      elim (Bool-cases (safe_node (t.pages child) key value)) [
        | inr unsafe ↦ (stack, t.lock_mgr, rw (release_safe, unsafe) refl, holds)
        | inl safe ↦
            let d = holds.distinct in
            let absent : has child stack ≡ false = ground arith in
            let rest : all_distinct stack ≡ true = ground arith in
            let (l, done, by) =
              unlock_parents_lem stack (child ∷ []) t
                (IsHeldBy-last t.lock_mgr child stack holds.by)
                (all_distinct-last child stack rest absent) in
            (
              [],
              l,
              rw (release_safe, safe, done) refl,
              record { by = by; distinct = refl; above = none-IsAbove t.pages h },
            )
      ]

  search_step :
      (n cur child : ℕ) (key value : List ℕ) (stack stack' : List ℕ) (t v w : Btree)
      → (t.pages cur).is_leaf ≡ false
      → child_for (t.pages cur) key ≡ some child
      → lock_node child t ≡ returned v
      → release_safe child key value stack v ≡ returned (stack', w)
      → search_from (suc n) false key value cur stack t
        ≡ search_from n false key value child stack' w
  unfolding search_from raise_highkey
  search_step n cur child key value stack stack' t v w inner found locked done =
      rw (search_from, found, locked, done, inner) refl

  -- A step down: the child is locked, and the parents are let go where it has room.
  step_down :
      (h cur : ℕ) (key value : List ℕ) (stack : List ℕ) (t : Btree)
      → IsTree t.pages (suc h) cur
      → Holds t.pages (suc h) cur stack t.lock_mgr
      → (off : ℕ) × IsCeiling (against (t.pages cur) key) (t.pages cur).item_num off
        × ((stack' : List ℕ) × (l : LockTable) × Holds t.pages h
              (page_read_child_at_offset (t.pages cur) off)
              stack'
              l
            × ((n : ℕ)
                → search_from (suc n) false key value cur (cur ∷ stack) t
                  ≡ search_from n false key value
                      (page_read_child_at_offset (t.pages cur) off)
                      (page_read_child_at_offset (t.pages cur) off ∷ stack')
                      (record t { lock_mgr = l })))
  unfolding IsTree all_distinct
  step_down h cur key value stack t tree holds =
      let (inner, sorted, some_item, kids) = tree in
      let (off, found, ceil) = child_for_lem (t.pages cur) key inner sorted some_item in
      let child = page_read_child_at_offset (t.pages cur) off in
      let above = push-IsAbove t.pages h cur stack tree holds.above in
      let absent = not_above t.pages h child (cur ∷ stack) (kids off ceil.within) above in
      let (l, locked, by) = lock_node_lem t child (cur ∷ stack) holds.by absent in
      let d = holds.distinct in
      let (stack', l', done, holds') =
        release_safe_lem h child key value (cur ∷ stack) (record t { lock_mgr = l })
          (record { by = by; distinct = ground arith; above = above }) in
      (
        off,
        ceil,
        (
          stack',
          l',
          holds',
          λ n.
              search_step n cur child key value (cur ∷ stack) (child ∷ stack') t
                (record t { lock_mgr = l }) (record t { lock_mgr = l' }) inner found locked done,
        ),
      )

  search_from_lem :
      (h cur : ℕ) (key value : List ℕ) (stack : List ℕ) (t : Btree)
      → IsTree t.pages h cur
      → Holds t.pages h cur stack t.lock_mgr
      → (leaf : ℕ) × (parents : List ℕ) × (l : LockTable) × (search_from
            (suc h)
            false
            key
            value
            cur
            (cur ∷ stack)
            t
          ≡ returned (leaf ∷ parents, record t { lock_mgr = l }))
        × Route t.pages key cur leaf
        × ((t.pages leaf).is_leaf ≡ true)
        × IsHeldBy l (leaf ∷ parents)
  unfolding search_from IsTree
  search_from_lem zero cur key value stack t tree holds =
      (cur, stack, t.lock_mgr, rw (search_from, tree) refl, at_leaf tree, tree, holds.by)
  search_from_lem (suc h) cur key value stack t tree holds =
      let (off, ceil, (stack', l, holds', step)) = step_down h cur key value stack t tree holds in
      let child = page_read_child_at_offset (t.pages cur) off in
      let (leaf, parents, l', done, route, is_leaf, by) =
        search_from_lem h child key value stack' (record t { lock_mgr = l })
          (tree.3 off ceil.within) holds' in
      (leaf, parents, l', step (suc h) ∙ done, go_down off tree.0 ceil route, is_leaf, by)

  -- In a tree of the height that it says, with no lock held, the way down for a query returns: it ends
  -- at the leaf for the key, whose number is on top of the stack, and the locks that are held behind it
  -- are those of the pages on the stack, each by one writer.
  pub search_down_lem :
      (h : ℕ) (key value : List ℕ) (t : Btree)
      → t.tree_height ≡ h + 1
      → IsTree t.pages h t.root_page_id
      → IsHeldBy t.lock_mgr []
      → (leaf : ℕ) × (parents : List ℕ) × (l : LockTable) × (search_down false key value t
          ≡ returned (leaf ∷ parents, record t { lock_mgr = l }))
        × Route t.pages key t.root_page_id leaf
        × ((t.pages leaf).is_leaf ≡ true)
        × IsHeldBy l (leaf ∷ parents)
  unfolding search_down has all_distinct
  search_down_lem h key value t height tree free =
      let (l, locked, by) = lock_node_lem t t.root_page_id [] free refl in
      let (leaf, parents, l', done, route, is_leaf, by') =
        search_from_lem h t.root_page_id key value [] (record t { lock_mgr = l }) tree
          (record { by = by; distinct = refl; above = none-IsAbove t.pages h }) in
      let fuel : t.tree_height ≡ suc h = omega arith in
      (
        leaf,
        parents,
        l',
        rw (search_down, locked)
            (ap
                (λ n.
                  search_from n false key value t.root_page_id (t.root_page_id ∷ [])
                    (record t { lock_mgr = l }))
                fuel
              ∙ done),
        route,
        is_leaf,
        by',
      )
