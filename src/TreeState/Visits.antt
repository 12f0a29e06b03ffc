-- ===== src/TreeState/Visits.antt =====
-- The walk of `NewIterator` over the nodes.
use aha_adaptive_hotspot_awa.Common.{
  ℕ, zero, suc, ◌+◌, ◌-◌, ◌<◌, ◌≡◌, refl, sym, ap, ◌∙◌, inl, inr, Bool, true, false, ◌||◌, ◌==◌,
  Option, none, some, ◌>>=◌, List, [], ◌∷◌, ◌++◌, length, arith, Bool-cases, Option-cases,
  if◌then◌else◌, subst, has, has-append,
}
use mathlib.Core.Option.{some-injective}
use aha_adaptive_hotspot_awa.Leveldb.{Leveldb}
use aha_adaptive_hotspot_awa.TreePage.Layout.{Page, page_read_child_at_offset}
use aha_adaptive_hotspot_awa.TreePage.Search.Bounds.{IsSorted}
use aha_adaptive_hotspot_awa.WorkQueue.{PriorityQueue}
use aha_adaptive_hotspot_awa.Btree.Descent.{IsTree}
use aha_adaptive_hotspot_awa.TreeState.{
  Lsmt, Source, node, StateKind, RangeScan, is_read, page_lock, lock_for_scan, find_children_nodes,
  do_add_wot_to_iter, visit_entry, visit_node, level_at, visit_nodes, add_source,
}
use aha_adaptive_hotspot_awa.TreeState.Children.{IsInRange, IsChildOf, find_children_nodes-has}
use aha_adaptive_hotspot_awa.TreeState.Locks.{IsQuiet, lock_for_scan-IsQuiet}
use aha_adaptive_hotspot_awa.TreeState.Pending.{
  tree_size, Pending, finished, more, Pending-append, children_lem, some_size,
}
use aha_adaptive_hotspot_awa.TreeState.Seen.{
  is_node, reads_some, queue_node-Kept, add_source-Sourced, Seen, Stands, Below, here, below,
}

module _ ⦃L : Leveldb⦄ {Q : Type 0} (P : PriorityQueue Q) (kind : StateKind) (hot : Bool)
    (low up key : List ℕ) (range : IsInRange low up key) (root : ℕ) (pages : ℕ → Page)
    (table : ℕ → Option (Option Lsmt)) where
  abbrev Keeps : List ℕ → RangeScan Q → List ℕ → RangeScan Q → Type 0
  Keeps list s list' s' =
      ((q : ℕ) → Seen hot table list s q → Seen hot table list' s' q)
      × ((f : Source → Bool) → reads_some f s.iter_vec ≡ true → reads_some f s'.iter_vec ≡ true)

  abbrev enter : ℕ → RangeScan Q → Option (RangeScan Q)
  enter pg s = if pg == s.tree.root_pg_id then some s else lock_for_scan (page_lock pg) s

  enter_lem :
      (pg : ℕ) (list : List ℕ) (s : RangeScan Q)
      → Stands root pages table s
      → (s' : RangeScan Q) × (enter pg s ≡ some s')
        × Stands root pages table s'
        × (has (page_lock pg) s'.locked_nodes ≡ true)
        × Keeps list s list s'
  unfolding has
  enter_lem pg list s st = elim (Bool-cases (pg == s.tree.root_pg_id)) [
    | inl at_root ↦
        let same : root ≡ pg = ground (arith, at_root, st.root_stands) in
        (
          s,
          rw (at_root) refl,
          st,
          subst (λ x. has (page_lock x) s.locked_nodes ≡ true) same st.root_locked,
          ((λ q seen. seen), λ f r. r),
        )
    | inr other ↦
        let (l, done, quiet) = lock_for_scan-IsQuiet (page_lock pg) s st.quiet in
        (
          record s {
            locked_nodes = s.locked_nodes ++ page_lock pg ∷ [];
            tree = record s.tree { lock_mgr = l };
          },
          rw (other) done,
          record {
            root_stands = st.root_stands;
            pages_stand = st.pages_stand;
            table_stands = st.table_stands;
            quiet = quiet;
            root_locked =
                let old = st.root_locked in
                has-append (page_lock root) s.locked_nodes (page_lock pg ∷ []) ∙ ground arith;
          },
          has-append (page_lock pg) s.locked_nodes (page_lock pg ∷ []) ∙ ground arith,
          (
            (λ q seen. record {
              is_locked =
                  let old = seen.is_locked in
                  has-append (page_lock q) s.locked_nodes (page_lock pg ∷ []) ∙ ground arith;
              page_read = seen.page_read;
              tree_read = seen.tree_read;
            }),
            λ f r. r,
          ),
        )
  ]

  -- A page without a node goes to the pages.
  page_entry :
      (pg : ℕ) (list : List ℕ) (s : RangeScan Q)
      → table pg ≡ none
      → has (page_lock pg) s.locked_nodes ≡ true
      → Seen hot table (list ++ pg ∷ []) s pg × Keeps list s (list ++ pg ∷ []) s
  unfolding has
  page_entry pg list s absent held = (
    record {
      is_locked = held;
      page_read = λ e. has-append pg list (pg ∷ []) ∙ ground arith;
      tree_read = λ l e r. absurd (cc);
    },
    (
      (λ q seen. record {
        is_locked = seen.is_locked;
        page_read = λ e. let old = seen.page_read e in has-append q list (pg ∷ []) ∙ ground arith;
        tree_read = seen.tree_read;
      }),
      λ f r. r,
    ),
  )

  -- A node adds its tree, where it is to be read.
  node_entry :
      (pg node_level : ℕ) (list : List ℕ) (l : Option Lsmt) (s : RangeScan Q)
      → table pg ≡ some l
      → has (page_lock pg) s.locked_nodes ≡ true
      → Stands root pages table s
      → Stands root pages table (do_add_wot_to_iter P kind hot node_level pg l s)
        × Seen hot table list (do_add_wot_to_iter P kind hot node_level pg l s) pg
        × Keeps list s list (do_add_wot_to_iter P kind hot node_level pg l s)
  unfolding do_add_wot_to_iter
  node_entry pg node_level list l s at_pg held st =
      let s' : RangeScan Q = if is_read hot l then add_source (node pg) s else s in
      let src = add_source-Sourced (is_read hot l) pg s in
      let kept = queue_node-Kept P kind hot node_level pg l s'.tree in
      (
        record {
          root_stands = kept.root_kept ∙ ap (λ t. t.root_pg_id) src.tree_same ∙ st.root_stands;
          pages_stand = kept.pages_kept ∙ ap (λ t. t.pages) src.tree_same ∙ st.pages_stand;
          table_stands = kept.table_kept ∙ ap (λ t. t.node_table) src.tree_same ∙ st.table_stands;
          quiet =
              subst IsQuiet (sym (kept.locks_kept ∙ ap (λ t. t.lock_mgr) src.tree_same)) st.quiet;
          root_locked = ap (has (page_lock root)) src.locked_same ∙ st.root_locked;
        },
        record {
          is_locked = ap (has (page_lock pg)) src.locked_same ∙ held;
          page_read = λ e. absurd (cc);
          tree_read =
              λ m e r. src.source (ap (is_read hot) (some-injective _ _ (sym at_pg ∙ e)) ∙ r);
        },
        (
          (λ q seen. record {
            is_locked = ap (has (page_lock q)) src.locked_same ∙ seen.is_locked;
            page_read = seen.page_read;
            tree_read = λ m e r. src.others (is_node q) (seen.tree_read m e r);
          }),
          src.others,
        ),
      )

  -- What a visit leaves, with the children that are pending behind it.
  record Visited (h pg : ℕ) (list : List ℕ) (s : RangeScan Q) (cs list' : List ℕ) (s' : RangeScan Q)
      : Type 0 where
    stands : Stands root pages table s'
    seen : Seen hot table list' s' pg
    keeps : Keeps list s list' s'
    size : Pending pages cs (tree_size pages h pg - 1)
    to_child :
        (l : Option Lsmt) (off : ℕ)
        → table pg ≡ some l
        → (pages pg).is_leaf ≡ false
        → IsSorted (pages pg)
        → IsChildOf (pages pg) key off
        → has (page_read_child_at_offset (pages pg) off) cs ≡ true

  entry_lem :
      (h pg node_level : ℕ) (list : List ℕ) (s : RangeScan Q)
      → IsTree pages h pg
      → Stands root pages table s
      → has (page_lock pg) s.locked_nodes ≡ true
      → (cs list' : List ℕ) × (s' : RangeScan Q) × (visit_entry P kind hot low up pg node_level
            (table pg)
            list
            s
          ≡ some (cs, list', s'))
        × Visited h pg list s cs list' s'
  unfolding visit_entry
  entry_lem h pg node_level list s tree st held = elim (Option-cases (table pg)) [
    | inl absent ↦
        let (seen, keeps) = page_entry pg list s absent held in
        (
          [],
          list ++ pg ∷ [],
          s,
          rw (visit_entry, absent) refl,
          record {
            stands = st;
            seen = seen;
            keeps = keeps;
            size = finished;
            to_child = λ l off e inner sorted child. absurd (cc);
          },
        )
    | inr (l, there) ↦
        let (cs, found, size) = children_lem pages low up h pg tree in
        let (st', seen, keeps) = node_entry pg node_level list l s there held st in
        (
          cs,
          list,
          do_add_wot_to_iter P kind hot node_level pg l s,
          rw (visit_entry, there)
              (ap
                  (λ p. find_children_nodes (p pg) low up >>= λ c.
                    some (c, list, do_add_wot_to_iter P kind hot node_level pg l s))
                  st.pages_stand
                ∙ rw (found) refl),
          record {
            stands = st';
            seen = seen;
            keeps = keeps;
            size = size;
            to_child = λ m off e inner sorted child.
                let (cs', found', member) =
                  find_children_nodes-has (pages pg) low up key sorted off child range inner in
                ap (has _) (some-injective _ _ (sym found ∙ found')) ∙ member;
          },
        )
  ]

  visit_node_lem :
      (h pg node_level : ℕ) (list : List ℕ) (s : RangeScan Q)
      → IsTree pages h pg
      → Stands root pages table s
      → (cs list' : List ℕ) × (s' : RangeScan Q) × (visit_node P kind hot low up pg node_level list
            s
          ≡ some (cs, list', s'))
        × Visited h pg list s cs list' s'
  unfolding visit_node
  visit_node_lem h pg node_level list s tree st =
      let (s1, entered, st1, held, keeps1) = enter_lem pg list s st in
      let (cs, list', s', done, v) = entry_lem h pg node_level list s1 tree st1 held in
      (
        cs,
        list',
        s',
        rw (visit_node, entered)
            (ap (λ t. visit_entry P kind hot low up pg node_level (t pg) list s1) st1.table_stands
              ∙ done),
        record {
          stands = v.stands;
          seen = v.seen;
          keeps = ((λ q seen. v.keeps.0 q (keeps1.0 q seen)), λ f r. v.keeps.1 f (keeps1.1 f r));
          size = v.size;
          to_child = v.to_child;
        },
      )

  -- What stands below a page that was visited is it, or stands below a child that is pending.
  first_sees :
      (h pg q : ℕ) (pending list cs list1 list' : List ℕ) (s s1 s' : RangeScan Q)
      → Visited h pg list s cs list1 s1
      → Keeps list1 s1 list' s'
      → ((c r : ℕ)
          → has c (pending ++ cs) ≡ true
          → Below key pages table c r
          → Seen hot table list' s' r)
      → Below key pages table pg q
      → Seen hot table list' s' q
  first_sees h pg q pending list cs list1 list' s s1 s' v keeps sees here = keeps.0 pg v.seen
  first_sees h pg q pending list cs list1 list' s s1 s' v keeps sees
        (below l off there inner sorted child b) =
      let member = v.to_child l off there inner sorted child in
      let c = page_read_child_at_offset (pages pg) off in
      sees c q
        (has-append c pending cs ∙ ap (λ m. has c pending || m) member ∙ or_true (has c pending)) b
    where
      or_true : (b : Bool) → (b || true) ≡ true
      or_true false = refl
      or_true true = refl

  -- Over trees that are pending, with more fuel than they have pages, where no call writes, the
  -- walk returns. It sees each page between a pending one and the child for the key below it.
  pub visit_nodes_lem :
      (fuel : ℕ) (pending : List ℕ) (total idx size node_level next_level_index : ℕ) (list : List ℕ)
      (s : RangeScan Q)
      → Pending pages pending total
      → total < fuel
      → Stands root pages table s
      → (list' : List ℕ) × (s' : RangeScan Q) × (visit_nodes P kind hot low up fuel pending idx size
            node_level next_level_index list s
          ≡ some (list', s'))
        × Keeps list s list' s'
        × ((pg q : ℕ)
            → has pg pending ≡ true
            → Below key pages table pg q
            → Seen hot table list' s' q)
  unfolding visit_nodes has
  visit_nodes_lem zero pending total idx size lvl nxt list s p enough st = absurd (omega arith)
  visit_nodes_lem (suc fuel) [] total idx size lvl nxt list s p enough st =
      (list, s, refl, ((λ q seen. seen), λ f r. r), λ pg q member b. absurd (cc))
  visit_nodes_lem (suc fuel) (pg ∷ pending) total idx size lvl nxt list s
        (more {n = n} h tree rest small) enough st =
      let (cs, list1, s1, done, v) =
        visit_node_lem h pg (level_at P kind hot low up idx nxt lvl) list s tree st in
      let (list', s', done', keeps, sees) =
        visit_nodes_lem fuel (pending ++ cs) (n + (tree_size pages h pg - 1)) (idx + 1)
          (size + length cs) (level_at P kind hot low up idx nxt lvl)
          (if idx == nxt then size else nxt) list1 s1
          (Pending-append pages pending cs n (tree_size pages h pg - 1) rest v.size)
          (omega (arith, some_size pages h pg)) v.stands in
      (
        list',
        s',
        rw (done) done',
        ((λ q seen. keeps.0 q (v.keeps.0 q seen)), λ f r. keeps.1 f (v.keeps.1 f r)),
        λ c q member b. elim (Bool-cases (pg == c)) [
          | inl first ↦
              let same : c ≡ pg = ground (arith, first) in
              first_sees h pg q pending list cs list1 list' s s1 s' v keeps sees
                (subst (λ x. Below key pages table x q) same b)
          | inr later ↦
              let old : has c pending ≡ true = ground (arith, later) in
              sees c q (has-append c pending cs ∙ ap (λ m. m || has c cs) old) b
        ],
      )
