-- ===== src/TreeState/Whole.antt =====
-- `NewIterator` of src/wot_adapt_strategy/wot_state.cc: a whole scan, from its locks to its sources.
use aha_adaptive_hotspot_awa.Common.{
  ◌-◌, ℕ, ◌<◌, ◌≡◌, refl, sym, ap, ◌∙◌, Bool, true, false, not, ◌&&◌, Option, none, some, List, [],
  ◌∷◌, length, arith, subst, has, has-append,
}
use aha_adaptive_hotspot_awa.Leveldb.{Leveldb}
use aha_adaptive_hotspot_awa.WorkQueue.{PriorityQueue}
use aha_adaptive_hotspot_awa.Btree.Descent.{IsTree}
use aha_adaptive_hotspot_awa.TreeState.{
  Lsmt, Source, mem, imm, lsmt, node, page_list, StateKind, BplusTree, RangeScan, is_read,
  page_lock, lsmt_lock, lock_for_scan, do_add_mem_to_iter, do_add_imm_to_iter, do_add_lsmt_to_iter,
  do_may_trigger_wot_adapt, visit_nodes, with_pages, range_within_hotspot, new_iterator,
}
use aha_adaptive_hotspot_awa.TreeState.Children.{IsInRange}
use aha_adaptive_hotspot_awa.TreeState.Locks.{IsQuiet, lock_for_scan-IsQuiet}
use aha_adaptive_hotspot_awa.TreeState.Pending.{tree_size, finished, more}
use aha_adaptive_hotspot_awa.TreeState.Seen.{reads_some, reads_some-append, reads, Stands, Below}
use aha_adaptive_hotspot_awa.TreeState.Visits.{visit_nodes_lem}
use aha_adaptive_hotspot_awa.TreeState.Front.{
  is_mem, is_imm, is_lsmt, Steady-trans, mem_read, imm_read, do_add_mem_to_iter-Added,
  do_add_imm_to_iter-Added, do_add_lsmt_to_iter-Added, do_may_trigger_wot_adapt-Steady,
}

abbrev pub has_page : ℕ → Source → Bool
has_page q mem = false
has_page q imm = false
has_page q lsmt = false
has_page q (node n) = false
has_page q (page_list pages) = has q pages

-- The pages without a node join the sources.
with_pages_lem :
    {Q : Type 0} (list : List ℕ) (s : RangeScan Q)
    → ((with_pages list s).locked_nodes ≡ s.locked_nodes)
      × ((f : Source → Bool)
          → reads_some f s.iter_vec ≡ true
          → reads_some f (with_pages list s).iter_vec ≡ true)
      × ((q : ℕ) → has q list ≡ true → reads_some (has_page q) (with_pages list s).iter_vec ≡ true)
unfolding reads_some has
with_pages_lem [] s = (refl, (λ f r. r), λ q member. absurd (cc))
with_pages_lem (pg ∷ list) s = (
  refl,
  (λ f r. reads_some-append f s.iter_vec (page_list (pg ∷ list) ∷ []) ∙ ground arith),
  λ q member. reads_some-append (has_page q) s.iter_vec (page_list (pg ∷ list) ∷ []) ∙ ground arith,
)

module _ ⦃L : Leveldb⦄ {Q : Type 0} (P : PriorityQueue Q) (kind : StateKind) (low up key : List ℕ)
    (t : BplusTree Q) where
  abbrev hot : Bool
  hot = range_within_hotspot t low up

  -- What a scan reads: each memtable and the log-structured tree, where they may have something of the
  -- range, and each page from the root to the child for the key, locked, with its node's tree.
  pub record Reads (s : RangeScan Q) : Type 0 where
    pub mem_there : mem_read hot t ≡ true → reads_some is_mem s.iter_vec ≡ true
    pub imm_there : imm_read hot t ≡ true → reads_some is_imm s.iter_vec ≡ true
    pub lsmt_there : is_read hot t.leveldb_lsmt ≡ true → reads_some is_lsmt s.iter_vec ≡ true
    pub page_locked :
        (q : ℕ)
        → Below key t.pages t.node_table t.root_pg_id q
        → has (page_lock q) s.locked_nodes ≡ true
    pub page_there :
        (q : ℕ)
        → Below key t.pages t.node_table t.root_pg_id q
        → t.node_table q ≡ none
        → reads_some (has_page q) s.iter_vec ≡ true
    pub node_there :
        (q : ℕ) (l : Option Lsmt)
        → Below key t.pages t.node_table t.root_pg_id q
        → t.node_table q ≡ some l
        → is_read hot l ≡ true
        → reads q s.iter_vec ≡ true

  -- The calls of a scan before its walk, and what they leave.
  record Fronted (s1 s4 s6 : RangeScan Q) (u : BplusTree Q) : Type 0 where
    locked :
        lock_for_scan lsmt_lock (record { iter_vec = []; locked_nodes = []; tree = t }) ≡ some s1
    added :
        do_add_lsmt_to_iter kind hot
          (do_add_imm_to_iter kind hot (do_add_mem_to_iter kind hot s1)).tree.leveldb_lsmt
          (do_add_imm_to_iter kind hot (do_add_mem_to_iter kind hot s1))
        ≡ some s4
    triggered : do_may_trigger_wot_adapt P kind hot s4.tree ≡ some u
    rooted : lock_for_scan (page_lock u.root_pg_id) (record s4 { tree = u }) ≡ some s6
    root_same : u.root_pg_id ≡ t.root_pg_id
    stands : Stands t.root_pg_id t.pages t.node_table s6
    mem_front : mem_read hot t ≡ true → reads_some is_mem s6.iter_vec ≡ true
    imm_front : imm_read hot t ≡ true → reads_some is_imm s6.iter_vec ≡ true
    lsmt_front : is_read hot t.leveldb_lsmt ≡ true → reads_some is_lsmt s6.iter_vec ≡ true

  front_lem :
      (l : Lsmt)
      → IsQuiet t.lock_mgr
      → 1 < t.tree_height
      → t.leveldb_lsmt ≡ some l
      → (s1 s4 s6 : RangeScan Q) × (u : BplusTree Q) × Fronted s1 s4 s6 u
  unfolding has
  front_lem l quiet tall there =
      let (t1, locked, quiet1) =
        lock_for_scan-IsQuiet lsmt_lock (record { iter_vec = []; locked_nodes = []; tree = t })
          quiet in
      let s1 : RangeScan Q = record {
        iter_vec = [];
        locked_nodes = lsmt_lock ∷ [];
        tree = record t { lock_mgr = t1 };
      } in
      let s2 = do_add_mem_to_iter kind hot s1 in
      let s3 = do_add_imm_to_iter kind hot s2 in
      let m = do_add_mem_to_iter-Added kind hot s1 in
      let i = do_add_imm_to_iter-Added kind hot s2 in
      let to3 = Steady-trans m.steady i.steady in
      let (s4, added, b) =
        do_add_lsmt_to_iter-Added kind hot s3.tree.leveldb_lsmt s3
          (subst (λ n. 1 < n) (sym to3.height_kept) tall) in
      let to4 = Steady-trans to3 b.steady in
      let (u, triggered, st) =
        do_may_trigger_wot_adapt-Steady P kind hot l s4.tree (to4.lsmt_kept ∙ there) in
      let to5 = Steady-trans to4 st in
      let (t6, rooted, quiet6) =
        lock_for_scan-IsQuiet (page_lock u.root_pg_id) (record s4 { tree = u })
          (subst IsQuiet (sym to5.locks_kept) quiet1) in
      let same_imm : imm_read hot s2.tree ≡ imm_read hot t =
        ap (λ x. x && not (hot && s2.tree.imm_cold_only)) m.steady.has_imm_kept
        ∙ ap (λ c. t.has_imm && not (hot && c)) m.steady.imm_cold_kept in
      (
        s1,
        s4,
        _,
        u,
        record {
          locked = locked;
          added = added;
          triggered = triggered;
          rooted = rooted;
          root_same = to5.root_kept;
          stands = record {
            root_stands = to5.root_kept;
            pages_stand = to5.pages_kept;
            table_stands = to5.table_kept;
            quiet = quiet6;
            root_locked =
                has-append (page_lock t.root_pg_id) s4.locked_nodes (page_lock u.root_pg_id ∷ [])
                ∙ ground (arith, to5.root_kept);
          };
          mem_front = λ r. b.extends is_mem (i.extends is_mem (m.source r));
          imm_front = λ r. b.extends is_imm (i.source (same_imm ∙ r));
          lsmt_front = λ r. b.source (ap (is_read hot) to3.lsmt_kept ∙ r);
        },
      )

  new_iterator_steps :
      (fuel : ℕ) (s1 s4 s6 s7 : RangeScan Q) (u : BplusTree Q) (list : List ℕ)
      → Fronted s1 s4 s6 u
      → visit_nodes P kind hot low up fuel (t.root_pg_id ∷ []) 0 1 0 0 [] s6 ≡ some (list, s7)
      → new_iterator P fuel kind low up t
        ≡ some (with_pages list s7, length s7.iter_vec, length s7.iter_vec - length s4.iter_vec)
  unfolding new_iterator
  new_iterator_steps fuel s1 s4 s6 s7 u list f visited =
      let walked : visit_nodes P kind hot low up fuel (u.root_pg_id ∷ []) 0 1 0 0 [] s6
          ≡ some (list, s7) =
        ap (λ r. visit_nodes P kind hot low up fuel (r ∷ []) 0 1 0 0 [] s6) f.root_same ∙ visited in
      rw (new_iterator, f.locked, f.added, f.triggered, f.rooted, walked) refl

  -- In a tree of more than one level whose pages are as high as they say, where no call writes, a scan
  -- in either state returns, if its fuel exceeds the number of the pages. For each key of its range
  -- it reads each memtable and the log-structured tree that its own test does not skip, and locks each page from
  -- the root down to the child for the key, as far as the pages have nodes. It reads the page of
  -- the last one, where that has no node, and each node's tree that the test does not skip.
  pub new_iterator_lem :
      (l : Lsmt) (h fuel : ℕ)
      → IsInRange low up key
      → IsTree t.pages h t.root_pg_id
      → tree_size t.pages h t.root_pg_id < fuel
      → IsQuiet t.lock_mgr
      → 1 < t.tree_height
      → t.leveldb_lsmt ≡ some l
      → (s : RangeScan Q) × (n node_num : ℕ) × (new_iterator P fuel kind low up t
          ≡ some (s, n, node_num))
        × Reads s
  unfolding has
  new_iterator_lem l h fuel range tree enough quiet tall there =
      let (s1, s4, s6, u, f) = front_lem l quiet tall there in
      let (list, s7, visited, keeps, sees) =
        visit_nodes_lem P kind hot low up key range t.root_pg_id t.pages t.node_table fuel
          (t.root_pg_id ∷ []) (tree_size t.pages h t.root_pg_id) 0 1 0 0 [] s6
          (more {n = 0} h tree finished (omega arith)) enough f.stands in
      let (locked_same, extends, pages_there) = with_pages_lem list s7 in
      let at_root : has t.root_pg_id (t.root_pg_id ∷ []) ≡ true = ground arith in
      let seen = λ (q : ℕ) (w : Below key t.pages t.node_table t.root_pg_id q).
        sees t.root_pg_id q at_root w in
      (
        with_pages list s7,
        length s7.iter_vec,
        length s7.iter_vec - length s4.iter_vec,
        new_iterator_steps fuel s1 s4 s6 s7 u list f visited,
        record {
          mem_there = λ r. extends is_mem (keeps.1 is_mem (f.mem_front r));
          imm_there = λ r. extends is_imm (keeps.1 is_imm (f.imm_front r));
          lsmt_there = λ r. extends is_lsmt (keeps.1 is_lsmt (f.lsmt_front r));
          page_locked = λ q w. ap (has (page_lock q)) locked_same ∙ (seen q w).is_locked;
          page_there = λ q w e. pages_there q ((seen q w).page_read e);
          node_there = λ q n w e r. extends _ ((seen q w).tree_read n e r);
        },
      )
