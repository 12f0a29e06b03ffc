-- ===== src/TreeState/Front.antt =====
-- What `NewIterator` does before its walk: the memtables, the log-structured tree and the work.
use aha_adaptive_hotspot_awa.Common.{
  ℕ, ◌≡◌, ◌<◌, refl, ap, ◌∙◌, inl, inr, Bool, true, false, not, ◌&&◌, ◌||◌, Option, none, some, ltb,
  List, [], ◌∷◌, arith, Bool-cases, if◌then◌else◌,
}
use aha_adaptive_hotspot_awa.WorkQueue.{PriorityQueue}
use aha_adaptive_hotspot_awa.TreeState.{
  Lsmt, Job, Source, mem, imm, lsmt, node, page_list, StateKind, read_opt, write_opt, BplusTree,
  RangeScan, is_read, nonempty_level, hotspot_in, add_source, on_tree, add_mem_compaction_work,
  add_imm_compaction_work, add_lsmt_compaction_work, wot_job, schedule, adapt_wot,
  add_wot_compaction_work, schedule_lsmt_adapt, do_add_mem_to_iter, do_add_imm_to_iter,
  memtables_first, adapt_lsmt_of, do_add_lsmt_to_iter, work_waits, do_may_trigger_wot_adapt,
}
use aha_adaptive_hotspot_awa.TreeState.Seen.{reads_some, reads_some-append}

abbrev pub is_mem : Source → Bool
is_mem mem = true
is_mem imm = false
is_mem lsmt = false
is_mem (node n) = false
is_mem (page_list pages) = false

abbrev pub is_imm : Source → Bool
is_imm mem = false
is_imm imm = true
is_imm lsmt = false
is_imm (node n) = false
is_imm (page_list pages) = false

abbrev pub is_lsmt : Source → Bool
is_lsmt mem = false
is_lsmt imm = false
is_lsmt lsmt = true
is_lsmt (node n) = false
is_lsmt (page_list pages) = false

module _ {Q : Type 0} where
  -- The scheduling of work leaves the index as it is.
  pub record Steady (t t' : BplusTree Q) : Type 0 where
    pub root_kept : t'.root_pg_id ≡ t.root_pg_id
    pub pages_kept : t'.pages ≡ t.pages
    pub table_kept : t'.node_table ≡ t.node_table
    pub locks_kept : t'.lock_mgr ≡ t.lock_mgr
    pub height_kept : t'.tree_height ≡ t.tree_height
    pub lsmt_kept : t'.leveldb_lsmt ≡ t.leveldb_lsmt
    pub has_imm_kept : t'.has_imm ≡ t.has_imm
    pub imm_cold_kept : t'.imm_cold_only ≡ t.imm_cold_only

  pub Steady-refl : (t : BplusTree Q) → Steady t t
  Steady-refl t = record {
    root_kept = refl;
    pages_kept = refl;
    table_kept = refl;
    locks_kept = refl;
    height_kept = refl;
    lsmt_kept = refl;
    has_imm_kept = refl;
    imm_cold_kept = refl;
  }

  pub Steady-trans : {t u v : BplusTree Q} → Steady t u → Steady u v → Steady t v
  Steady-trans a b = record {
    root_kept = b.root_kept ∙ a.root_kept;
    pages_kept = b.pages_kept ∙ a.pages_kept;
    table_kept = b.table_kept ∙ a.table_kept;
    locks_kept = b.locks_kept ∙ a.locks_kept;
    height_kept = b.height_kept ∙ a.height_kept;
    lsmt_kept = b.lsmt_kept ∙ a.lsmt_kept;
    has_imm_kept = b.has_imm_kept ∙ a.has_imm_kept;
    imm_cold_kept = b.imm_cold_kept ∙ a.imm_cold_kept;
  }

  -- A choice between two trees.
  pub if-Steady :
      (b : Bool) (t u v : BplusTree Q) → Steady t u → Steady t v → Steady t (if b then u else v)
  if-Steady true t u v a c = a
  if-Steady false t u v a c = c

  -- Flags, counts and jobs are no part of it.
  flags-Steady :
      (t : BplusTree Q) (a b c : Bool) (n : ℕ) (js : List Job)
      → Steady t (record t {
        pushdown_mem_scheduled = a;
        pushdown_imm_scheduled = b;
        pushdown_lsmt_scheduled = c;
        scheduled_flush_num = n;
        jobs = js;
      })
  flags-Steady t a b c n js = record {
    root_kept = refl;
    pages_kept = refl;
    table_kept = refl;
    locks_kept = refl;
    height_kept = refl;
    lsmt_kept = refl;
    has_imm_kept = refl;
    imm_cold_kept = refl;
  }

  pub mem_work-Steady : (t : BplusTree Q) → Steady t (add_mem_compaction_work t)
  unfolding add_mem_compaction_work
  mem_work-Steady t = elim (Bool-cases (t.has_imm || t.pushdown_mem_scheduled)) [
    | inl skip ↦ rw (add_mem_compaction_work, skip) (Steady-refl t)
    | inr go ↦ rw (add_mem_compaction_work, go) (flags-Steady t _ _ _ _ _)
  ]

  pub imm_work-Steady : (t : BplusTree Q) → Steady t (add_imm_compaction_work t)
  unfolding add_imm_compaction_work
  imm_work-Steady t = elim (Bool-cases (not t.has_imm || t.pushdown_imm_scheduled)) [
    | inl skip ↦ rw (add_imm_compaction_work, skip) (Steady-refl t)
    | inr go ↦ rw (add_imm_compaction_work, go) (flags-Steady t _ _ _ _ _)
  ]

  lsmt_work-Steady : (t : BplusTree Q) → Steady t (add_lsmt_compaction_work t)
  unfolding add_lsmt_compaction_work
  lsmt_work-Steady t =
      elim (Bool-cases (not t.mem_empty || t.has_imm || t.pushdown_lsmt_scheduled)) [
        | inl skip ↦ rw (add_lsmt_compaction_work, skip) (Steady-refl t)
        | inr go ↦ rw (add_lsmt_compaction_work, go) (flags-Steady t _ _ _ _ _)
      ]

  -- A step that may add a source: it does where the second Boolean is true.
  pub record Added (f : Source → Bool) (b : Bool) (s s' : RangeScan Q) : Type 0 where
    pub steady : Steady s.tree s'.tree
    pub locked_same : s'.locked_nodes ≡ s.locked_nodes
    pub extends :
        (g : Source → Bool) → reads_some g s.iter_vec ≡ true → reads_some g s'.iter_vec ≡ true
    pub source : b ≡ true → reads_some f s'.iter_vec ≡ true

  nothing-Added : (f : Source → Bool) (b : Bool) (s : RangeScan Q) → b ≡ false → Added f b s s
  nothing-Added f b s never = record {
    steady = Steady-refl s.tree;
    locked_same = refl;
    extends = λ g r. r;
    source = λ e. absurd (cc);
  }

  source-Added :
      (f : Source → Bool) (b : Bool) (x : Source) (s : RangeScan Q) (t : BplusTree Q)
      → f x ≡ true
      → Steady s.tree t
      → Added f b s (record (add_source x s) { tree = t })
  unfolding reads_some
  source-Added f b x s t fits st = record {
    steady = st;
    locked_same = refl;
    extends = λ g r. reads_some-append g s.iter_vec (x ∷ []) ∙ ground arith;
    source = λ e. reads_some-append f s.iter_vec (x ∷ []) ∙ ground arith;
  }

  -- Is the memtable read by a scan?
  abbrev pub mem_read : Bool → BplusTree Q → Bool
  mem_read hot t = not (t.mem_empty || (hot && t.mem_cold_only))

  abbrev pub imm_read : Bool → BplusTree Q → Bool
  imm_read hot t = t.has_imm && not (hot && t.imm_cold_only)

  pub do_add_mem_to_iter-Added :
      (kind : StateKind) (hot : Bool) (s : RangeScan Q)
      → Added is_mem (mem_read hot s.tree) s (do_add_mem_to_iter kind hot s)
  unfolding do_add_mem_to_iter
  do_add_mem_to_iter-Added kind hot s =
      elim (Bool-cases (s.tree.mem_empty || (hot && s.tree.mem_cold_only))) [
        | inl skip ↦ rw (do_add_mem_to_iter, skip) (nothing-Added is_mem false s refl)
        | inr take ↦ rw (do_add_mem_to_iter, take) (by_kind kind)
      ]
    where
      by_kind :
          (kind : StateKind)
          → Added is_mem true s (elim kind [
            | read_opt ↦
                on_tree (λ t. if hot then add_mem_compaction_work t else t) (add_source mem s)
            | write_opt ↦ add_source mem s
          ])
      by_kind read_opt =
          source-Added is_mem true mem s _ refl
            (if-Steady hot s.tree _ _ (mem_work-Steady s.tree) (Steady-refl s.tree))
      by_kind write_opt = source-Added is_mem true mem s s.tree refl (Steady-refl s.tree)

  pub do_add_imm_to_iter-Added :
      (kind : StateKind) (hot : Bool) (s : RangeScan Q)
      → Added is_imm (imm_read hot s.tree) s (do_add_imm_to_iter kind hot s)
  unfolding do_add_imm_to_iter
  do_add_imm_to_iter-Added kind hot s =
      elim (Bool-cases (not s.tree.has_imm || (hot && s.tree.imm_cold_only))) [
        | inl skip ↦ rw (do_add_imm_to_iter, skip) (nothing-Added is_imm _ s (ground (arith, skip)))
        | inr take ↦ rw (do_add_imm_to_iter, take) (by_kind kind)
      ]
    where
      by_kind :
          (kind : StateKind)
          → Added is_imm (imm_read hot s.tree) s (elim kind [
            | read_opt ↦
                on_tree (λ t. if hot then add_imm_compaction_work t else t) (add_source imm s)
            | write_opt ↦ add_source imm s
          ])
      by_kind read_opt =
          source-Added is_imm _ imm s _ refl
            (if-Steady hot s.tree _ _ (imm_work-Steady s.tree) (Steady-refl s.tree))
      by_kind write_opt = source-Added is_imm _ imm s s.tree refl (Steady-refl s.tree)

  pub adapt_lsmt_of-Steady :
      (kind : StateKind) (hot : Bool) (l : Lsmt) (t : BplusTree Q)
      → 1 < t.tree_height
      → (t' : BplusTree Q) × (adapt_lsmt_of kind hot l t ≡ some t') × Steady t t'
  unfolding adapt_lsmt_of schedule_lsmt_adapt
  adapt_lsmt_of-Steady write_opt hot l t tall = (t, refl, Steady-refl t)
  adapt_lsmt_of-Steady read_opt hot l t tall = elim (Bool-cases (memtables_first hot t)) [
    | inl first ↦ (t, rw (adapt_lsmt_of, first) refl, Steady-refl t)
    | inr later ↦ elim (Bool-cases (hot && l.has_hotspot)) [
      | inl target ↦
          let tall_ : ltb 1 t.tree_height ≡ true = ground (arith, tall) in
          (
            add_lsmt_compaction_work t,
            rw (adapt_lsmt_of, later, target, schedule_lsmt_adapt, tall_) refl,
            lsmt_work-Steady t,
          )
      | inr idle ↦ (t, rw (adapt_lsmt_of, later, idle) refl, Steady-refl t)
    ]
  ]

  pub do_add_lsmt_to_iter-Added :
      (kind : StateKind) (hot : Bool) (l : Option Lsmt) (s : RangeScan Q)
      → 1 < s.tree.tree_height
      → (s' : RangeScan Q) × (do_add_lsmt_to_iter kind hot l s ≡ some s')
        × Added is_lsmt (is_read hot l) s s'
  unfolding do_add_lsmt_to_iter
  do_add_lsmt_to_iter-Added kind hot none s tall = (s, refl, nothing-Added is_lsmt false s refl)
  do_add_lsmt_to_iter-Added kind hot (some l) s tall =
      let (t, done, st) = adapt_lsmt_of-Steady kind hot l s.tree tall in
      elim (Bool-cases (is_read hot (some l))) [
        | inl take ↦ (
          record (add_source lsmt s) { tree = t },
          rw (done, take) refl,
          source-Added is_lsmt _ lsmt s t refl st,
        )
        | inr skip ↦ (
          record s { tree = t },
          rw (done, skip) refl,
          record { steady = st; locked_same = refl; extends = λ g r. r; source = λ e. absurd (cc) },
        )
      ]

  wot_work-Steady :
      (l : Lsmt) (t : BplusTree Q)
      → t.leveldb_lsmt ≡ some l
      → (t' : BplusTree Q) × (add_wot_compaction_work t ≡ some t') × Steady t t'
  unfolding add_wot_compaction_work wot_job
  wot_work-Steady l t there = elim (Bool-cases (not t.mem_empty || t.has_imm)) [
    | inl skip ↦ (t, rw (add_wot_compaction_work, skip) refl, Steady-refl t)
    | inr go ↦ (
      if l.has_hotspot then t else schedule adapt_wot t,
      rw (add_wot_compaction_work, go) (ap (λ x. wot_job x t) there),
      if-Steady l.has_hotspot t _ _ (Steady-refl t) (flags-Steady t _ _ _ _ _),
    )
  ]

  pub do_may_trigger_wot_adapt-Steady :
      (P : PriorityQueue Q) (kind : StateKind) (hot : Bool) (l : Lsmt) (t : BplusTree Q)
      → t.leveldb_lsmt ≡ some l
      → (t' : BplusTree Q) × (do_may_trigger_wot_adapt P kind hot t ≡ some t') × Steady t t'
  unfolding do_may_trigger_wot_adapt
  do_may_trigger_wot_adapt-Steady P write_opt hot l t there = (t, refl, Steady-refl t)
  do_may_trigger_wot_adapt-Steady P read_opt hot l t there =
      elim (Bool-cases (
        memtables_first hot t
        || (nonempty_level t.leveldb_lsmt && hot && hotspot_in t.leveldb_lsmt))) [
          | inl first ↦ (t, rw (do_may_trigger_wot_adapt, first) refl, Steady-refl t)
          | inr later ↦ elim (Bool-cases (work_waits P t.work)) [
            | inl work ↦
                let (t', done, st) = wot_work-Steady l t there in
                (t', rw (do_may_trigger_wot_adapt, later, work) done, st)
            | inr idle ↦ (t, rw (do_may_trigger_wot_adapt, later, idle) refl, Steady-refl t)
          ]
        ]
