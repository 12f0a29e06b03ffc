-- ===== src/TreeState/Validate/Counted.antt =====
-- `DoValidate` of src/wot_adapt_strategy/wot_state.cc: its counts and its end.
use aha_adaptive_hotspot_awa.Common.{
  ℕ, zero, suc, ◌+◌, ◌-◌, ◌%◌, ◌≤◌, ◌<◌, ◌≡◌, refl, sym, inl, inr, List, [], ◌∷◌, ◌++◌, length,
  Bool, true, false, Option, none, some, ltb, leb, not, ◌&&◌, ◌==◌, if◌then◌else◌, arith,
  Bool-cases, subst,
}
use aha_adaptive_hotspot_awa.Leveldb.{Leveldb}
use aha_adaptive_hotspot_awa.WorkQueue.{PriorityQueue, WorkQueue}
use aha_adaptive_hotspot_awa.Btree.Descent.{IsTree}
use aha_adaptive_hotspot_awa.TreeState.{
  Lsmt, StateKind, read_opt, write_opt, BplusTree, queue_node, nonempty_level, hotspot_in,
  add_mem_compaction_work, add_imm_compaction_work,
}
use aha_adaptive_hotspot_awa.TreeState.Pending.{
  tree_size, Pending, finished, more, Pending-append, children_lem, some_size,
}
use aha_adaptive_hotspot_awa.TreeState.Front.{
  Steady, Steady-refl, Steady-trans, if-Steady, mem_work-Steady, imm_work-Steady,
  adapt_lsmt_of-Steady,
}
use aha_adaptive_hotspot_awa.TreeState.Validate.{
  Validation, validate_group, validate_entry, validate_nodes, validate_lsmt, validate_memtables,
  validate_range, end_group, count_scan, counts_cleared, triggered_on, turned_off, do_validate,
}

-- Within a group; only proactive validation is triggered.
pub record IsCounted (v : Validation) : Type 0 where
  pub pure : v.pure_page_cnt ≤ v.validate_cnt
  pub within : v.validate_cnt < validate_group
  pub triggers : v.validation_triggered ≡ true → v.proactive_validation ≡ true

-- Does the step end the proactive validation?
abbrev pub Ends : Validation → Validation → Type 0
Ends v v' = (v.proactive_validation ≡ true) × (v'.proactive_validation ≡ false)

module _ {Q : Type 0} where
  queue-Steady : (t : BplusTree Q) (w : WorkQueue Q) → Steady t (record t { work = w })
  queue-Steady t w = record {
    root_kept = refl;
    pages_kept = refl;
    table_kept = refl;
    locks_kept = refl;
    height_kept = refl;
    lsmt_kept = refl;
    has_imm_kept = refl;
    imm_cold_kept = refl;
  }

  queue_node-Steady :
      (P : PriorityQueue Q) (node_level pg : ℕ) (l : Option Lsmt) (t : BplusTree Q)
      → Steady t (queue_node P read_opt true node_level pg l t)
  unfolding queue_node
  queue_node-Steady P node_level pg l t =
      elim (Bool-cases (nonempty_level l && true && hotspot_in l)) [
        | inl queued ↦ rw (queue_node, queued) (queue-Steady t _)
        | inr idle ↦ rw (queue_node, idle) (Steady-refl t)
      ]

  validate_memtables-Steady : (t : BplusTree Q) → Steady t (validate_memtables t)
  validate_memtables-Steady t =
      let u = if t.mem_empty then t else add_mem_compaction_work t in
      let first =
        if-Steady t.mem_empty t t (add_mem_compaction_work t) (Steady-refl t) (mem_work-Steady t) in
      Steady-trans first
        (if-Steady u.has_imm u (add_imm_compaction_work u) u (imm_work-Steady u) (Steady-refl u))

  validate_lsmt-Steady :
      (l : Option Lsmt) (t : BplusTree Q)
      → 1 < t.tree_height
      → (t' : BplusTree Q) × (validate_lsmt l t ≡ some t') × Steady t t'
  unfolding validate_lsmt
  validate_lsmt-Steady none t tall = (t, refl, Steady-refl t)
  validate_lsmt-Steady (some l) t tall = adapt_lsmt_of-Steady read_opt true l t tall

module _ ⦃L : Leveldb⦄ {Q : Type 0} (P : PriorityQueue Q) where
  validate_entry_lem :
      (h pg node_level : ℕ) (t : BplusTree Q) (found : Option (Option Lsmt))
      → IsTree t.pages h pg
      → (cs : List ℕ) × (t' : BplusTree Q) × (validate_entry P pg node_level found t
          ≡ some (cs, t'))
        × Steady t t'
        × Pending t.pages cs (tree_size t.pages h pg - 1)
  unfolding validate_entry
  validate_entry_lem h pg node_level t none tree = ([], t, refl, Steady-refl t, finished)
  validate_entry_lem h pg node_level t (some l) tree =
      let (cs, found, size) = children_lem t.pages t.low_hot_key t.up_hot_key h pg tree in
      (
        cs,
        queue_node P read_opt true node_level pg l t,
        rw (found) refl,
        queue_node-Steady P node_level pg l t,
        size,
      )

  validate_nodes-Steady :
      (fuel : ℕ) (pending : List ℕ) (total idx size node_level next_level_index : ℕ)
      (t : BplusTree Q)
      → Pending t.pages pending total
      → total < fuel
      → (t' : BplusTree Q) × (validate_nodes P fuel pending idx size node_level next_level_index t
          ≡ some t')
        × Steady t t'
  unfolding validate_nodes
  validate_nodes-Steady zero pending total idx size lvl nxt t p enough = absurd (omega arith)
  validate_nodes-Steady (suc fuel) [] total idx size lvl nxt t p enough = (t, refl, Steady-refl t)
  validate_nodes-Steady (suc fuel) (pg ∷ pending) total idx size lvl nxt t
        (more {n = n} h tree rest small) enough =
      let level = if idx == nxt then lvl + 1 else lvl in
      let (cs, t1, done, st, p) = validate_entry_lem h pg level t (t.node_table pg) tree in
      let q = Pending-append t.pages pending cs n (tree_size t.pages h pg - 1) rest p in
      let (t2, done', st') =
        validate_nodes-Steady fuel (pending ++ cs) (n + (tree_size t.pages h pg - 1)) (idx + 1)
          (size + length cs) level (if idx == nxt then size else nxt) t1
          (subst (λ ps. Pending ps (pending ++ cs) (n + (tree_size t.pages h pg - 1)))
            (sym st.pages_kept) q)
          (omega (arith, some_size t.pages h pg)) in
      (t2, rw (done) done', Steady-trans st st')

  validate_range-Steady :
      (h fuel : ℕ) (t : BplusTree Q)
      → IsTree t.pages h t.root_pg_id
      → tree_size t.pages h t.root_pg_id < fuel
      → 1 < t.tree_height
      → (t' : BplusTree Q) × (validate_range P fuel t ≡ some t') × Steady t t'
  unfolding validate_range
  validate_range-Steady h fuel t tree enough tall =
      let m = validate_memtables t in
      let st = validate_memtables-Steady t in
      let (u, done, st') =
        validate_lsmt-Steady m.leveldb_lsmt m (subst (λ n. 1 < n) (sym st.height_kept) tall) in
      let both = Steady-trans st st' in
      let start : Pending t.pages (t.root_pg_id ∷ []) (tree_size t.pages h t.root_pg_id) =
        more {n = 0} h tree finished (omega arith) in
      let there : Pending u.pages (u.root_pg_id ∷ []) (tree_size t.pages h t.root_pg_id) =
        subst (λ r. Pending u.pages (r ∷ []) (tree_size t.pages h t.root_pg_id))
          (sym both.root_kept)
          (subst (λ ps. Pending ps (t.root_pg_id ∷ []) (tree_size t.pages h t.root_pg_id))
            (sym both.pages_kept) start) in
      let (t', done', st'') =
        validate_nodes-Steady fuel (u.root_pg_id ∷ []) _ 0 1 0 0 u there enough in
      (t', rw (done) done', Steady-trans both st'')

  end_group_lem :
      (h fuel : ℕ) (queue_len : Q → ℕ) (t : BplusTree Q) (v : Validation)
      → IsTree t.pages h t.root_pg_id
      → tree_size t.pages h t.root_pg_id < fuel
      → 1 < t.tree_height
      → v.proactive_validation ≡ true
      → (t' : BplusTree Q) × (v' : Validation) × (end_group P fuel queue_len t v ≡ some (t', v'))
        × Steady t t'
        × IsCounted v'
        × (Ends v v' → (v.validation_triggered ≡ true) × (1000 ≤ v.pure_page_cnt))
  unfolding end_group
  end_group_lem h fuel queue_len t v tree enough tall on =
      let works = queue_len t.work.work_priority_queue in
      elim (Bool-cases (not v.validation_triggered && ltb 800 v.pure_page_cnt && leb works 5)) [
        | inl starts ↦
            let (u, done, st) = validate_range-Steady h fuel t tree enough tall in
            (
              u,
              triggered_on v,
              rw (end_group, starts, done) refl,
              st,
              record { pure = omega arith; within = omega arith; triggers = λ e. on },
              λ ends. let off = ends.1 in absurd (cc),
            )
        | inr stays ↦
            elim (Bool-cases
              (v.validation_triggered && leb validate_group v.pure_page_cnt && leb works 0)) [
                | inl stops ↦ (
                  t,
                  turned_off v,
                  rw (end_group, stays, stops) refl,
                  Steady-refl t,
                  record { pure = omega arith; within = omega arith; triggers = λ e. absurd (cc) },
                  λ ends. (ground (arith, stops), ground (arith, stops)),
                )
                | inr goes ↦ (
                  t,
                  counts_cleared v,
                  rw (end_group, stays, goes) refl,
                  Steady-refl t,
                  record { pure = omega arith; within = omega arith; triggers = λ e. on },
                  λ ends. let off = ends.1 in absurd (cc),
                )
              ]
      ]

  -- In a tree of more than one level whose pages are as high as they say, with fuel for the pages, the
  -- validation behind a scan returns, leaves the pages, the nodes, the locks, the height, the root,
  -- the log-structured tree of the root and what is known of the immutable memtable as they are and
  -- keeps its counts within a group. It turns itself off only where it was triggered, its count of
  -- scans that read no node stands at 999, and this scan read no node.
  pub do_validate-IsCounted :
      (kind : StateKind) (hot : Bool) (node_num h fuel : ℕ) (queue_len : Q → ℕ) (t : BplusTree Q)
      (v : Validation)
      → IsTree t.pages h t.root_pg_id
      → tree_size t.pages h t.root_pg_id < fuel
      → 1 < t.tree_height
      → IsCounted v
      → (t' : BplusTree Q) × (v' : Validation) × (do_validate P fuel queue_len kind hot node_num t v
          ≡ some (t', v'))
        × Steady t t'
        × IsCounted v'
        × (Ends v v' → (v.validation_triggered ≡ true) × (v.pure_page_cnt ≡ 999) × (node_num ≡ 0))
  unfolding do_validate
  do_validate-IsCounted write_opt hot node_num h fuel queue_len t v tree enough tall c =
      (t, v, refl, Steady-refl t, c, λ ends. let (on, off) = ends in absurd (cc))
  do_validate-IsCounted read_opt hot node_num h fuel queue_len t v tree enough tall c =
      elim (Bool-cases (hot && v.proactive_validation)) [
        | inr idle ↦ (
          t,
          v,
          rw (do_validate, idle) refl,
          Steady-refl t,
          c,
          λ ends. let (on, off) = ends in absurd (cc),
        )
        | inl counts ↦
            let on : v.proactive_validation ≡ true = ground (arith, counts) in
            elim (Bool-cases ((v.validate_cnt + 1) % validate_group == 0)) [
              | inl last ↦
                  let full : v.validate_cnt ≡ 999 = ground (arith, last, c.within) in
                  let (t', v', done, st, c', ends) =
                    end_group_lem h fuel queue_len t (count_scan node_num v) tree enough tall on in
                  (
                    t',
                    v',
                    rw (do_validate, counts, last) done,
                    st,
                    c',
                    λ e.
                        let (triggered, many) = ends e in
                        elim (Bool-cases (node_num == 0)) [
                          | inl no_node ↦ (
                            triggered,
                            ground (arith, many, no_node, c.pure, full),
                            ground (arith, no_node),
                          )
                          | inr some_node ↦ absurd (ground (arith, many, some_node, c.pure, full))
                        ],
                  )
              | inr more_ ↦ (
                t,
                count_scan node_num v,
                rw (do_validate, counts, more_) refl,
                Steady-refl t,
                record {
                  pure = ground (arith, c.pure);
                  within = ground (arith, more_, c.within);
                  triggers = c.triggers;
                },
                λ ends. let (on_, off) = ends in absurd (cc),
              )
            ]
      ]
