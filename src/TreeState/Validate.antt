-- ===== src/TreeState/Validate.antt =====
-- src/wot_adapt_strategy/wot_state.cc: `DoValidate` and `ValidateRange`, which look for the work that is left
-- once most scans of the hotspot read pages only. A group has 1000 scans; the share of 0.8 is 800 of
-- them. The size of the queue is a parameter. `none` is as for a scan.
pub mod Counted
use aha_adaptive_hotspot_awa.Common.{
  ℕ, zero, suc, ◌+◌, ◌%◌, List, [], ◌∷◌, ◌++◌, length, Bool, true, false, Option, none, some, ◌>>=◌,
  ltb, leb, not, ◌&&◌, ◌==◌, if◌then◌else◌,
}
use aha_adaptive_hotspot_awa.Leveldb.{Leveldb}
use aha_adaptive_hotspot_awa.WorkQueue.{PriorityQueue, WorkQueue}
use aha_adaptive_hotspot_awa.TreeState.{
  Lsmt, StateKind, read_opt, write_opt, BplusTree, RangeScan, find_children_nodes, queue_node,
  add_mem_compaction_work, add_imm_compaction_work, adapt_lsmt_of, new_iterator,
  range_within_hotspot,
}

-- The counters of `BplusTreeReadOptState`, with `queue_size_` of the strategy.
pub record Validation : Type 0 where
  pub proactive_validation : Bool
  pub validation_triggered : Bool
  pub validate_cnt : ℕ
  pub pure_page_cnt : ℕ
  pub queue_size : ℕ

abbrev pub validate_group : ℕ
validate_group = 1000

abbrev pub int_max : ℕ
int_max = 2147483647

abbrev pub new_validation : Bool → Validation
new_validation proactive = record {
  proactive_validation = proactive;
  validation_triggered = false;
  validate_cnt = 0;
  pure_page_cnt = 0;
  queue_size = 10;
}

-- A scan is counted.
abbrev pub count_scan : ℕ → Validation → Validation
count_scan node_num v = record v {
  validate_cnt = v.validate_cnt + 1;
  pure_page_cnt = if node_num == 0 then v.pure_page_cnt + 1 else v.pure_page_cnt;
}

-- The counts behind a group, and what it may change.
abbrev pub counts_cleared : Validation → Validation
counts_cleared v = record v { validate_cnt = 0; pure_page_cnt = 0 }

abbrev pub triggered_on : Validation → Validation
triggered_on v = record (counts_cleared v) { validation_triggered = true; queue_size = int_max }

abbrev pub turned_off : Validation → Validation
turned_off v = record (counts_cleared v) {
  proactive_validation = false;
  validation_triggered = false;
  queue_size = 10;
}

module _ {Q : Type 0} where
  -- `DoAddLSMTtoIter` with no iterators.
  unfoldable pub validate_lsmt : Option Lsmt → BplusTree Q → Option (BplusTree Q)
  validate_lsmt none t = some t
  validate_lsmt (some l) t = adapt_lsmt_of read_opt true l t

  abbrev pub validate_memtables : BplusTree Q → BplusTree Q
  validate_memtables t =
      let u = if t.mem_empty then t else add_mem_compaction_work t in
      if u.has_imm then add_imm_compaction_work u else u

module _ ⦃L : Leveldb⦄ {Q : Type 0} (P : PriorityQueue Q) where
  -- A node of the loop: the children, and the tree with the node's work.
  unfoldable pub validate_entry :
      ℕ → ℕ → Option (Option Lsmt) → BplusTree Q → Option (List ℕ × BplusTree Q)
  validate_entry pg node_level none t = some ([], t)
  validate_entry pg node_level (some l) t = do
    children ← find_children_nodes (t.pages pg) t.low_hot_key t.up_hot_key
    some (children, queue_node P read_opt true node_level pg l t)

  -- The loop of `ValidateRange`, on fuel.
  unfoldable pub validate_nodes : ℕ → List ℕ → ℕ → ℕ → ℕ → ℕ → BplusTree Q → Option (BplusTree Q)
  validate_nodes zero pending idx size node_level next_level_index t = none
  validate_nodes (suc fuel) [] idx size node_level next_level_index t = some t
  validate_nodes (suc fuel) (pg ∷ pending) idx size node_level next_level_index t =
      let level = if idx == next_level_index then node_level + 1 else node_level in
      let next' = if idx == next_level_index then size else next_level_index in
      validate_entry pg level (t.node_table pg) t >>= λ r.
      validate_nodes fuel (pending ++ r.0) (idx + 1) (size + length r.0) level next' r.1

  unfoldable pub validate_range : ℕ → BplusTree Q → Option (BplusTree Q)
  validate_range fuel t = do
    u ← validate_lsmt (validate_memtables t).leveldb_lsmt (validate_memtables t)
    validate_nodes fuel (u.root_pg_id ∷ []) 0 1 0 0 u

  -- At the end of a group.
  unfoldable pub end_group :
      ℕ → (Q → ℕ) → BplusTree Q → Validation → Option (BplusTree Q × Validation)
  end_group fuel queue_len t v =
      let works = queue_len t.work.work_priority_queue in
      if not v.validation_triggered && ltb 800 v.pure_page_cnt && leb works 5
      then (do u ← validate_range fuel t; some (u, triggered_on v))
      else if v.validation_triggered && leb validate_group v.pure_page_cnt && leb works 0
      then some (t, turned_off v)
      else some (t, counts_cleared v)

  unfoldable pub do_validate :
      ℕ
      → (Q → ℕ)
      → StateKind
      → Bool
      → ℕ
      → BplusTree Q
      → Validation
      → Option (BplusTree Q × Validation)
  do_validate fuel queue_len write_opt hot node_num t v = some (t, v)
  do_validate fuel queue_len read_opt hot node_num t v =
      if hot && v.proactive_validation
      then (if (v.validate_cnt + 1) % validate_group == 0
          then end_group fuel queue_len t (count_scan node_num v)
          else some (t, count_scan node_num v))
      else some (t, v)

  -- `NewIterator` with its validation, which counts the sources that are nodes.
  unfoldable pub range_scan :
      ℕ
      → (Q → ℕ)
      → StateKind
      → List ℕ
      → List ℕ
      → BplusTree Q
      → Validation
      → Option (RangeScan Q × ℕ × Validation)
  range_scan fuel queue_len kind low up t v = do
    (s, non_page_num, node_num) ← new_iterator P fuel kind low up t
    (u, v') ← do_validate fuel queue_len kind (range_within_hotspot t low up) node_num s.tree v
    some (record s { tree = u }, non_page_num, v')
