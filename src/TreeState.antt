-- ===== src/TreeState.antt =====
-- src/wot_adapt_strategy/wot_state.cc: what a range scan reads, in the two states of the index, and the
-- work that it schedules, with the schedulers of src/wot_index.cc. The strategy is `HotOnlyAdapt`. A
-- scan runs with no other call between its steps. `none` is a failed assertion, a pointer to nothing
-- or a lock that is waited for. An iterator is the name of what it reads.
pub mod Children
pub mod Locks
pub mod Pending
pub mod Seen
pub mod Visits
pub mod Front
pub mod Whole
pub mod Found
pub mod Validate
use aha_adaptive_hotspot_awa.Common.{
  ℕ, zero, suc, ◌+◌, ◌-◌, List, [], ◌∷◌, ◌++◌, length, Bool, true, false, Option, none, some, ◌>>=◌,
  ltb, not, ◌&&◌, ◌||◌, ◌==◌, Ordering, if◌then◌else◌,
}
use aha_adaptive_hotspot_awa.Leveldb.{Leveldb, compare_slices}
use aha_adaptive_hotspot_awa.TreePage.Layout.{
  Page, page_read_pivot_at_offset, page_read_child_at_offset,
}
use aha_adaptive_hotspot_awa.TreePage.Update.{page_find_offset, is_gt}
use aha_adaptive_hotspot_awa.LockManager.Table.{
  LockTable, Managed, waits, fails, returns, tree_read_lock,
}
use aha_adaptive_hotspot_awa.WorkQueue.{PriorityQueue, WorkQueue, add_work_to_queue}
use aha_adaptive_hotspot_awa.Btree.Overflow.{is_lt}

-- `GetBottomLevel`, with `none` for -1, and `HasHotspot`.
pub record Lsmt : Type 0 where
  pub bottom_level : Option ℕ
  pub has_hotspot : Bool

-- The functions that `SchedulePushdown` gets.
pub data Job : Type 0 where
  adapt_mem : Job
  adapt_imm : Job
  adapt_lsmt : Job
  adapt_wot : Job

-- What an iterator reads.
pub data Source : Type 0 where
  mem : Source
  imm : Source
  lsmt : Source
  node : ℕ → Source
  page_list : List ℕ → Source

-- The subclasses of `BplusTreeState`.
pub data StateKind : Type 0 where
  read_opt : StateKind
  write_opt : StateKind

-- A node of the table is its log-structured tree, where it has one.
pub record BplusTree (Q : Type 0) : Type 0 where
  pub mem_empty : Bool
  pub mem_cold_only : Bool
  pub has_imm : Bool
  pub imm_cold_only : Bool
  pub pushdown_mem_scheduled : Bool
  pub pushdown_imm_scheduled : Bool
  pub pushdown_lsmt_scheduled : Bool
  pub scheduled_flush_num : ℕ
  pub jobs : List Job
  pub tree_height : ℕ
  pub leveldb_lsmt : Option Lsmt
  pub low_hot_key : List ℕ
  pub up_hot_key : List ℕ
  pub root_pg_id : ℕ
  pub node_table : ℕ → Option (Option Lsmt)
  pub pages : ℕ → Page
  pub lock_mgr : LockTable
  pub work : WorkQueue Q

-- The number of a lock in the table: that of the log-structured tree, -1, comes before the pages'.
abbrev pub lsmt_lock : ℕ
lsmt_lock = 0

abbrev pub page_lock : ℕ → ℕ
page_lock pg = pg + 1

unfoldable pub lock_taken : Managed → Option LockTable
lock_taken (waits _) = none
lock_taken fails = none
lock_taken (returns l _) = some l

abbrev pub is_empty : List ℕ → Bool
is_empty [] = true
is_empty (x ∷ xs) = false

module _ ⦃L : Leveldb⦄ where
  -- The loop of `FindChildrenNodes` from an offset, over the rounds left.
  unfoldable pub children_from : Page → List ℕ → ℕ → ℕ → List ℕ
  children_from page up offset zero = []
  children_from page up offset (suc rounds) =
      let rest = children_from page up (offset + 1) rounds in
      if not (is_empty up) && is_lt (compare_slices up (page_read_pivot_at_offset page offset))
      then []
      else page_read_child_at_offset page offset ∷ rest

  unfoldable pub offset_of : Option ℕ → ℕ
  offset_of none = 0
  offset_of (some offset) = offset

  -- Behind the search for the low end.
  unfoldable pub children_behind : Page → List ℕ → List ℕ → ℕ → Option (List ℕ)
  children_behind page low up offset =
      if not (is_empty low)
        && offset == 0
        && not (is_empty up)
        && is_lt (compare_slices up (page_read_pivot_at_offset page 0))
      then some []
      else if page.item_num == 0
      then none
      else some (children_from page up offset (page.item_num - offset))

  unfoldable pub low_offset : Page → List ℕ → Option (Option ℕ)
  low_offset page low = if is_empty low then some (some 0) else page_find_offset page low

  unfoldable pub children_of_inner : Page → List ℕ → List ℕ → Option (List ℕ)
  children_of_inner page low up =
      low_offset page low >>= λ found. children_behind page low up (offset_of found)

  unfoldable pub find_children_nodes : Page → List ℕ → List ℕ → Option (List ℕ)
  find_children_nodes page low up = if page.is_leaf then some [] else children_of_inner page low up

  unfoldable pub range_within_hotspot : {Q : Type 0} → BplusTree Q → List ℕ → List ℕ → Bool
  range_within_hotspot t low up =
      if is_empty t.low_hot_key && is_empty t.up_hot_key
      then true
      else if is_empty up
      then not (is_lt (compare_slices low t.low_hot_key))
        && not (is_gt (compare_slices low t.up_hot_key))
      else not (is_lt (compare_slices low t.low_hot_key))
        && not (is_gt (compare_slices up t.up_hot_key))

abbrev pub is_some {ℓ} : {A : Type ℓ} → Option A → Bool
is_some none = false
is_some (some x) = true

-- Has the tree a level?
abbrev pub nonempty_level : Option Lsmt → Bool
nonempty_level none = false
nonempty_level (some l) = is_some l.bottom_level

abbrev pub hotspot_in : Option Lsmt → Bool
hotspot_in none = false
hotspot_in (some l) = l.has_hotspot

-- Is the tree read by a scan?
abbrev pub is_read : Bool → Option Lsmt → Bool
is_read hot l = nonempty_level l && not (hot && not (hotspot_in l))

module _ {Q : Type 0} where
  abbrev pub schedule : Job → BplusTree Q → BplusTree Q
  schedule j t = record t { scheduled_flush_num = t.scheduled_flush_num + 1; jobs = j ∷ t.jobs }

  unfoldable pub add_mem_compaction_work : BplusTree Q → BplusTree Q
  add_mem_compaction_work t =
      if t.has_imm || t.pushdown_mem_scheduled
      then t
      else record (schedule adapt_mem t) { pushdown_mem_scheduled = true }

  unfoldable pub add_imm_compaction_work : BplusTree Q → BplusTree Q
  add_imm_compaction_work t =
      if not t.has_imm || t.pushdown_imm_scheduled
      then t
      else record (schedule adapt_imm t) { pushdown_imm_scheduled = true }

  unfoldable pub add_lsmt_compaction_work : BplusTree Q → BplusTree Q
  add_lsmt_compaction_work t =
      if not t.mem_empty || t.has_imm || t.pushdown_lsmt_scheduled
      then t
      else record (schedule adapt_lsmt t) { pushdown_lsmt_scheduled = true }

  -- `leveldb_lsmt_->HasHotspot()` and the job behind it.
  unfoldable pub wot_job : Option Lsmt → BplusTree Q → Option (BplusTree Q)
  wot_job none t = none
  wot_job (some l) t = some (if l.has_hotspot then t else schedule adapt_wot t)

  -- The log-structured tree is looked at where the memtables have nothing.
  unfoldable pub add_wot_compaction_work : BplusTree Q → Option (BplusTree Q)
  add_wot_compaction_work t =
      if not t.mem_empty || t.has_imm then some t else wot_job t.leveldb_lsmt t

  -- `ScheduleLSMTAdapt` of the strategy.
  unfoldable pub schedule_lsmt_adapt : BplusTree Q → Option (BplusTree Q)
  unfolding add_lsmt_compaction_work
  schedule_lsmt_adapt t = if ltb 1 t.tree_height then some (add_lsmt_compaction_work t) else none

-- A scan under way, with the tree behind its calls so far.
pub record RangeScan (Q : Type 0) : Type 0 where
  pub iter_vec : List Source
  pub locked_nodes : List ℕ
  pub tree : BplusTree Q

module _ {Q : Type 0} where
  abbrev pub add_source : Source → RangeScan Q → RangeScan Q
  add_source x s = record s { iter_vec = s.iter_vec ++ x ∷ [] }

  abbrev pub on_tree : (BplusTree Q → BplusTree Q) → RangeScan Q → RangeScan Q
  on_tree f s = record s { tree = f s.tree }

  -- The lock manager's `ReadLock`, and the node's place among the locked nodes.
  unfoldable pub lock_for_scan : ℕ → RangeScan Q → Option (RangeScan Q)
  lock_for_scan id s = do
    l ← lock_taken (tree_read_lock s.tree.lock_mgr id)
    some (record s {
      locked_nodes = s.locked_nodes ++ id ∷ [];
      tree = record s.tree { lock_mgr = l };
    })

  unfoldable pub do_add_mem_to_iter : StateKind → Bool → RangeScan Q → RangeScan Q
  unfolding add_mem_compaction_work
  do_add_mem_to_iter kind hot s =
      if s.tree.mem_empty || (hot && s.tree.mem_cold_only) then s else elim kind [
        | read_opt ↦ on_tree (λ t. if hot then add_mem_compaction_work t else t) (add_source mem s)
        | write_opt ↦ add_source mem s
      ]

  unfoldable pub do_add_imm_to_iter : StateKind → Bool → RangeScan Q → RangeScan Q
  unfolding add_imm_compaction_work
  do_add_imm_to_iter kind hot s =
      if not s.tree.has_imm || (hot && s.tree.imm_cold_only) then s else elim kind [
        | read_opt ↦ on_tree (λ t. if hot then add_imm_compaction_work t else t) (add_source imm s)
        | write_opt ↦ add_source imm s
      ]

  -- Do the memtables have hot data that is to be flushed first?
  abbrev pub memtables_first : Bool → BplusTree Q → Bool
  memtables_first hot t =
      (not t.mem_empty && hot && not t.mem_cold_only) || (t.has_imm && hot && not t.imm_cold_only)

  unfoldable pub adapt_lsmt_of : StateKind → Bool → Lsmt → BplusTree Q → Option (BplusTree Q)
  adapt_lsmt_of write_opt hot l t = some t
  adapt_lsmt_of read_opt hot l t =
      if memtables_first hot t
      then some t
      else if hot && l.has_hotspot
      then schedule_lsmt_adapt t
      else some t

  unfoldable pub do_add_lsmt_to_iter :
      StateKind → Bool → Option Lsmt → RangeScan Q → Option (RangeScan Q)
  do_add_lsmt_to_iter kind hot none s = some s
  do_add_lsmt_to_iter kind hot (some l) s = do
    t ← adapt_lsmt_of kind hot l s.tree
    some (record (if is_read hot (some l) then add_source lsmt s else s) { tree = t })

  module _ (P : PriorityQueue Q) where
    -- `GetWorkQueueSize() > 0`
    unfoldable pub work_waits : WorkQueue Q → Bool
    work_waits w = is_some (P.try_pop w.work_priority_queue)

    unfoldable pub do_may_trigger_wot_adapt : StateKind → Bool → BplusTree Q → Option (BplusTree Q)
    do_may_trigger_wot_adapt write_opt hot t = some t
    do_may_trigger_wot_adapt read_opt hot t =
        if memtables_first hot t
          || (nonempty_level t.leveldb_lsmt && hot && hotspot_in t.leveldb_lsmt)
        then some t
        else if work_waits t.work
        then add_wot_compaction_work t
        else some t

    unfoldable pub queue_node : StateKind → Bool → ℕ → ℕ → Option Lsmt → BplusTree Q → BplusTree Q
    queue_node write_opt hot node_level pg l t = t
    queue_node read_opt hot node_level pg l t =
        if nonempty_level l && hot && hotspot_in l
        then record t { work = add_work_to_queue P pg node_level t.work }
        else t

    unfoldable pub do_add_wot_to_iter :
        StateKind → Bool → ℕ → ℕ → Option Lsmt → RangeScan Q → RangeScan Q
    do_add_wot_to_iter kind hot node_level pg l s =
        on_tree (queue_node kind hot node_level pg l)
          (if is_read hot l then add_source (node pg) s else s)

module _ ⦃L : Leveldb⦄ {Q : Type 0} (P : PriorityQueue Q) (kind : StateKind) (hot : Bool)
    (low up : List ℕ) where
  -- What a node of the walk adds: its children, its page where it has no node, and its source.
  unfoldable pub visit_entry :
      ℕ → ℕ → Option (Option Lsmt) → List ℕ → RangeScan Q → Option (List ℕ × List ℕ × RangeScan Q)
  visit_entry pg node_level none pages s = some ([], pages ++ pg ∷ [], s)
  visit_entry pg node_level (some l) pages s = do
    children ← find_children_nodes (s.tree.pages pg) low up
    some (children, pages, do_add_wot_to_iter P kind hot node_level pg l s)

  unfoldable pub visit_node : ℕ → ℕ → List ℕ → RangeScan Q → Option (List ℕ × List ℕ × RangeScan Q)
  visit_node pg node_level pages s = do
    s' ← (if pg == s.tree.root_pg_id then some s else lock_for_scan (page_lock pg) s)
    visit_entry pg node_level (s'.tree.node_table pg) pages s'

  abbrev pub level_at : ℕ → ℕ → ℕ → ℕ
  level_at idx next_level_index node_level =
      if idx == next_level_index then node_level + 1 else node_level

  -- The loop of `NewIterator` over `nodes_vec`, on fuel: the nodes from `idx` on are pending, and the
  -- vector has `size` nodes. The pages without a node go to one iterator.
  unfoldable pub visit_nodes :
      ℕ → List ℕ → ℕ → ℕ → ℕ → ℕ → List ℕ → RangeScan Q → Option (List ℕ × RangeScan Q)
  visit_nodes zero pending idx size node_level next_level_index pages s = none
  visit_nodes (suc fuel) [] idx size node_level next_level_index pages s = some (pages, s)
  visit_nodes (suc fuel) (pg ∷ pending) idx size node_level next_level_index pages s =
      let level = level_at idx next_level_index node_level in
      let next' = if idx == next_level_index then size else next_level_index in
      visit_node pg level pages s >>= λ r.
      visit_nodes fuel (pending ++ r.0) (idx + 1) (size + length r.0) level next' r.1 r.2

abbrev pub with_pages : {Q : Type 0} → List ℕ → RangeScan Q → RangeScan Q
with_pages [] s = s
with_pages (pg ∷ pages) s = add_source (page_list (pg ∷ pages)) s

module _ ⦃L : Leveldb⦄ {Q : Type 0} (P : PriorityQueue Q) where
  -- `NewIterator`, up to the validation: the scan, the number of sources that are not pages, and that of
  -- the nodes among them.
  unfoldable pub new_iterator :
      ℕ → StateKind → List ℕ → List ℕ → BplusTree Q → Option (RangeScan Q × ℕ × ℕ)
  new_iterator fuel kind low up t = do
    let hot = range_within_hotspot t low up
    s ← lock_for_scan lsmt_lock (record { iter_vec = []; locked_nodes = []; tree = t })
    let with_mem = do_add_imm_to_iter kind hot (do_add_mem_to_iter kind hot s)
    s' ← do_add_lsmt_to_iter kind hot with_mem.tree.leveldb_lsmt with_mem
    u ← do_may_trigger_wot_adapt P kind hot s'.tree
    rooted ← lock_for_scan (page_lock u.root_pg_id) (record s' { tree = u })
    (pages, s'') ← visit_nodes P kind hot low up fuel (u.root_pg_id ∷ []) 0 1 0 0 [] rooted
    some (with_pages pages s'', length s''.iter_vec, length s''.iter_vec - length s'.iter_vec)
