-- ===== src/Tests/Scan.antt =====
-- A scan over a tree of an inner page with a node and two leaves without.
use aha_adaptive_hotspot_awa.Common.{
  ℕ, zero, suc, Bool, ◌∷◌, ◌<◌, ◌≡◌, refl, List, [], true, false, none, some, arith, inl, inr,
  Ordering, has, ◌==◌, if◌then◌else◌,
}
use aha_adaptive_hotspot_awa.TreePage.Layout.{page_read_child_at_offset}
use aha_adaptive_hotspot_awa.TreePage.Search.Bounds.{against}
use aha_adaptive_hotspot_awa.WorkQueue.{new_work_queue}
use aha_adaptive_hotspot_awa.TreeState.{
  Lsmt, read_opt, BplusTree, RangeScan, find_children_nodes, new_iterator,
}
use aha_adaptive_hotspot_awa.TreeState.Children.{IsInRange, IsChildOf, find_children_nodes-has}
use aha_adaptive_hotspot_awa.TreeState.Locks.{IsQuiet}
use aha_adaptive_hotspot_awa.TreeState.Pending.{tree_size, sum_from}
use aha_adaptive_hotspot_awa.TreeState.Found.{Contents, Flags, IsScanned, Finds, new_iterator-Finds}
use aha_adaptive_hotspot_awa.TreeState.Front.{Steady}
use aha_adaptive_hotspot_awa.TreeState.Validate.{Validation, new_validation, int_max, do_validate}
use aha_adaptive_hotspot_awa.TreeState.Validate.Counted.{IsCounted, Ends, do_validate-IsCounted}
use aha_adaptive_hotspot_awa.Tests.Bytewise.{bytewise, lex}
use aha_adaptive_hotspot_awa.Tests.Pages.{key_m}
use aha_adaptive_hotspot_awa.Tests.Tree.{
  inner, inner_pivots, inner-IsSorted, tree_pages, two_levels-IsTree,
}
use aha_adaptive_hotspot_awa.Tests.Queue.{list_queue}

abbrev hot_lsmt : Lsmt
hot_lsmt = record { bottom_level = some 0; has_hotspot = true }

abbrev scanned : BplusTree (List (ℕ × ℕ))
scanned = record {
  mem_empty = false;
  mem_cold_only = false;
  has_imm = false;
  imm_cold_only = false;
  pushdown_mem_scheduled = false;
  pushdown_imm_scheduled = false;
  pushdown_lsmt_scheduled = false;
  scheduled_flush_num = 0;
  jobs = [];
  tree_height = 2;
  leveldb_lsmt = some hot_lsmt;
  low_hot_key = [];
  up_hot_key = [];
  root_pg_id = 0;
  node_table = λ pg. if pg == 0 then some none else none;
  pages = tree_pages;
  lock_mgr = λ pg. none;
  work = new_work_queue list_queue;
}

is_key_m : List ℕ → Bool
is_key_m [] = false
is_key_m (x ∷ xs) = x == 97

no_writer : IsQuiet (λ pg. none)
no_writer x l e = absurd (cc)

three_pages : tree_size tree_pages 1 0 < 5
unfolding tree_size sum_from
three_pages = omega arith

-- The memtable and the tree of the root have one key, with the whole key space as the hotspot.
abbrev in_memory : Contents
in_memory = record {
  mem_has = is_key_m;
  imm_has = λ k. false;
  lsmt_has = is_key_m;
  node_has = λ q k. false;
}

in_memory-Flags : Flags scanned in_memory key_m
in_memory-Flags = record {
  mem_nothing = λ e. absurd (cc);
  mem_cold = λ e h. absurd (cc);
  imm_nothing = λ e. refl;
  imm_cold = λ e h. absurd (cc);
  lsmt_nothing = λ e. absurd (cc);
  lsmt_cold = λ e h. absurd (cc);
  node_nothing = λ q l e n. refl;
  node_cold = λ q l e n h. refl;
}

key_m-IsScanned : IsScanned scanned key_m key_m key_m
unfolding lex
key_m-IsScanned = record {
  from_low = λ e. absurd (cc);
  to_up = inr (λ e. absurd (cc));
  no_end = λ e h. absurd (cc);
}

new_iterator-Finds_example :
    (s : RangeScan (List (ℕ × ℕ))) × (n node_num : ℕ) × (new_iterator list_queue 5 read_opt key_m
        key_m scanned
      ≡ some (s, n, node_num))
    × Finds list_queue read_opt key_m key_m key_m scanned in_memory s
new_iterator-Finds_example =
    new_iterator-Finds list_queue read_opt key_m key_m key_m scanned in_memory hot_lsmt 1 5
      key_m-IsScanned in_memory-Flags two_levels-IsTree three_pages no_writer (omega arith) refl

between_first : against inner key_m 0 ≡ Ordering.gt
unfolding lex
between_first = rw (inner_pivots.0) refl

between_second : against inner key_m 1 ≡ Ordering.lt
unfolding lex
between_second = rw (inner_pivots.1) refl

first_child : IsChildOf inner key_m 0
first_child = record {
  floor = record { within = omega arith; behind = behind; reached = inl refl };
  reached = λ lt. let gt = between_first in absurd (cc);
}
  where
    behind : (i : ℕ) → 0 < i → i < 2 → against inner key_m i ≡ Ordering.lt
    behind zero h k = absurd (omega arith)
    behind (suc zero) h k = between_second
    behind (suc (suc i)) h k = absurd (omega arith)

one_key : IsInRange key_m key_m key_m
unfolding lex
one_key = record { from_low = inr (λ e. absurd (cc)); to_up = inr (λ e. absurd (cc)) }

find_children_nodes-has_example :
    (cs : List ℕ) × (find_children_nodes inner key_m key_m ≡ some cs)
    × (has (page_read_child_at_offset inner 0) cs ≡ true)
find_children_nodes-has_example =
    find_children_nodes-has inner key_m key_m key_m inner-IsSorted 0 first_child one_key refl

-- The last scan of a group that read pages only.
abbrev nearly_done : Validation
nearly_done = record (new_validation true) {
  validation_triggered = true;
  validate_cnt = 999;
  pure_page_cnt = 999;
  queue_size = int_max;
}

nearly_done-IsCounted : IsCounted nearly_done
nearly_done-IsCounted = record { pure = omega arith; within = omega arith; triggers = λ e. refl }

do_validate-IsCounted_example :
    (t' : BplusTree (List (ℕ × ℕ))) × (v' : Validation) × (do_validate list_queue 5
        (λ q. 0)
        read_opt
        true
        0
        scanned
        nearly_done
      ≡ some (t', v'))
    × Steady scanned t'
    × IsCounted v'
    × (Ends nearly_done v' → (true ≡ true) × (◌≡◌ {A = ℕ} 999 999) × (◌≡◌ {A = ℕ} 0 0))
do_validate-IsCounted_example =
    do_validate-IsCounted list_queue read_opt true 0 1 5 (λ q. 0) scanned nearly_done
      two_levels-IsTree three_pages (omega arith) nearly_done-IsCounted
