-- ===== src/TreeState/Seen.antt =====
-- What a scan came to: the pages and trees that it has, and what a node adds.
use aha_adaptive_hotspot_awa.Common.{
  ℕ, ◌≡◌, refl, ◌∙◌, inl, inr, Bool, true, false, ◌&&◌, ◌||◌, ◌==◌, Option, none, some, List, [],
  ◌∷◌, ◌++◌, arith, Bool-cases, if◌then◌else◌, has,
}
use aha_adaptive_hotspot_awa.Leveldb.{Leveldb}
use aha_adaptive_hotspot_awa.TreePage.Layout.{Page, page_read_child_at_offset}
use aha_adaptive_hotspot_awa.TreePage.Search.Bounds.{IsSorted}
use aha_adaptive_hotspot_awa.WorkQueue.{PriorityQueue}
use aha_adaptive_hotspot_awa.TreeState.{
  Lsmt, Source, mem, imm, lsmt, node, page_list, StateKind, read_opt, write_opt, BplusTree,
  RangeScan, is_read, nonempty_level, hotspot_in, page_lock, queue_node, add_source,
}
use aha_adaptive_hotspot_awa.TreeState.Children.{IsChildOf}
use aha_adaptive_hotspot_awa.TreeState.Locks.{IsQuiet}

abbrev pub is_node : ℕ → Source → Bool
is_node q mem = false
is_node q imm = false
is_node q lsmt = false
is_node q (node n) = n == q
is_node q (page_list pages) = false

-- Does one of the sources pass the test?
unfoldable pub reads_some : (Source → Bool) → List Source → Bool
reads_some f [] = false
reads_some f (x ∷ xs) = f x || reads_some f xs

-- Is the node's tree among the sources?
abbrev pub reads : ℕ → List Source → Bool
reads q xs = reads_some (is_node q) xs

pub reads_some-append :
    (f : Source → Bool) (xs ys : List Source)
    → reads_some f (xs ++ ys) ≡ (reads_some f xs || reads_some f ys)
unfolding reads_some
reads_some-append f [] ys = refl
reads_some-append f (x ∷ xs) ys = ground (arith, reads_some-append f xs ys)

-- What a node leaves of the tree.
pub record Kept {Q : Type 0} (t t' : BplusTree Q) : Type 0 where
  pub root_kept : t'.root_pg_id ≡ t.root_pg_id
  pub pages_kept : t'.pages ≡ t.pages
  pub table_kept : t'.node_table ≡ t.node_table
  pub locks_kept : t'.lock_mgr ≡ t.lock_mgr

same_Kept : {Q : Type 0} (t : BplusTree Q) → Kept t t
same_Kept t = record { root_kept = refl; pages_kept = refl; table_kept = refl; locks_kept = refl }

pub queue_node-Kept :
    {Q : Type 0} (P : PriorityQueue Q) (kind : StateKind) (hot : Bool) (node_level pg : ℕ)
    (l : Option Lsmt) (t : BplusTree Q)
    → Kept t (queue_node P kind hot node_level pg l t)
unfolding queue_node
queue_node-Kept P write_opt hot node_level pg l t = same_Kept t
queue_node-Kept P read_opt hot node_level pg l t =
    elim (Bool-cases (nonempty_level l && hot && hotspot_in l)) [
      | inl queued ↦
          rw (queue_node, queued)
            (record { root_kept = refl; pages_kept = refl; table_kept = refl; locks_kept = refl })
      | inr idle ↦ rw (queue_node, idle) (same_Kept t)
    ]

-- A node's tree among the sources, where it is read.
pub record Sourced {Q : Type 0} (b : Bool) (pg : ℕ) (s s' : RangeScan Q) : Type 0 where
  pub tree_same : s'.tree ≡ s.tree
  pub locked_same : s'.locked_nodes ≡ s.locked_nodes
  pub source : b ≡ true → reads pg s'.iter_vec ≡ true
  pub others :
      (f : Source → Bool) → reads_some f s.iter_vec ≡ true → reads_some f s'.iter_vec ≡ true

pub add_source-Sourced :
    {Q : Type 0} (b : Bool) (pg : ℕ) (s : RangeScan Q)
    → Sourced b pg s (if b then add_source (node pg) s else s)
unfolding reads_some
add_source-Sourced false pg s = record {
  tree_same = refl;
  locked_same = refl;
  source = λ e. absurd (cc);
  others = λ q r. r;
}
add_source-Sourced true pg s = record {
  tree_same = refl;
  locked_same = refl;
  source = λ e. reads_some-append (is_node pg) s.iter_vec (node pg ∷ []) ∙ ground arith;
  others = λ f r. reads_some-append f s.iter_vec (node pg ∷ []) ∙ ground arith;
}

module _ {Q : Type 0} (hot : Bool) (table : ℕ → Option (Option Lsmt)) where
  -- The scan came to a page: it is locked, its page is read where it has no node, and else its
  -- tree, where the scan is to read it.
  pub record Seen (list : List ℕ) (s : RangeScan Q) (q : ℕ) : Type 0 where
    pub is_locked : has (page_lock q) s.locked_nodes ≡ true
    pub page_read : table q ≡ none → has q list ≡ true
    pub tree_read :
        (l : Option Lsmt) → table q ≡ some l → is_read hot l ≡ true → reads q s.iter_vec ≡ true

module _ {Q : Type 0} (root : ℕ) (pages : ℕ → Page) (table : ℕ → Option (Option Lsmt)) where
  -- The walk leaves the pages and the table of nodes as they are, and no call writes.
  pub record Stands (s : RangeScan Q) : Type 0 where
    pub root_stands : s.tree.root_pg_id ≡ root
    pub pages_stand : s.tree.pages ≡ pages
    pub table_stands : s.tree.node_table ≡ table
    pub quiet : IsQuiet s.tree.lock_mgr
    pub root_locked : has (page_lock root) s.locked_nodes ≡ true

module _ ⦃L : Leveldb⦄ (key : List ℕ) (pages : ℕ → Page) (table : ℕ → Option (Option Lsmt)) where
  -- From a page to one below it on the way to the key.
  pub data Below : ℕ → ℕ → Type 0 where
    here : {pg : ℕ} → Below pg pg
    below :
        {pg q : ℕ} (l : Option Lsmt) (off : ℕ)
        → table pg ≡ some l
        → (pages pg).is_leaf ≡ false
        → IsSorted (pages pg)
        → IsChildOf (pages pg) key off
        → Below (page_read_child_at_offset (pages pg) off) q
        → Below pg q
