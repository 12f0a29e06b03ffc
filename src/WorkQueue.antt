-- ===== src/WorkQueue.antt =====
-- src/wot_adapt_strategy/priority_queue_strategy.cc and default_strategy.h, the queue of nodes to adapt of
-- `PriorityNoDupAdapt`. Each call runs with no other call between its steps. Nodes and levels are not
-- negative.
pub mod Once
use aha_adaptive_hotspot_awa.Common.{
  ℕ, zero, ◌+◌, ◌≡◌, List, [], ◌∷◌, Bool, true, false, Option, none, some, has, without, ◌==◌, ltb,
  ◌||◌, ◌&&◌, if◌then◌else◌,
}

-- What the code takes from the concurrent priority queue of oneTBB, with the number of entries of a node
-- in it: `try_pop` takes one entry out, and fails where there is none.
pub record PriorityQueue (Q : Type 0) : Type 0 where
  pub empty_queue : Q
  pub push : ℕ × ℕ → Q → Q
  pub try_pop : Q → Option ((ℕ × ℕ) × Q)
  pub count : ℕ → Q → ℕ
  pub count_empty : (n : ℕ) → count n empty_queue ≡ 0
  pub count_push :
      (n : ℕ) (x : ℕ × ℕ) (q : Q) → count n (push x q) ≡ count n q + (if x.1 == n then 1 else 0)
  pub count_none : (n : ℕ) (q : Q) → try_pop q ≡ none → count n q ≡ 0
  pub count_pop :
      (n : ℕ) (x : ℕ × ℕ) (q r : Q)
      → try_pop q ≡ some (x, r)
      → count n q ≡ count n r + (if x.1 == n then 1 else 0)

-- `CompareWeight`: does the first pair come out behind the second?
unfoldable pub compare_weight : ℕ × ℕ → ℕ × ℕ → Bool
compare_weight u v = ltb v.0 u.0 || (u.0 == v.0 && ltb u.1 v.1)

pub record WorkQueue (Q : Type 0) : Type 0 where
  pub work_priority_queue : Q
  pub work_set : List ℕ

module _ {Q : Type 0} (P : PriorityQueue Q) where
  abbrev pub new_work_queue : WorkQueue Q
  new_work_queue = record { work_priority_queue = P.empty_queue; work_set = [] }

  abbrev pub clear_work_queue : WorkQueue Q → WorkQueue Q
  clear_work_queue w = record { work_priority_queue = P.empty_queue; work_set = [] }

  unfoldable pub add_work_to_queue : ℕ → ℕ → WorkQueue Q → WorkQueue Q
  add_work_to_queue node_id node_level w = if has node_id w.work_set then w else record {
    work_priority_queue = P.push (node_level, node_id) w.work_priority_queue;
    work_set = node_id ∷ w.work_set;
  }

  -- The queue, and the node where there is work.
  unfoldable pub get_work_from_queue : WorkQueue Q → WorkQueue Q × Option ℕ
  get_work_from_queue w = elim (P.try_pop w.work_priority_queue) [
    | none ↦ (w, none)
    | some r ↦
        (record { work_priority_queue = r.1; work_set = without r.0.1 w.work_set }, some r.0.1)
  ]
