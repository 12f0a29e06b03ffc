-- ===== src/WorkQueue/Once.antt =====
-- The nodes and levels of `PriorityNoDupAdapt` behind any run of its calls.
use aha_adaptive_hotspot_awa.Common.{
  ℕ, ◌≡◌, refl, List, [], ◌∷◌, false, none, some, has, has-without, sym, ap, ◌∙◌, subst,
  if◌then◌else◌, arith, inl, inr, Option-cases, Bool-cases,
}
use mathlib.Core.Option.{some-injective}
use aha_adaptive_hotspot_awa.WorkQueue.{
  PriorityQueue, WorkQueue, new_work_queue, clear_work_queue, add_work_to_queue,
  get_work_from_queue,
}

pub data WorkCall : Type 0 where
  add_call : ℕ → ℕ → WorkCall
  get_call : WorkCall
  clear_call : WorkCall

module _ {Q : Type 0} (P : PriorityQueue Q) where
  unfoldable pub run_call : WorkCall → WorkQueue Q → WorkQueue Q
  run_call (add_call node_id node_level) w = add_work_to_queue P node_id node_level w
  run_call get_call w = (get_work_from_queue P w).0
  run_call clear_call w = clear_work_queue P w

  -- Calls, the last one first.
  unfoldable pub run_calls : List WorkCall → WorkQueue Q
  run_calls [] = new_work_queue P
  run_calls (call ∷ calls) = run_call call (run_calls calls)

  -- The set has the nodes of the queue, and each is there once.
  IsOnce : WorkQueue Q → Type 0
  IsOnce w = (n : ℕ) → P.count n w.work_priority_queue ≡ (if has n w.work_set then 1 else 0)

  add-IsOnce :
      (node_id node_level : ℕ) (w : WorkQueue Q)
      → IsOnce w
      → IsOnce (add_work_to_queue P node_id node_level w)
  unfolding IsOnce add_work_to_queue has
  add-IsOnce node_id node_level w once n =
      let o = once n in
      let c = P.count_push n (node_level, node_id) w.work_priority_queue in
      elim (Bool-cases (has node_id w.work_set)) [
        | inl there ↦ rw (add_work_to_queue, there) o
        | inr new ↦ rw (add_work_to_queue, new) (ground arith)
      ]

  get-IsOnce : (w : WorkQueue Q) → IsOnce w → IsOnce (get_work_from_queue P w).0
  unfolding IsOnce get_work_from_queue
  get-IsOnce w once n = elim (Option-cases (P.try_pop w.work_priority_queue)) [
    | inl e ↦ rw (get_work_from_queue, e) (once n)
    | inr (r, e) ↦
        let o = once n in
        let c = P.count_pop n r.0 w.work_priority_queue r.1 e in
        let s = has-without n r.0.1 w.work_set in rw (get_work_from_queue, e) (ground arith)
  ]

  run_calls-IsOnce : (calls : List WorkCall) → IsOnce (run_calls calls)
  unfolding run_calls run_call IsOnce has
  run_calls-IsOnce [] = λ n. P.count_empty n
  run_calls-IsOnce (add_call node_id node_level ∷ calls) =
      add-IsOnce node_id node_level (run_calls calls) (run_calls-IsOnce calls)
  run_calls-IsOnce (get_call ∷ calls) = get-IsOnce (run_calls calls) (run_calls-IsOnce calls)
  run_calls-IsOnce (clear_call ∷ calls) = λ n. P.count_empty n

  -- A node that is not in the queue comes in once.
  added_back :
      (v : WorkQueue Q) (n node_level : ℕ)
      → IsOnce v
      → P.count n v.work_priority_queue ≡ 0
      → P.count n (add_work_to_queue P n node_level v).work_priority_queue ≡ 1
  unfolding IsOnce add_work_to_queue
  added_back v n node_level once gone =
      let o = once n in
      let new : has n v.work_set ≡ false = ground arith in
      let c = P.count_push n (node_level, n) v.work_priority_queue in
      rw (add_work_to_queue, new) (ground arith)

  taken :
      (w v : WorkQueue Q) (n : ℕ)
      → IsOnce w
      → get_work_from_queue P w ≡ (v, some n)
      → (P.count n w.work_priority_queue ≡ 1) × (P.count n v.work_priority_queue ≡ 0)
  unfolding IsOnce get_work_from_queue
  taken w v n once e = elim (Option-cases (P.try_pop w.work_priority_queue)) [
    | inl none_left ↦
        let got : (get_work_from_queue P w).1 ≡ none = rw (get_work_from_queue, none_left) refl in
        let bad : none ≡ some n = sym got ∙ ap (λ r. r.1) e in absurd (cc)
    | inr (r, popped) ↦
        let got : (get_work_from_queue P w).1 ≡ some r.0.1 =
          rw (get_work_from_queue, popped) refl in
        let left : (get_work_from_queue P w).0.work_priority_queue ≡ r.1 =
          rw (get_work_from_queue, popped) refl in
        let same : r.0.1 ≡ n = some-injective _ _ (sym got ∙ ap (λ x. x.1) e) in
        let rest : v.work_priority_queue ≡ r.1 = sym (ap (λ x. x.0.work_priority_queue) e) ∙ left in
        let c = P.count_pop n r.0 w.work_priority_queue r.1 popped in
        let o = once n in
        let none_else : P.count n r.1 ≡ 0 = ground arith in
        (ground arith, ap (P.count n) rest ∙ none_else)
  ]

  -- Behind any calls on a new queue, a node that is taken out of the queue was in it once, is no longer
  -- in it, and an add of the node puts it in once again.
  pub taken_once :
      (calls : List WorkCall) (n node_level : ℕ) (v : WorkQueue Q)
      → get_work_from_queue P (run_calls calls) ≡ (v, some n)
      → (P.count n (run_calls calls).work_priority_queue ≡ 1)
        × (P.count n v.work_priority_queue ≡ 0)
        × (P.count n (add_work_to_queue P n node_level v).work_priority_queue ≡ 1)
  taken_once calls n node_level v e =
      let once = run_calls-IsOnce calls in
      let (before, behind) = taken (run_calls calls) v n once e in
      let once' = subst IsOnce (ap (λ x. x.0) e) (get-IsOnce (run_calls calls) once) in
      (before, behind, added_back v n node_level once' behind)
