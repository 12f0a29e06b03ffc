-- ===== src/Tests/Queue.antt =====
-- A queue of work as a list, the last entry first.
use aha_adaptive_hotspot_awa.Common.{
  ℕ, ◌+◌, ◌≡◌, refl, ap, List, [], ◌∷◌, Option, none, some, ◌==◌, if◌then◌else◌, has, without,
}
use mathlib.Core.Option.{some-injective}
use aha_adaptive_hotspot_awa.WorkQueue.{
  PriorityQueue, WorkQueue, add_work_to_queue, get_work_from_queue,
}
use aha_adaptive_hotspot_awa.WorkQueue.Once.{WorkCall, add_call, run_call, run_calls, taken_once}

unfoldable pub count_in : ℕ → List (ℕ × ℕ) → ℕ
count_in n [] = 0
count_in n (x ∷ xs) = count_in n xs + (if x.1 == n then 1 else 0)

unfoldable pub pop_list : List (ℕ × ℕ) → Option ((ℕ × ℕ) × List (ℕ × ℕ))
pop_list [] = none
pop_list (x ∷ xs) = some (x, xs)

pub empty_counted : (n : ℕ) → count_in n [] ≡ 0
unfolding count_in
empty_counted n = refl

pub push_counted :
    (n : ℕ) (x : ℕ × ℕ) (q : List (ℕ × ℕ))
    → count_in n (x ∷ q) ≡ count_in n q + (if x.1 == n then 1 else 0)
unfolding count_in
push_counted n x q = refl

pub none_counted : (n : ℕ) (q : List (ℕ × ℕ)) → pop_list q ≡ none → count_in n q ≡ 0
unfolding pop_list count_in
none_counted n [] e = refl
none_counted n (x ∷ q) e = absurd (cc)

pub pop_counted :
    (n : ℕ) (x : ℕ × ℕ) (q r : List (ℕ × ℕ))
    → pop_list q ≡ some (x, r)
    → count_in n q ≡ count_in n r + (if x.1 == n then 1 else 0)
unfolding pop_list count_in
pop_counted n x [] r e = absurd (cc)
pop_counted n x (y ∷ q) r e =
    let i : (y, q) ≡ (x, r) = some-injective _ _ e in
    ap (λ p. count_in n p.1 + (if p.0.1 == n then 1 else 0)) i

abbrev pub list_queue : PriorityQueue (List (ℕ × ℕ))
list_queue = record {
  empty_queue = [];
  push = λ x q. x ∷ q;
  try_pop = pop_list;
  count = count_in;
  count_empty = empty_counted;
  count_push = push_counted;
  count_none = none_counted;
  count_pop = pop_counted;
}

-- Two nodes, one of them added twice.
abbrev some_calls : List WorkCall
some_calls = add_call 4 1 ∷ add_call 9 2 ∷ add_call 4 2 ∷ []

abbrev four_left : WorkQueue (List (ℕ × ℕ))
four_left = record { work_priority_queue = (2, 4) ∷ []; work_set = 4 ∷ [] }

taken_once_example :
    (count_in 9 ((2, 9) ∷ (2, 4) ∷ []) ≡ 1)
    × (count_in 9 ((2, 4) ∷ []) ≡ 0)
    × (count_in 9 ((3, 9) ∷ (2, 4) ∷ []) ≡ 1)
unfolding run_calls run_call add_work_to_queue get_work_from_queue pop_list has without
taken_once_example = taken_once list_queue some_calls 9 3 four_left refl
