-- ===== src/PageWriter/Split/Even.antt =====
-- src/wot_page_split_policy.h, `EvenSplitPolicy`: its plan of pages and the calls behind it.
use aha_adaptive_hotspot_awa.Common.{
  ℕ, zero, suc, ◌+◌, ◌-◌, ◌*◌, ◌/◌, ◌%◌, ◌<◌, ◌≤◌, ◌≡◌, refl, ap, sym, ◌∙◌, true, false, ltb, leb,
  ◌==◌, if◌then◌else◌, some, arith, dec_lt, subst,
}
use native.Mathlib.Nat.{lt_of_mul-lt-mul_left, mul_comm, mod-add-div, mod-lt}
use aha_adaptive_hotspot_awa.PageWriter.Split.{EvenSplit, even_init, even_next, round_up}

above_exact : (n d q r : ℕ) → r + d * q ≡ n → r < d → 0 < r → (d * q < n) × (n ≤ d * (q + 1))
above_exact n d q r e small some_r = (grind arith, grind arith)

exact :
    (n d q r : ℕ)
    → r + d * q ≡ n
    → ¬ (0 < r)
    → 0 < n
    → (k : ℕ) × (q ≡ k + 1) × (d * k < n) × (n ≤ d * (k + 1))
exact n zero q r e no_r some_n = absurd (omega arith)
exact n (suc d) zero r e no_r some_n = absurd (grind arith)
exact n (suc d) (suc q) r e no_r some_n = (q, omega arith, grind arith, grind arith)

-- The rounded quotient `c` is the least with `n ≤ d * c`.
round_up_bounds :
    (n d : ℕ) → 0 < n → 0 < d → (k : ℕ) × (round_up n d ≡ k + 1) × (d * k < n) × (n ≤ d * (k + 1))
unfolding round_up
round_up_bounds n d some_n some_d = elim (dec_lt 0 (n % d)) [
  | yes h ↦
      let (lo, hi) = above_exact n d (n / d) (n % d) (mod-add-div n d) (mod-lt n some_d) h in
      (n / d, ground arith, lo, hi)
  | no h ↦
      let (k, e, lo, hi) = exact n d (n / d) (n % d) (mod-add-div n d) h some_n in
      (k, ground arith, lo, hi)
]

-- `most` pages with one entry more than the others.
shares : (most r k : ℕ) → most * (k + 1) + r * k ≡ most + (most + r) * k
shares most r k = grind arith

own : (n : ℕ) → (n == n) ≡ true
own n = ground arith

shares_total :
    (n t k : ℕ)
    → t * k < n
    → n ≤ t * (k + 1)
    → (n - t * k ≤ t) × ((n - t * k) * (k + 1) + (t - (n - t * k)) * k ≡ n)
shares_total n t k lo hi =
    let room : n ≤ t * k + t = grind arith in
    let most = n - t * k in
    let whole : most + (t - most) ≡ t = omega arith in
    (omega arith, shares most (t - most) k ∙ ap (λ x. most + x * k) whole ∙ omega arith)

below_capacity : (n t k cap : ℕ) → t * k < n → n ≤ cap * t → k + 1 ≤ cap
below_capacity n t k cap lo hi =
    let less : t * k < t * cap = subst (λ x. t * k < x) (mul_comm cap t) (omega arith) in
    omega (arith, lt_of_mul-lt-mul_left t less)

even_init_at :
    (cap n t k : ℕ)
    → 0 < cap
    → round_up n cap ≡ t + 1
    → round_up n (t + 1) ≡ k + 1
    → k + 1 ≤ cap
    → (n - (t + 1) * k) * (k + 1) + (t + 1 - (n - (t + 1) * k)) * k ≡ n
    → even_init cap n
      ≡ some
          (record { cur_page_num = 0; cur_page_cap = k + 1; page_num_max_entry = n - (t + 1) * k })
unfolding even_init
even_init_at cap n t k some_cap total most fits sum =
    let back : k + 1 - 1 ≡ k = omega arith in
    let nonzero : (cap == 0) ≡ false = ground arith in
    let some_page : (t + 1 == 0) ≡ false = ground arith in
    let passes : leb (k + 1) cap ≡ true = ground arith in
    rw (total, most, back, nonzero, some_page, passes, sum, own n) refl

-- For a capacity and a count above 0 `Init` passes its assertions. It plans as many pages as the
-- count needs at that capacity, none with more entries than it, which hold all entries, the first
-- ones one entry more than the others.
pub even_init_plan :
    (cap n : ℕ)
    → 0 < cap
    → 0 < n
    → (s : EvenSplit) × (lesser : ℕ) × (even_init cap n ≡ some s)
      × (s.cur_page_num ≡ 0)
      × (0 < s.page_num_max_entry)
      × (s.cur_page_cap ≤ cap)
      × (s.page_num_max_entry + lesser ≡ round_up n cap)
      × (s.page_num_max_entry * s.cur_page_cap + lesser * (s.cur_page_cap - 1) ≡ n)
even_init_plan cap n some_cap some_n =
    let (t, total, lo, hi) = round_up_bounds n cap some_n some_cap in
    let (k, most, lo', hi') = round_up_bounds n (t + 1) some_n (omega arith) in
    let (few, sum) = shares_total n (t + 1) k lo' hi' in
    let fits = below_capacity n (t + 1) k cap lo' hi in
    let s : EvenSplit = record {
      cur_page_num = 0;
      cur_page_cap = k + 1;
      page_num_max_entry = n - (t + 1) * k;
    } in
    (
      s,
      t + 1 - (n - (t + 1) * k),
      even_init_at cap n t k some_cap total most fits sum,
      refl,
      omega arith,
      fits,
      omega arith,
      ap (λ x. (n - (t + 1) * k) * (k + 1) + (t + 1 - (n - (t + 1) * k)) * x) (omega arith) ∙ sum,
    )

-- The state behind a number of full pages, and the entries on them.
unfoldable pub after : ℕ → EvenSplit → EvenSplit
after zero s = s
after (suc j) s = even_next (after j s)

unfoldable pub planned : ℕ → EvenSplit → ℕ
planned zero s = 0
planned (suc j) s = planned j s + (after j s).cur_page_cap

after_lem :
    (s : EvenSplit)
    → s.cur_page_num ≡ 0
    → 0 < s.page_num_max_entry
    → (j : ℕ)
    → ((after j s).cur_page_num ≡ j)
      × ((after j s).page_num_max_entry ≡ s.page_num_max_entry)
      × ((after j s).cur_page_cap
          ≡ (if ltb j s.page_num_max_entry then s.cur_page_cap else s.cur_page_cap - 1))
unfolding after even_next
after_lem s start some_most zero = (start, refl, ground arith)
after_lem s start some_most (suc j) =
    let (num, most, cap) = after_lem s start some_most j in (omega arith, most, ground arith)

planned_first :
    (s : EvenSplit)
    → s.cur_page_num ≡ 0
    → 0 < s.page_num_max_entry
    → (j : ℕ) → j ≤ s.page_num_max_entry
    → planned j s ≡ j * s.cur_page_cap
unfolding planned
planned_first s start some_most zero h = omega arith
planned_first s start some_most (suc j) h =
    let (_, _, cap) = after_lem s start some_most j in
    let before = planned_first s start some_most j (omega arith) in
    let full : (after j s).cur_page_cap ≡ s.cur_page_cap = ground arith in
    rw (before, full) (grind arith)

planned-suc : (s : EvenSplit) (j : ℕ) → planned (suc j) s ≡ planned j s + (after j s).cur_page_cap
unfolding planned
planned-suc s j = refl

planned_rest :
    (s : EvenSplit)
    → s.cur_page_num ≡ 0
    → 0 < s.page_num_max_entry
    → (r : ℕ)
    → planned (s.page_num_max_entry + r) s
      ≡ s.page_num_max_entry * s.cur_page_cap + r * (s.cur_page_cap - 1)
planned_rest s start some_most zero =
    ap (λ j. planned j s) (omega arith)
    ∙ planned_first s start some_most s.page_num_max_entry (omega arith)
    ∙ omega arith
planned_rest s start some_most (suc r) =
    let before = planned_rest s start some_most r in
    let (_, _, cap) = after_lem s start some_most (s.page_num_max_entry + r) in
    let less : (after (s.page_num_max_entry + r) s).cur_page_cap ≡ s.cur_page_cap - 1 =
      ground arith in
    ap (λ j. planned j s) (omega arith)
    ∙ planned-suc s (s.page_num_max_entry + r)
    ∙ rw (before, less) (grind arith)

-- For a capacity and a count above 0 the pages that the policy fills in turn, as many as the count
-- needs at that capacity, hold just the count, and none has more entries than the capacity.
pub even_pages_hold :
    (cap n : ℕ)
    → 0 < cap
    → 0 < n
    → (s : EvenSplit) × (even_init cap n ≡ some s)
      × (planned (round_up n cap) s ≡ n)
      × ((j : ℕ) → (after j s).cur_page_cap ≤ cap)
even_pages_hold cap n some_cap some_n =
    let (s, lesser, made, start, some_most, fits, total, sum) =
      even_init_plan cap n some_cap some_n in
    (
      s,
      made,
      ap (λ j. planned j s) (sym total) ∙ planned_rest s start some_most lesser ∙ sum,
      λ j. let (_, _, each) = after_lem s start some_most j in ground arith,
    )
