-- ===== src/TreePage/Search/Loop.antt =====
-- The search loop over a comparison that falls along the offsets: how it ends.
use aha_adaptive_hotspot_awa.Common.{
  ℕ, zero, suc, ◌+◌, ◌-◌, ◌/◌, ◌≤◌, ◌<◌, ◌≡◌, refl, ◌⊎◌, inl, inr, Option, none, some, Ordering,
  arith, ltb, Bool-cases, ap, ◌∙◌, dec_lt,
}
use aha_adaptive_hotspot_awa.TreePage.Search.{Found, hit, meet, search_loop}

pub Ordering-cases : (o : Ordering) → (o ≡ Ordering.lt) ⊎ (o ≡ Ordering.eq) ⊎ (o ≡ Ordering.gt)
Ordering-cases Ordering.lt = inl refl
Ordering-cases Ordering.eq = inr (inl refl)
Ordering-cases Ordering.gt = inr (inr refl)

-- The key against the pivots of a page in order: `gt`, then `eq` at most once, then `lt`.
pub record Falls (c : ℕ → Ordering) (n : ℕ) : Type 0 where
  pub below : (i j : ℕ) → i < j → j < n → c j ≡ Ordering.gt → c i ≡ Ordering.gt
  pub above : (i j : ℕ) → i < j → j < n → c i ≡ Ordering.lt → c j ≡ Ordering.lt
  pub below_eq : (i j : ℕ) → i < j → j < n → c j ≡ Ordering.eq → c i ≡ Ordering.gt
  pub above_eq : (i j : ℕ) → i < j → j < n → c i ≡ Ordering.eq → c j ≡ Ordering.lt

-- The loop ends at an equal pivot, or where all pivots before are smaller and all behind greater.
abbrev pub Ends : (ℕ → Ordering) → ℕ → Option Found → Type 0
Ends c n none = ⊥
Ends c n (some (hit m)) = (m < n) × (c m ≡ Ordering.eq)
Ends c n (some (meet l)) =
    (l < n) × ((i : ℕ) → i < l → c i ≡ Ordering.gt) × ((i : ℕ) → l < i → i < n → c i ≡ Ordering.lt)

module _ (cmp : ℕ → Option Ordering) (c : ℕ → Ordering) (n : ℕ)
    (agree : (i : ℕ) → i < n → cmp i ≡ some (c i)) (falls : Falls c n) where
  up : (mid : ℕ) → mid < n → c mid ≡ Ordering.gt → (i : ℕ) → i < mid + 1 → c i ≡ Ordering.gt
  up mid lt e i h = elim (dec_lt i mid) [
    | yes small ↦ falls.below i mid small lt e
    | no other ↦ ap c (omega arith) ∙ e
  ]

  pub search_loop-Ends :
      (fuel low high : ℕ)
      → high ≤ low + fuel
      → low ≤ high
      → high < n
      → ((i : ℕ) → i < low → c i ≡ Ordering.gt)
      → ((i : ℕ) → high < i → i < n → c i ≡ Ordering.lt)
      → Ends c n (search_loop cmp fuel low high)
  unfolding search_loop
  search_loop-Ends zero low high f le lt before behind =
      (omega arith, before, λ i a b. behind i (omega arith) b)
  search_loop-Ends (suc fuel) low high f le lt before behind = elim (Bool-cases (ltb low high)) [
    | inr done ↦ rw (done, search_loop) (omega arith, before, λ i a b. behind i (ground arith) b)
    | inl more ↦
        let mid = low + (high - low) / 2 in
        let small : mid < high = ground arith in
        let seen = agree mid (omega arith) in
        elim (Ordering-cases (c mid)) [
          | inl e ↦
              rw (more, seen, e, search_loop)
                (search_loop-Ends fuel low mid (omega arith) (omega arith) (omega arith) before
                  λ i a b. falls.above mid i a b e)
          | inr (inl e) ↦ rw (more, seen, e, search_loop) (omega arith, e)
          | inr (inr e) ↦
              rw (more, seen, e, search_loop)
                (search_loop-Ends fuel (mid + 1) high (omega arith) (omega arith) lt
                  (up mid (omega arith) e) behind)
        ]
  ]
