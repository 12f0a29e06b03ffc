-- ===== src/Common/Members.antt =====
-- Membership in lists of numbers, as a test.
use Prim.Native.Nat.{ℕ, ◌≤◌}
use mathlib.Core.Path.{◌≡◌, refl}
use mathlib.Core.Bool.{Bool, true, false, ◌&&◌, ◌||◌, not}
use mathlib.Core.List.{List, [], ◌∷◌, ◌++◌}
use native.Mathlib.Omega.{arith}
use aha_adaptive_hotspot_awa.Common.Lists.{length}
use aha_adaptive_hotspot_awa.Common.Tests.{◌==◌, if◌then◌else◌}

unfoldable pub has : ℕ → List ℕ → Bool
has i [] = false
has i (x ∷ xs) = x == i || has i xs

unfoldable pub without : ℕ → List ℕ → List ℕ
without i [] = []
without i (x ∷ xs) = let rest = without i xs in if x == i then rest else x ∷ rest

unfoldable pub all_distinct : List ℕ → Bool
all_distinct [] = true
all_distinct (x ∷ xs) = not (has x xs) && all_distinct xs

pub has-append : (i : ℕ) (xs ys : List ℕ) → has i (xs ++ ys) ≡ (has i xs || has i ys)
unfolding has
has-append i [] ys = refl
has-append i (x ∷ xs) ys = ground (arith, has-append i xs ys)

pub has-last : (i j : ℕ) (xs : List ℕ) → has i (xs ++ j ∷ []) ≡ (has i xs || j == i)
unfolding has
has-last i j [] = ground arith
has-last i j (x ∷ xs) = ground (arith, has-last i j xs)

pub has-without : (i j : ℕ) (xs : List ℕ) → has i (without j xs) ≡ (has i xs && not (j == i))
unfolding has without
has-without i j [] = refl
has-without i j (x ∷ xs) = ground (arith, has-without i j xs)

pub all_distinct-last :
    (i : ℕ) (xs : List ℕ)
    → all_distinct xs ≡ true
    → has i xs ≡ false
    → all_distinct (xs ++ i ∷ []) ≡ true
unfolding all_distinct has
all_distinct-last i [] h k = refl
all_distinct-last i (x ∷ xs) h k = ground (arith, has-last x i xs, all_distinct-last i xs)

pub length-without : (i : ℕ) (xs : List ℕ) → length (without i xs) ≤ length xs
unfolding without
length-without i [] = omega arith
length-without i (x ∷ xs) = ground (arith, length-without i xs)

-- The head goes, and the others with its value.
pub length-without_head : (x : ℕ) (xs : List ℕ) → length (without x (x ∷ xs)) ≤ length xs
unfolding without
length-without_head x xs = ground (arith, length-without x xs)
