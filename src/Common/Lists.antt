-- ===== src/Common/Lists.antt =====
-- Lists measured and indexed by native numbers, under the library's names.
use Prim.Native.Nat.{ℕ, zero, suc, ◌+◌}
use mathlib.Core.Path.{◌≡◌, ap, ◌∙◌}
use mathlib.Core.Option.{Option, none, some}
use mathlib.Core.List.{List, [], ◌∷◌, ◌++◌}
use native.Mathlib.Omega.{arith}

module _ {ℓ} {A : Type ℓ} where
  abbrev pub length : List A → ℕ
  length [] = 0
  length (x ∷ xs) = suc (length xs)

  abbrev pub get_or : List A → ℕ → A → A
  get_or [] i d = d
  get_or (x ∷ xs) zero d = x
  get_or (x ∷ xs) (suc i) d = get_or xs i d

  abbrev pub take : ℕ → List A → List A
  take zero xs = []
  take (suc n) [] = []
  take (suc n) (x ∷ xs) = x ∷ take n xs

  pub length-append : (xs ys : List A) → length (xs ++ ys) ≡ length xs + length ys
  length-append [] ys = omega arith
  length-append (x ∷ xs) ys = omega (arith, length-append xs ys)

  abbrev pub get_elem? : List A → ℕ → Option A
  get_elem? [] i = none
  get_elem? (x ∷ xs) zero = some x
  get_elem? (x ∷ xs) (suc i) = get_elem? xs i

  abbrev pub drop : ℕ → List A → List A
  drop zero xs = xs
  drop (suc i) [] = []
  drop (suc i) (x ∷ xs) = drop i xs

  -- A place in a list, with what follows it.
  pub get_elem?-drop :
      (i : ℕ) (xs rest : List A) (x : A) → drop i xs ≡ x ∷ rest → get_elem? xs i ≡ some x
  get_elem?-drop zero [] rest x e = cc
  get_elem?-drop zero (y ∷ xs) rest x e = cc
  get_elem?-drop (suc i) [] rest x e = cc
  get_elem?-drop (suc i) (y ∷ xs) rest x e = get_elem?-drop i xs rest x e

  pub drop_next : (i : ℕ) (xs rest : List A) (x : A) → drop i xs ≡ x ∷ rest → drop (i + 1) xs ≡ rest
  drop_next zero [] rest x e = cc
  drop_next zero (y ∷ xs) rest x e = cc
  drop_next (suc i) [] rest x e = cc
  drop_next (suc i) (y ∷ xs) rest x e =
      let shift : suc i + 1 ≡ suc (i + 1) = omega arith in
      ap (λ j. drop j (y ∷ xs)) shift ∙ drop_next i xs rest x e

  pub length-drop :
      (i : ℕ) (xs rest : List A) (x : A) → drop i xs ≡ x ∷ rest → length xs ≡ i + 1 + length rest
  length-drop zero [] rest x e = cc
  length-drop zero (y ∷ xs) rest x e = omega (arith, ap length e)
  length-drop (suc i) [] rest x e = cc
  length-drop (suc i) (y ∷ xs) rest x e = omega (arith, length-drop i xs rest x e)
