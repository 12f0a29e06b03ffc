-- ===== src/Dict.antt =====
-- A dictionary with numbers for keys, for the source's `std::map`: the list of its entries, each key
-- once.
pub mod Laws
use aha_adaptive_hotspot_awa.Common.{
  ℕ, List, [], ◌∷◌, Bool, true, false, Option, none, some, ◌==◌, if◌then◌else◌, length,
}

module _ {ℓ} {V : Type ℓ} where
  unfoldable pub find : ℕ → List (ℕ × V) → Option V
  find k [] = none
  find k (e ∷ es) = let rest = find k es in if e.0 == k then some e.1 else rest

  -- `table[k] = v`
  unfoldable pub put : ℕ → V → List (ℕ × V) → List (ℕ × V)
  put k v [] = (k, v) ∷ []
  put k v (e ∷ es) = let rest = put k v es in if e.0 == k then (k, v) ∷ es else e ∷ rest

  unfoldable pub erase : ℕ → List (ℕ × V) → List (ℕ × V)
  erase k [] = []
  erase k (e ∷ es) = let rest = erase k es in if e.0 == k then es else e ∷ rest

  unfoldable pub dict_keys : List (ℕ × V) → List ℕ
  dict_keys [] = []
  dict_keys (e ∷ es) = e.0 ∷ dict_keys es
