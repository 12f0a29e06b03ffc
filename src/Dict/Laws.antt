-- ===== src/Dict/Laws.antt =====
-- How the operations of a dictionary change its lookups and its size.
use aha_adaptive_hotspot_awa.Common.{
  ℕ, ◌+◌, List, [], ◌∷◌, true, false, none, some, ◌==◌, length, ◌≡◌, ◌≢◌, refl, arith, has,
  all_distinct, Bool-cases, ℕ_discrete, inl, inr, ◌⊎◌, sym, ap, ◌∙◌,
}
use mathlib.Core.Option.{some-injective}
use aha_adaptive_hotspot_awa.Dict.{find, put, erase, dict_keys}

module _ {ℓ} {V : Type ℓ} where
  pub find-put_self : (k : ℕ) (v : V) (d : List (ℕ × V)) → find k (put k v d) ≡ some v
  unfolding find put
  find-put_self k v [] = ground arith
  find-put_self k v (e ∷ es) = ground (arith, find-put_self k v es)

  pub find-put_other : (k q : ℕ) (v : V) (d : List (ℕ × V)) → q ≢ k → find q (put k v d) ≡ find q d
  unfolding find put
  find-put_other k q v [] ne = ground arith
  find-put_other k q v (e ∷ es) ne = ground (arith, find-put_other k q v es)

  pub find-erase_other : (k q : ℕ) (d : List (ℕ × V)) → q ≢ k → find q (erase k d) ≡ find q d
  unfolding find erase
  find-erase_other k q [] ne = refl
  find-erase_other k q (e ∷ es) ne = ground (arith, find-erase_other k q es)

  pub find_absent : (k : ℕ) (d : List (ℕ × V)) → has k (dict_keys d) ≡ false → find k d ≡ none
  unfolding find dict_keys has
  find_absent k [] h = refl
  find_absent k (e ∷ es) h = ground (arith, find_absent k es)

  pub find-none : (k : ℕ) (d : List (ℕ × V)) → find k d ≡ none → has k (dict_keys d) ≡ false
  unfolding find dict_keys has
  find-none k [] h = refl
  find-none k (e ∷ es) h = ground (arith, find-none k es)

  pub find-erase_self :
      (k : ℕ) (d : List (ℕ × V)) → all_distinct (dict_keys d) ≡ true → find k (erase k d) ≡ none
  unfolding find erase dict_keys all_distinct
  find-erase_self k [] h = refl
  find-erase_self k (e ∷ es) h = ground (arith, find-erase_self k es, find_absent k es)

  has-erase :
      (k q : ℕ) (d : List (ℕ × V))
      → has q (dict_keys d) ≡ false
      → has q (dict_keys (erase k d)) ≡ false
  unfolding erase dict_keys has
  has-erase k q [] h = refl
  has-erase k q (e ∷ es) h = ground (arith, has-erase k q es)

  pub erase-distinct :
      (k : ℕ) (d : List (ℕ × V))
      → all_distinct (dict_keys d) ≡ true
      → all_distinct (dict_keys (erase k d)) ≡ true
  unfolding erase dict_keys all_distinct
  erase-distinct k [] h = refl
  erase-distinct k (e ∷ es) h = ground (arith, erase-distinct k es, has-erase k e.0 es)

  has-put :
      (k q : ℕ) (v : V) (d : List (ℕ × V))
      → q ≢ k
      → has q (dict_keys d) ≡ false
      → has q (dict_keys (put k v d)) ≡ false
  unfolding put dict_keys has
  has-put k q v [] ne h = ground arith
  has-put k q v (e ∷ es) ne h = ground (arith, has-put k q v es)

  pub put-distinct :
      (k : ℕ) (v : V) (d : List (ℕ × V))
      → all_distinct (dict_keys d) ≡ true
      → all_distinct (dict_keys (put k v d)) ≡ true
  unfolding put dict_keys all_distinct has
  put-distinct k v [] h = refl
  put-distinct k v (e ∷ es) h = ground (arith, put-distinct k v es, has-put k e.0 v es)

  pub length-put_new :
      (k : ℕ) (v : V) (d : List (ℕ × V)) → find k d ≡ none → length (put k v d) ≡ length d + 1
  unfolding find put
  length-put_new k v [] h = omega arith
  length-put_new k v (e ∷ es) h = ground (arith, length-put_new k v es)

  pub length-put_old :
      (k : ℕ) (v w : V) (d : List (ℕ × V)) → find k d ≡ some w → length (put k v d) ≡ length d
  unfolding find put
  length-put_old k v w [] h = cc
  length-put_old k v w (e ∷ es) h = ground (arith, length-put_old k v w es)

  pub length-erase :
      (k : ℕ) (v : V) (d : List (ℕ × V)) → find k d ≡ some v → length (erase k d) + 1 ≡ length d
  unfolding find erase
  length-erase k v [] h = cc
  length-erase k v (e ∷ es) h = ground (arith, length-erase k v es)

  pub erase-put :
      (k : ℕ) (v w : V) (d : List (ℕ × V)) → find k d ≡ some w → erase k (put k v d) ≡ erase k d
  unfolding find put erase
  erase-put k v w [] h = cc
  erase-put k v w (e ∷ es) h = elim (Bool-cases (e.0 == k)) [
    | inl at ↦ ground arith
    | inr ne ↦ let rest = erase-put k v w es (rw ne at h) in ground arith
  ]

  -- What is left behind an erasure was there, under another key.
  pub find-erase_found :
      (k q : ℕ) (v : V) (d : List (ℕ × V))
      → all_distinct (dict_keys d) ≡ true
      → find q (erase k d) ≡ some v
      → (q ≢ k) × (find q d ≡ some v)
  find-erase_found k q v d u h = elim (ℕ_discrete q k) [
    | yes e ↦
        let gone = find-erase_self k d u in
        let none_found : none ≡ some v = sym gone ∙ ap (λ x. find x (erase k d)) (sym e) ∙ h in
        absurd (cc)
    | no ne ↦ (ne, sym (find-erase_other k q d ne) ∙ h)
  ]

  -- What is found behind a change of one key is the new value or was there.
  pub find-put_found :
      (k q : ℕ) (v w : V) (d : List (ℕ × V))
      → find q (put k v d) ≡ some w
      → ((q ≡ k) × (v ≡ w)) ⊎ ((q ≢ k) × (find q d ≡ some w))
  find-put_found k q v w d h = elim (ℕ_discrete q k) [
    | yes e ↦ inl (
      e,
      some-injective _ _ (sym (find-put_self k v d) ∙ ap (λ x. find x (put k v d)) (sym e) ∙ h),
    )
    | no ne ↦ inr (ne, sym (find-put_other k q v d ne) ∙ h)
  ]
